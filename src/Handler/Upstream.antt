-- ===== src/Handler/Upstream.antt =====
-- `resolve_upstream` on a route whose references are configured.
use rapid_gate.Base.{
  ℕ, ◌<◌, ◌^◌, none, some, List, [], ◌∷◌, ◌++◌, All, find, Text, text_eq, text_eq_iff, ◌≡◌, refl,
  sym, ap, subst, ◌∙◌, inl, inr, arith, Bool-cases, Bool-clash,
}
use rapid_gate.Config.{CanaryTarget, CanaryConfig, UpstreamRef, RouteConfig, UpstreamConfig}
use rapid_gate.Error.{ok}
use rapid_gate.Routing.Order.{In}
use rapid_gate.Canary.{sum_weights, select_canary_target}
use rapid_gate.Canary.Policy.{Draw}
use rapid_gate.Canary.Weights.{weight_of, sum_weights-weight_of, select_canary_target-total}
use rapid_gate.Handler.{canary_id, target_id, find_upstream, resolve_upstream}

-- some upstream of the configuration has the id
abbrev pub IsConfigured : List UpstreamConfig → Text → Type 0
IsConfigured configs id = (u : UpstreamConfig) × In u configs × (u.id ≡ id)

-- the canary can be drawn from, and its targets are configured
pub record IsServed (configs : List UpstreamConfig) (canary : CanaryConfig) : Type 0 where
  pub positive : 0 < weight_of canary.targets
  pub bounded : weight_of canary.targets < 2 ^ 32
  pub configured : All (λ t. IsConfigured configs t.upstream_id) canary.targets

In-middle : {A : Type 0} (xs : List A) (x : A) (ys : List A) → In x (xs ++ (x ∷ ys))
In-middle [] x ys = inl refl
In-middle (z ∷ zs) x ys = inr (In-middle zs x ys)

All-In : {A : Type 0} (P : A → Type 0) (x : A) (xs : List A) → All P xs → In x xs → P x
All-In P x [] h i = elim i [ ]
All-In P x (y ∷ ys) (p, ps) (inl e) = subst P (sym e) p
All-In P x (y ∷ ys) (p, ps) (inr i) = All-In P x ys ps i

-- the first configured upstream of that id
find-configured :
    (id : Text) (configs : List UpstreamConfig)
    → IsConfigured configs id
    → (u : UpstreamConfig) × (find (λ v. text_eq v.id id) configs ≡ some u)
      × In u configs
      × (u.id ≡ id)
find-configured id [] (u, i, e) = elim i [ ]
find-configured id (v ∷ vs) (u, i, e) = elim (Bool-cases (text_eq v.id id)) [
  | inl y ↦ (v, rw y refl, inl refl, (text_eq_iff v.id id).0 y)
  | inr n ↦ elim i [
    | inl same ↦ absurd (
        Bool-clash (text_eq v.id id) ((text_eq_iff v.id id).1 (ap UpstreamConfig.id (sym same) ∙ e))
          n)
    | inr later ↦ let (w, f, j, e') = find-configured id vs (u, later, e) in (w, rw n f, inr j, e')
  ]
]

find_upstream-configured :
    (configs : List UpstreamConfig) (route : RouteConfig) (id : Text)
    → IsConfigured configs id
    → (u : UpstreamConfig) × (find_upstream configs route id ≡ ok u) × In u configs × (u.id ≡ id)
unfolding find_upstream
find_upstream-configured configs route id c =
    let (u, f, i, e) = find-configured id configs c in (u, rw (f, find_upstream) refl, i, e)

canary_id-picked :
    (draw : Draw) (route : RouteConfig) (canary : CanaryConfig) (n : ℕ) (t : CanaryTarget)
    → sum_weights 0 canary.targets ≡ n
    → 0 < n
    → select_canary_target canary.targets (draw n) ≡ ok t
    → canary_id draw route canary ≡ ok t.upstream_id
unfolding canary_id
canary_id-picked draw route canary n t e pos picked = rw e (rw picked (ground arith))

canary_id-total :
    (draw : Draw) (route : RouteConfig) (canary : CanaryConfig)
    → ((k : ℕ) → 0 < k → draw k < k)
    → 0 < weight_of canary.targets
    → weight_of canary.targets < 2 ^ 32
    → (t : CanaryTarget) × In t canary.targets
      × (0 < t.weight)
      × (canary_id draw route canary ≡ ok t.upstream_id)
canary_id-total draw route canary rng pos bound =
    let n = weight_of canary.targets in
    let total = sum_weights-weight_of canary.targets 0 (omega arith) in
    let (c, heavy, picked) = select_canary_target-total canary.targets (draw n) bound (rng n pos) in
    (
      c.target,
      subst (λ ts. In c.target ts) (sym c.split) (In-middle c.before c.target c.after),
      heavy,
      canary_id-picked draw route canary n c.target (total ∙ omega arith) pos picked,
    )

target_id-canary :
    (draw : Draw) (route : RouteConfig) (canary : CanaryConfig)
    → route.canary ≡ some canary
    → target_id draw route ≡ canary_id draw route canary
unfolding target_id
target_id-canary draw route canary e = cc

target_id-direct :
    (draw : Draw) (route : RouteConfig) (up : UpstreamRef)
    → route.canary ≡ none
    → route.upstream ≡ some up
    → target_id draw route ≡ ok up.id
unfolding target_id
target_id-direct draw route up e f = cc

resolve_upstream-target :
    (configs : List UpstreamConfig) (draw : Draw) (route : RouteConfig) (id : Text)
    → target_id draw route ≡ ok id
    → resolve_upstream configs draw route ≡ find_upstream configs route id
unfolding resolve_upstream
resolve_upstream-target configs draw route id e = rw e refl

-- Where a draw lies below its bound, a route with a canary, whose weights have a positive sum below
-- 2^32 and whose targets are all configured, resolves to a configured upstream, and that is the one
-- of a target of positive weight.
pub resolve_upstream-canary :
    (configs : List UpstreamConfig) (draw : Draw) (route : RouteConfig) (canary : CanaryConfig)
    → ((k : ℕ) → 0 < k → draw k < k)
    → route.canary ≡ some canary
    → IsServed configs canary
    → (u : UpstreamConfig) × (resolve_upstream configs draw route ≡ ok u)
      × In u configs
      × ((t : CanaryTarget) × In t canary.targets × (0 < t.weight) × (t.upstream_id ≡ u.id))
resolve_upstream-canary configs draw route canary rng e s =
    let (t, i, heavy, res) = canary_id-total draw route canary rng s.positive s.bounded in
    let id = target_id-canary draw route canary e ∙ res in
    let c = All-In (λ v. IsConfigured configs v.upstream_id) t canary.targets s.configured i in
    let (u, found_u, j, same) = find_upstream-configured configs route t.upstream_id c in
    (
      u,
      resolve_upstream-target configs draw route t.upstream_id id ∙ found_u,
      j,
      (t, i, heavy, sym same),
    )

-- Without a canary, a route resolves to the configured upstream that it names, whatever is drawn.
pub resolve_upstream-direct :
    (configs : List UpstreamConfig) (draw : Draw) (route : RouteConfig) (up : UpstreamRef)
    → route.canary ≡ none
    → route.upstream ≡ some up
    → IsConfigured configs up.id
    → (u : UpstreamConfig) × (resolve_upstream configs draw route ≡ ok u)
      × In u configs
      × (u.id ≡ up.id)
resolve_upstream-direct configs draw route up e f c =
    let (u, found_u, j, same) = find_upstream-configured configs route up.id c in
    (
      u,
      resolve_upstream-target configs draw route up.id (target_id-direct draw route up e f)
          ∙ found_u,
      j,
      same,
    )
