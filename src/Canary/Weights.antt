-- ===== src/Canary/Weights.antt =====
-- The intervals of rolls that `select_canary_target` gives to the targets.
use rapid_gate.Base.{
  ℕ, ◌+◌, ◌-◌, ◌%◌, ◌^◌, ◌<◌, ◌≤◌, ltb, ltb→lt, ltb-false, List, [], ◌∷◌, ◌++◌, ◌≡◌, refl, sym, ap,
  subst, ◌∙◌, arith, Bool-cases, inl, inr,
}
use rapid_gate.Config.{CanaryTarget}
use rapid_gate.Error.{ok}
use rapid_gate.Canary.{sum_weights, add_weight, pick_from, select_canary_target}

-- the sum of the weights, without a bound
abbrev pub weight_of : List CanaryTarget → ℕ
weight_of [] = 0
weight_of (t ∷ ts) = t.weight + weight_of ts

weight_of-append : (xs ys : List CanaryTarget) → weight_of (xs ++ ys) ≡ weight_of xs + weight_of ys
weight_of-append [] ys = omega arith
weight_of-append (x ∷ xs) ys = omega (arith, weight_of-append xs ys)

pub sum_weights-weight_of :
    (ts : List CanaryTarget) (n : ℕ)
    → n + weight_of ts < 2 ^ 32
    → sum_weights n ts ≡ n + weight_of ts
unfolding sum_weights
sum_weights-weight_of [] n h = omega arith
sum_weights-weight_of (t ∷ ts) n h =
    sum_weights-weight_of ts ((n + t.weight) % 2 ^ 32) (omega arith) ∙ omega arith

add_weight_lem : (n : ℕ) (t : CanaryTarget) → n + t.weight < 2 ^ 32 → add_weight n t ≡ n + t.weight
unfolding add_weight
add_weight_lem n t h = ground arith

-- a target whose interval does not reach the roll
pick_from-skip :
    (n : ℕ) (t : CanaryTarget) (ts : List CanaryTarget) (roll : ℕ)
    → n + t.weight < 2 ^ 32
    → n + t.weight ≤ roll
    → pick_from n (t ∷ ts) roll ≡ pick_from (n + t.weight) ts roll
unfolding pick_from
pick_from-skip n t ts roll w h = rw (add_weight_lem n t w) (ground arith)

pick_from-hit :
    (n : ℕ) (t : CanaryTarget) (ts : List CanaryTarget) (roll : ℕ)
    → n + t.weight < 2 ^ 32
    → n ≤ roll
    → roll < n + t.weight
    → pick_from n (t ∷ ts) roll ≡ ok t
unfolding pick_from
pick_from-hit n t ts roll w lo hi = rw (add_weight_lem n t w) (ground arith)

pick_from-interval :
    (xs : List CanaryTarget) (t : CanaryTarget) (ys : List CanaryTarget) (n roll : ℕ)
    → n + weight_of (xs ++ (t ∷ ys)) < 2 ^ 32
    → n + weight_of xs ≤ roll
    → roll < n + weight_of xs + t.weight
    → pick_from n (xs ++ (t ∷ ys)) roll ≡ ok t
pick_from-interval [] t ys n roll h lo hi =
    pick_from-hit n t ys roll (omega arith) (omega arith) (omega arith)
pick_from-interval (x ∷ xs) t ys n roll h lo hi =
    pick_from-skip n x (xs ++ (t ∷ ys)) roll (omega arith) (omega arith)
    ∙ pick_from-interval xs t ys (n + x.weight) roll (omega arith) (omega arith) (omega arith)

-- Where the weights do not overflow a u32, a roll picks a target exactly by the interval that
-- starts at the sum of the weights before it and is as long as its own weight.
pub select_canary_target-interval :
    (xs : List CanaryTarget) (t : CanaryTarget) (ys : List CanaryTarget) (roll : ℕ)
    → weight_of (xs ++ (t ∷ ys)) < 2 ^ 32
    → weight_of xs ≤ roll
    → roll < weight_of xs + t.weight
    → select_canary_target (xs ++ (t ∷ ys)) roll ≡ ok t
unfolding select_canary_target
select_canary_target-interval xs t ys roll h lo hi =
    let total = sum_weights-weight_of (xs ++ (t ∷ ys)) 0 (omega arith) in
    let parts = weight_of-append xs (t ∷ ys) in
    rw total (
      rw (pick_from-interval xs t ys 0 roll (omega arith) (omega arith) (omega arith))
        (ground arith))

-- the target whose interval holds the roll, with those before and after it
pub record Chosen (targets : List CanaryTarget) (roll : ℕ) : Type 0 where
  pub before : List CanaryTarget
  pub target : CanaryTarget
  pub after : List CanaryTarget
  pub split : targets ≡ before ++ (target ∷ after)
  pub low : weight_of before ≤ roll
  pub high : roll < weight_of before + target.weight

choose : (ts : List CanaryTarget) (roll : ℕ) → roll < weight_of ts → Chosen ts roll
choose [] roll h = absurd (omega arith)
choose (t ∷ ts) roll h = elim (Bool-cases (ltb roll t.weight)) [
  | inl e ↦ record {
    before = [];
    target = t;
    after = ts;
    split = refl;
    low = omega arith;
    high = omega (arith, ltb→lt roll t.weight e);
  }
  | inr e ↦
      let above = ltb-false roll t.weight e in
      let c = choose ts (roll - t.weight) (omega arith) in
      record {
        before = t ∷ c.before;
        target = c.target;
        after = c.after;
        split = ap (λ xs. t ∷ xs) c.split;
        low = omega (arith, c.low);
        high = omega (arith, c.high);
      }
]

-- Where the weights do not overflow a u32, every roll below their sum picks a target of the list,
-- the one whose interval holds it, which therefore has a positive weight.
pub select_canary_target-total :
    (targets : List CanaryTarget) (roll : ℕ)
    → weight_of targets < 2 ^ 32
    → roll < weight_of targets
    → (c : Chosen targets roll) × (0 < c.target.weight)
      × (select_canary_target targets roll ≡ ok c.target)
select_canary_target-total targets roll w h =
    let c = choose targets roll h in
    (
      c,
      omega (arith, c.low, c.high),
      subst (λ ts. select_canary_target ts roll ≡ ok c.target) (sym c.split)
          (select_canary_target-interval c.before c.target c.after roll
            (subst (λ ts. weight_of ts < 2 ^ 32) c.split w) c.low c.high),
    )
