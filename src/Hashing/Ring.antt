-- ===== src/Hashing/Ring.antt =====
-- What the ring answers with: one of its buckets, as soon as it has a node.
use rapid_gate.Base.{
  ℕ, zero, suc, ◌==◌, leb, ltb, Bool, true, false, some, List, [], ◌∷◌, Text, ◌≡◌, ◌≢◌, refl, subst,
  inl, inr, All, Bool-cases, Option-cases, if◌then◌else◌,
}
use rapid_gate.Routing.Order.{In}
use rapid_gate.Hashing.{
  insert, at_least, first_value, lookup, add_nodes, add_buckets, with_virtual_nodes, get, hash_key,
}

-- elements of a list that all lie in another
All-In-mono : {T : Type 0} (xs ys : List T) → ((v : T) → In v xs → In v ys) → All (λ v. In v ys) xs
All-In-mono [] ys f = tt
All-In-mono (x ∷ xs) ys f = (f x (inl refl), All-In-mono xs ys (λ v i. f v (inr i)))

module _ {T : Type 0} (P : T → Type 0) where
  -- every value of the ring satisfies the predicate
  abbrev pub Values : List (ℕ × T) → Type 0
  Values [] = Unit
  Values ((k, v) ∷ ring) = P v × Values ring

  Values-insert :
      (k : ℕ) (v : T) (ring : List (ℕ × T)) → P v → Values ring → Values (insert k v ring)
  unfolding insert
  Values-insert k v [] p h = (p, tt)
  Values-insert k v ((k0, v0) ∷ ring) p (q, h) = elim (Bool-cases (ltb k k0)) [
    | inl lt ↦ rw lt (p, (q, h))
    | inr ge ↦ elim (Bool-cases (k == k0)) [
      | inl same ↦ rw (ge, same) (p, h)
      | inr other ↦ rw (ge, other) (q, Values-insert k v ring p h)
    ]
  ]

  at_least-Values :
      (h : ℕ) (ring : List (ℕ × T)) (v : T) → Values ring → at_least h ring ≡ some v → P v
  unfolding at_least
  at_least-Values h [] v q e = cc
  at_least-Values h ((k, w) ∷ ring) v (p, q) e = go (leb h k) (λ f. at_least-Values h ring v q f) e
    where
      go :
          (b : Bool)
          → (at_least h ring ≡ some v → P v)
          → (if b then some w else at_least h ring) ≡ some v
          → P v
      go true later same = let w≡v : w ≡ v = cc in subst P w≡v p
      go false later f = later f

  Values-nodes :
      (hash_node : T → ℕ → ℕ) (b : T) (i n : ℕ) (ring : List (ℕ × T))
      → P b
      → Values ring
      → Values (add_nodes hash_node b i n ring)
  unfolding add_nodes
  Values-nodes hash_node b i zero ring p q = q
  Values-nodes hash_node b i (suc n) ring p q =
      Values-nodes hash_node b (suc i) n (insert (hash_node b i) b ring) p
        (Values-insert (hash_node b i) b ring p q)

  Values-buckets :
      (hash_node : T → ℕ → ℕ) (n : ℕ) (bs : List T) (ring : List (ℕ × T))
      → All P bs
      → Values ring
      → Values (add_buckets hash_node n bs ring)
  unfolding add_buckets
  Values-buckets hash_node n [] ring a q = q
  Values-buckets hash_node n (b ∷ bs) ring (p, a) q =
      Values-buckets hash_node n bs (add_nodes hash_node b 0 n ring) a
        (Values-nodes hash_node b 0 n ring p q)

  -- A lookup in a ring that is not empty gives one of its values.
  lookup-total :
      (h : ℕ) (ring : List (ℕ × T))
      → Values ring
      → ring ≢ []
      → (v : T) × (lookup h ring ≡ some v) × P v
  unfolding lookup first_value
  lookup-total h [] q d = absurd (d refl)
  lookup-total h ((k, w) ∷ ring) q d = elim (Option-cases (at_least h ((k, w) ∷ ring))) [
    | inl e ↦ (w, rw (e, lookup, first_value) refl, q.0)
    | inr (v, e) ↦ (v, rw (e, lookup) refl, at_least-Values h ((k, w) ∷ ring) v q e)
  ]

module _ {T : Type 0} where
  insert-filled : (k : ℕ) (v : T) (ring : List (ℕ × T)) → insert k v ring ≢ []
  unfolding insert
  insert-filled k v [] e = cc
  insert-filled k v ((k0, v0) ∷ ring) e = go (ltb k k0) (k == k0) e
    where
      go :
          (a b : Bool)
          → (if a
              then (k, v) ∷ (k0, v0) ∷ ring
              else if b
              then (k, v) ∷ ring
              else (k0, v0) ∷ insert k v ring)
            ≡ []
          → ⊥
      go true b h = cc
      go false true h = cc
      go false false h = cc

  module _ (hash_node : T → ℕ → ℕ) where
    nodes-filled :
        (b : T) (i n : ℕ) (ring : List (ℕ × T)) → ring ≢ [] → add_nodes hash_node b i n ring ≢ []
    unfolding add_nodes
    nodes-filled b i zero ring d = d
    nodes-filled b i (suc n) ring d =
        nodes-filled b (suc i) n (insert (hash_node b i) b ring)
          (insert-filled (hash_node b i) b ring)

    buckets-filled :
        (n : ℕ) (bs : List T) (ring : List (ℕ × T))
        → ring ≢ []
        → add_buckets hash_node n bs ring ≢ []
    unfolding add_buckets
    buckets-filled n [] ring d = d
    buckets-filled n (b ∷ bs) ring d =
        buckets-filled n bs (add_nodes hash_node b 0 n ring) (nodes-filled b 0 n ring d)

    -- As soon as there is a bucket and a virtual node, every key has a bucket, which is one of
    -- those of the ring.
    pub get-total :
        (sha256 : List ℕ → List ℕ) (b : T) (bs : List T) (n : ℕ) (key : Text)
        → (v : T) × (get hash_node sha256 (b ∷ bs) (suc n) key ≡ some v) × In v (b ∷ bs)
    unfolding get with_virtual_nodes add_buckets add_nodes
    get-total sha256 b bs n key =
        let first = insert (hash_node b 0) b [] in
        let here = nodes-filled b 1 n first (insert-filled (hash_node b 0) b []) in
        lookup-total (λ v. In v (b ∷ bs)) (hash_key sha256 key)
          (add_buckets hash_node (suc n) (b ∷ bs) [])
          (Values-buckets (λ v. In v (b ∷ bs)) hash_node (suc n) (b ∷ bs) [] (All-self (b ∷ bs)) tt)
          (buckets-filled (suc n) bs (add_nodes hash_node b 1 n first) here)
      where
        All-self : (xs : List T) → All (λ v. In v xs) xs
        All-self xs = All-In-mono xs xs (λ v i. i)
