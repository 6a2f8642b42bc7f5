-- ===== src/Hashing/Moved.antt =====
-- The consistency of the ring: a new bucket takes keys over, and moves no key between the others.
use rapid_gate.Base.{
  ℕ, zero, suc, ◌==◌, leb, ltb, false, Option, none, some, List, [], ◌∷◌, ◌++◌, Text, ◌≡◌, refl,
  sym, ◌∙◌, ◌⊎◌, inl, inr, Bool-cases, Option-cases, arith,
}
use rapid_gate.Hashing.{
  insert, at_least, first_value, lookup, add_nodes, add_buckets, with_virtual_nodes, get, hash_key,
}

module _ {T : Type 0} where
  -- the new value, or what was there
  abbrev pub NewOr : T → Option T → Option T → Type 0
  NewOr v old new = (new ≡ some v) ⊎ (new ≡ old)

  at_least-insert :
      (h k : ℕ) (v : T) (ring : List (ℕ × T))
      → NewOr v (at_least h ring) (at_least h (insert k v ring))
  unfolding at_least insert
  at_least-insert h k v [] = elim (Bool-cases (leb h k)) [
    | inl e ↦ rw e (inl refl)
    | inr e ↦ rw e (inr refl)
  ]
  at_least-insert h k v ((k0, v0) ∷ ring) =
      let later = at_least-insert h k v ring in
      elim (Bool-cases (ltb k k0)) [
        | inl lt ↦
            rw lt
              (elim (Bool-cases (leb h k)) [ inl e ↦ rw e (inl refl) | inr e ↦ rw e (inr refl) ])
        | inr ge ↦ elim (Bool-cases (k == k0)) [
          | inl same ↦
              rw (ge, same)
                (elim (Bool-cases (leb h k)) [
                  | inl e ↦ rw e (inl refl)
                  | inr e ↦ let e0 : leb h k0 ≡ false = ground arith in rw (e, e0) (inr refl)
                ])
          | inr other ↦
              rw (ge, other)
                (elim (Bool-cases (leb h k0)) [ inl e ↦ rw e (inr refl) | inr e ↦ rw e later ])
        ]
      ]

  first_value-insert :
      (k : ℕ) (v : T) (ring : List (ℕ × T))
      → NewOr v (first_value ring) (first_value (insert k v ring))
  unfolding first_value insert
  first_value-insert k v [] = inl refl
  first_value-insert k v ((k0, v0) ∷ ring) = elim (Bool-cases (ltb k k0)) [
    | inl lt ↦ rw lt (inl refl)
    | inr ge ↦ elim (Bool-cases (k == k0)) [
      | inl same ↦ rw (ge, same) (inl refl)
      | inr other ↦ rw (ge, other) (inr refl)
    ]
  ]

  lookup-some :
      (h : ℕ) (ring : List (ℕ × T)) (v : T) → at_least h ring ≡ some v → lookup h ring ≡ some v
  unfolding lookup
  lookup-some h ring v e = rw (e, lookup) refl

  lookup-none :
      (h : ℕ) (ring : List (ℕ × T)) → at_least h ring ≡ none → lookup h ring ≡ first_value ring
  unfolding lookup
  lookup-none h ring e = rw (e, lookup) refl

  lookup-insert :
      (h k : ℕ) (v : T) (ring : List (ℕ × T)) → NewOr v (lookup h ring) (lookup h (insert k v ring))
  lookup-insert h k v ring = elim (at_least-insert h k v ring) [
    | inl e ↦ inl (lookup-some h (insert k v ring) v e)
    | inr e ↦ elim (Option-cases (at_least h ring)) [
      | inr (x, f) ↦ inr (lookup-some h (insert k v ring) x (e ∙ f) ∙ sym (lookup-some h ring x f))
      | inl f ↦
          let new = lookup-none h (insert k v ring) (e ∙ f) in
          elim (first_value-insert k v ring) [
            | inl g ↦ inl (new ∙ g)
            | inr g ↦ inr (new ∙ (g ∙ sym (lookup-none h ring f)))
          ]
    ]
  ]

  NewOr-trans : (v : T) (a b c : Option T) → NewOr v a b → NewOr v b c → NewOr v a c
  NewOr-trans v a b c p (inl e) = inl e
  NewOr-trans v a b c (inl p) (inr e) = inl (e ∙ p)
  NewOr-trans v a b c (inr p) (inr e) = inr (e ∙ p)

  module _ (hash_node : T → ℕ → ℕ) where
    lookup-add_nodes :
        (h : ℕ) (b : T) (i n : ℕ) (ring : List (ℕ × T))
        → NewOr b (lookup h ring) (lookup h (add_nodes hash_node b i n ring))
    unfolding add_nodes
    lookup-add_nodes h b i zero ring = inr refl
    lookup-add_nodes h b i (suc n) ring =
        NewOr-trans b (lookup h ring) (lookup h (insert (hash_node b i) b ring)) _
          (lookup-insert h (hash_node b i) b ring)
          (lookup-add_nodes h b (suc i) n (insert (hash_node b i) b ring))

    add_buckets-snoc :
        (n : ℕ) (bs : List T) (b : T) (ring : List (ℕ × T))
        → add_buckets hash_node n (bs ++ (b ∷ [])) ring
          ≡ add_nodes hash_node b 0 n (add_buckets hash_node n bs ring)
    unfolding add_buckets
    add_buckets-snoc n [] b ring = refl
    add_buckets-snoc n (x ∷ xs) b ring = add_buckets-snoc n xs b (add_nodes hash_node x 0 n ring)

    -- When a bucket is added to a ring, each key goes to the new bucket or stays where it was,
    -- whatever the hash functions are.
    pub get-added :
        (sha256 : List ℕ → List ℕ) (buckets : List T) (b : T) (n : ℕ) (key : Text)
        → NewOr b
            (get hash_node sha256 buckets n key)
            (get hash_node sha256 (buckets ++ (b ∷ [])) n key)
    unfolding get with_virtual_nodes
    get-added sha256 buckets b n key =
        let h = hash_key sha256 key in
        rw (add_buckets-snoc n buckets b [])
          (lookup-add_nodes h b 0 n (add_buckets hash_node n buckets []))
