-- ===== src/Routing/Order.antt =====
-- The order in which `RouteTable::new` puts the compiled matchers: by rank, and by index among
-- matchers of one rank.
use rapid_gate.Base.{
  ℕ, ◌≤◌, ◌<◌, leb, leb→le, List, [], ◌∷◌, ◌≡◌, ◌⊎◌, inl, inr, All, arith, Bool-cases,
}
use rapid_gate.Routing.Matcher.{Matcher, rank}
use rapid_gate.Routing.Table.{insert_by_rank, sort_by_rank}

-- an entry of rank `a` and index `i` is tried no later than one of rank `b` and index `j`
abbrev pub Precedes : ℕ → ℕ → ℕ → ℕ → Type 0
Precedes a i b j = (a < b) ⊎ ((a ≡ b) × (i ≤ j))

abbrev pub Entry : Type 0 → Type 0
Entry R = Matcher R × ℕ

-- the elements of a list, by recursion
abbrev pub In : {A : Type 0} → A → List A → Type 0
In a [] = ⊥
In a (x ∷ xs) = (a ≡ x) ⊎ In a xs

module _ {R : Type 0} where
  abbrev pub Before : Entry R → Entry R → Type 0
  Before x y = Precedes (rank x.0) x.1 (rank y.0) y.1

  abbrev pub IsOrdered : List (Entry R) → Type 0
  IsOrdered [] = Unit
  IsOrdered (x ∷ xs) = All (Before x) xs × IsOrdered xs

  -- indices grow along the list
  abbrev pub IsIndexed : List (Entry R) → Type 0
  IsIndexed [] = Unit
  IsIndexed (x ∷ xs) = All (λ y. x.1 ≤ y.1) xs × IsIndexed xs

  pub All-insert :
      (P : Entry R → Type 0) (x : Entry R) (xs : List (Entry R))
      → P x
      → All P xs
      → All P (insert_by_rank x xs)
  unfolding insert_by_rank
  All-insert P x [] p h = (p, tt)
  All-insert P x (y ∷ ys) p h = elim (Bool-cases (leb (rank x.0) (rank y.0))) [
    | inl e ↦ rw e (p, h)
    | inr e ↦ rw e (h.0, All-insert P x ys p h.1)
  ]

  pub All-sort : (P : Entry R → Type 0) (xs : List (Entry R)) → All P xs → All P (sort_by_rank xs)
  unfolding sort_by_rank
  All-sort P [] h = tt
  All-sort P (x ∷ xs) (p, h) = All-insert P x (sort_by_rank xs) p (All-sort P xs h)

  Before-All :
      (x y : Entry R) (ys : List (Entry R))
      → rank x.0 ≤ rank y.0
      → All (Before y) ys
      → All (λ z. x.1 ≤ z.1) ys
      → All (Before x) ys
  Before-All x y [] h b i = tt
  Before-All x y (z ∷ zs) h (b, bs) (i, is) = (grind arith, Before-All x y zs h bs is)

  insert-IsOrdered :
      (x : Entry R) (xs : List (Entry R))
      → All (λ z. x.1 ≤ z.1) xs
      → IsOrdered xs
      → IsOrdered (insert_by_rank x xs)
  unfolding insert_by_rank
  insert-IsOrdered x [] i o = (tt, tt)
  insert-IsOrdered x (y ∷ ys) (i, is) (b, o) = elim (Bool-cases (leb (rank x.0) (rank y.0))) [
    | inl e ↦
        let le = leb→le (rank x.0) (rank y.0) e in
        rw e ((grind arith, Before-All x y ys le b is), (b, o))
    | inr e ↦ rw e (All-insert (Before y) x ys (inl (ground arith)) b, insert-IsOrdered x ys is o)
  ]

  pub sort-IsOrdered : (xs : List (Entry R)) → IsIndexed xs → IsOrdered (sort_by_rank xs)
  unfolding sort_by_rank
  sort-IsOrdered [] h = tt
  sort-IsOrdered (x ∷ xs) (i, h) =
      insert-IsOrdered x (sort_by_rank xs) (All-sort (λ z. x.1 ≤ z.1) xs i) (sort-IsOrdered xs h)

  -- nothing is lost by sorting
  insert-In : (e x : Entry R) (xs : List (Entry R)) → In e (x ∷ xs) → In e (insert_by_rank x xs)
  unfolding insert_by_rank
  insert-In e x [] h = h
  insert-In e x (y ∷ ys) h = elim (Bool-cases (leb (rank x.0) (rank y.0))) [
    | inl l ↦ rw l h
    | inr l ↦ rw l (elim h [
      | inl here ↦ inr (insert-In e x ys (inl here))
      | inr rest ↦ elim rest [
        | inl next ↦ inl next
        | inr later ↦ inr (insert-In e x ys (inr later))
      ]
    ])
  ]

  pub sort-In : (e : Entry R) (xs : List (Entry R)) → In e xs → In e (sort_by_rank xs)
  unfolding sort_by_rank
  sort-In e [] h = elim h [ ]
  sort-In e (x ∷ xs) (inl h) = insert-In e x (sort_by_rank xs) (inl h)
  sort-In e (x ∷ xs) (inr h) = insert-In e x (sort_by_rank xs) (inr (sort-In e xs h))
