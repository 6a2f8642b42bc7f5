-- ===== src/RateLimit/Store.antt =====
-- src/core/ratelimit/local_store.rs. The cache of the crate `moka` is a parameter: a type with its
-- operations, and the laws that they have for as long as nothing is evicted.
use rapid_gate.Base.{Option, none, some, Text, ◌≡◌, ◌≢◌, refl, ◌∙◌, Option-cases, inl, inr}

pub record Moka (V : Type 0) : Type 1 where
  pub Cache : Type 0
  pub build : Cache
  pub get : Text → Cache → Option V
  pub insert : Text → V → Cache → Cache
  pub invalidate : Text → Cache → Cache

pub record Keeps {V : Type 0} (m : Moka V) : Type 0 where
  pub get-build : (k : Text) → m.get k m.build ≡ none
  pub get-insert : (k : Text) (v : V) (c : m.Cache) → m.get k (m.insert k v c) ≡ some v
  pub get-insert_other :
      (k k' : Text) (v : V) (c : m.Cache) → k ≢ k' → m.get k' (m.insert k v c) ≡ m.get k' c

module _ {V : Type 0} (m : Moka V) where
  open m use {Cache}

  -- The capacity and the time to live only bear on eviction.
  unfoldable pub new : Cache
  new = m.build

  unfoldable pub get : Text → Cache → Option V
  get key c = m.get key c

  unfoldable pub insert : Text → V → Cache → Cache
  insert key value c = m.insert key value c

  unfoldable pub invalidate : Text → Cache → Cache
  invalidate key c = m.invalidate key c

  -- the value that is there, or the initial one, which is then stored
  unfoldable pub get_or_insert : Text → V → Cache → Cache × V
  get_or_insert key init c = elim (m.get key c) [
    | some v ↦ (c, v)
    | none ↦ (m.insert key init c, init)
  ]

  unfoldable pub update : Text → V → (V → V) → Cache → Cache × V
  unfolding get_or_insert
  update key init f c =
      let found = get_or_insert key init c in
      let value = f found.1 in (m.insert key value found.0, value)

  -- the value that an update starts from
  abbrev pub current : Text → V → Cache → V
  current key init c = elim (m.get key c) [ some v ↦ v | none ↦ init ]

  pub current-some :
      (key : Text) (init v : V) (c : Cache) → m.get key c ≡ some v → current key init c ≡ v
  current-some key init v c e = rw (e, current) refl

  pub current-none :
      (key : Text) (init : V) (c : Cache) → m.get key c ≡ none → current key init c ≡ init
  current-none key init c e = rw (e, current) refl

  pub get_or_insert-miss :
      (key : Text) (init : V) (c : Cache)
      → m.get key c ≡ none
      → get_or_insert key init c ≡ (m.insert key init c, init)
  unfolding get_or_insert
  get_or_insert-miss key init c e = rw (e, get_or_insert) refl

  pub get_or_insert-hit :
      (key : Text) (init v : V) (c : Cache)
      → m.get key c ≡ some v
      → get_or_insert key init c ≡ (c, v)
  unfolding get_or_insert
  get_or_insert-hit key init v c e = rw (e, get_or_insert) refl

  update_lem :
      (key : Text) (init : V) (f : V → V) (c c' : Cache) (v : V)
      → get_or_insert key init c ≡ (c', v)
      → update key init f c ≡ (m.insert key (f v) c', f v)
  unfolding update
  update_lem key init f c c' v e = rw e refl

  -- An update stores the image of what it starts from, and gives it.
  pub update-get :
      (key : Text) (init : V) (f : V → V) (c : Cache)
      → Keeps m
      → (m.get key (update key init f c).0 ≡ some (f (current key init c)))
        × ((update key init f c).1 ≡ f (current key init c))
  update-get key init f c laws = elim (Option-cases (m.get key c)) [
    | inl e ↦
        rw
          (
            update_lem key init f c (m.insert key init c) init (get_or_insert-miss key init c e),
            e,
            current,
          )
          (laws.get-insert key (f init) (m.insert key init c), refl)
    | inr (v, e) ↦
        rw (update_lem key init f c c v (get_or_insert-hit key init v c e), e, current)
          (laws.get-insert key (f v) c, refl)
  ]

  -- It leaves every other key alone.
  pub update-get_other :
      (key key' : Text) (init : V) (f : V → V) (c : Cache)
      → Keeps m
      → key ≢ key'
      → m.get key' (update key init f c).0 ≡ m.get key' c
  update-get_other key key' init f c laws d = elim (Option-cases (m.get key c)) [
    | inl e ↦
        rw (update_lem key init f c (m.insert key init c) init (get_or_insert-miss key init c e)) (
          laws.get-insert_other key key' (f init) (m.insert key init c) d
          ∙ laws.get-insert_other key key' init c d)
    | inr (v, e) ↦
        rw (update_lem key init f c c v (get_or_insert-hit key init v c e))
          (laws.get-insert_other key key' (f v) c d)
  ]
