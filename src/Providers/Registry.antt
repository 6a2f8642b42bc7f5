-- ===== src/Providers/Registry.antt =====
-- The registry of src/core/provider/mod.rs: providers by their id. A provider is known by its id and
-- by the models that it supports.
use rapid_gate.Base.{
  ℕ, Bool, ◌==◌, keep, length, map, Text, text_eq, Option, none, some, List, [], ◌≡◌, refl,
  if◌then◌else◌,
}
use rapid_gate.Base.Assoc.{lookup, insert, remove, lookup-insert, lookup-remove}

module _ {Provider : Type 0} (id : Provider → Text) (supports_model : Provider → Text → Bool) where
  abbrev pub ProviderRegistry : Type 0
  ProviderRegistry = List (Text × Provider)

  abbrev pub new : ProviderRegistry
  new = []

  unfoldable pub register : Provider → ProviderRegistry → ProviderRegistry
  register p r = insert (id p) p r

  unfoldable pub unregister : Text → ProviderRegistry → ProviderRegistry × Option Provider
  unregister k r = (remove k r, lookup k r)

  unfoldable pub get : Text → ProviderRegistry → Option Provider
  get k r = lookup k r

  unfoldable pub list : ProviderRegistry → List Provider
  list r = map (λ (e : Text × Provider). e.1) r

  unfoldable pub len : ProviderRegistry → ℕ
  len r = length r

  unfoldable pub is_empty : ProviderRegistry → Bool
  is_empty r = len r == 0

  unfoldable pub find_by_model : Text → ProviderRegistry → List Provider
  unfolding list
  find_by_model model r = keep (λ p. supports_model p model) (list r)

  -- A provider that is registered is found under its id, in place of one that was, and every other
  -- id finds what it did; unregistering an id gives what it found, and only that id finds nothing.
  pub get-register :
      (p : Provider) (r : ProviderRegistry) (k j : Text)
      → (get k (register p r) ≡ (if text_eq (id p) k then some p else get k r))
        × ((unregister j r).1 ≡ get j r)
        × (get k (unregister j r).0 ≡ (if text_eq j k then none else get k r))
  unfolding register unregister get
  get-register p r k j = (lookup-insert (id p) k p r, refl, lookup-remove j k r)
