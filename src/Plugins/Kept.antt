-- ===== src/Plugins/Kept.antt =====
-- The registry of plugins keeps what is registered until it is unregistered.
use rapid_gate.Base.{◌+◌, Text, text_eq, text_eq_refl, none, some, ◌≡◌, arith, if◌then◌else◌}
use rapid_gate.Base.Assoc.{lookup, remove, remove_absent}
use rapid_gate.Plugins.Types.{init_failed, done, failed, PluginMetadata}
use rapid_gate.Plugins.Registry.{Registry, get, register, unregister, count}

module _ {Plugin : Type 0} (metadata : Plugin → PluginMetadata) (p : Plugin)
    (r : Registry metadata) where
  abbrev pub name_of : Text
  name_of = (metadata p).name

  -- A plugin whose name is free is registered: it is found under its name, every other name finds
  -- what it did, there is one more, and unregistering it restores the registry.
  pub register-unregister :
      get metadata name_of r ≡ none
      → ((register metadata p r).1 ≡ done tt)
        × ((k : Text)
            → get metadata k (register metadata p r).0
              ≡ (if text_eq name_of k then some p else get metadata k r))
        × (count metadata (register metadata p r).0 ≡ count metadata r + 1)
        × (unregister metadata name_of (register metadata p r).0 ≡ (r, done tt))
  unfolding register unregister get count lookup remove
  register-unregister free = (
    ground arith,
    λ k. ground arith,
    ground arith,
    ground (arith, text_eq_refl name_of, remove_absent name_of r),
  )

  -- A plugin whose name is taken is refused, and the registry stays as it is.
  pub register-taken :
      (q : Plugin)
      → get metadata name_of r ≡ some q
      → register metadata p r ≡ (r, failed (init_failed name_of))
  unfolding register get
  register-taken q taken = ground arith
