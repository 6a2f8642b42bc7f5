-- ===== src/Plugins/Registry.antt =====
-- src/core/plugins/registry.rs. The map of the registry is a list of entries without repeated names;
-- the lock makes each operation one step.
use rapid_gate.Base.{ℕ, length, Text, Option, List, [], ◌∷◌, map, if◌then◌else◌}
use rapid_gate.Base.Assoc.{lookup, contains_key, remove}
use rapid_gate.Plugins.Types.{init_failed, not_found, PluginResult, done, failed, PluginMetadata}

-- A plugin is known by its metadata.
module _ {Plugin : Type 0} (metadata : Plugin → PluginMetadata) where
  abbrev pub Registry : Type 0
  Registry = List (Text × Plugin)

  abbrev pub new : Registry
  new = []

  unfoldable pub get : Text → Registry → Option Plugin
  get name r = lookup name r

  -- the registry afterwards, and what is told
  unfoldable pub register : Plugin → Registry → Registry × PluginResult (Unit {0})
  unfolding contains_key
  register plugin r =
      let name = (metadata plugin).name in
      if contains_key name r then (r, failed (init_failed name)) else ((name, plugin) ∷ r, done tt)

  unfoldable pub unregister : Text → Registry → Registry × PluginResult (Unit {0})
  unfolding contains_key
  unregister name r =
      if contains_key name r then (remove name r, done tt) else (r, failed (not_found name))

  unfoldable pub list : Registry → List PluginMetadata
  list r = map (λ (e : Text × Plugin). metadata e.1) r

  unfoldable pub count : Registry → ℕ
  count r = length r
