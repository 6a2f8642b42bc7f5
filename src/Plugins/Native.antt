-- ===== src/Plugins/Native.antt =====
-- src/core/plugins/native.rs. What the crate `libloading` finds in a library is a parameter: the
-- symbols that are there, and what they answer.
use rapid_gate.Base.{
  ℕ, ◌==◌, Bool, true, false, Text, codes, Option, none, some, List, [], if◌then◌else◌,
}
use rapid_gate.Plugins.Types.{
  init_failed, execution_failed, not_found, PluginResult, done, failed, PluginMetadata,
}

-- A C string is a null pointer or bytes; `none` is a symbol that is missing. The code of the
-- transform is the pattern of an i32.
pub record Library : Type 0 where
  pub plugin_name : Option (Option (List ℕ))
  pub plugin_version : Option (Option (List ℕ))
  pub plugin_transform : Option ℕ

pub record NativePlugin : Type 0 where
  pub name : Text
  pub version : Text
  pub transform : Option ℕ

module _ (utf8_lossy : List ℕ → Text) where
  unfoldable pub read_c_string : Option (List ℕ) → Text
  read_c_string none = []
  read_c_string (some bytes) = utf8_lossy bytes

  abbrev pub version_or : Option (Option (List ℕ)) → Text
  version_or none = codes "0.0.0"
  version_or (some v) = read_c_string v

  -- `opened` is `none` for a file that is no library
  unfoldable pub load_from_library : Bool → Option Library → PluginResult NativePlugin
  unfolding read_c_string
  load_from_library false opened = failed (not_found (codes "plugin library not found"))
  load_from_library true none = failed (init_failed (codes "cannot open dynamic library"))
  load_from_library true (some lib) = elim lib.plugin_name [
    | none ↦ failed (init_failed (codes "missing required symbol"))
    | some name ↦ done (record {
      name = read_c_string name;
      version = version_or lib.plugin_version;
      transform = lib.plugin_transform;
    })
  ]

unfoldable pub metadata : NativePlugin → PluginMetadata
metadata p = record {
  name = p.name;
  version = p.version;
  author = none;
  description = some (codes "Native dynamic-library plugin");
}

-- the body of all three hooks
unfoldable pub run_transform : NativePlugin → PluginResult (Unit {0})
run_transform p = elim p.transform [
  | none ↦ done tt
  | some code ↦
      if code == 0 then done tt else failed (execution_failed (codes "native plugin transform"))
]
