-- ===== src/Loader/Load.antt =====
-- From files to a configuration, and from a configuration to the running table: the rest of
-- src/service/config_loader.rs, src/service/hot_reload.rs and fetch_and_validate of
-- src/service/config_center/mod.rs. The file system, the environment and the YAML parser are
-- parameters.
use rapid_gate.Base.{
  Bool, false, Text, codes, text_eq, Option, none, some, List, [], ◌∷◌, ◌++◌, if◌then◌else◌,
}
use rapid_gate.Error.{config, Result, ok, err, guard, ◌>>=◌, ◌>>◌}
use rapid_gate.Platform.{Platform}
use rapid_gate.Loader.Expand.{expand_placeholders}
use rapid_gate.Loader.Validate.{LoadedConfig, validate}
use rapid_gate.Routing.Table.{RouteTable, Router, new, replace}

-- `read` gives the text of a file, `read_dir` the paths in a directory or `none` where listing
-- fails.
pub record Files : Type 0 where
  pub exists : Text → Bool
  pub read : Text → Option Text
  pub read_dir : Text → Option (List Text)
  pub join_path : Text → Text → Text
  pub extension : Text → Option Text

pub record ConfigPaths : Type 0 where
  pub config_dir : Text
  pub default : Text
  pub env_overlay : Option Text
  pub routes_dir : Text

-- a variable of the environment, or what stands for it
abbrev pub var_or : (Text → Option Text) → Text → Text → Text
var_or env name otherwise = elim (env name) [ none ↦ otherwise | some v ↦ v ]

module _ (env : Text → Option Text) (fs : Files) where
  unfoldable pub resolve_paths : Result ConfigPaths
  resolve_paths =
      let dir = var_or env (codes "RGD_CONFIG_DIR") (codes "./config") in
      let default = fs.join_path dir (codes "default.yaml") in
      let overlay =
        fs.join_path dir (var_or env (codes "RGD_ENV") (codes "development") ++ codes ".yaml") in
      guard (fs.exists dir) (config (codes "config dir not found"))
      >> (guard (fs.exists default) (config (codes "default.yaml missing"))
          >> ok (record {
            config_dir = dir;
            default = default;
            env_overlay = if fs.exists overlay then some overlay else none;
            routes_dir = fs.join_path dir (codes "routes");
          }))

  unfoldable pub read_to_string : Text → Result Text
  read_to_string path = elim (fs.read path) [ none ↦ err (config path) | some text ↦ ok text ]

  abbrev pub is_yaml : Option Text → Bool
  is_yaml none = false
  is_yaml (some e) = text_eq e (codes "yaml")

  -- the loop over the directory: each YAML file is read and put behind `out`
  unfoldable pub read_yaml : List Text → List Text → Result (List Text)
  unfolding read_to_string text_eq
  read_yaml [] out = ok out
  read_yaml (path ∷ paths) out =
      let skip = read_yaml paths out in
      let take = read_to_string path >>= λ text. read_yaml paths (out ++ (text ∷ [])) in
      if is_yaml (fs.extension path) then take else skip

  unfoldable pub collect_routes : Text → Result (List Text)
  unfolding read_yaml
  collect_routes dir =
      if fs.exists dir
      then elim (fs.read_dir dir) [ none ↦ err (config dir) | some paths ↦ read_yaml paths [] ]
      else ok []

  -- each text on lines of its own
  unfoldable pub push_all : Text → List Text → Text
  push_all text [] = text
  push_all text (r ∷ rs) = push_all (text ++ (10 ∷ r)) rs

  abbrev pub read_overlay : Text → Option Text → Result Text
  read_overlay text none = ok text
  read_overlay text (some path) = read_to_string path >>= λ more. ok (text ++ (10 ∷ more))

  -- what `load` reads of the files
  unfoldable pub read_all : Result Text
  unfolding resolve_paths read_to_string collect_routes push_all
  read_all = do
    paths ← resolve_paths
    text ← read_to_string paths.default
    both ← read_overlay text paths.env_overlay
    routes ← collect_routes paths.routes_dir
    ok (push_all both routes)

  module _ (p : Platform) (from_str : Text → Option LoadedConfig) where
    -- the checks of a configuration that parses
    abbrev pub checked : Option LoadedConfig → Result LoadedConfig
    checked none = err (config (codes "YAML parse error"))
    checked (some cfg) = validate p cfg >> ok cfg

    unfoldable pub parse_and_validate : Text → Result LoadedConfig
    parse_and_validate expanded = checked (from_str expanded)

    abbrev pub after_expand : Option (Result Text) → Option (Result LoadedConfig)
    after_expand none = none
    after_expand (some expanded) = some (expanded >>= parse_and_validate)

    -- `none` where the fuel of the expansion runs out
    abbrev pub expand_and_parse : Result Text → Option (Result LoadedConfig)
    expand_and_parse (err e) = some (err e)
    expand_and_parse (ok text) = after_expand (expand_placeholders env text)

    unfoldable pub load : Option (Result LoadedConfig)
    unfolding read_all
    load = expand_and_parse read_all

    -- for what a configuration center answers under a key
    unfoldable pub fetch_and_validate : (Text → Result Text) → Text → Option (Result LoadedConfig)
    fetch_and_validate fetch key = expand_and_parse (fetch key)

    -- a table that does not compile is not installed
    abbrev pub install : Router p.Regex → Option (RouteTable p.Regex) → Router p.Regex
    install router none = router
    install router (some table) = replace router table

    -- `reload`: what it makes of the router with what was loaded
    abbrev pub reload_with : Router p.Regex → Result LoadedConfig → Router p.Regex
    reload_with router (err e) = router
    reload_with router (ok cfg) = install router (new p cfg.routes)

    unfoldable pub reload : Router p.Regex → Option (Router p.Regex)
    reload router = elim load [ none ↦ none | some loaded ↦ some (reload_with router loaded) ]
