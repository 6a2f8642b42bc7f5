-- ===== src/Loader/Reload.antt =====
-- A reload of src/service/hot_reload.rs installs only what was validated, and keeps the table
-- otherwise.
use rapid_gate.Base.{Text, subst, Option, none, some, ◌≡◌, ◌⊎◌, inl, inr, refl, ap}
use rapid_gate.Error.{Result, ok, err, ◌>>◌}
use rapid_gate.Platform.{Platform}
use rapid_gate.Loader.Expand.{expand_placeholders}
use rapid_gate.Loader.Template.{expand_placeholders_total}
use rapid_gate.Loader.Validate.{LoadedConfig, validate}
use rapid_gate.Loader.Checks.{IsValid, validate-IsValid}
use rapid_gate.Loader.Load.{
  Files, checked, parse_and_validate, after_expand, expand_and_parse, load, fetch_and_validate,
  install, reload_with, reload, read_all,
}
use rapid_gate.Routing.Table.{RouteTable, Router, new, replace}

module _ (env : Text → Option Text) (fs : Files) (p : Platform)
    (from_str : Text → Option LoadedConfig) where
  validated :
      (r : Result (Unit {0})) (cfg cfg' : LoadedConfig)
      → (r >> ok cfg) ≡ ok cfg'
      → (r ≡ ok tt) × (cfg ≡ cfg')
  validated (ok tt) cfg cfg' h = (refl, cc)
  validated (err e) cfg cfg' h = cc

  checked-IsValid :
      (o : Option LoadedConfig) (cfg : LoadedConfig)
      → checked env fs p from_str o ≡ ok cfg
      → IsValid p cfg
  checked-IsValid none cfg h = cc
  checked-IsValid (some c) cfg h =
      let (accepted, same) = validated (validate p c) c cfg h in
      subst (IsValid p) same ((validate-IsValid p c).0 accepted)

  after_expand-IsValid :
      (o : Option (Result Text)) (cfg : LoadedConfig)
      → after_expand env fs p from_str o ≡ some (ok cfg)
      → IsValid p cfg
  unfolding parse_and_validate
  after_expand-IsValid none cfg h = cc
  after_expand-IsValid (some (err e)) cfg h = cc
  after_expand-IsValid (some (ok text)) cfg h = checked-IsValid (from_str text) cfg (cc)

  expand_and_parse-IsValid :
      (r : Result Text) (cfg : LoadedConfig)
      → expand_and_parse env fs p from_str r ≡ some (ok cfg)
      → IsValid p cfg
  expand_and_parse-IsValid (err e) cfg h = cc
  expand_and_parse-IsValid (ok text) cfg h =
      after_expand-IsValid (expand_placeholders env text) cfg h

  expand_and_parse_total :
      (r : Result Text)
      → (loaded : Result LoadedConfig) × (expand_and_parse env fs p from_str r ≡ some loaded)
  expand_and_parse_total (err e) = (_, refl)
  expand_and_parse_total (ok text) =
      let (expanded, e) = expand_placeholders_total env text in
      (_, ap (after_expand env fs p from_str) e)

  -- A configuration that a configuration center answers is only given if it satisfies the rules of
  -- `validate`.
  pub fetch_and_validate-IsValid :
      (fetch : Text → Result Text) (key : Text) (cfg : LoadedConfig)
      → fetch_and_validate env fs p from_str fetch key ≡ some (ok cfg)
      → IsValid p cfg
  unfolding fetch_and_validate
  fetch_and_validate-IsValid fetch key cfg h = expand_and_parse-IsValid (fetch key) cfg h

  -- what a reload may leave: the router as it was, or the table of a valid configuration
  abbrev pub Reloaded : Router p.Regex → Router p.Regex → Type 0
  Reloaded before after =
      (before ≡ after)
      ⊎ ((cfg : LoadedConfig) × (load env fs p from_str ≡ some (ok cfg))
          × IsValid p cfg
          × (new p cfg.routes ≡ some after.table))

  install-Reloaded :
      (router : Router p.Regex) (cfg : LoadedConfig) (t : Option (RouteTable p.Regex))
      → load env fs p from_str ≡ some (ok cfg)
      → IsValid p cfg
      → new p cfg.routes ≡ t
      → Reloaded router (install env fs p from_str router t)
  unfolding replace
  install-Reloaded router cfg none l v e = inl refl
  install-Reloaded router cfg (some t) l v e = inr (cfg, l, v, e)

  load-IsValid : (cfg : LoadedConfig) → load env fs p from_str ≡ some (ok cfg) → IsValid p cfg
  unfolding load
  load-IsValid cfg l = expand_and_parse-IsValid (read_all env fs) cfg l

  reload_with-Reloaded :
      (router : Router p.Regex) (r : Result LoadedConfig)
      → load env fs p from_str ≡ some r
      → Reloaded router (reload_with env fs p from_str router r)
  reload_with-Reloaded router (err e) l = inl refl
  reload_with-Reloaded router (ok cfg) l =
      install-Reloaded router cfg (new p cfg.routes) l (load-IsValid cfg l) refl

  load_total : (loaded : Result LoadedConfig) × (load env fs p from_str ≡ some loaded)
  unfolding load
  load_total = expand_and_parse_total (read_all env fs)

  -- A reload always ends, and leaves the router as it was or with the table of a configuration that
  -- was loaded just then and satisfies the rules of `validate`.
  pub reload-Reloaded :
      (router : Router p.Regex)
      → (after : Router p.Regex) × (reload env fs p from_str router ≡ some after)
        × Reloaded router after
  unfolding reload
  reload-Reloaded router =
      let (loaded, l) = load_total in
      (
        reload_with env fs p from_str router loaded,
        rw (l, reload) refl,
        reload_with-Reloaded router loaded l,
      )
