-- ===== src/Plugins/Tests.antt =====
-- Plugins at work: a registry of native plugins, and a module with a memory of one page.
use rapid_gate.Base.{
  ℕ, ◌+◌, ◌*◌, ◌≤◌, true, false, Text, codes, text_eq, Option, none, some, List, [], ◌∷◌, ◌≡◌, refl,
  arith, if◌then◌else◌,
}
use rapid_gate.Plugins.Types.{done, failed, not_found, Phase, on_request, before_proxy}
use rapid_gate.Plugins.Registry.{get, register, unregister, count, new}
use rapid_gate.Plugins.Native.{NativePlugin, metadata, load_from_library, run_transform}
use rapid_gate.Plugins.Wasm.{Wasm}
use rapid_gate.Plugins.Kept.{name_of, register-unregister}
use rapid_gate.Plugins.Hooks.{IsSandbox, run_hooks, run_hooks-fuel}
use rapid_gate.Base.Assoc.{lookup}

missing_library_returns_not_found :
    load_from_library (λ s. s) false none ≡ failed (not_found (codes "plugin library not found"))
unfolding load_from_library
missing_library_returns_not_found = refl

abbrev tagger : NativePlugin
tagger = record { name = codes "tagger"; version = codes "1.0.0"; transform = some 0 }

transform_ok : run_transform tagger ≡ done tt
unfolding run_transform
transform_ok = refl

free : get metadata (name_of metadata tagger (new metadata)) (new metadata) ≡ none
unfolding get lookup
free = refl

register-unregister_example :
    ((register metadata tagger (new metadata)).1 ≡ done tt)
    × ((k : Text)
        → get metadata k (register metadata tagger (new metadata)).0 ≡ (
            if text_eq (name_of metadata tagger (new metadata)) k
            then some tagger
            else get metadata k (new metadata)))
    × (count metadata (register metadata tagger (new metadata)).0
        ≡ count metadata (new metadata) + 1)
    × (unregister metadata
          (name_of metadata tagger (new metadata))
          (register metadata tagger (new metadata)).0
        ≡ (new metadata, done tt))
register-unregister_example = register-unregister metadata tagger (new metadata) free

-- The store is the size of the memory and the fuel; a call leaves the fuel at nothing.
abbrev one_page : Wasm
one_page = record {
  Store = ℕ × ℕ;
  set_fuel = λ n s. some (s.0, n);
  fuel = λ s. s.1;
  has_memory = true;
  data_size = λ s. s.0;
  grow = λ pages s. some (s.0 + pages * 65_536, s.1);
  write = λ at bytes s. s;
  exports = λ name. true;
  typed = λ name. true;
  transform = λ ptr len s. ((s.0, 0), some len);
  phase = λ code s. ((s.0, 0), some 0);
}

one_page-IsSandbox : IsSandbox one_page
one_page-IsSandbox = record {
  grow_size = λ pages s s' e. cc;
  grow_fuel = λ pages s s' e. cc;
  write_fuel = λ at bytes s. refl;
  transform_fuel = λ ptr len s. omega arith;
  phase_fuel = λ code s. omega arith;
}

abbrev hooks : List (Phase × Option (List ℕ))
hooks = (on_request, some (1 ∷ 2 ∷ [])) ∷ (before_proxy, none) ∷ []

run_hooks-fuel_example :
    (s' : ℕ × ℕ) × (run_hooks one_page one_page-IsSandbox
        (λ s. s)
        (λ v. [])
        hooks
        (65_536, 10_000_000)
      ≡ some s')
    × (one_page.fuel s' ≤ 10_000_000)
run_hooks-fuel_example =
    run_hooks-fuel one_page one_page-IsSandbox (λ s. s) (λ v. []) hooks (65_536, 10_000_000)
