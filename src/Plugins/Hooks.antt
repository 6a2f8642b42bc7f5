-- ===== src/Plugins/Hooks.antt =====
-- What the sandbox of src/core/plugins/wasm.rs guarantees: a payload is always copied within the
-- memory, and the fuel of a plugin is never filled up again.
use rapid_gate.Base.{
  ℕ, ◌+◌, ◌-◌, ◌*◌, ◌≤◌, ◌<◌, ◌%◌, ◌^◌, ltb, ltb→lt, ltb-false, Bool-cases, length, Text, codes,
  Option, none, some, List, [], ◌∷◌, ◌≡◌, refl, ap, arith, inl, inr,
}
use rapid_gate.Json.{Value}
use rapid_gate.Plugins.Types.{PluginResult, done, failed, Phase}
use rapid_gate.Plugins.Wasm.{
  Wasm, payload_offset, page_size, div_ceil, ensure_memory, copy_payload, traps, invoke_transform,
  with_memory, call_transform, phase_result, call_phase, phase_code, body_bytes, drop_length,
  dropped, hook,
}

-- what the documentation of wasmtime says of an instance
pub record IsSandbox (w : Wasm) : Type 0 where
  pub grow_size :
      (pages : ℕ) (s s' : w.Store)
      → w.grow pages s ≡ some s'
      → w.data_size s' ≡ w.data_size s + pages * 65_536
  pub grow_fuel : (pages : ℕ) (s s' : w.Store) → w.grow pages s ≡ some s' → w.fuel s' ≡ w.fuel s
  pub write_fuel : (at : ℕ) (bytes : List ℕ) (s : w.Store) → w.fuel (w.write at bytes s) ≡ w.fuel s
  pub transform_fuel : (ptr len : ℕ) (s : w.Store) → w.fuel (w.transform ptr len s).0 ≤ w.fuel s
  pub phase_fuel : (code : ℕ) (s : w.Store) → w.fuel (w.phase code s).0 ≤ w.fuel s

-- enough pages are added
pages-le :
    (needed size : ℕ) → size < needed → needed ≤ size + div_ceil (needed - size) 65_536 * 65_536
pages-le needed size h = omega arith

module _ (w : Wasm) (laws : IsSandbox w) where
  open w use {Store}

  ensure_memory-fits :
      (len : ℕ) (s s' : Store)
      → ensure_memory w len s ≡ some s'
      → (payload_offset + len ≤ w.data_size s') × (w.fuel s' ≡ w.fuel s)
  unfolding ensure_memory
  ensure_memory-fits len s s' h =
      let pages = div_ceil (payload_offset + len - w.data_size s) page_size in
      elim (Bool-cases (ltb (w.data_size s) (payload_offset + len))) [
        | inl short ↦
            let small = ltb→lt (w.data_size s) (payload_offset + len) short in
            let enough = pages-le (payload_offset + len) (w.data_size s) small in
            (
              ground (arith, enough, laws.grow_size pages s s'),
              ground (arith, laws.grow_fuel pages s s'),
            )
        | inr wide ↦
            (ground (arith, ltb-false (w.data_size s) (payload_offset + len) wide), ground arith)
      ]

  copy_payload-fits :
      (payload : List ℕ) (s : Store)
      → payload_offset + length payload ≤ w.data_size s
      → copy_payload w payload s ≡ some (w.write payload_offset payload s)
  unfolding copy_payload
  copy_payload-fits payload s h = ground arith

  -- what a call leaves: it has not panicked, and the fuel is no more than before
  abbrev Spends : {A : Type 0} → Store → Option (Store × A) → Type 0
  Spends {A} s o = (r : Store × A) × (o ≡ some r) × (w.fuel r.0 ≤ w.fuel s)

  traps-fuel : {A : Type 0} (r : Store × Option A) → w.fuel (traps w r).0 ≡ w.fuel r.0
  traps-fuel (s, none) = refl
  traps-fuel (s, some a) = refl

  phase_result-fuel : (r : Store × Option ℕ) → w.fuel (phase_result w r).0 ≡ w.fuel r.0
  phase_result-fuel (s, none) = refl
  phase_result-fuel (s, some code) = ground arith

  drop_length-fuel : (r : Store × PluginResult ℕ) → w.fuel (drop_length w r).0 ≡ w.fuel r.0
  drop_length-fuel (s, failed e) = refl
  drop_length-fuel (s, done len) = refl

  with_memory-Spends :
      (payload : List ℕ) (s : Store) (o : Option Store)
      → ensure_memory w (length payload) s ≡ o
      → Spends s (with_memory w payload s o)
  with_memory-Spends payload s none e = (_, refl, omega arith)
  with_memory-Spends payload s (some s') e =
      let (fits, same) = ensure_memory-fits (length payload) s s' e in
      let copied = w.write payload_offset payload s' in
      let called = w.transform payload_offset (length payload % 2 ^ 32) copied in
      (
        traps w called,
        ap (invoke_transform w payload) (copy_payload-fits payload s' fits),
        omega (
          arith,
          traps-fuel called,
          laws.transform_fuel payload_offset (length payload % 2 ^ 32) copied,
          laws.write_fuel payload_offset payload s',
        ),
      )

  call_transform-Spends : (payload : List ℕ) (s : Store) → Spends s (call_transform w payload s)
  unfolding call_transform
  call_transform-Spends payload s = elim (Bool-cases w.has_memory) [
    | inl memory ↦ elim (Bool-cases (w.typed (codes "plugin_transform"))) [
      | inl there ↦
          let (r, e, le) = with_memory-Spends payload s (ensure_memory w (length payload) s) refl in
          (r, rw (memory, there) e, le)
      | inr absent ↦ ((s, done 0), rw (memory, absent) refl, omega arith)
    ]
    | inr absent ↦ ((s, done 0), rw absent refl, omega arith)
  ]

  call_phase-fuel : (phase : Phase) (s : Store) → w.fuel (call_phase w phase s).0 ≤ w.fuel s
  unfolding call_phase
  call_phase-fuel phase s = ground (
    arith,
    phase_result-fuel (w.phase (phase_code phase) s),
    laws.phase_fuel (phase_code phase) s,
  )

  module _ (utf8_lossy : List ℕ → Text) (to_vec : Value → List ℕ) where
    hook-Spends :
        (phase : Phase) (body : Option (List ℕ)) (s : Store)
        → Spends s (hook w utf8_lossy to_vec phase body s)
    unfolding hook
    hook-Spends phase body s = elim (Bool-cases (w.exports (codes "plugin_transform"))) [
      | inl there ↦
          let (r, e, le) = call_transform-Spends (body_bytes w utf8_lossy to_vec body) s in
          (drop_length w r, rw there (ap (dropped w) e), omega (arith, drop_length-fuel r))
      | inr absent ↦ (call_phase w phase s, rw absent refl, call_phase-fuel phase s)
    ]

    -- the store after a sequence of hooks
    abbrev pub run_hooks : List (Phase × Option (List ℕ)) → Store → Option Store
    run_hooks [] s = some s
    run_hooks ((phase, body) ∷ hs) s = elim (hook w utf8_lossy to_vec phase body s) [
      | none ↦ none
      | some (s', r) ↦ run_hooks hs s'
    ]

    -- However many hooks of a plugin run, none panics, and the fuel that was set when the plugin was
    -- assembled is never filled up again.
    pub run_hooks-fuel :
        (hs : List (Phase × Option (List ℕ))) (s : Store)
        → (s' : Store) × (run_hooks hs s ≡ some s') × (w.fuel s' ≤ w.fuel s)
    run_hooks-fuel [] s = (s, refl, omega arith)
    run_hooks-fuel ((phase, body) ∷ hs) s =
        let (r, e, le) = hook-Spends phase body s in
        let (s', ran, rest) = run_hooks-fuel hs r.0 in (s', rw (e, run_hooks) ran, omega arith)
