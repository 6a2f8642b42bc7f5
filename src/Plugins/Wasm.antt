-- ===== src/Plugins/Wasm.antt =====
-- src/core/plugins/wasm.rs. An instance of the crate `wasmtime` is a parameter: a store with a
-- memory and fuel, and the functions that the module exports.
use rapid_gate.Base.{
  ℕ, ◌+◌, ◌-◌, ◌/◌, ◌%◌, ◌^◌, ◌==◌, ltb, leb, Bool, length, Text, codes, Option, none, some, List,
  [], if◌then◌else◌,
}
use rapid_gate.Json.{Value, string}
use rapid_gate.Plugins.Types.{
  init_failed, execution_failed, PluginResult, done, failed, PluginMetadata, Phase, on_request,
  before_proxy, after_proxy,
}

-- Numbers are the patterns of an i32. A call gives the store afterwards, and `none` for a trap.
pub record Wasm : Type 1 where
  pub Store : Type 0
  pub set_fuel : ℕ → Store → Option Store
  pub fuel : Store → ℕ
  pub has_memory : Bool
  pub data_size : Store → ℕ
  -- by a number of pages of 65536 bytes
  pub grow : ℕ → Store → Option Store
  pub write : ℕ → List ℕ → Store → Store
  -- whether a function is exported at all, and whether it has the type that is asked for
  pub exports : Text → Bool
  pub typed : Text → Bool
  pub transform : ℕ → ℕ → Store → Store × Option ℕ
  pub phase : ℕ → Store → Store × Option ℕ

abbrev pub payload_offset : ℕ
payload_offset = 1024

abbrev pub page_size : ℕ
page_size = 65_536

abbrev pub fuel_budget : ℕ
fuel_budget = 10_000_000

-- `usize::div_ceil`
abbrev pub div_ceil : ℕ → ℕ → ℕ
div_ceil a b = (a + (b - 1)) / b

abbrev pub phase_code : Phase → ℕ
phase_code on_request = 1
phase_code before_proxy = 2
phase_code after_proxy = 3

module _ (w : Wasm) where
  open w use {Store}

  pub record WasmPlugin : Type 0 where
    pub name : Text
    pub store : Store

  -- `instantiate` gives the instance's store, `none` if it fails.
  unfoldable pub assemble : (Store → Option Store) → Store → Text → PluginResult WasmPlugin
  assemble instantiate fresh name = elim (w.set_fuel fuel_budget fresh) [
    | none ↦ failed (init_failed (codes "failed to set wasm fuel budget"))
    | some fueled ↦ elim (instantiate fueled) [
      | none ↦ failed (init_failed name)
      | some s ↦ done (record { name = name; store = s })
    ]
  ]

  unfoldable pub metadata : WasmPlugin → PluginMetadata
  metadata p = record {
    name = p.name;
    version = codes "0.0.0";
    author = none;
    description = some (codes "WASM plugin loaded via wasmtime");
  }

  -- the memory is grown where the payload does not fit
  unfoldable pub ensure_memory : ℕ → Store → Option Store
  ensure_memory len s =
      let needed = payload_offset + len in
      let size = w.data_size s in
      if ltb size needed then w.grow (div_ceil (needed - size) page_size) s else some s

  -- `data[a..b].copy_from_slice`: it panics, which is `none`, where the range is out of bounds
  unfoldable pub copy_payload : List ℕ → Store → Option Store
  copy_payload payload s =
      if leb (payload_offset + length payload) (w.data_size s)
      then some (w.write payload_offset payload s)
      else none

  abbrev pub traps {ℓ} : {A : Type ℓ} → Store × Option A → Store × PluginResult A
  traps (s, none) = (s, failed (execution_failed (codes "invoke")))
  traps (s, some a) = (s, done a)

  abbrev pub invoke_transform : List ℕ → Option Store → Option (Store × PluginResult ℕ)
  invoke_transform payload none = none
  invoke_transform payload (some s) =
      some (traps (w.transform payload_offset (length payload % 2 ^ 32) s))

  abbrev pub with_memory : List ℕ → Store → Option Store → Option (Store × PluginResult ℕ)
  with_memory payload old none = some (old, failed (execution_failed (codes "grow wasm memory")))
  with_memory payload old (some s) = invoke_transform payload (copy_payload payload s)

  -- `none` where it panics; without a memory or the function there is nothing to do
  unfoldable pub call_transform : List ℕ → Store → Option (Store × PluginResult ℕ)
  unfolding ensure_memory copy_payload
  call_transform payload s =
      if w.has_memory
      then (if w.typed (codes "plugin_transform")
          then with_memory payload s (ensure_memory (length payload) s)
          else some (s, done 0))
      else some (s, done 0)

  abbrev pub phase_result : Store × Option ℕ → Store × PluginResult (Unit {0})
  phase_result (s, none) = (s, failed (execution_failed (codes "invoke plugin_phase")))
  phase_result (s, some code) =
      if code == 0 then (s, done tt) else (s, failed (execution_failed (codes "plugin_phase")))

  unfoldable pub call_phase : Phase → Store → Store × PluginResult (Unit {0})
  call_phase phase s =
      if w.typed (codes "plugin_phase")
      then phase_result (w.phase (phase_code phase) s)
      else (s, done tt)

  -- `serde_json::to_vec` of the body as a text; the length that the transform answers is dropped
  unfoldable pub body_bytes : (List ℕ → Text) → (Value → List ℕ) → Option (List ℕ) → List ℕ
  body_bytes utf8_lossy to_vec none = []
  body_bytes utf8_lossy to_vec (some body) = to_vec (string (utf8_lossy body))

  abbrev pub drop_length : Store × PluginResult ℕ → Store × PluginResult (Unit {0})
  drop_length (s, failed e) = (s, failed e)
  drop_length (s, done len) = (s, done tt)

  abbrev pub dropped : Option (Store × PluginResult ℕ) → Option (Store × PluginResult (Unit {0}))
  dropped none = none
  dropped (some r) = some (drop_length r)

  -- each of the three hooks, for a body of the context; the context is left as it is
  unfoldable pub hook :
      (List ℕ → Text)
      → (Value → List ℕ)
      → Phase
      → Option (List ℕ)
      → Store
      → Option (Store × PluginResult (Unit {0}))
  unfolding body_bytes
  hook utf8_lossy to_vec phase body s =
      if w.exports (codes "plugin_transform")
      then dropped (call_transform (body_bytes utf8_lossy to_vec body) s)
      else some (call_phase phase s)
