-- ===== src/Canary.antt =====
-- The choice of an upstream among several: `select_canary_target` of src/service/handler.rs, and
-- the policies and sessions of src/core/canary and src/core/routing/canary.rs.
pub mod Weights
pub mod Policy
pub mod Sticky
pub mod Select
mod Tests
use rapid_gate.Base.{ℕ, ◌+◌, ◌%◌, ◌^◌, ltb, ◌==◌, List, [], ◌∷◌, codes, if◌then◌else◌}
use rapid_gate.Config.{CanaryTarget}
use rapid_gate.Error.{config, Result, ok, err}

-- `iter().map(|t| t.weight).sum()` on u32, which wraps in a release build
unfoldable pub sum_weights : ℕ → List CanaryTarget → ℕ
sum_weights total [] = total
sum_weights total (t ∷ ts) = sum_weights ((total + t.weight) % 2 ^ 32) ts

-- the running total after a target: `continue` skips one of weight 0
unfoldable pub add_weight : ℕ → CanaryTarget → ℕ
add_weight cumulative t = if t.weight == 0 then cumulative else (cumulative + t.weight) % 2 ^ 32

-- the loop, from a running total on
unfoldable pub pick_from : ℕ → List CanaryTarget → ℕ → Result CanaryTarget
unfolding add_weight
pick_from cumulative [] roll = err (config (codes "canary selection failed"))
pick_from cumulative (t ∷ ts) roll =
    let cumulative' = add_weight cumulative t in
    let rest = pick_from cumulative' ts roll in
    if t.weight == 0 then rest else if ltb roll cumulative' then ok t else rest

unfoldable pub select_canary_target : List CanaryTarget → ℕ → Result CanaryTarget
unfolding sum_weights pick_from
select_canary_target targets roll =
    if sum_weights 0 targets == 0
    then err (config (codes "canary total weight is zero"))
    else pick_from 0 targets roll
