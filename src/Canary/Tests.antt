-- ===== src/Canary/Tests.antt =====
-- Concrete choices of a target and of an upstream.
use rapid_gate.Base.{[], ◌∷◌, codes, ◌≡◌, arith}
use rapid_gate.Config.{CanaryTarget}
use rapid_gate.Error.{ok}
use rapid_gate.Canary.{select_canary_target}
use rapid_gate.Canary.Weights.{select_canary_target-interval}

abbrev stable : CanaryTarget
stable = record { upstream_id = codes "stable"; weight = 80 }

abbrev canary : CanaryTarget
canary = record { upstream_id = codes "canary"; weight = 20 }

select_canary_target-interval_example : select_canary_target (stable ∷ canary ∷ []) 80 ≡ ok canary
select_canary_target-interval_example =
    select_canary_target-interval (stable ∷ []) canary [] 80 (omega arith) (omega arith)
      (omega arith)
