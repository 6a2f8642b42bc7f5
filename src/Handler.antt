-- ===== src/Handler.antt =====
-- src/service/handler.rs: how a request is resolved, which models are listed, and when the gateway
-- is ready.
pub mod Upstream
pub mod Resolved
pub mod Models
pub mod Admission
pub mod Forwarded
pub mod Sse
pub mod Events
pub mod Stream
pub mod Forward
pub mod Sent
pub mod Whole
pub mod Drain
mod Tests
use rapid_gate.Base.{
  ℕ, ◌==◌, Bool, Option, none, some, List, [], ◌∷◌, ◌++◌, any, find, length, Text, codes, text_eq,
  if◌then◌else◌,
}
use rapid_gate.Config.{CanaryConfig, RouteConfig, UpstreamConfig}
use rapid_gate.Error.{CoreError, config, route_not_found, Result, ok, err, ◌>>=◌}
use rapid_gate.Platform.{Platform}
use rapid_gate.Routing.Matcher.{panic, missing, found}
use rapid_gate.Routing.Table.{RouteTable, Router, match_request, snapshot}
use rapid_gate.Routing.Table
use rapid_gate.Canary.{sum_weights, select_canary_target}
use rapid_gate.Canary.Policy.{Draw}

-- what the resolving of a request reads of `AppState`
pub record AppState (R : Type 0) : Type 0 where
  pub route_table : Router R
  pub upstream_configs : List UpstreamConfig

-- the target of a canary; `draw` gives the roll below the total
unfoldable pub canary_id : Draw → RouteConfig → CanaryConfig → Result Text
canary_id draw route canary =
    let total = sum_weights 0 canary.targets in
    if total == 0
    then err (config route.name)
    else select_canary_target canary.targets (draw total) >>= λ t. ok t.upstream_id

unfoldable pub target_id : Draw → RouteConfig → Result Text
target_id draw route = elim route.canary [
  | some canary ↦ canary_id draw route canary
  | none ↦ elim route.upstream [ some upstream ↦ ok upstream.id | none ↦ err (config route.name) ]
]

unfoldable pub find_upstream : List UpstreamConfig → RouteConfig → Text → Result UpstreamConfig
unfolding text_eq
find_upstream configs route id = elim (find (λ u. text_eq u.id id) configs) [
  | none ↦ err (config route.name)
  | some u ↦ ok u
]

unfoldable pub resolve_upstream : List UpstreamConfig → Draw → RouteConfig → Result UpstreamConfig
resolve_upstream configs draw route = do id ← target_id draw route; find_upstream configs route id

-- `none` where the indexing of the table would panic
unfoldable pub resolve_route :
    (p : Platform)
    → AppState p.Regex
    → Draw
    → Text
    → Text
    → Option (Result (RouteConfig × UpstreamConfig))
unfolding snapshot
resolve_route p state draw method path =
    elim (match_request p (snapshot state.route_table) method path [] []) [
      | panic ↦ none
      | missing ↦ some (err (route_not_found path))
      | found i route ↦
          some (resolve_upstream state.upstream_configs draw route >>= λ u. ok (route, u))
    ]

-- the inner loop of `list_models`
unfoldable pub add_models : List Text → List Text → List Text
unfolding text_eq
add_models models [] = models
add_models models (m ∷ ms) =
    add_models (if any (text_eq m) models then models else models ++ (m ∷ [])) ms

unfoldable pub all_models : List Text → List UpstreamConfig → List Text
unfolding add_models
all_models models [] = models
all_models models (up ∷ ups) = all_models (add_models models up.models) ups

unfoldable pub list_models : List UpstreamConfig → List Text
unfolding all_models
list_models configs = elim (all_models [] configs) [
  | [] ↦ codes "rapidgate-stage1-placeholder" ∷ []
  | m ∷ ms ↦ m ∷ ms
]

-- the bodies of `readyz`, with their counts
pub data Readiness : Type 0 where
  not_ready : Text → Readiness
  ready : ℕ → ℕ → Readiness

unfoldable pub readyz : {R : Type 0} → AppState R → Readiness
unfolding Table.len snapshot
readyz state =
    if length state.upstream_configs == 0
    then not_ready (codes "no upstreams configured")
    else if Table.len (snapshot state.route_table) == 0
    then not_ready (codes "no routes loaded")
    else ready (Table.len (snapshot state.route_table)) (length state.upstream_configs)
