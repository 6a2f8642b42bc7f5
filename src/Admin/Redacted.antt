-- ===== src/Admin/Redacted.antt =====
-- The views of src/service/admin/routes.rs do not depend on the upstreams' keys, and every error has
-- a status that tells of one.
use rapid_gate.Base.{
  ℕ, ◌≤◌, ◌<◌, leb, ltb, ◌&&◌, Bool-cases, Text, codes, length, List, [], ◌∷◌, map, ◌≡◌, ◌⊎◌, refl,
  ap, arith, inl, inr,
}
use rapid_gate.Config.{UpstreamConfig}
use rapid_gate.Json.{json_object, json_array}
use rapid_gate.Admin.Views.{
  AdminState, upstream_view, get_routes, get_upstreams, get_limits, get_config,
}
use rapid_gate.Error.{
  config, route_not_found, auth, rate_limited, breaker_open, upstream_unreachable, upstream_timeout,
  bad_request, internal, ServiceError, core, upstream, io, config_load, status,
}

-- the upstreams with other keys
abbrev pub with_keys : (UpstreamConfig → Text) → List UpstreamConfig → List UpstreamConfig
with_keys key ups = map (λ (u : UpstreamConfig). record u { api_key = key u }) ups

map-with_keys :
    (key : UpstreamConfig → Text) (ups : List UpstreamConfig)
    → map upstream_view (with_keys key ups) ≡ map upstream_view ups
unfolding upstream_view
map-with_keys key [] = refl
map-with_keys key (u ∷ ups) = ap (λ vs. upstream_view u ∷ vs) (map-with_keys key ups)

length-with_keys :
    (key : UpstreamConfig → Text) (ups : List UpstreamConfig)
    → length (with_keys key ups) ≡ length ups
length-with_keys key [] = refl
length-with_keys key (u ∷ ups) = omega (arith, length-with_keys key ups)

-- None of the four views changes when the keys of the upstreams do.
pub views-redacted :
    {R : Type 0} (s : AdminState R) (key : UpstreamConfig → Text)
    → (get_routes (record s { upstream_configs = with_keys key s.upstream_configs }) ≡ get_routes s)
      × (get_upstreams (record s { upstream_configs = with_keys key s.upstream_configs })
          ≡ get_upstreams s)
      × (get_limits (record s { upstream_configs = with_keys key s.upstream_configs })
          ≡ get_limits s)
      × (get_config (record s { upstream_configs = with_keys key s.upstream_configs })
          ≡ get_config s)
unfolding get_routes get_upstreams get_limits get_config
views-redacted s key = (
  refl,
  ap (λ vs. json_object ((codes "upstreams", json_array vs) ∷ []))
      (map-with_keys key s.upstream_configs),
  refl,
  rw (length-with_keys key s.upstream_configs) refl,
)

-- Every error but a status that an upstream sent is answered with a status from 400 to 599, and such a
-- status is passed on as it is from 100 to 999, and as 502 otherwise.
pub status-bounds :
    (e : ServiceError)
    → ((400 ≤ status e) × (status e < 600))
      ⊎ ((s : ℕ) × (e ≡ upstream s)
          × (((100 ≤ s) × (s < 1000) × (status e ≡ s))
              ⊎ (((s < 100) ⊎ (1000 ≤ s)) × (status e ≡ 502))))
unfolding status
status-bounds (core (route_not_found _)) = inl (omega arith)
status-bounds (core (auth _)) = inl (omega arith)
status-bounds (core rate_limited) = inl (omega arith)
status-bounds (core (breaker_open _)) = inl (omega arith)
status-bounds (core (upstream_unreachable _)) = inl (omega arith)
status-bounds (core (upstream_timeout _)) = inl (omega arith)
status-bounds (core (bad_request _)) = inl (omega arith)
status-bounds (core (config _)) = inl (omega arith)
status-bounds (core (internal _)) = inl (omega arith)
status-bounds (config_load _) = inl (omega arith)
status-bounds io = inl (omega arith)
status-bounds (upstream s) = elim (Bool-cases (leb 100 s && ltb s 1000)) [
  | inl valid ↦ inr (s, refl, inl (ground arith, ground arith, rw valid refl))
  | inr other ↦ inr (s, refl, inr (ground arith, rw other refl))
]
