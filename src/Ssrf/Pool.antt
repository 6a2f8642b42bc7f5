-- ===== src/Ssrf/Pool.antt =====
-- `UpstreamPool` of src/service/upstream_pool.rs: the cache of clients behind the guard. The cache of
-- the crate `moka` and the builder of the crate `reqwest`, which may fail, are parameters.
use rapid_gate.Base.{ℕ, ◌*◌, Option, none, some, List, Text, ◌≡◌, refl}
use rapid_gate.Config.{SsrfConfig, UpstreamConfig}
use rapid_gate.Error.{upstream_unreachable, Result, ok, err}
use rapid_gate.RateLimit.Store.{Moka}
use rapid_gate.Ssrf.{IpAddr, check_ssrf}

-- `cache` holds a client for each upstream id; times are milliseconds
pub record UpstreamPool (Cache : Type 0) : Type 0 where
  pub cache : Cache
  pub ssrf : SsrfConfig
  pub default_request_timeout : ℕ
  pub max_body_bytes : ℕ

-- what the builder is told
pub record ClientSettings : Type 0 where
  pub timeout : ℕ
  pub pool_idle_timeout : ℕ
  pub pool_max_idle_per_host : ℕ
  pub tcp_keepalive : ℕ

-- the settings for an upstream: its own, or the defaults
unfoldable pub settings : {C : Type 0} → UpstreamPool C → UpstreamConfig → ClientSettings
settings pool up = record {
  timeout = elim up.timeout_ms [ some t ↦ t | none ↦ pool.default_request_timeout ];
  pool_idle_timeout = elim up.pool [ some p ↦ p.idle_timeout_secs * 1000 | none ↦ 90 * 1000 ];
  pool_max_idle_per_host = elim up.pool [ some p ↦ p.max_idle_per_host | none ↦ 10 ];
  tcp_keepalive = 60 * 1000;
}

module _ {Client : Type 0} (m : Moka Client) (build : ClientSettings → Option Client)
    (to_socket_addrs : Text → Option (List IpAddr)) where
  open m use {Cache}

  unfoldable pub new : SsrfConfig → ℕ → ℕ → UpstreamPool Cache
  new ssrf request_timeout_ms max_body_bytes = record {
    cache = m.build;
    ssrf = ssrf;
    default_request_timeout = request_timeout_ms;
    max_body_bytes = max_body_bytes;
  }

  abbrev pub keep_client :
      UpstreamPool Cache → UpstreamConfig → Option Client → UpstreamPool Cache × Result Client
  keep_client pool up none = (pool, err (upstream_unreachable up.id))
  keep_client pool up (some client) =
      (record pool { cache = m.insert up.id client pool.cache }, ok client)

  abbrev pub cached_or :
      UpstreamPool Cache → UpstreamConfig → Option Client → UpstreamPool Cache × Result Client
  cached_or pool up (some client) = (pool, ok client)
  cached_or pool up none = keep_client pool up (build (settings pool up))

  abbrev pub after_check :
      UpstreamPool Cache → UpstreamConfig → Result (Unit {0}) → UpstreamPool Cache × Result Client
  after_check pool up (err e) = (pool, err e)
  after_check pool up (ok _) = cached_or pool up (m.get up.id pool.cache)

  unfoldable pub client_for :
      UpstreamPool Cache → UpstreamConfig → UpstreamPool Cache × Result Client
  unfolding settings
  client_for pool up = after_check pool up (check_ssrf to_socket_addrs pool.ssrf up.base_url)

  unfoldable pub remove : UpstreamPool Cache → Text → UpstreamPool Cache
  remove pool upstream_id = record pool { cache = m.invalidate upstream_id pool.cache }

  guarded :
      (pool : UpstreamPool Cache) (up : UpstreamConfig) (r : Result (Unit {0})) (client : Client)
      → (after_check pool up r).1 ≡ ok client
      → r ≡ ok tt
  guarded pool up (ok tt) client h = refl
  guarded pool up (err e) client h = cc

  -- A client, new or cached, is only ever given for an upstream whose URL the guard admits at that
  -- moment.
  pub client_for-check_ssrf :
      (pool : UpstreamPool Cache) (up : UpstreamConfig) (client : Client)
      → (client_for pool up).1 ≡ ok client
      → check_ssrf to_socket_addrs pool.ssrf up.base_url ≡ ok tt
  unfolding client_for
  client_for-check_ssrf pool up client h =
      guarded pool up (check_ssrf to_socket_addrs pool.ssrf up.base_url) client h
