-- ===== src/Lib.antt =====
-- RapidGate, a gateway in front of language-model providers, as functions on explicit state.
--
-- A request is matched against a routing table, checked against the credentials and the rate limit
-- of its route, resolved to an upstream, directly or by a canary draw, and forwarded: an adapter
-- translates it for the provider, the guard of the pool admits the upstream, and the answer, or the
-- stream of events, is translated back.
--
-- Which file models which part of the repository:
--   Base          numbers, lists and texts; a Rust str is the list of its Unicode scalar values
--   Config        the structs and enums of src/core/config
--   Error         CoreError of src/core/error.rs; ServiceError, code and status of
--                 src/service/error.rs; formatted messages are left out
--   Platform      what comes from the regex crate and the Unicode case table, as a parameter
--   PathNorm      normalize of src/core/util/path.rs
--   Routing       src/core/routing: Matcher is matcher.rs (compile, full_match, first_match), Table
--                 is table.rs (RouteTable::new, match_request, Router)
--   Url, Loader   src/service/config_loader.rs: Validate is validate and its helpers, Expand is
--                 expand_placeholders over the UTF-8 bytes of the text, Load is the rest of it with
--                 src/service/hot_reload.rs and src/service/config_center/mod.rs
--   Json          values of the crate serde_json
--   Breaker       src/core/breaker, for calls one after the other and for calls that overlap
--   Canary        select_canary_target of src/service/handler.rs, src/core/canary and
--                 src/core/routing/canary.rs
--   RateLimit     src/core/ratelimit and src/service/middleware/ratelimit.rs; Redis is
--                 redis_store.rs with its Lua scripts
--   Auth          src/service/middleware/auth.rs, src/service/admin/auth.rs and
--                 src/core/auth/apikey.rs; Jwt is src/core/auth/jwt.rs
--   OAuth         src/core/auth/oauth2.rs
--   Ssrf          check_ssrf, is_blocked_ip and client_for of src/service/upstream_pool.rs
--   Handler       src/service/handler.rs: resolve_route, resolve_upstream, list_models and readyz;
--                 Admission is chat_completions and embeddings up to the forwarding, Sse the helpers
--                 that read server-sent events, Stream the scan that cuts a stream into events,
--                 Forward is forward_streaming
--   Providers     src/service/providers: one file for each adapter, Factory is ProviderFactory, and
--                 Registry is src/core/provider/mod.rs
--   Proxy         src/core/proxy: Transformer is transformer.rs, Batch is stream.rs, Ws is the relay
--                 of ws.rs
--   Plugins       src/core/plugins
--   Audit         src/core/audit
--   Admin         the views of src/service/admin/routes.rs, into_response of src/service/error.rs
--                 and src/service/middleware/recovery.rs
--   Hashing       src/core/util/hash.rs and src/core/util/consistent_hash.rs
--   Consul        src/service/config_center/consul.rs
--   Trace         src/core/observability/trace.rs and src/service/middleware/trace.rs
--   Samples       data that the tests share
--
-- Conventions. Numbers are naturals; a u32 that the source adds to keeps its wrap-around. Clocks
-- and random draws are arguments. A cache, SHA-256, DNS, f64, the file system, the HTTP client, JSON
-- and YAML texts, wasmtime and the comparison of slices in constant time are parameters, with their
-- documented laws as hypotheses where a theorem needs them. A lookup that may index out of bounds
-- has a panic among its results, and so has a request that sets a field of a body by index.
--
-- The loop of expand_placeholders runs on fuel, one more than the number of bytes: each turn reads
-- at least one byte. The loop that cuts events out of the buffer runs on fuel, one more than the
-- length of the buffer: each turn drops at least two bytes. All other loops are structural.
--
-- Not modelled: the upgrade to a WebSocket, the client of etcd, metrics and log lines, the text
-- of messages, and the wiring of the server and the command line, which are I/O.
pub mod Base
pub mod Config
pub mod Error
pub mod Platform
pub mod PathNorm
pub mod Routing
pub mod Url
pub mod Loader
pub mod Breaker
pub mod Canary
pub mod Handler
pub mod Auth
pub mod Ssrf
pub mod RateLimit
pub mod Hashing
pub mod Samples
pub mod Json
pub mod Proxy
pub mod Providers
pub mod OAuth
pub mod Plugins
pub mod Audit
pub mod Admin
pub mod Trace
pub mod Consul
