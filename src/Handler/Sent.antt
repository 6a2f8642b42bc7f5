-- ===== src/Handler/Sent.antt =====
-- What `forward_streaming` sends, and when: only to an upstream that the guard admits, of a known
-- provider, and for a body that parses.
use rapid_gate.Base.{ℕ, Bool, Option, none, some, List, Text, codes, ◌++◌, ◌≡◌, refl, sym, ap, ◌∙◌}
use rapid_gate.Base.Maybe.{◌>>=◌}
use rapid_gate.Config.{UpstreamConfig}
use rapid_gate.Error.{Result, ok, err}
use rapid_gate.Json.{Value}
use rapid_gate.Proxy.Transformer.{default, transform_command}
use rapid_gate.Providers.Types.{ProviderKind, ProviderRequest}
use rapid_gate.Providers.Factory.{transform_request, build_url}
use rapid_gate.RateLimit.Store.{Moka}
use rapid_gate.Ssrf.{IpAddr, check_ssrf}
use rapid_gate.Ssrf.Pool.{UpstreamPool, ClientSettings, client_for, client_for-check_ssrf}
use rapid_gate.Handler.Forward.{
  Sent, Reply, provider_kind, provider_request, upstream_request, send_request, after_transform,
  after_json, after_kind, forward_streaming,
}

module _ (utf8_lossy : List ℕ → Text) (from_str : Text → Option Value) (to_vec : Value → List ℕ)
    (from_slice : List ℕ → Option Value) (print : Value → Text) {Client : Type 0} (m : Moka Client)
    (build : ClientSettings → Option Client) (to_socket_addrs : Text → Option (List IpAddr))
    (send : Client → Sent → Reply) where
  -- what is sent for a request is what the adapter made of it, and the guard admits the upstream
  pub record IsSent (pool : UpstreamPool m.Cache) (up : UpstreamConfig) (kind : ProviderKind)
      (req : ProviderRequest) (s : Sent) : Type 0 where
    pub admitted : check_ssrf to_socket_addrs pool.ssrf up.base_url ≡ ok tt
    pub url : s.url ≡ build_url kind req
    pub authorization : s.authorization ≡ codes "Bearer " ++ up.api_key
    pub body : transform_request kind req ≡ some (ok s.body)

  send_request-sent :
      (kind : ProviderKind) (stream : Bool) (sent s : Sent)
      (given : UpstreamPool m.Cache × Result Client)
      → (send_request utf8_lossy from_str to_vec from_slice print m build to_socket_addrs send kind
          stream sent given).1
        ≡ some s
      → (sent ≡ s) × (client : Client) × (given.1 ≡ ok client)
  send_request-sent kind stream sent s (pool, err e) h = cc
  send_request-sent kind stream sent s (pool, ok client) h = (cc, client, refl)

  module _ (pool : UpstreamPool m.Cache) (up : UpstreamConfig) where
    after_transform-sent :
        (kind : ProviderKind) (req : ProviderRequest) (o : Option (Result Value)) (s : Sent)
        → transform_request kind req ≡ o
        → (after_transform utf8_lossy from_str to_vec from_slice print m build to_socket_addrs send
            pool up kind req o).1
          ≡ some s
        → IsSent pool up kind req s
    after_transform-sent kind req none s e h = cc
    after_transform-sent kind req (some (err x)) s e h = cc
    after_transform-sent kind req (some (ok body)) s e h =
        let (same, client, given) =
          send_request-sent kind req.stream (upstream_request up kind req body) s
            (client_for m build to_socket_addrs pool up) h in
        record {
          admitted = client_for-check_ssrf m build to_socket_addrs pool up client given;
          url = unfold upstream_request in ap (λ (t : Sent). t.url) (sym same);
          authorization = unfold upstream_request in ap (λ (t : Sent). t.authorization) (sym same);
          body = e ∙ unfold upstream_request in ap (λ (t : Sent). some (ok t.body)) same;
        }

    -- what a request that was sent rests on
    abbrev pub Grounds : Text → Option (List ℕ) → Sent → Type 0
    Grounds operation body s =
        (kind : ProviderKind) × (json : Value) × (provider_kind up.provider ≡ ok kind)
        × ((body >>= from_slice) ≡ some json)
        × IsSent pool up kind (provider_request up operation (transform_command default json)) s

    after_json-sent :
        (operation : Text) (bytes : List ℕ) (kind : ProviderKind) (o : Option Value) (s : Sent)
        → provider_kind up.provider ≡ ok kind
        → from_slice bytes ≡ o
        → (after_json utf8_lossy from_str to_vec from_slice print m build to_socket_addrs send pool
            up operation kind o).1
          ≡ some s
        → Grounds operation (some bytes) s
    after_json-sent operation bytes kind none s known parsed h = cc
    after_json-sent operation bytes kind (some json) s known parsed h =
        let req = provider_request up operation (transform_command default json) in
        (kind, json, known, parsed, after_transform-sent kind req _ s refl h)

    after_kind-sent :
        (operation : Text) (body : Option (List ℕ)) (r : Result ProviderKind) (s : Sent)
        → provider_kind up.provider ≡ r
        → (after_kind utf8_lossy from_str to_vec from_slice print m build to_socket_addrs send pool
            up operation body r).1
          ≡ some s
        → Grounds operation body s
    after_kind-sent operation body (err e) s known h = cc
    after_kind-sent operation none (ok kind) s known h = cc
    after_kind-sent operation (some bytes) (ok kind) s known h =
        after_json-sent operation bytes kind (from_slice bytes) s known refl h

    -- A request goes to an upstream only if its provider is known, the body parses and is translated,
    -- and the guard admits its URL at that moment; it is what the adapter made of the body, to the
    -- adapter's URL, with the upstream's key.
    pub forward_streaming-sent :
        (operation : Text) (body : Option (List ℕ)) (s : Sent)
        → (forward_streaming utf8_lossy from_str to_vec from_slice print m build to_socket_addrs
            send pool up operation body).1
          ≡ some s
        → Grounds operation body s
    unfolding forward_streaming
    forward_streaming-sent operation body s h =
        after_kind-sent operation body (provider_kind up.provider) s refl h
