-- ===== src/Handler/Forward.antt =====
-- `forward_streaming` of src/service/handler.rs: from a request that is admitted to the response
-- of its upstream.
use rapid_gate.Base.{
  ℕ, Bool, false, Option, none, some, List, [], ◌++◌, map, leb, ltb, ◌&&◌, Text, codes, text_eq,
  if◌then◌else◌,
}
use rapid_gate.Base.Maybe.{◌>>=◌}
use rapid_gate.Config.{UpstreamConfig}
use rapid_gate.Error.{config, internal, Result, ok, err}
use rapid_gate.Json.{Value, get, as_bool, as_str, unwrap_or}
use rapid_gate.Proxy.Transformer.{default, transform_command}
use rapid_gate.Providers.Types.{ProviderKind, openai, anthropic, gemini, local, ProviderRequest}
use rapid_gate.Providers.Factory.{transform_request, transform_response, build_url}
use rapid_gate.RateLimit.Store.{Moka}
use rapid_gate.Ssrf.{IpAddr}
use rapid_gate.Ssrf.Pool.{UpstreamPool, ClientSettings, client_for}
use rapid_gate.Handler.Stream.{Chunk, Event, Piece, scan_events, transform_event}

-- the request that goes to the upstream
pub record Sent : Type 0 where
  pub url : Text
  pub authorization : Text
  pub body : Value

-- what comes back: nothing, or a status with a body, `whole` being `none` if it cannot be read
pub data Reply : Type 0 where
  unreachable : Reply
  replied : ℕ → Option (List ℕ) → List Chunk → Reply

pub data Response : Type 0 where
  streamed : List Piece → Response
  complete : Text → Response

unfoldable pub provider_kind : Text → Result ProviderKind
unfolding text_eq
provider_kind name =
    if text_eq name (codes "openai")
    then ok openai
    else if text_eq name (codes "anthropic")
    then ok anthropic
    else if text_eq name (codes "gemini")
    then ok gemini
    else if text_eq name (codes "local")
    then ok local
    else err (config name)

unfoldable pub is_stream : Value → Bool
unfolding get as_bool
is_stream body = unwrap_or false (do v ← get (codes "stream") body; as_bool v)

unfoldable pub model_of : Value → Text
unfolding get as_str
model_of body = unwrap_or (codes "unknown") (do v ← get (codes "model") body; as_str v)

unfoldable pub provider_request : UpstreamConfig → Text → Value → ProviderRequest
unfolding is_stream model_of
provider_request up operation body = record {
  body = body;
  base_url = up.base_url;
  api_key = up.api_key;
  model = model_of body;
  stream = is_stream body;
  operation = operation;
}

unfoldable pub upstream_request : UpstreamConfig → ProviderKind → ProviderRequest → Value → Sent
upstream_request up kind req body = record {
  url = build_url kind req;
  authorization = codes "Bearer " ++ up.api_key;
  body = body;
}

-- `StatusCode::is_success`
abbrev pub is_success : ℕ → Bool
is_success status = leb 200 status && ltb status 300

module _ (utf8_lossy : List ℕ → Text) (from_str : Text → Option Value) (to_vec : Value → List ℕ)
    (from_slice : List ℕ → Option Value) (print : Value → Text) where
  -- step 11, with the answer to a request that asked for a stream or not
  abbrev pub stream_response : ProviderKind → ℕ → Option (List Event) → Option (Result Response)
  stream_response kind status none = none
  stream_response kind status (some events) =
      some
        (ok (streamed (map (transform_event from_str to_vec from_slice print kind status) events)))

  abbrev pub print_response : Result Value → Result Response
  print_response (err e) = err e
  print_response (ok v) = ok (complete (print v))

  abbrev pub whole_response : ProviderKind → ℕ → Option (List ℕ) → Result Response
  whole_response kind status none = err (internal (codes "failed to read upstream response"))
  whole_response kind status (some body) = print_response (
      transform_response from_slice kind
        (record { body = body; status = status; is_stream = false }))

  -- steps 10 and 11; `none` where the fuel of the scan runs out
  unfoldable pub on_reply : ProviderKind → Bool → Reply → Option (Result Response)
  on_reply kind stream unreachable = some (err (internal (codes "upstream request failed")))
  on_reply kind stream (replied status whole chunks) =
      if is_success status
      then (if stream
          then stream_response kind status (scan_events utf8_lossy ([], []) chunks)
          else some (whole_response kind status whole))
      else some (err (internal (codes "upstream returned")))

  module _ {Client : Type 0} (m : Moka Client) (build : ClientSettings → Option Client)
      (to_socket_addrs : Text → Option (List IpAddr)) (send : Client → Sent → Reply) where
    -- the pool afterwards, what was sent, and the answer; `none` where the handler panics
    abbrev pub Forwarded : Type 0
    Forwarded = UpstreamPool m.Cache × Option Sent × Option (Result Response)

    -- steps 9 to 11
    abbrev pub send_request :
        ProviderKind → Bool → Sent → UpstreamPool m.Cache × Result Client → Forwarded
    send_request kind stream sent (pool, err e) = (pool, none, some (err e))
    send_request kind stream sent (pool, ok client) =
        (pool, some sent, on_reply kind stream (send client sent))

    -- steps 8 to 11
    abbrev pub after_transform :
        UpstreamPool m.Cache
        → UpstreamConfig
        → ProviderKind
        → ProviderRequest
        → Option (Result Value)
        → Forwarded
    after_transform pool up kind req none = (pool, none, none)
    after_transform pool up kind req (some (err e)) = (pool, none, some (err e))
    after_transform pool up kind req (some (ok body)) =
        send_request kind req.stream (upstream_request up kind req body)
          (client_for m build to_socket_addrs pool up)

    -- steps 4 to 11, for a body that parses
    abbrev pub after_parse :
        UpstreamPool m.Cache → UpstreamConfig → Text → ProviderKind → Value → Forwarded
    after_parse pool up operation kind json =
        let req = provider_request up operation (transform_command default json) in
        after_transform pool up kind req (transform_request kind req)

    -- step 3, for a body that was read
    abbrev pub after_json :
        UpstreamPool m.Cache → UpstreamConfig → Text → ProviderKind → Option Value → Forwarded
    after_json pool up operation kind none =
        (pool, none, some (err (internal (codes "invalid JSON body"))))
    after_json pool up operation kind (some json) = after_parse pool up operation kind json

    -- step 3; `none` for a body that is too long or cannot be read
    abbrev pub after_kind :
        UpstreamPool m.Cache
        → UpstreamConfig
        → Text
        → Option (List ℕ)
        → Result ProviderKind
        → Forwarded
    after_kind pool up operation body (err e) = (pool, none, some (err e))
    after_kind pool up operation none (ok kind) =
        (pool, none, some (err (internal (codes "failed to read request body"))))
    after_kind pool up operation (some bytes) (ok kind) =
        after_json pool up operation kind (from_slice bytes)

    unfoldable pub forward_streaming :
        UpstreamPool m.Cache → UpstreamConfig → Text → Option (List ℕ) → Forwarded
    unfolding provider_kind provider_request upstream_request
    forward_streaming pool up operation body =
        after_kind pool up operation body (provider_kind up.provider)
