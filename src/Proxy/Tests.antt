-- ===== src/Proxy/Tests.antt =====
-- The unit tests of src/core/proxy/transformer.rs.
use rapid_gate.Base.{codes, split, none, some, [], ◌∷◌, ◌≡◌, refl, inl, inr, if◌then◌else◌, text_eq}
use rapid_gate.Json.{Value, string, json_object, json_array, json_number, lookup, get, insert}
use rapid_gate.Base.{List, true, none}
use rapid_gate.Base.{some}
use rapid_gate.Proxy.Ws.{text, pong, close, Received, received, stream_error, turn, Relay, start}
use rapid_gate.Proxy.Ws.{binary, action_of, act}
use rapid_gate.Proxy.Transformer.{
  HeaderMap, get_all, is_hop_by_hop, transform_response_headers, BodyRule, default, apply_body,
  apply_body_rule, inject_headers, with_injected_headers, with_body_rules, apply_rules, edit_path,
  edit_last, response_headers_from, set_header, drop_name, inject_from,
}
use rapid_gate.Proxy.Body.{
  get_path, is_holder, Apart, apply_body_rule-target, apply_body_rule-elsewhere,
}

abbrev body : Value
body = json_object (
    (codes "model", string (codes "gpt-4"))
    ∷ (codes "max_tokens", json_number 100)
    ∷ (
      codes "request",
      json_object (
          (codes "meta", json_object ((codes "tags", json_array (string (codes "a") ∷ [])) ∷ []))
          ∷ (codes "id", json_number 1)
          ∷ []),
    )
    ∷ [])

abbrev rewrite_limit : BodyRule
rewrite_limit = record { field = codes "max_tokens"; rewrite_to = some (json_number 512) }

abbrev delete_tags : BodyRule
delete_tags = record { field = codes "request.meta.tags"; rewrite_to = none }

default_passthrough : apply_body default body ≡ body
unfolding apply_body apply_rules
default_passthrough = refl

rewrites_and_deletes :
    get_path
      (codes "max_tokens" ∷ [])
      (apply_body (with_body_rules default (rewrite_limit ∷ delete_tags ∷ [])) body)
    ≡ some (json_number 512)
unfolding apply_body apply_body_rule with_body_rules get_path get apply_rules edit_path split
    edit_last lookup insert text_eq
rewrites_and_deletes = refl

apply_body_rule-target_example :
    get_path (split b'.' (codes "request.meta.tags")) (apply_body_rule body delete_tags)
    ≡ (if is_holder (split b'.' (codes "request.meta.tags")) body then none else none)
apply_body_rule-target_example = apply_body_rule-target body delete_tags

apart : Apart (split b'.' (codes "request.meta.tags")) (codes "request" ∷ codes "id" ∷ [])
unfolding split text_eq
apart = inr (inl refl)

apply_body_rule-elsewhere_example :
    get_path (codes "request" ∷ codes "id" ∷ []) (apply_body_rule body delete_tags)
    ≡ get_path (codes "request" ∷ codes "id" ∷ []) body
apply_body_rule-elsewhere_example =
    apply_body_rule-elsewhere body delete_tags (codes "request" ∷ codes "id" ∷ []) apart

abbrev response_headers : HeaderMap
response_headers =
    (codes "content-type", codes "text/event-stream")
    ∷ (codes "connection", codes "close")
    ∷ (codes "set-cookie", codes "a=1")
    ∷ (codes "set-cookie", codes "b=2")
    ∷ []

strips_hop_by_hop : get_all (codes "connection") (transform_response_headers response_headers) ≡ []
unfolding transform_response_headers get_all response_headers_from is_hop_by_hop set_header
    drop_name
strips_hop_by_hop = refl

injects_headers :
    get_all (codes "x-gateway-tag") (
      inject_headers
        (λ n. some n)
        (λ v. some v)
        (with_injected_headers default ((codes "x-gateway-tag", codes "billing-a") ∷ []))
        response_headers)
    ≡ codes "billing-a" ∷ []
unfolding inject_headers with_injected_headers get_all inject_from set_header text_eq drop_name
injects_headers = refl

-- the client says hello, sends data and leaves; the upstream answers in between
abbrev from_client : List Received
from_client =
    received (text (codes "hi"))
    ∷ received (pong [])
    ∷ received (binary (1 ∷ 2 ∷ []))
    ∷ received (close (some (1000, codes "bye")))
    ∷ []

abbrev from_upstream : List Received
from_upstream = received (text (codes "hello")) ∷ stream_error ∷ []

abbrev opened : Relay
opened = record { up = start from_client; down = start from_upstream }

abbrev step_up : Relay → Relay
step_up r = record r { up = turn true r.up }

abbrev gone : Relay
gone =
    step_up (step_up (record (step_up (step_up opened)) { down = turn true (start from_upstream) }))

told_all :
    gone.up.sent ≡ text (codes "hi") ∷ binary (1 ∷ 2 ∷ []) ∷ close (some (1000, codes "bye")) ∷ []
unfolding turn action_of act
told_all = refl
