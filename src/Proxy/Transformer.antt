-- ===== src/Proxy/Transformer.antt =====
-- The transformer of src/core/proxy/transformer.rs: headers that are passed on or injected, and
-- rules that rewrite or delete fields of a JSON body.
use rapid_gate.Base.{
  Bool, Text, codes, text_eq, split, ascii_lower, any, Option, none, some, List, [], ◌∷◌, map,
  if◌then◌else◌,
}
use rapid_gate.Json.{Value, lookup, insert, remove, object}

-- An `http::HeaderMap`: names in lower case, each with its values. Its iteration lists a name once
-- for each of its values.
abbrev pub HeaderMap : Type 0
HeaderMap = List (Text × Text)

-- `HeaderMap::insert` replaces every value that the name has.
unfoldable pub drop_name : Text → HeaderMap → HeaderMap
drop_name n [] = []
drop_name n ((m, v) ∷ hs) = let rest = drop_name n hs in if text_eq m n then rest else (m, v) ∷ rest

unfoldable pub set_header : Text → Text → HeaderMap → HeaderMap
set_header n v hs = (n, v) ∷ drop_name n hs

-- `HeaderMap::get_all`
unfoldable pub get_all : Text → HeaderMap → List Text
get_all n [] = []
get_all n ((m, v) ∷ hs) = let rest = get_all n hs in if text_eq m n then v ∷ rest else rest

pub record TransformedRequest : Type 0 where
  pub method : Text
  pub path : Text
  pub headers : HeaderMap

unfoldable pub transform_request : Text → Text → HeaderMap → TransformedRequest
transform_request method path headers = record { method = method; path = path; headers = headers }

abbrev pub hop_by_hop_names : List Text
hop_by_hop_names =
    codes "connection"
    ∷ codes "keep-alive"
    ∷ codes "proxy-authenticate"
    ∷ codes "proxy-authorization"
    ∷ codes "te"
    ∷ codes "trailers"
    ∷ codes "transfer-encoding"
    ∷ codes "upgrade"
    ∷ []

unfoldable pub is_hop_by_hop : Text → Bool
unfolding ascii_lower text_eq
is_hop_by_hop name = any (text_eq (map ascii_lower name)) hop_by_hop_names

-- the loop over the headers of the upstream's response, `out` being what is passed on so far
unfoldable pub response_headers_from : HeaderMap → HeaderMap → HeaderMap
response_headers_from [] out = out
response_headers_from ((k, v) ∷ hs) out =
    response_headers_from hs (if is_hop_by_hop k then out else set_header k v out)

unfoldable pub transform_response_headers : HeaderMap → HeaderMap
transform_response_headers hs = response_headers_from hs []

pub record BodyRule : Type 0 where
  pub field : Text
  pub rewrite_to : Option Value

pub record Transformer : Type 0 where
  pub inject : List (Text × Text)
  pub body_rules : List BodyRule

abbrev pub default : Transformer
default = record { inject = []; body_rules = [] }

unfoldable pub with_injected_headers : Transformer → List (Text × Text) → Transformer
with_injected_headers t pairs = record t { inject = pairs }

unfoldable pub with_body_rules : Transformer → List BodyRule → Transformer
with_body_rules t rules = record t { body_rules = rules }

-- `HeaderName::from_bytes` and `HeaderValue::from_str` are those of the http library.
module _ (header_name header_value : Text → Option Text) where
  abbrev inject_one : Option Text → Option Text → HeaderMap → HeaderMap
  inject_one (some n) (some v) hs = set_header n v hs
  inject_one _ _ hs = hs

  unfoldable pub inject_from : List (Text × Text) → HeaderMap → HeaderMap
  inject_from [] hs = hs
  inject_from ((k, v) ∷ kvs) hs = inject_from kvs (inject_one (header_name k) (header_value v) hs)

  unfoldable pub inject_headers : Transformer → HeaderMap → HeaderMap
  inject_headers t hs = inject_from t.inject hs

  unfoldable pub header_map_with_injected : Transformer → HeaderMap
  header_map_with_injected t = inject_headers t []

-- the write at the end of a path: only an object takes it
unfoldable pub edit_last : Text → Option Value → Value → Value
edit_last last (some v) (object fs) = object (insert last v fs)
edit_last last none (object fs) = object (remove last fs)
edit_last last to body = body

-- the walk along the path; a value on the way that is missing leaves the body as it is
unfoldable pub edit_path : List Text → Option Value → Value → Value
edit_path [] to body = body
edit_path (last ∷ []) to body = edit_last last to body
edit_path (seg ∷ next ∷ segs) to (object fs) =
    let write = λ (v : Value). object (insert seg (edit_path (next ∷ segs) to v) fs) in
    elim (lookup seg fs) [ none ↦ object fs | some v ↦ write v ]
edit_path (seg ∷ next ∷ segs) to body = body

unfoldable pub apply_body_rule : Value → BodyRule → Value
apply_body_rule body rule = edit_path (split b'.' rule.field) rule.rewrite_to body

unfoldable pub apply_rules : List BodyRule → Value → Value
apply_rules [] body = body
apply_rules (rule ∷ rules) body = apply_rules rules (apply_body_rule body rule)

unfoldable pub apply_body : Transformer → Value → Value
apply_body t body = apply_rules t.body_rules body

unfoldable pub transform_command : Transformer → Value → Value
transform_command t body = apply_body t body

-- `apply_request` injects the headers and transforms the body.
unfoldable pub apply_request :
    (header_name header_value : Text → Option Text)
    → Transformer
    → Value
    → HeaderMap
    → Value × HeaderMap
apply_request header_name header_value t body hs =
    (apply_body t body, inject_headers header_name header_value t hs)
