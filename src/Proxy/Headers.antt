-- ===== src/Proxy/Headers.antt =====
-- Which headers of an upstream's response the gateway passes on, and which it injects.
use rapid_gate.Base.{Text, text_eq, text_eq_iff, List, [], ◌∷◌, ◌≡◌, refl, arith, if◌then◌else◌}
use rapid_gate.Proxy.Transformer.{
  HeaderMap, drop_name, set_header, get_all, is_hop_by_hop, response_headers_from,
  transform_response_headers,
}

-- only the last of a list of values, if there is one
abbrev pub last_only : List Text → List Text
last_only [] = []
last_only (v ∷ []) = v ∷ []
last_only (v ∷ w ∷ vs) = last_only (w ∷ vs)

get_all-drop_name :
    (n m : Text) (hs : HeaderMap)
    → get_all m (drop_name n hs) ≡ (if text_eq n m then [] else get_all m hs)
unfolding get_all drop_name
get_all-drop_name n m [] = ground arith
get_all-drop_name n m ((k, v) ∷ hs) =
    ground (arith, text_eq_iff n m, text_eq_iff k n, text_eq_iff k m, get_all-drop_name n m hs)

pub get_all-set_header :
    (n v m : Text) (hs : HeaderMap)
    → get_all m (set_header n v hs) ≡ (if text_eq n m then v ∷ [] else get_all m hs)
unfolding get_all set_header
get_all-set_header n v m hs = ground (arith, get_all-drop_name n m hs)

-- what is passed on of the values `old`, the ones that a name has so far, and `new`
abbrev newest : List Text → List Text → List Text
newest old [] = old
newest old (v ∷ vs) = last_only (v ∷ vs)

newest-cons : (v : Text) (vs old : List Text) → newest (v ∷ []) vs ≡ newest old (v ∷ vs)
newest-cons v [] old = refl
newest-cons v (w ∷ vs) old = refl

newest_nil : (vs : List Text) → newest [] vs ≡ last_only vs
newest_nil [] = refl
newest_nil (v ∷ vs) = refl

get_all-response_headers_from :
    (n : Text) (hs out : HeaderMap)
    → get_all n (response_headers_from hs out)
      ≡ (if is_hop_by_hop n then get_all n out else newest (get_all n out) (get_all n hs))
unfolding get_all response_headers_from
get_all-response_headers_from n [] out = ground arith
get_all-response_headers_from n ((k, v) ∷ hs) out = ground (
  arith,
  get_all-response_headers_from n hs (if is_hop_by_hop k then out else set_header k v out),
  get_all-set_header k v n out,
  text_eq_iff k n,
  newest-cons v (get_all n hs) (get_all n out),
)

-- Of the headers of an upstream's response, a hop-by-hop header is dropped, and of the values of
-- any other only the last is passed on.
pub transform_response_headers_lem :
    (hs : HeaderMap) (n : Text)
    → get_all n (transform_response_headers hs)
      ≡ (if is_hop_by_hop n then [] else last_only (get_all n hs))
unfolding transform_response_headers get_all
transform_response_headers_lem hs n =
    ground (arith, get_all-response_headers_from n hs [], newest_nil (get_all n hs))
