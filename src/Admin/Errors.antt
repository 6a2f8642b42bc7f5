-- ===== src/Admin/Errors.antt =====
-- The responses that tell of an error: `into_response` of src/service/error.rs and the middleware of
-- src/service/middleware/recovery.rs.
use rapid_gate.Base.{ℕ, Text, codes, Option, none, some, [], ◌∷◌}
use rapid_gate.Error.{ServiceError, code, status}
use rapid_gate.Json.{Value, string, json_object}

pub record Response : Type 0 where
  pub status : ℕ
  pub content_type : Text
  pub body : Value

-- `Display` of the error is the text of its message.
unfoldable pub into_response : (ServiceError → Text) → ServiceError → Response
unfolding code status
into_response display e = record {
  status = status e;
  content_type = codes "application/json";
  body = json_object (
      (
        codes "error",
        json_object (
            (codes "code", string (code e))
            ∷ (codes "message", string (display e))
            ∷ (codes "request_id", string [])
            ∷ []),
      )
      ∷ []);
}

-- `x-request-id`, where it is there and is text
abbrev pub request_id_of : Option Text → Text
request_id_of none = []
request_id_of (some id) = id

-- `none` where the handler panics; any other response is passed on
unfoldable pub recovery : {A : Type 0} → (Response → A) → Option Text → Option A → A
recovery respond request_id (some response) = response
recovery respond request_id none = respond (record {
  status = 500;
  content_type = codes "application/json";
  body = json_object (
      (
        codes "error",
        json_object (
            (codes "code", string (codes "internal_error"))
            ∷ (codes "message", string (codes "internal server error"))
            ∷ (codes "request_id", string (request_id_of request_id))
            ∷ []),
      )
      ∷ []);
})
