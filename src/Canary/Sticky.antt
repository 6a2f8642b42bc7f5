-- ===== src/Canary/Sticky.antt =====
-- src/core/canary/sticky.rs. SHA-256 is a parameter, as the list of the bytes of its digest.
use rapid_gate.Base.{
  ℕ, ◌+◌, ◌*◌, ◌%◌, ltb, ◌==◌, Bool, Option, List, [], ◌∷◌, Text, take, codes, if◌then◌else◌,
}
use rapid_gate.Canary.Policy.{Headers}
use rapid_gate.Loader.Expand.{utf8}

pub record StickySession : Type 0 where
  pub cookie_name : Text
  pub ttl_seconds : ℕ
  pub salt : Text

unfoldable pub new : Text → ℕ → StickySession
new cookie_name ttl_seconds = record {
  cookie_name = cookie_name;
  ttl_seconds = ttl_seconds;
  salt = codes "rapidgate-sticky";
}

unfoldable pub extract_session_id : StickySession → Headers → Option Text
extract_session_id s cookies = cookies s.cookie_name

-- `u64::from_be_bytes`
unfoldable pub from_be_bytes : ℕ → List ℕ → ℕ
from_be_bytes n [] = n
from_be_bytes n (b ∷ bs) = from_be_bytes (n * 256 + b) bs

module _ (sha256 : List ℕ → List ℕ) where
  -- The divisor is positive under the test.
  unfoldable pub select_upstream : Text → ℕ → ℕ
  unfolding from_be_bytes
  select_upstream session_id upstream_count =
      if upstream_count == 0
      then 0
      else from_be_bytes 0 (take 8 (sha256 (utf8 session_id))) % upstream_count

-- `now` is the wall clock in seconds; the sum stands for one that does not overflow a u64.
unfoldable pub is_expired : StickySession → ℕ → ℕ → Bool
is_expired s now created_at = ltb (created_at + s.ttl_seconds) now
