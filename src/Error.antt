-- ===== src/Error.antt =====
-- The error type of the core, and its image in HTTP: src/core/error.rs and src/service/error.rs.
-- The texts inside an error only reach the log and the message of the response, so that an error
-- carries the text that identifies it and no formatted message.
use rapid_gate.Base.{ℕ, Bool, true, false, Text, codes, leb, ltb, ◌&&◌, if◌then◌else◌}

pub data CoreError : Type 0 where
  config : Text → CoreError
  route_not_found : Text → CoreError
  auth : Text → CoreError
  rate_limited : CoreError
  breaker_open : Text → CoreError
  upstream_unreachable : Text → CoreError
  upstream_timeout : ℕ → CoreError
  bad_request : Text → CoreError
  internal : Text → CoreError

-- `Result<A, CoreError>`
pub data Result {ℓ} (A : Type ℓ) : Type ℓ where
  ok : A → Result A
  err : CoreError → Result A

-- `Option::ok_or_else`, of a condition
abbrev pub guard : Bool → CoreError → Result (Unit {0})
guard false error = err error
guard true error = ok tt

-- the operator `?`
infixl 5 ◌>>=◌ ◌>>◌
abbrev pub ◌>>=◌ {ℓ κ} : {A : Type ℓ} {B : Type κ} → Result A → (A → Result B) → Result B
err error >>= next = err error
ok value >>= next = next value

abbrev pub ◌>>◌ {ℓ} : {B : Type ℓ} → Result (Unit {0}) → Result B → Result B
first >> second = first >>= λ _. second

pub data ServiceError : Type 0 where
  core : CoreError → ServiceError
  upstream : ℕ → ServiceError
  io : ServiceError
  config_load : Text → ServiceError

unfoldable pub code : ServiceError → Text
code (core (route_not_found _)) = codes "route_not_found"
code (core (auth _)) = codes "unauthorized"
code (core rate_limited) = codes "rate_limited"
code (core (breaker_open _)) = codes "breaker_open"
code (core (upstream_unreachable _)) = codes "upstream_unreachable"
code (core (upstream_timeout _)) = codes "upstream_timeout"
code (core (bad_request _)) = codes "bad_request"
code (core (config _)) = codes "config_error"
code (core (internal _)) = codes "internal"
code (upstream _) = codes "upstream_error"
code io = codes "io_error"
code (config_load _) = codes "config_load_error"

-- `StatusCode::from_u16` accepts 100 to 999.
unfoldable pub status : ServiceError → ℕ
status (core (route_not_found _)) = 404
status (core (auth _)) = 401
status (core rate_limited) = 429
status (core (breaker_open _)) = 503
status (core (upstream_unreachable _)) = 502
status (core (upstream_timeout _)) = 504
status (core (bad_request _)) = 400
status (core (config _)) = 503
status (upstream s) = if leb 100 s && ltb s 1000 then s else 502
status (config_load _) = 503
status (core (internal _)) = 500
status io = 500
