-- ===== src/Auth/Jwt.antt =====
-- src/core/auth/jwt.rs. The crate `jsonwebtoken` is a parameter: its keys, and whether `decode`
-- accepts a token under a validation.
use rapid_gate.Base.{ℕ, Bool, true, false, Text, codes, Option, none, some, List, [], ◌∷◌}
use rapid_gate.Error.{auth, config, Result, ok, err, guard}

pub data Algorithm : Type 0 where
  hs256 rs256 : Algorithm

-- `iss` lists the issuers that are accepted, where they are checked
pub record Validation : Type 0 where
  pub algorithm : Algorithm
  pub validate_exp : Bool
  pub validate_aud : Bool
  pub iss : Option (List Text)

pub record JwtAuthenticator (Key : Type 0) : Type 0 where
  pub decoding_key : Key
  pub algorithm : Algorithm
  pub issuer : Option Text

module _ {Key : Type 0} where
  unfoldable pub new_hs256 : (List ℕ → Key) → List ℕ → Option Text → JwtAuthenticator Key
  new_hs256 from_secret secret issuer = record {
    decoding_key = from_secret secret;
    algorithm = hs256;
    issuer = issuer;
  }

  unfoldable pub new_rs256 :
      (List ℕ → Option Key) → List ℕ → Option Text → Result (JwtAuthenticator Key)
  new_rs256 from_rsa_pem pem issuer = elim (from_rsa_pem pem) [
    | none ↦ err (config (codes "invalid RSA key"))
    | some key ↦ ok (record { decoding_key = key; algorithm = rs256; issuer = issuer })
  ]

  unfoldable pub validation_of : JwtAuthenticator Key → Validation
  validation_of a = record {
    algorithm = a.algorithm;
    validate_exp = true;
    validate_aud = false;
    iss = elim a.issuer [ none ↦ none | some i ↦ some (i ∷ []) ];
  }

  unfoldable pub verify_jwt :
      (Text → Key → Validation → Bool) → JwtAuthenticator Key → Text → Result (Unit {0})
  unfolding validation_of
  verify_jwt decode a credential =
      guard (decode credential a.decoding_key (validation_of a)) (auth (codes "jwt verify failed"))
