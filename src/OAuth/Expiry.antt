-- ===== src/OAuth/Expiry.antt =====
-- When a token of the cache ends: as the provider said, and as `is_expired` of
-- src/core/auth/oauth2.rs tests it.
use rapid_gate.Base.{ℕ, ◌≤◌, ◌<◌, ◌+◌, leb, true, false, Option, none, some, ◌≡◌, refl, arith}
use rapid_gate.OAuth.Client.{CachedToken, is_expired, TokenResponse, cached_token}

-- a token without an end is always fresh, and any other before its end
abbrev pub LivesAt : Option ℕ → ℕ → Type 0
LivesAt none now = Unit
LivesAt (some end) now = now < end

abbrev pub IsFresh : ℕ → CachedToken → Type 0
IsFresh now t = LivesAt t.expires_at now

pub IsFresh-is_expired : (now : ℕ) (t : CachedToken) → IsFresh now t → is_expired now t ≡ false
unfolding is_expired
IsFresh-is_expired now t fresh = go t.expires_at fresh
  where
    go :
        (o : Option ℕ)
        → LivesAt o now
        → (elim o [ none ↦ false | some expiry ↦ leb expiry now ]) ≡ false
    go none h = refl
    go (some expiry) h = ground arith

pub ended-is_expired :
    (now end : ℕ) (t : CachedToken) → t.expires_at ≡ some end → end ≤ now → is_expired now t ≡ true
unfolding is_expired
ended-is_expired now end t e h = rw e (ground arith)

-- what the provider grants at a time: its token, which ends after its lifetime if it has one
abbrev pub end_of : ℕ → Option ℕ → Option ℕ
end_of done none = none
end_of done (some lifetime) = some (done + lifetime)

abbrev pub issued : ℕ → TokenResponse → CachedToken
issued done r = record {
  access_token = r.access_token;
  expires_at = end_of done r.expires_in;
  refresh_token = r.refresh_token;
}

pub cached_token-issued : (done : ℕ) (r : TokenResponse) → cached_token done r ≡ issued done r
unfolding cached_token
cached_token-issued done r = λ i. record {
  access_token = r.access_token;
  expires_at = go r.expires_in i;
  refresh_token = r.refresh_token;
}
  where
    go :
        (o : Option ℕ)
        → (elim o [ none ↦ none | some lifetime ↦ some (done + lifetime) ]) ≡ end_of done o
    go none = refl
    go (some lifetime) = refl
