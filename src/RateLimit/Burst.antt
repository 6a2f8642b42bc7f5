-- ===== src/RateLimit/Burst.antt =====
-- A new token bucket admits its burst at one instant, and no more.
use rapid_gate.Base.{
  ℕ, zero, suc, ◌-◌, min, ◌^◌, ◌<◌, ◌≤◌, true, false, none, List, [], ◌∷◌, ◌++◌, replicate, Text,
  ◌≡◌, ◌≢◌, refl, sym, ap, ◌∙◌, arith, Bool-cases, inl, inr,
}
use rapid_gate.RateLimit.{Decision, allow, deny}
use rapid_gate.RateLimit.Store.{
  Moka, Keeps, current, current-some, current-none, update, update-get, update-get_other,
}
use rapid_gate.RateLimit.Bucket.{Float, IsExact, Bucket, TokenBucket, full, new, refill, check}

-- `n` requests granted of `k`, then the others denied
abbrev pub granted : ℕ → ℕ → List Decision
granted k n = replicate (min k n) allow ++ replicate (k - n) deny

granted-zero : (n : ℕ) → granted 0 n ≡ []
granted-zero n =
    let a : min 0 n ≡ 0 = omega arith in let b : 0 - n ≡ 0 = omega arith in rw (a, b) refl

granted-deny : (k : ℕ) → granted (suc k) 0 ≡ deny ∷ granted k 0
granted-deny k =
    let a : min (suc k) 0 ≡ 0 = omega arith in
    let b : suc k - 0 ≡ suc k = omega arith in
    let a' : min k 0 ≡ 0 = omega arith in let b' : k - 0 ≡ k = omega arith in rw (a, b, a', b') refl

granted-allow : (k n : ℕ) → granted (suc k) (suc n) ≡ allow ∷ granted k n
granted-allow k n =
    let a : min (suc k) (suc n) ≡ suc (min k n) = omega arith in
    let b : suc k - suc n ≡ k - n = omega arith in rw (a, b) refl

module _ (f : Float) (exact : IsExact f) (m : Moka (Bucket f)) (laws : Keeps m) (rps burst : ℕ)
    (key : Text) (now : ℕ) where
  open m use {Cache}
  open f use {from_u32, sub, ge}

  abbrev pub bucket : ℕ → Bucket f
  bucket n = record { tokens = from_u32 n; last_refill = now }

  -- what a check at this instant starts from
  abbrev pub bucket_of : Cache → Bucket f
  bucket_of c = current m key (full f (new f rps burst) now) c

  full-bucket : full f (new f rps burst) now ≡ bucket burst
  unfolding new
  full-bucket = refl

  refill-now :
      (n : ℕ)
      → rps < 2 ^ 32
      → burst < 2 ^ 32
      → n ≤ burst
      → refill f (new f rps burst) now (bucket n) ≡ bucket n
  unfolding refill new
  refill-now n hr hb le =
      let still : now - now ≡ 0 = omega arith in
      rw still (
        ap (λ x. record { tokens = x; last_refill = now })
          (ap (λ x. f.min x (from_u32 burst)) (exact.add_none n rps (omega arith) hr)
            ∙ exact.min_left n burst le hb))

  check-allow :
      (n : ℕ) (c : Cache)
      → rps < 2 ^ 32
      → burst < 2 ^ 32
      → suc n ≤ burst
      → bucket_of c ≡ bucket (suc n)
      → (bucket_of (check f m (new f rps burst) now key c).0 ≡ bucket n)
        × ((check f m (new f rps burst) now key c).1 ≡ allow)
  unfolding check
  check-allow n c hr hb le e =
      let t = new f rps burst in
      let (stored, value) = update-get m key (full f t now) (refill f t now) c laws in
      let refilled = value ∙ (ap (refill f t now) e ∙ refill-now (suc n) hr hb le) in
      let enough : ge (from_u32 (suc n)) (from_u32 1) ≡ true =
        exact.ge_one (suc n) (omega arith) ∙ ground arith in
      rw (refilled, enough)
        (
          current-some m key (full f t now) _ _ (laws.get-insert key _ _)
              ∙ ap (λ x. record { tokens = x; last_refill = now }) (exact.sub_one n (omega arith)),
          refl,
        )

  check-deny :
      (c : Cache)
      → rps < 2 ^ 32
      → burst < 2 ^ 32
      → bucket_of c ≡ bucket 0
      → (bucket_of (check f m (new f rps burst) now key c).0 ≡ bucket 0)
        × ((check f m (new f rps burst) now key c).1 ≡ deny)
  unfolding check
  check-deny c hr hb e =
      let t = new f rps burst in
      let (stored, value) = update-get m key (full f t now) (refill f t now) c laws in
      let same = ap (refill f t now) e ∙ refill-now 0 hr hb (omega arith) in
      let refilled = value ∙ same in
      let few : ge (from_u32 0) (from_u32 1) ≡ false = exact.ge_one 0 (omega arith) in
      rw (refilled, few) (current-some m key (full f t now) _ _ stored ∙ same, refl)

  -- checks of the key at this instant, one after the other
  abbrev pub check_all : ℕ → Cache → List Decision
  check_all zero c = []
  check_all (suc k) c =
      let first = check f m (new f rps burst) now key c in first.1 ∷ check_all k first.0

  check_all-bucket :
      (k n : ℕ) (c : Cache)
      → rps < 2 ^ 32
      → burst < 2 ^ 32
      → n ≤ burst
      → bucket_of c ≡ bucket n
      → check_all k c ≡ granted k n
  check_all-bucket zero n c hr hb le e = sym (granted-zero n)
  check_all-bucket (suc k) zero c hr hb le e =
      let (e', verdict) = check-deny c hr hb e in
      let rest = check_all-bucket k zero (check f m (new f rps burst) now key c).0 hr hb le e' in
      rw (verdict, rest) (sym (granted-deny k))
  check_all-bucket (suc k) (suc n) c hr hb le e =
      let (e', verdict) = check-allow n c hr hb le e in
      let rest =
        check_all-bucket k n (check f m (new f rps burst) now key c).0 hr hb (omega arith) e' in
      rw (verdict, rest) (sym (granted-allow k n))

-- Where f64 is exact on whole numbers below 2^32 and nothing is evicted, of any number of requests
-- for a fresh key at one instant a new bucket admits the first `burst` and denies the others.
pub check_all-burst :
    (f : Float) (exact : IsExact f) (m : Moka (Bucket f)) (laws : Keeps m) (rps burst : ℕ)
    (key : Text) (now k : ℕ) (c : m.Cache)
    → rps < 2 ^ 32
    → burst < 2 ^ 32
    → m.get key c ≡ none
    → check_all f exact m laws rps burst key now k c
      ≡ replicate (min k burst) allow ++ replicate (k - burst) deny
check_all-burst f exact m laws rps burst key now k c hr hb fresh =
    check_all-bucket f exact m laws rps burst key now k burst c hr hb (omega arith) (
      current-none m key (full f (new f rps burst) now) c fresh
      ∙ full-bucket f exact m laws rps burst key now)

-- Where nothing is evicted, a check leaves the buckets of all other keys alone.
pub check-other_key :
    (f : Float) (m : Moka (Bucket f)) (t : TokenBucket f) (now : ℕ) (key key' : Text) (c : m.Cache)
    → Keeps m
    → key ≢ key'
    → m.get key' (check f m t now key c).0 ≡ m.get key' c
unfolding check
check-other_key f m t now key key' c laws d =
    let updated = update m key (full f t now) (refill f t now) c in
    let others = update-get_other m key key' (full f t now) (refill f t now) c laws d in
    elim (Bool-cases (f.ge updated.1.tokens (f.from_u32 1))) [
      | inl e ↦ rw e (laws.get-insert_other key key' _ updated.0 d ∙ others)
      | inr e ↦ rw e others
    ]
