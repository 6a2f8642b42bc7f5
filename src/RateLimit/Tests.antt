-- ===== src/RateLimit/Tests.antt =====
-- The unit tests of src/core/ratelimit and src/service/middleware/ratelimit.rs, with a cache that
-- never evicts and an arithmetic on whole seconds.
use rapid_gate.Base.{
  ℕ, some, List, [], ◌∷◌, Text, codes, text_eq, text_eq_iff, text_eq_refl, ◌≡◌, ◌≢◌, refl, sym,
  arith, Bool-cases, inl, inr,
}
use rapid_gate.RateLimit.{allow, deny}
use rapid_gate.RateLimit.Store.{Keeps}
use rapid_gate.RateLimit.Sliding.{SlidingWindow, check}
use rapid_gate.RateLimit.Log.{pop_old-nil}
use rapid_gate.RateLimit.Window.{Tracks, entry_of, check_all, check-Tracks, check_all-decide_all}
use rapid_gate.RateLimit.Redis.{Member}
use rapid_gate.Samples.{table, fresh, windows}
use rapid_gate.RateLimit.Middleware.{extract_limit_key}

module _ (V : Type 0) where
  table-Keeps : Keeps (table V)
  table-Keeps = record {
    get-build = λ k. refl;
    get-insert = λ k v c. rw (text_eq_refl k) refl;
    get-insert_other = λ k k' v c d. elim (Bool-cases (text_eq k k')) [
      | inl e ↦ absurd (d ((text_eq_iff k k').0 e))
      | inr e ↦ rw e refl
    ];
  }

extract_key_from_forwarded_for :
    extract_limit_key (some (codes "1.2.3.4, 5.6.7.8")) ≡ codes "1.2.3.4"
unfolding extract_limit_key
extract_key_from_forwarded_for = refl

abbrev three : SlidingWindow
three = record { window = 100; max_requests = 3 }

abbrev u1 : Text
u1 = codes "u1"

abbrev u2 : Text
u2 = codes "u"

u1≢u2 : u1 ≢ u2
u1≢u2 h = cc

windows-Keeps : Keeps windows
windows-Keeps = table-Keeps (List ℕ)

abbrev one_at_once : SlidingWindow
one_at_once = record { window = 100; max_requests = 1 }

check_all-decide_all_example :
    (check_all windows windows-Keeps one_at_once u1 (5 ∷ 6 ∷ 200 ∷ []) fresh).1
    ≡ allow ∷ deny ∷ allow ∷ []
check_all-decide_all_example =
    check_all-decide_all windows one_at_once u1 windows-Keeps (5 ∷ 6 ∷ 200 ∷ []) fresh refl
      ((omega arith, (omega arith, tt)), ((omega arith, tt), (tt, tt)))

start : Tracks three 0 [] []
start = record { kept = sym (pop_old-nil 100 0); sorted = tt; past = tt; bounded = omega arith }

check-Tracks_example :
    Tracks three 9
      (9 ∷ [])
      (entry_of windows windows-Keeps three u1 (check windows three 9 u1 fresh).0)
    × ((check windows three 9 u1 fresh).1 ≡ allow)
check-Tracks_example = check-Tracks windows windows-Keeps three u1 0 9 [] fresh (omega arith) start

-- two members, of which the first has left the window
abbrev set : List Member
set = (1, 7) ∷ (95, 8) ∷ []
