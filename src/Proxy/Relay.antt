-- ===== src/Proxy/Relay.antt =====
-- However the directions of a relay interleave, each side is sent what the other side said, in order.
-- What a side says is told here by the kinds of its messages, and not by what the loops do.
use rapid_gate.Base.{Bool, true, false, List, [], ◌∷◌, ◌++◌, none, some, keep, ◌≡◌}
use rapid_gate.Proxy.Ws.{
  Message, text, binary, ping, pong, close, raw, Received, received, stream_error, Action, forward,
  skip, finish, Direction, last_words, Relay,
}

-- Texts, data and pings are carried over; pongs and raw frames are for the connection itself.
abbrev pub is_carried : Message → Bool
is_carried (text _) = true
is_carried (binary _) = true
is_carried (ping _) = true
is_carried (pong _) = false
is_carried (raw _) = false
is_carried (close _) = false

-- the messages in front of the first closing frame or error
abbrev pub before_end : List Received → List Message
before_end [] = []
before_end (stream_error ∷ rs) = []
before_end (received (close _) ∷ rs) = []
before_end (received m ∷ rs) = m ∷ before_end rs

-- the closing frame, if it comes before any error and has a code and a reason
abbrev pub farewell : List Received → List Message
farewell [] = []
farewell (stream_error ∷ rs) = []
farewell (received (close none) ∷ rs) = []
farewell (received (close (some frame)) ∷ rs) = close (some frame) ∷ []
farewell (received _ ∷ rs) = farewell rs

-- what a side says to the other
abbrev pub said : List Received → List Message
said rs = keep is_carried (before_end rs) ++ farewell rs

-- what an action leaves of it
abbrev passed_of : Action → List Message → List Message
passed_of (forward m) rest = m ∷ rest
passed_of skip rest = rest
passed_of (finish m) rest = last_words true m

-- What was sent is the beginning of all that was said; while the direction runs, what is still to come
-- is the rest of that; and once it has ended nothing is missing, if every message was taken.
pub record IsPassed (all : List Message) (taken : Bool) (d : Direction) : Type 0 where
  pub prefix : (rest : List Message) × (d.sent ++ rest ≡ all)
  pub remaining : d.running ≡ true → d.sent ++ said d.incoming ≡ all
  pub complete : taken ≡ true → d.running ≡ false → d.sent ≡ all

module _ (from_client from_upstream : List Received) where
  -- both directions of a relay
  abbrev pub ArePassed : Bool → Relay → Type 0
  ArePassed taken r =
      IsPassed (said from_client) taken r.up × IsPassed (said from_upstream) taken r.down
