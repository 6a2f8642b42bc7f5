-- ===== src/Proxy/Ws.antt =====
-- src/core/proxy/ws.rs: the relay between the two sockets, once both are open. Each direction is the
-- loop of the source, one message at a time; `select!` runs the two in any order until one ends.
use rapid_gate.Base.{ℕ, Bool, true, false, Option, none, some, List, [], ◌∷◌, ◌++◌, Text, ◌≡◌, ◌&&◌}

-- the messages of both crates; `raw` is a frame that only the upstream's crate has
pub data Message : Type 0 where
  text : Text → Message
  binary : List ℕ → Message
  ping : List ℕ → Message
  pong : List ℕ → Message
  close : Option (ℕ × Text) → Message
  raw : List ℕ → Message

-- what a stream yields: a message or an error
pub data Received : Type 0 where
  received : Message → Received
  stream_error : Received

-- what the loop does with what it received: it sends a message and goes on, skips it, or sends what
-- is left to say and ends
pub data Action : Type 0 where
  forward : Message → Action
  skip : Action
  finish : Option Message → Action

unfoldable pub action_of : Received → Action
action_of stream_error = finish none
action_of (received (pong bytes)) = skip
action_of (received (raw frame)) = skip
action_of (received (close none)) = finish none
action_of (received (close (some frame))) = finish (some (close (some frame)))
action_of (received m) = forward m

-- One direction: what is still to come, what the other side was sent, and whether the loop goes on.
pub record Direction : Type 0 where
  pub incoming : List Received
  pub sent : List Message
  pub running : Bool

-- the messages that a last action sends, if the sink takes them
abbrev pub last_words : Bool → Option Message → List Message
last_words true (some m) = m ∷ []
last_words _ _ = []

-- the direction after an action; `accepts` is whether the sink takes a message
unfoldable pub act : Bool → Action → List Received → List Message → Direction
act accepts skip rest sent = record { incoming = rest; sent = sent; running = true }
act true (forward m) rest sent = record { incoming = rest; sent = sent ++ (m ∷ []); running = true }
act false (forward m) rest sent = record { incoming = rest; sent = sent; running = false }
act accepts (finish m) rest sent = record {
  incoming = rest;
  sent = sent ++ last_words accepts m;
  running = false;
}

-- a turn of the loop; a stream that has ended ends it
abbrev pub receive : Bool → List Received → List Message → Direction
receive accepts [] sent = record { incoming = []; sent = sent; running = false }
receive accepts (r ∷ rest) sent = act accepts (action_of r) rest sent

unfoldable pub turn : Bool → Direction → Direction
unfolding act action_of
turn accepts d = receive accepts d.incoming d.sent

pub record Relay : Type 0 where
  pub up : Direction
  pub down : Direction

abbrev pub start : List Received → Direction
start incoming = record { incoming = incoming; sent = []; running = true }

-- `select!`: while both directions run, either takes a turn. The flag says whether the sink takes a
-- message in that turn.
pub data Step : Relay → Bool → Relay → Type 0 where
  client_to_upstream :
      {r : Relay} (accepts : Bool)
      → r.up.running ≡ true
      → r.down.running ≡ true
      → Step r accepts (record r { up = turn accepts r.up })
  upstream_to_client :
      {r : Relay} (accepts : Bool)
      → r.up.running ≡ true
      → r.down.running ≡ true
      → Step r accepts (record r { down = turn accepts r.down })

-- the states that a relay comes to, and whether every message was taken on the way
pub data Reach (r : Relay) : Bool → Relay → Type 0 where
  here : Reach r true r
  later :
      {taken accepts : Bool} {s t : Relay}
      → Reach r taken s
      → Step s accepts t
      → Reach r (taken && accepts) t
