-- ===== src/Auth/Admin.antt =====
-- Which requests `admin_auth` lets pass.
use rapid_gate.Base.{false, Option, none, some, Text, is_empty, ◌≡◌}
use rapid_gate.Auth.Credential.{SameBytes}

-- the token of the environment is set and not empty, and the header bears its bytes
abbrev pub IsAdmin : Option Text → Option Text → Type 0
IsAdmin (some t) (some token) = (is_empty t ≡ false) × SameBytes token t
IsAdmin (some t) none = ⊥
IsAdmin none bearer_token = ⊥
