-- ===== src/Ssrf/Guard.antt =====
-- Which upstream URLs `check_ssrf` admits.
use rapid_gate.Base.{
  true, false, Option, none, some, List, any, All, Text, eq_ignore_ascii_case, ◌≡◌, ◌⊎◌,
}
use rapid_gate.Ssrf.{IpAddr, is_blocked_ip, pure_host, socket_text}

-- DNS answers, and no address is blocked
abbrev pub IsResolved : Option (List IpAddr) → Type 0
IsResolved none = ⊥
IsResolved (some addrs) = All (λ ip. is_blocked_ip ip ≡ false) addrs

module _ (to_socket_addrs : Text → Option (List IpAddr)) where
  -- the text that is taken for the host is in the list, or the authority resolves to addresses none of
  -- which is blocked
  abbrev pub IsAdmitted : List Text → Option Text → Type 0
  IsAdmitted allow_list none = ⊥
  IsAdmitted allow_list (some authority) =
      (any (λ h. eq_ignore_ascii_case h (pure_host authority)) allow_list ≡ true)
      ⊎ IsResolved (to_socket_addrs (socket_text authority))
