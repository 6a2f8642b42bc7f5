-- ===== src/Routing/Tests.antt =====
-- Concrete runs of the routing table.
use rapid_gate.Base.{ℕ, false, some, [], ◌∷◌, Text, codes, ascii_upper, get_elem?, ◌≡◌, refl, ◌↔◌}
use rapid_gate.Config.{RouteConfig}
use rapid_gate.Platform.{ascii_platform}
use rapid_gate.Routing.Matcher.{Matcher, missing, compile, full_match}
use rapid_gate.Routing.Table.{new, match_request}
use rapid_gate.Routing.Missing.{match_request-missing_iff}
use rapid_gate.Samples.{chat_route, chat_table}

built : new ascii_platform (chat_route ∷ []) ≡ some chat_table
unfolding new compile ascii_upper
built = refl

match_request-missing_iff_example :
    (match_request ascii_platform chat_table (codes "GET") (codes "/v1/chat") [] [] ≡ missing) ↔ (
      (j : ℕ) (s : RouteConfig) (m : Matcher Text)
      → get_elem? (chat_route ∷ []) j ≡ some s
      → compile ascii_platform s.match_rule ≡ some m
      → full_match ascii_platform m s.match_rule (codes "GET") (codes "/v1/chat") [] [] ≡ false)
match_request-missing_iff_example =
    match_request-missing_iff ascii_platform (codes "GET") (codes "/v1/chat") [] []
      (chat_route ∷ []) chat_table built
