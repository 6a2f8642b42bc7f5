-- ===== src/Routing/Table.antt =====
-- src/core/routing/table.rs: the table that is immutable once built, and the container whose table
-- is swapped as a whole.
use rapid_gate.Base.{ℕ, leb, Option, none, some, List, [], ◌∷◌, Text, length, if◌then◌else◌}
use rapid_gate.Config.{RouteConfig}
use rapid_gate.Platform.{Platform}
use rapid_gate.Routing.Matcher.{Matcher, rank, Pairs, Lookup, compile_all, first_match}

module _ {R : Type 0} where
  -- `sort_by_key` is a stable sort: an entry stays before those of its own rank that follow it.
  unfoldable pub insert_by_rank : Matcher R × ℕ → List (Matcher R × ℕ) → List (Matcher R × ℕ)
  insert_by_rank e [] = e ∷ []
  insert_by_rank e (x ∷ xs) =
      let rest = insert_by_rank e xs in if leb (rank e.0) (rank x.0) then e ∷ x ∷ xs else x ∷ rest

  unfoldable pub sort_by_rank : List (Matcher R × ℕ) → List (Matcher R × ℕ)
  unfolding insert_by_rank rank
  sort_by_rank [] = []
  sort_by_rank (e ∷ es) = insert_by_rank e (sort_by_rank es)

pub record RouteTable (R : Type 0) : Type 0 where
  pub routes : List RouteConfig
  pub compiled : List (Matcher R × ℕ)

-- `Router`: the table that a snapshot returns
pub record Router (R : Type 0) : Type 0 where
  pub table : RouteTable R

module _ (p : Platform) where
  open p use {Regex}

  unfoldable pub new : List RouteConfig → Option (RouteTable Regex)
  unfolding compile_all sort_by_rank
  new routes = elim (compile_all p routes) [
    | none ↦ none
    | some compiled ↦ some (record { routes = routes; compiled = sort_by_rank compiled })
  ]

  unfoldable pub match_request : RouteTable Regex → Text → Text → Pairs → Pairs → Lookup
  unfolding first_match
  match_request t method path headers query =
      first_match p t.routes t.compiled method path headers query

module _ {R : Type 0} where
  unfoldable pub empty : RouteTable R
  empty = record { routes = []; compiled = [] }

  unfoldable pub len : RouteTable R → ℕ
  len t = length t.routes

  unfoldable pub snapshot : Router R → RouteTable R
  snapshot r = r.table

  unfoldable pub replace : Router R → RouteTable R → Router R
  replace r t = record r { table = t }
