-- ===== src/Url.antt =====
-- The pieces of an upstream URL that the gateway reads: the chains of `split` in
-- src/service/config_loader.rs and src/service/upstream_pool.rs.
use rapid_gate.Base.{Option, none, some, List, [], ◌∷◌, Text, codes, split, split_str}
use rapid_gate.Base.Maybe.{◌>>=◌}
use rapid_gate.PathNorm.{slash}

-- `iter().next()` and `iter().nth(1)`
abbrev pub first_part : List Text → Option Text
first_part [] = none
first_part (x ∷ xs) = some x

abbrev pub second_part : List Text → Option Text
second_part [] = none
second_part (x ∷ xs) = first_part xs

-- what stands between the first "://" and the next "://" or "/"
unfoldable pub authority_of : Text → Option Text
unfolding split_str split
authority_of base_url = do
  after ← second_part (split_str (codes "://") base_url)
  first_part (split slash after)

-- the host by which `check_base_url_allowed` looks a URL up
unfoldable pub host_of : Text → Option Text
unfolding authority_of
host_of base_url = do authority ← authority_of base_url; first_part (split b':' authority)
