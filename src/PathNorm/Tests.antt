-- ===== src/PathNorm/Tests.antt =====
-- The examples of the doc comment and of the unit tests of src/core/util/path.rs.
use rapid_gate.Base.{◌≡◌, refl, codes}
use rapid_gate.PathNorm.{normalize}
use rapid_gate.PathNorm.Clean.{normalize_idempotent}

dot_segments : normalize (codes "/a/./b/../c") ≡ codes "/a/c"
unfolding normalize
dot_segments = refl

double_slashes : normalize (codes "//a//b/") ≡ codes "/a/b"
unfolding normalize
double_slashes = refl

clamps_at_root : normalize (codes "/../../etc") ≡ codes "/etc"
unfolding normalize
clamps_at_root = refl

normalize_idempotent_example : normalize (normalize (codes "//a/./b")) ≡ normalize (codes "//a/./b")
normalize_idempotent_example = normalize_idempotent (codes "//a/./b")
