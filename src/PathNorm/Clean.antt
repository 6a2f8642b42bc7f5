-- ===== src/PathNorm/Clean.antt =====
-- What a normalised path looks like, and that normalising is a projection.
use rapid_gate.Base.{
  Bool, true, false, List, [], ◌∷◌, ◌++◌, ◌≡◌, refl, sym, ap, ◌∙◌, ◌≢◌, Text, codes, text_eq_iff,
  split, join, starts_with, is_empty, All, All-append, Free, split-Free, split-join,
  split-append_Free, append_assoc, append-nil, arith, ==_iff,
}
use rapid_gate.PathNorm.{slash, pop_back, push_segment, resolve, render, normalize}

-- A segment that names a child: not empty, not ".", not "..", and free of slashes.
abbrev pub IsPlain : Text → Type 0
IsPlain seg = (seg ≢ codes "") × (seg ≢ codes ".") × (seg ≢ codes "..") × Free slash seg

pop_back-All : (P : Text → Type 0) (out : List Text) → All P out → All P (pop_back out)
pop_back-All P [] h = tt
pop_back-All P (x ∷ []) h = tt
pop_back-All P (x ∷ y ∷ ys) (p, h) = (p, pop_back-All P (y ∷ ys) h)

push_segment-IsPlain :
    (out : List Text) (seg : Text)
    → All IsPlain out
    → Free slash seg
    → All IsPlain (push_segment out seg)
unfolding push_segment
push_segment-IsPlain out seg h f = ground (
  arith,
  text_eq_iff seg (codes ""),
  text_eq_iff seg (codes "."),
  text_eq_iff seg (codes ".."),
  pop_back-All IsPlain out h,
  All-append IsPlain out (seg ∷ []) h,
)

resolve-IsPlain :
    (out segs : List Text)
    → All IsPlain out
    → All (Free slash) segs
    → All IsPlain (resolve out segs)
unfolding resolve
resolve-IsPlain out [] h f = h
resolve-IsPlain out (seg ∷ segs) h (f, fs) =
    resolve-IsPlain (push_segment out seg) segs (push_segment-IsPlain out seg h f) fs

push_segment_of_IsPlain :
    (out : List Text) (seg : Text) → IsPlain seg → push_segment out seg ≡ out ++ (seg ∷ [])
unfolding push_segment
push_segment_of_IsPlain out seg h =
    ground
      (arith, text_eq_iff seg (codes ""), text_eq_iff seg (codes "."), text_eq_iff seg (codes ".."))

resolve_of_IsPlain : (out segs : List Text) → All IsPlain segs → resolve out segs ≡ out ++ segs
unfolding resolve
resolve_of_IsPlain out [] h = sym (append-nil out)
resolve_of_IsPlain out (seg ∷ segs) (p, h) =
    ap (λ o. resolve o segs) (push_segment_of_IsPlain out seg p)
    ∙ resolve_of_IsPlain (out ++ (seg ∷ [])) segs h
    ∙ append_assoc out (seg ∷ []) segs

All-Free : (segs : List Text) → All IsPlain segs → All (Free slash) segs
All-Free [] h = tt
All-Free (x ∷ xs) (p, h) = (p.3, All-Free xs h)

join-slash_head :
    (seg : Text) (segs : List Text)
    → IsPlain seg
    → (starts_with (codes "/") (join slash (seg ∷ segs)) ≡ false)
      × (is_empty (join slash (seg ∷ segs)) ≡ false)
unfolding join starts_with is_empty
join-slash_head [] segs h = absurd (h.0 refl)
join-slash_head (c ∷ seg) [] h = ground (arith, ==_iff c slash)
join-slash_head (c ∷ seg) (y ∷ ys) h = ground (arith, ==_iff c slash)

normalize_rooted :
    (t : Text) → normalize (slash ∷ t) ≡ slash ∷ join slash (resolve [] (split slash t))
unfolding normalize
normalize_rooted t = refl

render_rooted : (segs : List Text) → render true segs ≡ slash ∷ join slash segs
unfolding render
render_rooted segs = refl

render_relative :
    (seg : Text) (segs : List Text)
    → IsPlain seg
    → render false (seg ∷ segs) ≡ join slash (seg ∷ segs)
unfolding render
render_relative seg segs h = rw ((join-slash_head seg segs h).1)

resolve-split-join :
    (seg : Text) (segs : List Text)
    → All IsPlain (seg ∷ segs)
    → resolve [] (split slash (join slash (seg ∷ segs))) ≡ seg ∷ segs
resolve-split-join seg segs h =
    rw (split-join slash seg segs (All-Free (seg ∷ segs) h)) (resolve_of_IsPlain [] (seg ∷ segs) h)

normalize_relative :
    (t : Text)
    → starts_with (codes "/") t ≡ false
    → normalize t ≡ render false (resolve [] (split slash t))
unfolding normalize
normalize_relative t h = rw h

-- Whether it starts with a slash or not, a rendered list of plain segments is read back.
normalize-render :
    (lead : Bool) (segs : List Text)
    → All IsPlain segs
    → normalize (render lead segs) ≡ render lead segs
normalize-render true [] h = unfold normalize in refl
normalize-render false [] h = unfold normalize in refl
normalize-render true (y ∷ ys) h =
    rw (render_rooted (y ∷ ys), normalize_rooted (join slash (y ∷ ys)), resolve-split-join y ys h)
normalize-render false (y ∷ ys) h =
    ap normalize (render_relative y ys h.0)
    ∙ normalize_relative (join slash (y ∷ ys)) (join-slash_head y ys h.0).0
    ∙ ap (render false) (resolve-split-join y ys h)

abbrev segments : Text → List Text
segments input = resolve [] (split slash input)

segments-IsPlain : (input : Text) → All IsPlain (segments input)
segments-IsPlain input = resolve-IsPlain [] (split slash input) tt (split-Free slash input)

normalize_lem :
    (t : Text) → normalize t ≡ render (starts_with (codes "/") t) (resolve [] (split slash t))
unfolding normalize
normalize_lem t = refl

-- Normalising a path a second time changes nothing.
pub normalize_idempotent : (input : Text) → normalize (normalize input) ≡ normalize input
normalize_idempotent input =
    rw (normalize_lem input)
      (normalize-render (starts_with (codes "/") input) (segments input) (segments-IsPlain input))

abbrev pub IsStep : Text → Type 0
IsStep seg = (seg ≢ codes ".") × (seg ≢ codes "..")

All-IsStep : (segs : List Text) → All IsPlain segs → All IsStep segs
All-IsStep [] h = tt
All-IsStep (x ∷ xs) (p, h) = ((p.1, p.2), All-IsStep xs h)

split-render :
    (lead : Bool) (segs : List Text)
    → All IsPlain segs
    → All IsStep (split slash (render lead segs))
split-render true [] h =
    unfold render split in (((λ e. cc), (λ e. cc)), (((λ e. cc), (λ e. cc)), tt))
split-render false [] h =
    unfold render split in (((λ e. cc), (λ e. cc)), (((λ e. cc), (λ e. cc)), tt))
split-render true (y ∷ ys) h =
    rw (render_rooted (y ∷ ys), split-append_Free slash [] (join slash (y ∷ ys)) tt)
      (rw (split-join slash y ys (All-Free (y ∷ ys) h))
        (((λ e. cc), (λ e. cc)), All-IsStep (y ∷ ys) h))
split-render false (y ∷ ys) h =
    rw (render_relative y ys h.0, split-join slash y ys (All-Free (y ∷ ys) h))
      (All-IsStep (y ∷ ys) h)

-- No segment of a normalised path is "." or "..", whatever the input.
pub normalize-IsStep : (input : Text) → All IsStep (split slash (normalize input))
normalize-IsStep input =
    rw (normalize_lem input)
      (split-render (starts_with (codes "/") input) (segments input) (segments-IsPlain input))

-- A rooted path stays rooted.
pub normalize-starts_with : (t : Text) → starts_with (codes "/") (normalize (slash ∷ t)) ≡ true
unfolding starts_with
normalize-starts_with t = rw (normalize_rooted t)
