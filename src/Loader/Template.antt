-- ===== src/Loader/Template.antt =====
-- What `expand_placeholders` does: it terminates, and it is inverse to writing a template down.
use rapid_gate.Base.{
  ℕ, zero, suc, ◌+◌, ◌-◌, ◌<◌, false, ◌==◌, Option, none, some, List, [], ◌∷◌, ◌++◌, length,
  length-append, Text, ◌≡◌, refl, sym, ◌∙◌, ap, All, Free, arith, Option-cases, inl, inr,
  append_assoc, append-nil,
}
use rapid_gate.Error.{config, Result, ok, err}
use rapid_gate.Loader.Expand.{find_close, placeholder, expand_loop, expand_placeholders, utf8}

find_close-length :
    (bs name after : List ℕ) → find_close bs ≡ some (name, after) → length after < length bs
unfolding find_close
find_close-length [] name after h = cc
find_close-length (b ∷ bs) name after h = elim (Option-cases (find_close bs)) [
  | inl n ↦ ground (arith, n)
  | inr (v, n) ↦ ground (arith, n, find_close-length bs v.0 v.1 n)
]

placeholder-length :
    (b : ℕ) (bs name after : List ℕ)
    → placeholder (b ∷ bs) ≡ some (name, after)
    → length after < suc (length bs)
unfolding placeholder
placeholder-length b [] name after h = cc
placeholder-length b (c ∷ bs) name after h = ground (arith, find_close-length bs name after)

-- A text is a template of literal pieces and placeholders.
pub data Piece : Type 0 where
  lit : List ℕ → Piece
  var : List ℕ → Piece

abbrev pub written : List Piece → List ℕ
written [] = []
written (lit bs ∷ ps) = bs ++ written ps
written (var name ∷ ps) = b'$' ∷ b'{' ∷ (name ++ (b'}' ∷ written ps))

-- literals hold no "$", names no "}"
abbrev pub IsPiece : Piece → Type 0
IsPiece (lit bs) = Free b'$' bs
IsPiece (var name) = Free b'}' name

find_close-append :
    (name rest : List ℕ) → Free b'}' name → find_close (name ++ (b'}' ∷ rest)) ≡ some (name, rest)
unfolding find_close
find_close-append [] rest h = refl
find_close-append (b ∷ name) rest (n, h) = rw (n, find_close-append name rest h)

placeholder-ne : (b : ℕ) (bs : List ℕ) → (b == b'$') ≡ false → placeholder (b ∷ bs) ≡ none
unfolding placeholder
placeholder-ne b [] h = refl
placeholder-ne b (c ∷ bs) h = rw h

placeholder-written :
    (name rest : List ℕ)
    → Free b'}' name
    → placeholder (b'$' ∷ b'{' ∷ (name ++ (b'}' ∷ rest))) ≡ some (name, rest)
unfolding placeholder
placeholder-written name rest h = find_close-append name rest h

module _ (env : List ℕ → Option Text) where
  -- one round of the loop, in its three cases
  expand-byte :
      (fuel b : ℕ) (bs : List ℕ) (out : Text)
      → placeholder (b ∷ bs) ≡ none
      → expand_loop env (suc fuel) (b ∷ bs) out ≡ expand_loop env fuel bs (out ++ (b ∷ []))
  unfolding expand_loop
  expand-byte fuel b bs out e = rw (e, expand_loop)

  expand-unset :
      (fuel b : ℕ) (bs name after : List ℕ) (out : Text)
      → placeholder (b ∷ bs) ≡ some (name, after)
      → env name ≡ none
      → expand_loop env (suc fuel) (b ∷ bs) out ≡ some (err (config name))
  unfolding expand_loop
  expand-unset fuel b bs name after out e u = rw (e, expand_loop) (rw u)

  expand-var :
      (fuel b : ℕ) (bs name after : List ℕ) (out val : Text)
      → placeholder (b ∷ bs) ≡ some (name, after)
      → env name ≡ some val
      → expand_loop env (suc fuel) (b ∷ bs) out ≡ expand_loop env fuel after (out ++ val)
  unfolding expand_loop
  expand-var fuel b bs name after out val e u = rw (e, expand_loop) (rw u)

  -- With more fuel than bytes the loop returns.
  expand_loop_total :
      (fuel : ℕ) (bytes : List ℕ) (out : Text)
      → length bytes < fuel
      → (r : Result Text) × (expand_loop env fuel bytes out ≡ some r)
  expand_loop_total zero bytes out h = elim h [ ]
  expand_loop_total (suc fuel) [] out h = (ok out, unfold expand_loop in refl)
  expand_loop_total (suc fuel) (b ∷ bs) out h = elim (Option-cases (placeholder (b ∷ bs))) [
    | inl e ↦
        let (r, h') = expand_loop_total fuel bs (out ++ (b ∷ [])) (omega arith) in
        (r, expand-byte fuel b bs out e ∙ h')
    | inr (v, e) ↦ elim (Option-cases (env v.0)) [
      | inl u ↦ (err (config v.0), expand-unset fuel b bs v.0 v.1 out e u)
      | inr (val, u) ↦
          let (r, h') =
            expand_loop_total fuel v.1 (out ++ val)
              (omega (arith, placeholder-length b bs v.0 v.1 e)) in
          (r, expand-var fuel b bs v.0 v.1 out val e u ∙ h')
    ]
  ]

  -- The expansion of every text ends, with a text or with the error of an unset variable.
  pub expand_placeholders_total :
      (input : Text) → (r : Result Text) × (expand_placeholders env input ≡ some r)
  unfolding expand_placeholders
  expand_placeholders_total input =
      expand_loop_total (suc (length (utf8 input))) (utf8 input) [] (omega arith)

  -- what a template stands for, behind `out`
  abbrev pub value : Text → List Piece → Result Text
  value out [] = ok out
  value out (lit bs ∷ ps) = value (out ++ bs) ps
  value out (var name ∷ ps) = elim (env name) [
    | none ↦ err (config name)
    | some val ↦ value (out ++ val) ps
  ]

  value-unset :
      (name : List ℕ) (ps : List Piece) (out : Text)
      → env name ≡ none
      → value out (var name ∷ ps) ≡ err (config name)
  value-unset name ps out u = rw (u, value)

  value-var :
      (name : List ℕ) (ps : List Piece) (out val : Text)
      → env name ≡ some val
      → value out (var name ∷ ps) ≡ value (out ++ val) ps
  value-var name ps out val u = rw (u, value)

  expand-lit :
      (k : ℕ) (bs rest : List ℕ) (out : Text)
      → Free b'$' bs
      → expand_loop env (length bs + k) (bs ++ rest) out ≡ expand_loop env k rest (out ++ bs)
  expand-lit k [] rest out h =
      ap (λ n. expand_loop env n rest out) (omega arith)
      ∙ ap (expand_loop env k rest) (sym (append-nil out))
  expand-lit k (b ∷ bs) rest out (n, h) =
      ap (λ m. expand_loop env m (b ∷ (bs ++ rest)) out) (omega arith)
      ∙ expand-byte (length bs + k) b (bs ++ rest) out (placeholder-ne b (bs ++ rest) n)
      ∙ expand-lit k bs rest (out ++ (b ∷ [])) h
      ∙ ap (expand_loop env k rest) (append_assoc out (b ∷ []) bs)

  expand-written :
      (fuel : ℕ) (ps : List Piece) (out : Text)
      → All IsPiece ps
      → length (written ps) < fuel
      → expand_loop env fuel (written ps) out ≡ some (value out ps)
  expand-written zero ps out h f = elim f [ ]
  expand-written (suc fuel) [] out h f = unfold expand_loop in refl
  expand-written (suc fuel) (lit bs ∷ ps) out (l, h) f =
      let room : length bs + length (written ps) < suc fuel =
        omega (arith, length-append bs (written ps)) in
      let k : ℕ = suc fuel - length bs in
      ap (λ m. expand_loop env m (bs ++ written ps) out) (omega arith)
      ∙ expand-lit k bs (written ps) out l
      ∙ expand-written k ps (out ++ bs) h (omega arith)
  expand-written (suc fuel) (var name ∷ ps) out (v, h) f =
      let rest = name ++ (b'}' ∷ written ps) in
      let room : length name + length (written ps) < fuel =
        omega (arith, length-append name (b'}' ∷ written ps)) in
      let e = placeholder-written name (written ps) v in
      elim (Option-cases (env name)) [
        | inl u ↦
            expand-unset fuel b'$' (b'{' ∷ rest) name (written ps) out e u
            ∙ ap some (sym (value-unset name ps out u))
        | inr (val, u) ↦
            expand-var fuel b'$' (b'{' ∷ rest) name (written ps) out val e u
            ∙ expand-written fuel ps (out ++ val) h (omega arith)
            ∙ ap some (sym (value-var name ps out val u))
      ]

  -- A template is expanded to what it stands for: literals as they are, placeholders by their
  -- values, and the first unset variable as an error.
  pub expand-template :
      (input : Text) (ps : List Piece)
      → All IsPiece ps
      → utf8 input ≡ written ps
      → expand_placeholders env input ≡ some (value [] ps)
  unfolding expand_placeholders
  expand-template input ps h e =
      rw e (expand-written (suc (length (written ps))) ps [] h (omega arith))
