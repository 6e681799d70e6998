-- ===== src/Worker/Body/Bounds.antt =====
-- The loop of `readJson` over the chunks of a body reads it whole, up to the bound.
use ultratokenizer.Base.{
  ℕ, ◌+◌, ◌≤◌, Bool, true, false, ◌≡◌, refl, subst, List, [], ◌∷◌, ◌++◌, ok, err, ltb, length,
  length-append, if◌then◌else◌, Bool-cases, inl, inr, ◌>>=◌, arith,
}
use ultratokenizer.Worker.Errors.{Response, worker, ErrorCode}
use ultratokenizer.Worker.Body.{read_chunks}

abbrev pub concat : List (List ℕ) → List ℕ
concat [] = []
concat (chunk ∷ chunks) = chunk ++ concat chunks

-- The chunks as one text, or an error if there are more than `maximum` bytes.
abbrev bounded : Bool → List ℕ → Response (List ℕ)
bounded over bytes = if over then err (worker ErrorCode.payload_too_large) else ok bytes

prepended :
    (over : Bool) (chunk rest : List ℕ)
    → (bounded over rest >>= λ r. ok (chunk ++ r)) ≡ bounded over (chunk ++ rest)
prepended true chunk rest = refl
prepended false chunk rest = refl

read_chunks-bounded :
    (maximum read : ℕ) (chunks : List (List ℕ))
    → read ≤ maximum
    → read_chunks maximum read chunks
      ≡ bounded (ltb maximum (read + length (concat chunks))) (concat chunks)
unfolding read_chunks
read_chunks-bounded maximum read [] h =
    let fits : ltb maximum (read + 0) ≡ false = ground (arith, h) in rw fits refl
read_chunks-bounded maximum read (chunk ∷ chunks) h =
    let total = length-append chunk (concat chunks) in
    elim (Bool-cases (ltb maximum (read + length chunk))) [
      | inl over ↦
          let all_over : ltb maximum (read + length (chunk ++ concat chunks)) ≡ true =
            ground (arith, over, total) in
          rw (over, all_over) refl
      | inr fits ↦
          let same : ltb maximum (read + length chunk + length (concat chunks))
              ≡ ltb maximum (read + length (chunk ++ concat chunks)) =
            ground (arith, total) in
          rw
            (
              fits,
              read_chunks-bounded maximum (read + length chunk) chunks (ground (arith, fits)),
              same,
            )
            (prepended (ltb maximum (read + length (chunk ++ concat chunks))) chunk (concat chunks))
    ]

-- However a body is cut into chunks, it is read as one sequence of bytes if it has at most `maximum`
-- bytes, and is too large if it has more.
pub read_chunks-concat :
    (maximum : ℕ) (chunks : List (List ℕ))
    → read_chunks maximum 0 chunks ≡ (
        if ltb maximum (length (concat chunks))
        then err (worker ErrorCode.payload_too_large)
        else ok (concat chunks))
read_chunks-concat maximum chunks =
    let whole : 0 + length (concat chunks) ≡ length (concat chunks) = omega arith in
    subst (λ (n : ℕ). read_chunks maximum 0 chunks ≡ bounded (ltb maximum n) (concat chunks)) whole
      (read_chunks-bounded maximum 0 chunks (omega arith))
