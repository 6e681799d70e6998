-- ===== src/Domain/Json/Tokens.antt =====
-- The tokens of a written document are its braces and keys; the fuel of the scanner is enough.
use ultratokenizer.Base.{
  ℕ, zero, suc, ◌≤◌, ◌<◌, Text, is_space, Bool, true, false, not, ◌&&◌, ◌==◌, ◌≡◌, refl, ap, ◌∙◌,
  [], ◌∷◌, ◌++◌, Option, none, some, arith, length, Bool-cases, inl, inr, if◌then◌else◌, both,
}
use ultratokenizer.Domain.Json.Document.{is_fill, is_blank, is_body}
use ultratokenizer.Domain.Json.{
  quoted, key, quoted, Class, class_of, prepend, string_end, after_space, colon, literal_at,
  advance, matches, tokens,
}

prepend-some :
    (p : Text) (o : Option (Text × Text)) (body rest : Text)
    → prepend p o ≡ some (body, rest)
    → (shorter : Text) × (o ≡ some (shorter, rest))
prepend-some p none body rest h = cc
prepend-some p (some (b, r)) body rest h =
    let same : r ≡ rest = ground (arith, h) in (b, rw same refl)

length-string_end : (t body rest : Text) → string_end t ≡ some (body, rest) → length rest < length t
unfolding string_end
length-string_end [] body rest h = cc
length-string_end (c ∷ []) body rest h = ground (arith, h)
length-string_end (c ∷ d ∷ t) body rest h = elim (Bool-cases (c == b'"')) [
  | inl quote ↦ ground (arith, h, quote)
  | inr other ↦ elim (Bool-cases (c == b'\\')) [
    | inl slash ↦
        let (b, e) =
          prepend-some (c ∷ d ∷ []) (string_end t) body rest (ground (arith, h, other, slash)) in
        omega (arith, length-string_end t b rest e)
    | inr plain ↦
        let (b, e) =
          prepend-some (c ∷ []) (string_end (d ∷ t)) body rest (ground (arith, h, other, plain)) in
        omega (arith, length-string_end (d ∷ t) b rest e)
  ]
]

length-after_space : (t : Text) → length (after_space t) ≤ length t
unfolding after_space
length-after_space [] = omega arith
length-after_space (c ∷ t) = ground (arith, length-after_space t)

length-colon : (body t : Text) → length (colon body t).1 ≤ length t
length-colon body [] = omega arith
length-colon body (c ∷ t) = ground arith

length-literal_at :
    (t : Text) (o : Option (Text × Text))
    → ((body rest : Text) → o ≡ some (body, rest) → length rest < length t)
    → length (literal_at t o).1 ≤ length t
length-literal_at t none h = omega arith
length-literal_at t (some (body, rest)) h =
    omega (arith, h body rest refl, length-colon body (after_space rest), length-after_space rest)

length-advance : (k : Class) (t : Text) → length (advance k t).1 ≤ length t
unfolding advance
length-advance Class.opens t = omega arith
length-advance Class.closes t = omega arith
length-advance Class.plain t = omega arith
length-advance Class.quotes t = length-literal_at t (string_end t) (length-string_end t)

-- With as much fuel as characters, more fuel changes nothing: the scanner always ends by itself.
matches-fuel : (m n : ℕ) (t : Text) → length t ≤ m → length t ≤ n → matches m t ≡ matches n t
unfolding matches
matches-fuel zero zero t hm hn = refl
matches-fuel zero (suc n) [] hm hn = refl
matches-fuel zero (suc n) (c ∷ t) hm hn = absurd (omega (arith, hm))
matches-fuel (suc m) zero [] hm hn = refl
matches-fuel (suc m) zero (c ∷ t) hm hn = absurd (omega (arith, hn))
matches-fuel (suc m) (suc n) [] hm hn = refl
matches-fuel (suc m) (suc n) (c ∷ t) hm hn =
    let le = length-advance (class_of c) t in
    ap (λ ts. (advance (class_of c) t).0 ++ ts)
      (matches-fuel m n (advance (class_of c) t).1 (omega (arith, hm, le)) (omega (arith, hn, le)))

-- One round of the scanner.
pub tokens-advance :
    (c : ℕ) (t : Text)
    → tokens (c ∷ t) ≡ (advance (class_of c) t).0 ++ tokens (advance (class_of c) t).1
unfolding tokens matches
tokens-advance c t =
    ap (λ ts. (advance (class_of c) t).0 ++ ts)
      (matches-fuel (length t) (length (advance (class_of c) t).1) (advance (class_of c) t).1
        (length-advance (class_of c) t) (omega arith))

-- Whether a colon comes next, after white space.
abbrev pub meets_colon : Text → Bool
meets_colon [] = false
meets_colon (c ∷ t) = if is_space c then meets_colon t else c == b':'

plain_of_space : (c : ℕ) → is_space c ≡ true → class_of c ≡ Class.plain
unfolding is_space
plain_of_space c h = ground (arith, h)

plain_of_fill :
    (c : ℕ)
    → (not (c == b'"') && not (c == b'{') && not (c == b'}') && not (c == b':')) ≡ true
    → (class_of c ≡ Class.plain) × ((c == b':') ≡ false)
plain_of_fill c h = ground (arith, h)

pub tokens-plain : (c : ℕ) (t : Text) → class_of c ≡ Class.plain → tokens (c ∷ t) ≡ tokens t
unfolding advance
tokens-plain c t h = rw (tokens-advance c t, h) refl

tokens-after_space : (t : Text) → tokens (after_space t) ≡ tokens t
unfolding after_space
tokens-after_space [] = refl
tokens-after_space (c ∷ t) = elim (Bool-cases (is_space c)) [
  | inl space ↦ rw (space, tokens-plain c t (plain_of_space c space)) (tokens-after_space t)
  | inr other ↦ rw other refl
]

pub tokens-fill : (fill rest : Text) → is_fill fill ≡ true → tokens (fill ++ rest) ≡ tokens rest
tokens-fill [] rest h = refl
tokens-fill (c ∷ fill) rest h =
    let (p, f) = both _ (is_fill fill) h in
    tokens-plain c (fill ++ rest) (plain_of_fill c p).0 ∙ tokens-fill fill rest f

pub meets_colon-fill :
    (fill rest : Text)
    → is_fill fill ≡ true
    → meets_colon rest ≡ false
    → meets_colon (fill ++ rest) ≡ false
meets_colon-fill [] rest h k = k
meets_colon-fill (c ∷ fill) rest h k =
    let (p, f) = both _ (is_fill fill) h in
    rw ((plain_of_fill c p).1, meets_colon-fill fill rest f k) (same (is_space c))
  where
    same : (b : Bool) → (if b then false else false) ≡ false
    same b = ground arith

string_end-quote : (rest : Text) → string_end (b'"' ∷ rest) ≡ some ([], rest)
unfolding string_end
string_end-quote [] = refl
string_end-quote (c ∷ rest) = refl

string_end-body :
    (body rest : Text)
    → is_body body ≡ true
    → string_end (body ++ (b'"' ∷ rest)) ≡ some (body, rest)
unfolding string_end is_body
string_end-body [] [] h = refl
string_end-body [] (r ∷ rest) h = refl
string_end-body (c ∷ []) rest h = ground (arith, h, string_end-quote rest)
string_end-body (c ∷ d ∷ body) rest h =
    ground (arith, h, string_end-body body rest, string_end-body (d ∷ body) rest)

after_space-blank :
    (space rest : Text) → is_blank space ≡ true → after_space (space ++ (b':' ∷ rest)) ≡ b':' ∷ rest
unfolding after_space is_space
after_space-blank [] rest h = refl
after_space-blank (c ∷ space) rest h =
    let (s, b) = both _ (is_blank space) h in rw s (after_space-blank space rest b)

no_colon :
    (body t : Text) → meets_colon t ≡ false → colon body (after_space t) ≡ ([], after_space t)
unfolding after_space
no_colon body [] e = refl
no_colon body (c ∷ t) e = elim (Bool-cases (is_space c)) [
  | inl space ↦ rw space (no_colon body t (ground (arith, e, space)))
  | inr other ↦ let plain : (c == b':') ≡ false = ground (arith, e, other) in rw (other, plain) refl
]

-- A string that no colon follows is passed over.
pub tokens-string :
    (body rest : Text)
    → is_body body ≡ true
    → meets_colon rest ≡ false
    → tokens (b'"' ∷ (body ++ (b'"' ∷ rest))) ≡ tokens rest
unfolding advance
tokens-string body rest h k =
    tokens-advance b'"' (body ++ (b'"' ∷ rest))
    ∙ rw (string_end-body body rest h, no_colon body rest k) (tokens-after_space rest)

-- A key is found.
pub tokens-key :
    (name space rest : Text)
    → is_body name ≡ true
    → is_blank space ≡ true
    → tokens (b'"' ∷ (name ++ (b'"' ∷ (space ++ (b':' ∷ rest))))) ≡ key (quoted name) ∷ tokens rest
unfolding advance
tokens-key name space rest h k =
    tokens-advance b'"' (name ++ (b'"' ∷ (space ++ (b':' ∷ rest))))
    ∙ rw (string_end-body name (space ++ (b':' ∷ rest)) h, after_space-blank space rest k) refl
