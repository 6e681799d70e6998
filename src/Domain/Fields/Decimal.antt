-- ===== src/Domain/Fields/Decimal.antt =====
-- Canonical decimal texts: a number has one text only, so comparing texts compares numbers.
use ultratokenizer.Base.{
  ℕ, suc, ◌+◌, ◌-◌, ◌*◌, ◌≤◌, ◌<◌, Text, all_chars, big_int, is_digit, true, ◌≡◌, refl, [], ◌∷◌,
  length, arith, ◌⊎◌, inl, inr,
}
use ultratokenizer.Base.Chars.{digits_value}
use ultratokenizer.Domain.Fields.{is_decimal}

-- With as many digits, the number that starts ahead stays ahead.
digits_value-lt :
    (t u : Text) (a b : ℕ)
    → length t ≡ length u
    → all_chars is_digit t ≡ true
    → all_chars is_digit u ≡ true
    → a < b
    → digits_value a t < digits_value b u
unfolding digits_value all_chars is_digit
digits_value-lt [] [] a b e ht hu h = h
digits_value-lt [] (d ∷ u) a b e ht hu h = absurd (omega arith)
digits_value-lt (c ∷ t) [] a b e ht hu h = absurd (omega arith)
digits_value-lt (c ∷ t) (d ∷ u) a b e ht hu h =
    ground (arith, digits_value-lt t u (a * 10 + (c - b'0')) (b * 10 + (d - b'0')))

-- And so does one with a start above zero and at least as many digits.
digits_value-lt_longer :
    (t u : Text) (b : ℕ)
    → length t ≤ length u
    → all_chars is_digit t ≡ true
    → all_chars is_digit u ≡ true
    → 0 < b
    → digits_value 0 t < digits_value b u
unfolding digits_value all_chars is_digit
digits_value-lt_longer t [] b le ht hu h = digits_value-lt t [] 0 b (omega arith) ht hu h
digits_value-lt_longer t (d ∷ u) b le ht hu h = elim (shorter (length t) (length u) le) [
  | inl fits ↦ digits_value-lt_longer t u (b * 10 + (d - b'0')) fits ht (ground arith) (omega arith)
  | inr same ↦ digits_value-lt t (d ∷ u) 0 b same ht hu h
]
  where
    shorter : (m n : ℕ) → m ≤ suc n → (m ≤ n) ⊎ (m ≡ suc n)
    shorter m n k = omega arith

digits_value-injective :
    (t u : Text) (a : ℕ)
    → length t ≡ length u
    → all_chars is_digit t ≡ true
    → all_chars is_digit u ≡ true
    → digits_value a t ≡ digits_value a u
    → t ≡ u
unfolding digits_value all_chars is_digit
digits_value-injective [] [] a e ht hu h = refl
digits_value-injective [] (d ∷ u) a e ht hu h = absurd (omega arith)
digits_value-injective (c ∷ t) [] a e ht hu h = absurd (omega arith)
digits_value-injective (c ∷ t) (d ∷ u) a e ht hu h = ground (
  arith,
  digits_value-lt t u (a * 10 + (c - b'0')) (a * 10 + (d - b'0')),
  digits_value-lt u t (a * 10 + (d - b'0')) (a * 10 + (c - b'0')),
  digits_value-injective t u (a * 10 + (c - b'0')),
)

all_digits_of_decimal : (t : Text) → is_decimal t ≡ true → all_chars is_digit t ≡ true
unfolding is_decimal all_chars is_digit
all_digits_of_decimal [] h = cc
all_digits_of_decimal (c ∷ []) h = ground arith
all_digits_of_decimal (c ∷ d ∷ t) h = ground arith

-- A canonical text with more digits stands for a greater number.
big_int-lt :
    (t u : Text)
    → is_decimal t ≡ true
    → is_decimal u ≡ true
    → length t < length u
    → big_int t < big_int u
unfolding big_int is_decimal all_chars is_digit
big_int-lt t [] ht hu h = cc
big_int-lt [] (d ∷ u) ht hu h = cc
big_int-lt (c ∷ t) (d ∷ u) ht hu h =
    let lead : (0 < d - b'0') × (all_chars is_digit u ≡ true) = ground arith in
    digits_value-lt_longer (c ∷ t) u (0 + (d - b'0')) (omega arith)
      (all_digits_of_decimal (c ∷ t) ht) lead.1 (omega (arith, lead.0))

-- Two decimal texts without leading zeros that stand for one number are the same text.
pub big_int-injective :
    (t u : Text) → is_decimal t ≡ true → is_decimal u ≡ true → big_int t ≡ big_int u → t ≡ u
unfolding big_int
big_int-injective t u ht hu h = elim (trichotomy (length t) (length u)) [
  | inl shorter ↦ absurd (omega (arith, big_int-lt t u ht hu shorter))
  | inr (inl longer) ↦ absurd (omega (arith, big_int-lt u t hu ht longer))
  | inr (inr same) ↦
      digits_value-injective t u 0 same (all_digits_of_decimal t ht) (all_digits_of_decimal u hu) h
]
  where
    trichotomy : (m n : ℕ) → (m < n) ⊎ ((n < m) ⊎ (m ≡ n))
    trichotomy m n = omega arith
