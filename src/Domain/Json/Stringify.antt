-- ===== src/Domain/Json/Stringify.antt =====
-- `JSON.stringify` of an object of texts, as issuance-request.ts calls it, and its text as a document.
use ultratokenizer.Base.{
  ℕ, ◌+◌, ◌-◌, ◌/◌, ◌%◌, Text, String, codes, true, not, ◌&&◌, ◌||◌, ◌==◌, ◌≡◌, refl, List, [], ◌∷◌,
  ◌++◌, Option, none, some, ltb, leb, if◌then◌else◌, arith, All, Bool-cases, inl, inr, Option-cases,
  ap, sym, ◌∙◌, subst,
}
use ultratokenizer.Domain.Value.{Value}
use ultratokenizer.Domain.Json.{quoted, as_string}
use ultratokenizer.Domain.Json.Document.{
  Document, Members, string, object, end, member, print, print_members, is_fill, is_body,
  is_written, is_written_members, Decodes, DecodesMembers,
}

abbrev hex_digit : ℕ → ℕ
hex_digit n = if ltb n 10 then b'0' + n else b'a' + (n - 10)

abbrev unicode_escape : ℕ → Text
unicode_escape c =
    b'\\'
    ∷ b'u'
    ∷ hex_digit (c / 4096 % 16)
    ∷ hex_digit (c / 256 % 16)
    ∷ hex_digit (c / 16 % 16)
    ∷ hex_digit (c % 16)
    ∷ []

-- The letter of a short escape.
abbrev short_escape : ℕ → Option ℕ
short_escape c =
    if c == 8
    then some b'b'
    else if c == 9
    then some b't'
    else if c == 10
    then some b'n'
    else if c == 12
    then some b'f'
    else if c == 13
    then some b'r'
    else if c == b'"' || c == b'\\'
    then some c
    else none

-- A code unit that is no half of a surrogate pair.
abbrev escape_with : Option ℕ → ℕ → Text
escape_with (some letter) c = b'\\' ∷ letter ∷ []
escape_with none c =
    if ltb c 0x20 || (leb 0xd800 c && leb c 0xdfff) then unicode_escape c else c ∷ []

abbrev escape_unit : ℕ → Text
escape_unit c = escape_with (short_escape c) c

-- What `JSON.stringify` writes between the quotes of a text.
unfoldable pub escape : Text → Text
escape [] = []
escape (c ∷ []) = escape_unit c
escape (c ∷ d ∷ t) =
    let pair = c ∷ d ∷ escape t in
    let single = escape_unit c ++ escape (d ∷ t) in
    if leb 0xd800 c && leb c 0xdbff && leb 0xdc00 d && leb d 0xdfff then pair else single

abbrev pub json_string : Text → Text
json_string t = quoted (escape t)

abbrev property : String × Text → Text
property (k, t) = json_string (codes k) ++ (b':' ∷ json_string t)

abbrev later_properties : List (String × Text) → Text
later_properties [] = b'}' ∷ []
later_properties (p ∷ ps) = b',' ∷ (property p ++ later_properties ps)

-- `JSON.stringify` of a plain object whose own properties are these texts.
unfoldable pub stringify : List (String × Text) → Text
unfolding escape
stringify [] = b'{' ∷ b'}' ∷ []
stringify (p ∷ ps) = b'{' ∷ (property p ++ later_properties ps)

-- The same text as a tree.
abbrev members_of : Text → List (String × Text) → Members
members_of fill [] = end []
members_of fill ((k, t) ∷ ps) =
    member fill (escape (codes k)) [] [] (string (escape t)) (members_of (b',' ∷ []) ps)

abbrev pub document_of : List (String × Text) → Document
document_of ps = object (members_of [] ps)

append_assoc : (a b c : Text) → (a ++ b) ++ c ≡ a ++ (b ++ c)
append_assoc [] b c = refl
append_assoc (x ∷ a) b c = ap (λ r. x ∷ r) (append_assoc a b c)

property-append :
    (k : String) (t rest : Text)
    → property (k, t) ++ rest
      ≡ b'"' ∷ (escape (codes k) ++ (b'"' ∷ b':' ∷ b'"' ∷ (escape t ++ (b'"' ∷ rest))))
property-append k t rest = simp append_assoc

print-members_of :
    (ps : List (String × Text))
    → print_members (members_of (b',' ∷ []) ps) (b'}' ∷ []) ≡ later_properties ps
unfolding print
print-members_of [] = refl
print-members_of ((k, t) ∷ ps) =
    rw (property-append k t (later_properties ps), print-members_of ps) refl

-- The text is the document, printed.
pub print-document_of : (ps : List (String × Text)) → print (document_of ps) [] ≡ stringify ps
unfolding print stringify
print-document_of [] = refl
print-document_of ((k, t) ∷ ps) =
    rw (property-append k t (later_properties ps), print-members_of ps) refl

is_body-plain :
    (c : ℕ) (t : Text)
    → (not (c == b'"') && not (c == b'\\')) ≡ true
    → is_body t ≡ true
    → is_body (c ∷ t) ≡ true
unfolding is_body
is_body-plain c [] h k = h
is_body-plain c (d ∷ t) h k = ground (arith, h, k)

is_body-hex : (n : ℕ) (t : Text) → is_body t ≡ true → is_body (hex_digit n ∷ t) ≡ true
is_body-hex n t k = is_body-plain (hex_digit n) t (ground arith) k

is_body-four :
    (m n p q : ℕ) (t : Text)
    → is_body t ≡ true
    → is_body (hex_digit m ∷ hex_digit n ∷ hex_digit p ∷ hex_digit q ∷ t) ≡ true
is_body-four m n p q t k = is_body-hex m (hex_digit n ∷ hex_digit p ∷ hex_digit q ∷ t) (
    is_body-hex n (hex_digit p ∷ hex_digit q ∷ t)
      (is_body-hex p (hex_digit q ∷ t) (is_body-hex q t k)))

is_body-escape_unit : (c : ℕ) (t : Text) → is_body t ≡ true → is_body (escape_unit c ++ t) ≡ true
unfolding is_body
is_body-escape_unit c t k = elim (Option-cases (short_escape c)) [
  | inr (letter, short) ↦ rw short k
  | inl long ↦ elim (Bool-cases (ltb c 0x20 || (leb 0xd800 c && leb c 0xdfff))) [
    | inl hidden ↦
        rw (long, hidden) (is_body-four (c / 4096 % 16) (c / 256 % 16) (c / 16 % 16) (c % 16) t k)
    | inr shown ↦ rw (long, shown) (is_body-plain c t (ground (arith, long)) k)
  ]
]

append-nil : (t : Text) → t ++ [] ≡ t
append-nil [] = refl
append-nil (c ∷ t) = ap (λ r. c ∷ r) (append-nil t)

is_body-escape : (t : Text) → is_body (escape t) ≡ true
unfolding escape is_body
is_body-escape [] = refl
is_body-escape (c ∷ []) =
    subst (λ s. is_body s ≡ true) (append-nil (escape_unit c)) (is_body-escape_unit c [] refl)
is_body-escape (c ∷ d ∷ t) =
    elim (Bool-cases (leb 0xd800 c && leb c 0xdbff && leb 0xdc00 d && leb d 0xdfff)) [
      | inl paired ↦ rw paired (
          is_body-plain c (d ∷ escape t) (ground (arith, paired))
            (is_body-plain d (escape t) (ground (arith, paired)) (is_body-escape t)))
      | inr single ↦ rw single (is_body-escape_unit c (escape (d ∷ t)) (is_body-escape (d ∷ t)))
    ]

members_of-is_written :
    (fill : Text) (ps : List (String × Text))
    → is_fill fill ≡ true
    → is_written_members (members_of fill ps) ≡ true
unfolding is_written
members_of-is_written fill [] h = refl
members_of-is_written fill ((k, t) ∷ ps) h =
    rw (h, is_body-escape (codes k), is_body-escape t, members_of-is_written (b',' ∷ []) ps refl)
      refl

-- It is well written, whatever the texts.
pub document_of-is_written : (ps : List (String × Text)) → is_written (document_of ps) ≡ true
unfolding is_written
document_of-is_written ps = members_of-is_written [] ps refl

-- `JSON.parse` reads the literals of these names as the names.
abbrev pub ReadsNames : (Text → Option Value) → List String → Type 0
ReadsNames parse_json names =
    All (λ k. as_string (parse_json (json_string (codes k))) ≡ some (codes k)) names

-- No name needs an escape.
abbrev pub AreBare : List (String × Text) → Type 0
AreBare ps = All (λ p. escape (codes p.0) ≡ codes p.0) ps

members_of-Decodes :
    (parse_json : Text → Option Value) (fill : Text) (ps : List (String × Text))
    → AreBare ps
    → All (λ p. as_string (parse_json (json_string (codes p.0))) ≡ some (codes p.0)) ps
    → DecodesMembers (λ t. t) parse_json (members_of fill ps)
unfolding Decodes
members_of-Decodes parse_json fill [] b h = tt
members_of-Decodes parse_json fill ((k, t) ∷ ps) (e, b) (read, h) =
    (read ∙ ap some (sym e), tt, members_of-Decodes parse_json (b',' ∷ []) ps b h)

pub document_of-Decodes :
    (parse_json : Text → Option Value) (ps : List (String × Text))
    → AreBare ps
    → All (λ p. as_string (parse_json (json_string (codes p.0))) ≡ some (codes p.0)) ps
    → Decodes (λ t. t) parse_json (document_of ps)
unfolding Decodes
document_of-Decodes parse_json ps b h = members_of-Decodes parse_json [] ps b h
