-- ===== src/Domain/Json/Unique.antt =====
-- The scanner accepts a written document exactly if no object in it repeats a name.
use ultratokenizer.Base.{
  ℕ, ◌≤◌, ◌<◌, Text, unit_bytes, byte_length, Bool, true, false, not, ◌&&◌, ◌||◌, ◌≡◌, refl, ap,
  ◌∙◌, List, [], ◌∷◌, Option, some, ok, err, throw_if, arith, length, Bool-cases, inl, inr,
  if◌then◌else◌, ◌>>=◌, ◌>>◌, ltb, ◌==◌, text_eq_iff, ◌++◌,
}
use ultratokenizer.Domain.Value.{Value, str}
use ultratokenizer.Domain.Json.{
  JsonError, Token, close_brace, has_key, scan, parse_duplicate_free_json,
}
use ultratokenizer.Domain.Json.Document.{
  Document, Elements, Members, scalar, string, array, object, last, element, end, member, print,
  is_fill, is_body, is_blank, Decodes, DecodesElements, DecodesMembers, is_written,
  is_written_elements, is_written_members, tokens_of, tokens_of_elements, tokens_of_members,
  distinct, names, has_unique_names, unique_elements, unique_members,
}
use ultratokenizer.Domain.Json.Printed.{all_three, all_six, tokens-text}

length-byte_length : (t : Text) → length t ≤ byte_length t
unfolding byte_length unit_bytes
length-byte_length [] = omega arith
length-byte_length (c ∷ []) = ground arith
length-byte_length (c ∷ d ∷ t) = ground (arith, length-byte_length t, length-byte_length (d ∷ t))

-- Of the three tests of the limit only the last counts.
one_test : (m l b : ℕ) → 0 < m → l ≤ b → (m == 0 || ltb m l || ltb m b) ≡ ltb m b
one_test m l b h k = ground (arith, h, k)

if_and :
    {A : Type 0} (a b : Bool) (x y : A)
    → (if a then (if b then x else y) else y) ≡ (if a && b then x else y)
if_and true b x y = refl
if_and false b x y = refl

-- The state of the scanner: the names of an object, less those that other members have.
module _ (decode : Text → Text) where
  fresh : List Text → Members → Bool
  unfolding has_unique_names
  fresh keys (end fill) = true
  fresh keys (member fill name space after d ms) =
      not (has_key keys (decode name)) && has_unique_names decode d && fresh (decode name ∷ keys) ms

  seen : List Text → Members → List Text
  seen keys (end fill) = keys
  seen keys (member fill name space after d ms) = seen (decode name ∷ keys) ms

  abbrev disjoint : List Text → List Text → Bool
  disjoint keys [] = true
  disjoint keys (k ∷ ks) = not (has_key keys k) && disjoint keys ks

  disjoint-nil : (ks : List Text) → disjoint [] ks ≡ true
  disjoint-nil [] = refl
  disjoint-nil (k ∷ ks) = disjoint-nil ks

  disjoint-cons :
      (k : Text) (keys ks : List Text)
      → disjoint (k ∷ keys) ks ≡ (not (has_key ks k) && disjoint keys ks)
  disjoint-cons k keys [] = refl
  disjoint-cons k keys (n ∷ ks) =
      ground (arith, disjoint-cons k keys ks, text_eq_iff k n, text_eq_iff n k)

  fresh_lem :
      (keys : List Text) (ms : Members)
      → fresh keys ms ≡ (
          disjoint keys (names decode ms)
          && (distinct (names decode ms) && unique_members decode ms))
  unfolding fresh names has_unique_names
  fresh_lem keys (end fill) = refl
  fresh_lem keys (member fill name space after d ms) =
      rw (fresh_lem (decode name ∷ keys) ms, disjoint-cons (decode name) keys (names decode ms))
        (ground arith)

  module _ (parse_json : Text → Option Value) where
    mutual
      unfolding scan is_written tokens_of has_unique_names fresh seen Decodes

      scan-document :
          (d : Document) (objects : List (List Text)) (ts : List Token)
          → is_written d ≡ true
          → Decodes decode parse_json d
          → scan parse_json objects (tokens_of d ts) ≡ (
              if has_unique_names decode d
              then scan parse_json objects ts
              else err JsonError.syntax)
      scan-document (scalar t) objects ts h k = refl
      scan-document (string body) objects ts h k = refl
      scan-document (array es) objects ts h k = scan-elements es objects ts h k
      scan-document (object ms) objects ts h k =
          scan-members ms [] objects (close_brace ∷ ts) h k
          ∙ ap (λ b. if b then scan parse_json objects ts else err JsonError.syntax)
              (fresh_lem [] ms ∙ rw (disjoint-nil (names decode ms)) refl)

      scan-elements :
          (es : Elements) (objects : List (List Text)) (ts : List Token)
          → is_written_elements es ≡ true
          → DecodesElements decode parse_json es
          → scan parse_json objects (tokens_of_elements es ts) ≡ (
              if unique_elements decode es
              then scan parse_json objects ts
              else err JsonError.syntax)
      scan-elements (last fill) objects ts h k = refl
      scan-elements (element fill d es) objects ts h (kd, ks) =
          let (f, (w, ws)) = all_three _ _ _ h in
          scan-document d objects (tokens_of_elements es ts) w kd
          ∙ ap (λ r. if has_unique_names decode d then r else err JsonError.syntax)
              (scan-elements es objects ts ws ks)
          ∙ if_and (has_unique_names decode d) (unique_elements decode es) _ _

      scan-members :
          (ms : Members) (keys : List Text) (objects : List (List Text)) (ts : List Token)
          → is_written_members ms ≡ true
          → DecodesMembers decode parse_json ms
          → scan parse_json (keys ∷ objects) (tokens_of_members ms ts) ≡ (
              if fresh keys ms
              then scan parse_json (seen keys ms ∷ objects) ts
              else err JsonError.syntax)
      scan-members (end fill) keys objects ts h k = refl
      scan-members (member fill name space after d ms) keys objects ts h (decoded, kd, ks) =
          let (f, n, s, g, w, ws) =
            all_six (is_fill fill) (is_body name) (is_blank space) (is_fill after) _ _ h in
          rw decoded (elim (Bool-cases (has_key keys (decode name))) [
            | inl old ↦ rw old refl
            | inr other ↦ rw other (
                scan-document d ((decode name ∷ keys) ∷ objects) (tokens_of_members ms ts) w kd
                ∙ ap (λ r. if has_unique_names decode d then r else err JsonError.syntax)
                    (scan-members ms (decode name ∷ keys) objects ts ws ks)
                ∙ if_and (has_unique_names decode d) (fresh (decode name ∷ keys) ms) _ _)
          ])

    -- The text of a document, with white space round it, which `JSON.parse` reads as a value; it
    -- reads the text of each name in the document as the decoding of the name. The limit is not
    -- zero. A text with more bytes is a range error; otherwise the value
    -- is returned if no object, however deep, has two names that decode to the same text, and the
    -- answer is a syntax error if one has.
    pub parse_duplicate_free_json-HasUniqueNames :
        (before after : Text) (d : Document) (v : Value) (max_bytes : ℕ)
        → is_fill before ≡ true
        → is_fill after ≡ true
        → is_written d ≡ true
        → Decodes decode parse_json d
        → parse_json (before ++ print d after) ≡ some v
        → 0 < max_bytes
        → parse_duplicate_free_json parse_json (str (before ++ print d after)) max_bytes ≡ (
            if ltb max_bytes (byte_length (before ++ print d after))
            then err JsonError.range
            else if has_unique_names decode d
            then ok v
            else err JsonError.syntax)
    unfolding parse_duplicate_free_json scan
    parse_duplicate_free_json-HasUniqueNames before after d v max_bytes f g h decodes parsed
          positive =
        rw
          (
            one_test max_bytes _ _ positive (length-byte_length (before ++ print d after)),
            parsed,
            tokens-text before after d f g h,
            scan-document d [] [] h decodes,
          )
          (chosen (ltb max_bytes (byte_length (before ++ print d after)))
            (has_unique_names decode d))
      where
        chosen :
            (a b : Bool)
            → (throw_if a JsonError.range
                >> ((if b then ok tt else err JsonError.syntax) >>= λ (u : Unit {0}). ok v))
              ≡ (if a then err JsonError.range else if b then ok v else err JsonError.syntax)
        chosen true b = refl
        chosen false true = refl
        chosen false false = refl
