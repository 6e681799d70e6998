-- ===== src/Domain/Json/Document.antt =====
-- JSON texts as trees, with all white space and separators: what the scanner of json.ts reads.
use ultratokenizer.Base.{
  Text, is_space, Bool, true, not, ◌&&◌, ◌==◌, List, [], ◌∷◌, ◌++◌, if◌then◌else◌, ◌≡◌, Option,
  some,
}
use ultratokenizer.Domain.Value.{Value}
use ultratokenizer.Domain.Json.{Token, open_brace, close_brace, key, quoted, has_key, as_string}

-- `fill` and `after` are white space and separators; `body` and `name` are what stands between quotes, escapes
-- as they are written.
mutual
  pub data Document : Type 0 where
    scalar : (literal : Text) → Document
    string : (body : Text) → Document
    array : Elements → Document
    object : Members → Document

  pub data Elements : Type 0 where
    last : (fill : Text) → Elements
    element : (fill : Text) → Document → Elements → Elements

  pub data Members : Type 0 where
    end : (fill : Text) → Members
    member : (fill name space after : Text) → Document → Members → Members

-- The text of a document, and then `rest`.
unfoldable mutual
  pub print : Document → Text → Text
  print (scalar t) rest = t ++ rest
  print (string body) rest = b'"' ∷ (body ++ (b'"' ∷ rest))
  print (array es) rest = b'[' ∷ print_elements es (b']' ∷ rest)
  print (object ms) rest = b'{' ∷ print_members ms (b'}' ∷ rest)

  pub print_elements : Elements → Text → Text
  print_elements (last fill) rest = fill ++ rest
  print_elements (element fill d es) rest = fill ++ print d (print_elements es rest)

  pub print_members : Members → Text → Text
  print_members (end fill) rest = fill ++ rest
  print_members (member fill name space after d ms) rest =
      fill
      ++ (b'"' ∷ (name ++ (b'"' ∷ (space ++ (b':' ∷ (after ++ print d (print_members ms rest)))))))

-- No quote, brace or colon.
abbrev pub is_fill : Text → Bool
is_fill [] = true
is_fill (c ∷ t) =
    not (c == b'"') && not (c == b'{') && not (c == b'}') && not (c == b':') && is_fill t

abbrev pub is_blank : Text → Bool
is_blank [] = true
is_blank (c ∷ t) = is_space c && is_blank t

-- No quote without a backslash before it, and no backslash without what it escapes.
unfoldable pub is_body : Text → Bool
is_body [] = true
is_body (c ∷ []) = not (c == b'"') && not (c == b'\\')
is_body (c ∷ d ∷ t) =
    let escaped = is_body t in
    let next = is_body (d ∷ t) in not (c == b'"') && (if c == b'\\' then escaped else next)

unfoldable mutual
  pub is_written : Document → Bool
  is_written (scalar t) = is_fill t
  is_written (string body) = is_body body
  is_written (array es) = is_written_elements es
  is_written (object ms) = is_written_members ms

  pub is_written_elements : Elements → Bool
  is_written_elements (last fill) = is_fill fill
  is_written_elements (element fill d es) = is_fill fill && is_written d && is_written_elements es

  pub is_written_members : Members → Bool
  is_written_members (end fill) = is_fill fill
  is_written_members (member fill name space after d ms) =
      is_fill fill
      && is_body name
      && is_blank space
      && is_fill after
      && is_written d
      && is_written_members ms

-- Braces and keys, in order.
unfoldable mutual
  pub tokens_of : Document → List Token → List Token
  tokens_of (scalar t) ts = ts
  tokens_of (string body) ts = ts
  tokens_of (array es) ts = tokens_of_elements es ts
  tokens_of (object ms) ts = open_brace ∷ tokens_of_members ms (close_brace ∷ ts)

  pub tokens_of_elements : Elements → List Token → List Token
  tokens_of_elements (last fill) ts = ts
  tokens_of_elements (element fill d es) ts = tokens_of d (tokens_of_elements es ts)

  pub tokens_of_members : Members → List Token → List Token
  tokens_of_members (end fill) ts = ts
  tokens_of_members (member fill name space after d ms) ts =
      key (quoted name) ∷ tokens_of d (tokens_of_members ms ts)

abbrev pub distinct : List Text → Bool
distinct [] = true
distinct (k ∷ ks) = not (has_key ks k) && distinct ks

-- What a name decodes to.
module _ (decode : Text → Text) where
  unfoldable pub names : Members → List Text
  names (end fill) = []
  names (member fill name space after d ms) = decode name ∷ names ms

  -- No object, however deep, has two names that decode to the same text.
  unfoldable mutual
    unfolding names

    pub has_unique_names : Document → Bool
    has_unique_names (scalar t) = true
    has_unique_names (string body) = true
    has_unique_names (array es) = unique_elements es
    has_unique_names (object ms) = distinct (names ms) && unique_members ms

    pub unique_elements : Elements → Bool
    unique_elements (last fill) = true
    unique_elements (element fill d es) = has_unique_names d && unique_elements es

    pub unique_members : Members → Bool
    unique_members (end fill) = true
    unique_members (member fill name space after d ms) = has_unique_names d && unique_members ms

  -- `JSON.parse` reads the text of each name of the document as its decoding; of other names
  -- nothing is said.
  module _ (parse_json : Text → Option Value) where
    unfoldable mutual
      unfolding names

      pub Decodes : Document → Type 0
      Decodes (scalar t) = Unit
      Decodes (string body) = Unit
      Decodes (array es) = DecodesElements es
      Decodes (object ms) = DecodesMembers ms

      pub DecodesElements : Elements → Type 0
      DecodesElements (last fill) = Unit
      DecodesElements (element fill d es) = Decodes d × DecodesElements es

      pub DecodesMembers : Members → Type 0
      DecodesMembers (end fill) = Unit
      DecodesMembers (member fill name space after d ms) =
          (as_string (parse_json (quoted name)) ≡ some (decode name))
          × Decodes d
          × DecodesMembers ms
