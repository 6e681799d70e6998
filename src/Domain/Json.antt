-- ===== src/Domain/Json.antt =====
-- packages/domain/src/json.ts: the tokens that `matchAll` finds, and the check of the keys.
pub mod Document
pub mod Stringify
pub mod Tokens
pub mod Printed
pub mod Unique
mod Tests
use ultratokenizer.Base.{
  ℕ, zero, suc, Text, text_eq, Bool, true, false, not, ◌&&◌, ◌||◌, List, [], ◌∷◌, ◌++◌, Option,
  none, some, Result, ok, err, ltb, ◌==◌, any, length, is_space, byte_length, if◌then◌else◌, ◌>>=◌,
  ◌>>◌, throw_if, or_throw, rethrow,
}
use ultratokenizer.Domain.Value.{Value, str}

-- `SyntaxError` and `RangeError`.
pub data JsonError : Type 0 where
  syntax range : JsonError

-- A brace, or a string literal that a colon follows.
pub data Token : Type 0 where
  open_brace close_brace : Token
  key : (literal : Text) → Token

pub data Class : Type 0 where
  opens closes quotes plain : Class

abbrev pub class_of : ℕ → Class
class_of c =
    if c == b'{'
    then Class.opens
    else if c == b'}'
    then Class.closes
    else if c == b'"'
    then Class.quotes
    else Class.plain

abbrev pub prepend : Text → Option (Text × Text) → Option (Text × Text)
prepend t none = none
prepend t (some (body, rest)) = some (t ++ body, rest)

-- `(?:[^"\\]|\\[\s\S])*"` from here: what stands before the closing quote, and what follows it.
unfoldable pub string_end : Text → Option (Text × Text)
string_end [] = none
string_end (c ∷ []) = if c == b'"' then some ([], []) else none
string_end (c ∷ d ∷ t) =
    let escaped = string_end t in
    let next = string_end (d ∷ t) in
    if c == b'"'
    then some ([], d ∷ t)
    else if c == b'\\'
    then prepend (c ∷ d ∷ []) escaped
    else prepend (c ∷ []) next

-- `\s*`
unfoldable pub after_space : Text → Text
unfolding is_space
after_space [] = []
after_space (c ∷ t) = if is_space c then after_space t else c ∷ t

abbrev pub quoted : Text → Text
quoted body = b'"' ∷ (body ++ (b'"' ∷ []))

-- `(:)?`, and what follows the match.
abbrev pub colon : Text → Text → List Token × Text
colon body [] = ([], [])
colon body (c ∷ t) = if c == b':' then (key (quoted body) ∷ [], t) else ([], c ∷ t)

-- A string literal, if it ends; what follows it if no literal starts here is `t`.
abbrev pub literal_at : Text → Option (Text × Text) → List Token × Text
literal_at t none = ([], t)
literal_at t (some (body, rest)) = colon body (after_space rest)

-- One match that starts with a character of a class, or one step past it: what is found, and what
-- follows.
unfoldable pub advance : Class → Text → List Token × Text
unfolding string_end after_space
advance Class.opens t = (open_brace ∷ [], t)
advance Class.closes t = (close_brace ∷ [], t)
advance Class.plain t = ([], t)
advance Class.quotes t = literal_at t (string_end t)

-- `input.matchAll(/("(?:[^"\\]|\\[\s\S])*")\s*(:)?|[{}]/g)`, less the strings that no colon follows;
-- each round takes a character, so the length of the text is enough fuel.
unfoldable pub matches : ℕ → Text → List Token
unfolding advance
matches zero t = []
matches (suc fuel) [] = []
matches (suc fuel) (c ∷ t) = (advance (class_of c) t).0 ++ matches fuel (advance (class_of c) t).1

unfoldable pub tokens : Text → List Token
unfolding matches
tokens t = matches (length t) t

abbrev pub has_key : List Text → Text → Bool
has_key keys k = any (λ seen. text_eq seen k) keys

-- `JSON.parse(token) as string`
abbrev pub as_string : Option Value → Option Text
as_string (some (str t)) = some t
as_string _ = none

-- `parse_json` is `JSON.parse`, `none` where it throws.
module _ (parse_json : Text → Option Value) where
  -- A key of the innermost object; without one, `keys` is undefined and its use throws.
  abbrev pub add_key : List (List Text) → Text → Result JsonError (List (List Text))
  add_key [] k = err JsonError.syntax
  add_key (keys ∷ objects) k =
      if has_key keys k then err JsonError.syntax else ok ((k ∷ keys) ∷ objects)

  unfoldable pub scan : List (List Text) → List Token → Result JsonError (Unit {0})
  scan objects [] = ok tt
  scan objects (open_brace ∷ ts) = scan ([] ∷ objects) ts
  scan [] (close_brace ∷ ts) = scan [] ts
  scan (keys ∷ objects) (close_brace ∷ ts) = scan objects ts
  scan objects (key literal ∷ ts) =
      or_throw (as_string (parse_json literal)) JsonError.syntax >>= λ k.
      add_key objects k >>= λ objects'. scan objects' ts

  unfoldable pub parse_duplicate_free_json : Value → ℕ → Result JsonError Value
  unfolding tokens scan byte_length
  parse_duplicate_free_json (str input) max_bytes = do
    throw_if (max_bytes == 0 || ltb max_bytes (length input) || ltb max_bytes (byte_length input))
        JsonError.range
    value ← or_throw (parse_json input) JsonError.syntax
    scan [] (tokens input)
    ok value
  parse_duplicate_free_json _ max_bytes = err JsonError.syntax
