-- ===== src/Worker/Body.antt =====
-- `exactKeys` and `readJson` of workers/issuance/src/errors.ts.
pub mod Bounds
use ultratokenizer.Base.{
  ℕ, ◌+◌, String, Text, all_chars, is_digit, big_int, Bool, true, false, not, ◌&&◌, ◌||◌, List, [],
  ◌∷◌, ◌++◌, Option, none, some, Result, ok, err, ltb, leb, ◌==◌, all, filter, length,
  if◌then◌else◌, ◌>>=◌, ◌>>◌, throw_if, or_throw, rethrow,
}
use ultratokenizer.Domain.Value.{Value, str, Entry, Key, name, symbol, has_own}
use ultratokenizer.Domain.Json.{parse_duplicate_free_json}
use ultratokenizer.Worker.Errors.{Response, Failure, worker, ErrorCode}
use ultratokenizer.Worker.Observer.{record_entries}

-- `Object.keys` leaves symbols out.
abbrev pub has_name : Entry → Bool
has_name e = elim e.key [ name k ↦ true | symbol ↦ false ]

unfoldable pub exact_keys : Value → List String → Response (List Entry)
exact_keys value keys = do
  es ← or_throw (record_entries value) (worker ErrorCode.invalid_request)
  throw_if
      (not (length (filter has_name es) == length keys) || not (all (λ key. has_own key es) keys))
      (worker ErrorCode.invalid_request)
  ok es

-- A body as its reader gives it: the bytes in chunks, and whether the timer ran out before the end.
pub record Stream : Type 0 where
  pub chunks : List (List ℕ)
  pub timed_out : Bool

-- The header content-length, and the body.
pub record Message : Type 0 where
  pub content_length : Option Text
  pub body : Option Stream

-- `/^[0-9]{1,10}$/`
unfoldable pub is_length : Text → Bool
unfolding all_chars is_digit
is_length t = leb 1 (length t) && leb (length t) 10 && all_chars is_digit t

-- An empty header counts as none.
unfoldable pub is_declared_over : ℕ → Option Text → Bool
unfolding is_length
is_declared_over maximum none = false
is_declared_over maximum (some t) =
    if length t == 0 then false else if is_length t then ltb maximum (big_int t) else true

-- The loop over the chunks, after `read` bytes.
unfoldable pub read_chunks : ℕ → ℕ → List (List ℕ) → Response (List ℕ)
read_chunks maximum read [] = ok []
read_chunks maximum read (chunk ∷ chunks) = do
  throw_if (ltb maximum (read + length chunk)) (worker ErrorCode.payload_too_large)
  rest ← read_chunks maximum (read + length chunk) chunks
  ok (chunk ++ rest)

-- `decode` is a fatal `TextDecoder`, and `parse_json` is `JSON.parse`; `none` where they throw.
module _ (decode : List ℕ → Option Text) (parse_json : Text → Option Value) where
  unfoldable pub read_json : Message → ℕ → Response Value
  unfolding is_declared_over read_chunks parse_duplicate_free_json
  read_json message maximum = do
    throw_if (is_declared_over maximum message.content_length) (worker ErrorCode.payload_too_large)
    stream ← or_throw message.body (worker ErrorCode.invalid_request)
    bytes ← read_chunks maximum 0 stream.chunks
    throw_if stream.timed_out (worker ErrorCode.invalid_request)
    text ← or_throw (decode bytes) (worker ErrorCode.invalid_request)
    rethrow (parse_duplicate_free_json parse_json (str text) maximum)
        (worker ErrorCode.invalid_request)
