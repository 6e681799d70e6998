-- ===== src/Domain/Request/Json.antt =====
-- `parseIssuanceRequestJson` of packages/domain/src/issuance-request.ts.
use ultratokenizer.Base.{
  ℕ, Text, byte_length, Bool, true, false, ◌≡◌, refl, ◌++◌, Option, some, Result, ok, err, ltb,
  if◌then◌else◌, arith,
}
use ultratokenizer.Domain.Value.{Value, str}
use ultratokenizer.Domain.Viem.{Viem}
use ultratokenizer.Domain.Errors.{Checked, fail, RequestErrorCode, input_too_large, invalid_json}
use ultratokenizer.Domain.Json.{JsonError, parse_duplicate_free_json}
use ultratokenizer.Domain.Json.Document.{
  Document, print, is_fill, is_written, has_unique_names, Decodes,
}
use ultratokenizer.Domain.Json.Unique.{parse_duplicate_free_json-HasUniqueNames}
use ultratokenizer.Domain.Request.{IssuanceRequest, parse_issuance_request}

abbrev pub code_of : JsonError → RequestErrorCode
code_of JsonError.range = input_too_large
code_of JsonError.syntax = invalid_json

abbrev pub request_of : Viem → Result JsonError Value → Checked IssuanceRequest
request_of viem (err e) = fail (code_of e) "$"
request_of viem (ok value) = parse_issuance_request viem value

abbrev pub request_bytes : ℕ
request_bytes = 4096

unfoldable pub parse_issuance_request_json :
    Viem → (Text → Option Value) → Value → Checked IssuanceRequest
unfolding parse_duplicate_free_json
parse_issuance_request_json viem parse_json input =
    request_of viem (parse_duplicate_free_json parse_json input request_bytes)

-- The text of a document, with white space round it, which `JSON.parse` reads as a value; it reads
-- the text of each name in the document as the decoding of the name. A text of more than 4096 bytes is too large; otherwise, if no object has two names that decode to
-- the same text, the answer is that of the parser of requests on the value, and if one has, the
-- text is invalid.
pub parse_issuance_request_json-HasUniqueNames :
    (viem : Viem) (parse_json : Text → Option Value) (decode : Text → Text) (before after : Text)
    (d : Document) (v : Value)
    → is_fill before ≡ true
    → is_fill after ≡ true
    → is_written d ≡ true
    → Decodes decode parse_json d
    → parse_json (before ++ print d after) ≡ some v
    → parse_issuance_request_json viem parse_json (str (before ++ print d after)) ≡ (
        if ltb 4096 (byte_length (before ++ print d after))
        then fail input_too_large "$"
        else if has_unique_names decode d
        then parse_issuance_request viem v
        else fail invalid_json "$")
unfolding parse_issuance_request_json
parse_issuance_request_json-HasUniqueNames viem parse_json decode before after d v f g h decodes
      parsed =
    rw
      (parse_duplicate_free_json-HasUniqueNames decode parse_json before after d v request_bytes f g
        h decodes parsed (omega arith))
      (answer (ltb 4096 (byte_length (before ++ print d after))) (has_unique_names decode d))
  where
    answer :
        (a b : Bool)
        → request_of viem
            (if a then err JsonError.range else if b then ok v else err JsonError.syntax)
          ≡ (if a
              then fail input_too_large "$"
              else if b
              then parse_issuance_request viem v
              else fail invalid_json "$")
    answer true b = refl
    answer false true = refl
    answer false false = refl
