-- ===== src/Domain/Request/Serialize.antt =====
-- `serializeIssuanceRequest` of packages/domain/src/issuance-request.ts.
use ultratokenizer.Base.{
  Text, text_eq, byte_length, true, ◌≡◌, refl, ap, ◌∙◌, [], Option, some, ok, ltb, if◌then◌else◌,
  ◌>>=◌, subst,
}
use ultratokenizer.Domain.Value.{Value, str}
use ultratokenizer.Domain.Viem.{Viem, IsChecksum}
use ultratokenizer.Domain.Errors.{Checked, fail, input_too_large, invalid_json}
use ultratokenizer.Domain.Json.Document.{print, has_unique_names, names}
use ultratokenizer.Domain.Json.Stringify.{
  AreBare, document_of-Decodes, escape, stringify, document_of, print-document_of,
  document_of-is_written, ReadsNames,
}
use ultratokenizer.Domain.Request.{
  IssuanceRequest, fields, to_value, request_texts, parse_issuance_request,
}
use ultratokenizer.Domain.Request.Json.{
  parse_issuance_request_json, parse_issuance_request_json-HasUniqueNames,
}
use ultratokenizer.Domain.Boundary.{parse_idem}

unfoldable pub serialize_issuance_request : Viem → Value → Checked Text
serialize_issuance_request viem input = do
  request ← parse_issuance_request viem input
  ok (stringify (request_texts request))

-- No name of a request needs an escape, and none is repeated.
names_unique :
    (r : IssuanceRequest) → has_unique_names (λ t. t) (document_of (request_texts r)) ≡ true
unfolding has_unique_names names escape text_eq
names_unique r = refl

names-AreBare : (r : IssuanceRequest) → AreBare (request_texts r)
unfolding escape
names-AreBare r = (
  refl,
  (
    refl,
    (
      refl,
      (
        refl,
        (
          refl,
          (
            refl,
            (
              refl,
              (refl, (refl, (refl, (refl, (refl, (refl, (refl, (refl, (refl, (refl, tt)))))))))),
            ),
          ),
        ),
      ),
    ),
  ),
)

-- The checksummed form of an address is stable, and an input is a request. Suppose `JSON.parse` reads
-- the text that `JSON.stringify` writes of the request as that object, and the literals of the
-- names as the names. Then the input is serialized, and the text is parsed: as too large if it has
-- more than 4096 bytes, and else to the request.
pub serialize_round :
    (viem : Viem) (parse_json : Text → Option Value) (input : Value) (r : IssuanceRequest)
    → IsChecksum viem
    → parse_issuance_request viem input ≡ ok r
    → parse_json (stringify (request_texts r)) ≡ some (to_value r)
    → ReadsNames parse_json fields
    → (text : Text) × (serialize_issuance_request viem input ≡ ok text)
      × (parse_issuance_request_json viem parse_json (str text)
          ≡ (if ltb 4096 (byte_length text) then fail input_too_large "$" else ok r))
unfolding serialize_issuance_request
serialize_round viem parse_json input r laws parsed inverse decodes =
    let ps = request_texts r in
    let printed = print-document_of ps in
    let read =
      parse_issuance_request_json-HasUniqueNames viem parse_json (λ t. t) [] [] (document_of ps)
        (to_value r) refl refl (document_of-is_written ps)
        (document_of-Decodes parse_json ps (names-AreBare r) decodes)
        (ap parse_json printed ∙ inverse) in
    let answer : (if has_unique_names (λ t. t) (document_of ps)
          then parse_issuance_request viem (to_value r)
          else fail invalid_json "$")
        ≡ ok r =
      rw (names_unique r) (parse_idem viem input r laws parsed) in
    (
      stringify ps,
      rw parsed refl,
      subst
          (λ (t : Text).
            parse_issuance_request_json viem parse_json (str t)
            ≡ (if ltb 4096 (byte_length t) then fail input_too_large "$" else ok r))
          printed
          (read
            ∙ ap
                (λ (a : Checked IssuanceRequest).
                  if ltb 4096 (byte_length (print (document_of ps) []))
                  then fail input_too_large "$"
                  else a)
                answer),
    )
