-- ===== src/Domain/Json/Tests.antt =====
-- A text of the sample request through the scanner, with a name that is repeated and without.
use ultratokenizer.Base.{
  Text, text_eq, codes, is_space, byte_length, unit_bytes, ◌≡◌, ◌==◌, refl, ap, [], ◌∷◌, ◌++◌,
  Option, none, some, ok, err, ltb, if◌then◌else◌, arith,
}
use ultratokenizer.Domain.Value.{Value, str, Props, prop, name}
use ultratokenizer.Domain.Request.{parse_issuance_request}
use ultratokenizer.Domain.Request.Json.{
  parse_issuance_request_json, parse_issuance_request_json-HasUniqueNames,
}
use ultratokenizer.Domain.Json.{JsonError, quoted, as_string, parse_duplicate_free_json}
use ultratokenizer.Domain.Json.Document.{
  Document, Elements, Members, Decodes, DecodesElements, DecodesMembers, scalar, string, array,
  object, last, element, end, member, print, is_body, is_written, names, has_unique_names,
}
use ultratokenizer.Domain.Json.Unique.{parse_duplicate_free_json-HasUniqueNames}
use ultratokenizer.Domain.Tests.{
  test_viem, test_viem-IsChecksum, sample, sample_value, sample_props, upper_value, parse_upper,
}
use ultratokenizer.Domain.Errors.{fail, input_too_large}
use ultratokenizer.Domain.Json.Stringify.{stringify, escape}
use ultratokenizer.Domain.Request.Serialize.{serialize_issuance_request, serialize_round}

-- Texts without escapes; any document is the value given.
abbrev unquoted : Text → Text
unquoted [] = []
unquoted (c ∷ []) = []
unquoted (c ∷ d ∷ t) = c ∷ unquoted (d ∷ t)

abbrev reads : Value → Text → Option Value
reads v [] = none
reads v (c ∷ t) = if c == b'"' then some (str (unquoted t)) else some v

unquoted-append : (t : Text) → unquoted (t ++ (b'"' ∷ [])) ≡ t
unquoted-append [] = refl
unquoted-append (c ∷ []) = refl
unquoted-append (c ∷ d ∷ t) = ap (λ r. c ∷ r) (unquoted-append (d ∷ t))

reads-quoted : (v : Value) (t : Text) → as_string (reads v (quoted t)) ≡ some t
reads-quoted v t = ap some (unquoted-append t)

mutual
  unfolding Decodes

  reads-names : (v : Value) (d : Document) → Decodes (λ t. t) (reads v) d
  reads-names v (scalar t) = tt
  reads-names v (string body) = tt
  reads-names v (array es) = reads-elements v es
  reads-names v (object ms) = reads-members v ms

  reads-elements : (v : Value) (es : Elements) → DecodesElements (λ t. t) (reads v) es
  reads-elements v (last fill) = tt
  reads-elements v (element fill d es) = (reads-names v d, reads-elements v es)

  reads-members : (v : Value) (ms : Members) → DecodesMembers (λ t. t) (reads v) ms
  reads-members v (end fill) = tt
  reads-members v (member fill k space after d ms) =
      (reads-quoted v k, reads-names v d, reads-members v ms)

abbrev members : Text → Props → Members
members fill (prop (name k) a (str t) ps) =
    member fill (codes k) [] (codes " ") (string t) (members (codes ", ") ps)
members fill _ = end []

abbrev request_text : Document
request_text = object (members [] (sample_props "1" "c"))

-- `{"a":{"a" : "{"}, "b":[1, {"a":2 }]}`
abbrev nested : Document
nested = object (
    member [] (codes "a") [] []
      (object (member [] (codes "a") (codes " ") (codes " ") (string (codes "{")) (end [])))
      (member (codes ", ") (codes "b") [] []
        (array (
          element [] (scalar (codes "1")) (
            element (codes ", ")
              (object (member [] (codes "a") [] [] (scalar (codes "2 ")) (end []))) (last []))))
        (end [])))

-- `{"b":[{"a":1,"a":2}]}`
abbrev repeated : Document
repeated = object (
    member [] (codes "b") [] []
      (array (
        element []
          (object (
            member [] (codes "a") [] [] (scalar (codes "1"))
              (member (codes ",") (codes "a") [] [] (scalar (codes "2")) (end []))))
          (last [])))
      (end []))

parse_duplicate_free_json-HasUniqueNames_example :
    parse_duplicate_free_json (reads Value.null) (str (codes " " ++ print repeated (codes " "))) 64
    ≡ err JsonError.syntax
unfolding print is_written is_body byte_length unit_bytes has_unique_names names text_eq
parse_duplicate_free_json-HasUniqueNames_example =
    parse_duplicate_free_json-HasUniqueNames (λ t. t) (reads Value.null) (codes " ") (codes " ")
      repeated Value.null 64 refl refl refl (reads-names Value.null repeated) refl (omega arith)

parse_nested :
    parse_duplicate_free_json (reads Value.null) (str (print nested (codes " "))) 64 ≡ ok Value.null
unfolding print is_written is_body byte_length unit_bytes has_unique_names names text_eq is_space
parse_nested =
    parse_duplicate_free_json-HasUniqueNames (λ t. t) (reads Value.null) [] (codes " ") nested
      Value.null 64 refl refl refl (reads-names Value.null nested) refl (omega arith)

parse_issuance_request_json-HasUniqueNames_example :
    parse_issuance_request_json test_viem (reads sample_value) (str (print request_text []))
    ≡ parse_issuance_request test_viem sample_value
unfolding print is_written is_body byte_length unit_bytes has_unique_names names text_eq
parse_issuance_request_json-HasUniqueNames_example =
    parse_issuance_request_json-HasUniqueNames test_viem (reads sample_value) (λ t. t) [] []
      request_text sample_value refl refl refl (reads-names sample_value request_text) refl

serialize_round_example :
    (text : Text) × (serialize_issuance_request test_viem upper_value ≡ ok text)
    × (parse_issuance_request_json test_viem (reads sample_value) (str text)
        ≡ (if ltb 4096 (byte_length text) then fail input_too_large "$" else ok sample))
unfolding stringify escape
serialize_round_example =
    serialize_round test_viem (reads sample_value) upper_value sample test_viem-IsChecksum
      parse_upper refl
      (
        refl,
        (
          refl,
          (
            refl,
            (
              refl,
              (
                refl,
                (
                  refl,
                  (
                    refl,
                    (
                      refl,
                      (refl, (refl, (refl, (refl, (refl, (refl, (refl, (refl, (refl, tt))))))))),
                    ),
                  ),
                ),
              ),
            ),
          ),
        ),
      )
