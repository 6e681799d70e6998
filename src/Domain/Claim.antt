-- ===== src/Domain/Claim.antt =====
-- packages/domain/src/claim-identity.ts
use ultratokenizer.Base.{String, Text, not, List, [], ◌∷◌, ok, ◌>>=◌, ◌>>◌, throw_if}
use ultratokenizer.Domain.Value.{
  Value, obj, Entry, entries, is_plain, has_own, is_data_property, get,
}
use ultratokenizer.Domain.Viem.{Viem}
use ultratokenizer.Domain.Errors.{Checked, fail, failure, invalid_shape, missing_field}
use ultratokenizer.Domain.Fields.{check_keys, identifier}

abbrev pub claim_usage_type : String
claim_usage_type = "UltratokenizerClaimUsageV2(bytes32 sourceId,bytes32 claimId)"

abbrev pub identity_fields : List String
identity_fields = "sourceId" ∷ "claimId" ∷ []

-- The loop over the fields: each is an own property that holds its value.
unfoldable pub check_data_fields : List String → List Entry → Checked (Unit {0})
check_data_fields [] es = ok tt
check_data_fields (field ∷ fields) es = do
  throw_if (not (has_own field es)) (failure missing_field field)
  throw_if (not (is_data_property field es)) (failure invalid_shape field)
  check_data_fields fields es

unfoldable pub claim_record : Value → Checked (List Entry)
unfolding check_keys check_data_fields
claim_record (obj proto props) = do
  throw_if (not (is_plain proto)) (failure invalid_shape "$")
  check_keys identity_fields (entries props)
  check_data_fields identity_fields (entries props)
  ok (entries props)
claim_record _ = fail invalid_shape "$"

unfoldable pub get_claim_usage_id : Viem → Value → Checked Text
get_claim_usage_id viem input = do
  claim ← claim_record input
  source_id ← identifier (get "sourceId" claim) "sourceId"
  claim_id ← identifier (get "claimId" claim) "claimId"
  ok (viem.hash_claim claim_usage_type source_id claim_id)
