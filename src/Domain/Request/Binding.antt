-- ===== src/Domain/Request/Binding.antt =====
-- The typed data that are signed bind every field of a canonical request.
use ultratokenizer.Base.{ℕ, String, Text, big_int, Bool, ◌≡◌, ok, arith, true, false}
use ultratokenizer.Domain.Value.{str}
use ultratokenizer.Domain.Viem.{Viem}
use ultratokenizer.Domain.Fields.{uint}
use ultratokenizer.Domain.Fields.Laws.{uint_lt}
use ultratokenizer.Domain.Fields.Decimal.{big_int-injective}
use ultratokenizer.Domain.Request.{IssuanceRequest, request_typed_data}
use ultratokenizer.Domain.Request.Canonical.{IsCanonical}

uint-injective :
    {t u : Text} (field : String) (bits : ℕ) (zero_ok : Bool)
    → uint (str t) field bits zero_ok ≡ ok t
    → uint (str u) field bits zero_ok ≡ ok u
    → big_int t ≡ big_int u
    → t ≡ u
uint-injective {t} {u} field bits zero_ok ht hu h =
    big_int-injective t u (uint_lt (str t) field bits zero_ok ht).0
      (uint_lt (str u) field bits zero_ok hu).0 h

-- Two canonical requests with the same typed data are the same request: no field is left out of
-- what the holder signs.
pub request_typed_data-injective :
    (viem : Viem) (r s : IssuanceRequest)
    → IsCanonical viem r
    → IsCanonical viem s
    → request_typed_data viem r ≡ request_typed_data viem s
    → r ≡ s
unfolding request_typed_data
request_typed_data-injective viem r s hr hs h = ground (
  arith,
  uint-injective {t = r.chain_id} {u = s.chain_id} "chainId" 256 false hr.chain_id hs.chain_id,
  uint-injective {t = r.amount} {u = s.amount} "amount" 256 false hr.amount hs.amount,
  uint-injective {t = r.policy_version} {u = s.policy_version} "policyVersion" 64 false
      hr.policy_version hs.policy_version,
  uint-injective {t = r.rights_version} {u = s.rights_version} "rightsVersion" 64 false
      hr.rights_version hs.rights_version,
  uint-injective {t = r.nonce} {u = s.nonce} "nonce" 256 true hr.nonce hs.nonce,
  uint-injective {t = r.valid_until} {u = s.valid_until} "validUntil" 64 false hr.valid_until
      hs.valid_until,
)
