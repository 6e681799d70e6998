-- ===== src/Domain/Permit/Authority.antt =====
-- What a signed permit authorizes.
use ultratokenizer.Base.{◌≤◌, big_int, text_eq_iff, ◌≡◌, ok, arith, >>=-eq-ok}
use ultratokenizer.Domain.Value.{Value}
use ultratokenizer.Domain.Viem.{Viem, issuer_permit, TypedDataDomain, PermitMessage}
use ultratokenizer.Domain.Request.{
  IssuanceRequest, parse_issuance_request, to_value, get_issuance_request_digest,
}
use ultratokenizer.Domain.Permit.{IssuerPermit, parse_issuer_permit, get_issuer_permit_typed_data}

-- If the typed data of a permit are made, then for the request and the permit that the inputs
-- parse to: the message carries the digest of the request, its issuer and the nonce of the
-- permit, ends no later than the request, and is signed for the chain and the gate of the
-- request.
pub typed_data_authorizes :
    (viem : Viem) (request_input permit_input : Value) (d : TypedDataDomain) (m : PermitMessage)
    → get_issuer_permit_typed_data viem request_input permit_input ≡ ok (issuer_permit d m)
    → (request : IssuanceRequest) × (permit : IssuerPermit) × (parse_issuance_request viem
          request_input
        ≡ ok request)
      × (parse_issuer_permit permit_input ≡ ok permit)
      × (get_issuance_request_digest viem (to_value request) ≡ ok m.request_digest)
      × (m.issuer_id ≡ request.issuer_id)
      × (m.valid_until ≤ big_int request.valid_until)
      × (m.nonce ≡ big_int permit.nonce)
      × (d.chain_id ≡ big_int request.chain_id)
      × (d.verifying_contract ≡ request.gate)
unfolding get_issuer_permit_typed_data
typed_data_authorizes viem request_input permit_input d m h =
    let (request, parsed, rest) = >>=-eq-ok (parse_issuance_request viem request_input) _ h in
    let (permit, read, hashing) = >>=-eq-ok (parse_issuer_permit permit_input) _ rest in
    let (digest, hashed, done) =
      >>=-eq-ok (get_issuance_request_digest viem (to_value request)) _ hashing in
    let same = text_eq_iff permit.request_digest digest in
    let issuer = text_eq_iff permit.issuer_id request.issuer_id in
    (
      request,
      permit,
      parsed,
      read,
      ground (arith, same),
      ground (arith, issuer),
      ground arith,
      ground arith,
      ground arith,
      ground arith,
    )
