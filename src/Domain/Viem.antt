-- ===== src/Domain/Viem.antt =====
-- The functions of the library viem that the program calls, as a parameter of the model, with the
-- typed data of request-digest.ts and issuer-permit.ts that it hashes.
use ultratokenizer.Base.{ℕ, Text, codes, Bool, true, ◌≡◌, lower, String}

pub record TypedDataDomain : Type 0 where
  pub domain_name : String
  pub version : Text
  pub chain_id : ℕ
  pub verifying_contract : Text

pub record RequestMessage : Type 0 where
  pub schema_version : ℕ
  pub action : Text
  pub request_id : Text
  pub token : Text
  pub recipient : Text
  pub amount : ℕ
  pub unit : Text
  pub issuer_id : Text
  pub reservation_id : Text
  pub claim_commitment : Text
  pub claim_usage_id : Text
  pub policy_version : ℕ
  pub rights_version : ℕ
  pub nonce : ℕ
  pub valid_until : ℕ

pub record PermitMessage : Type 0 where
  pub request_digest : Text
  pub issuer_id : Text
  pub key_version : ℕ
  pub nonce : ℕ
  pub valid_until : ℕ

-- The primary type says which of the two struct types is hashed.
pub data TypedData : Type 0 where
  issuance_request : TypedDataDomain → RequestMessage → TypedData
  issuer_permit : TypedDataDomain → PermitMessage → TypedData

pub record Viem : Type 0 where
  -- `isAddress(value, { strict: true })`
  pub is_address : Text → Bool
  pub get_address : Text → Text
  pub hash_typed_data : TypedData → Text
  -- `keccak256(encodeAbiParameters(…))` of a type text and two words.
  pub hash_claim : String → Text → Text → Text

abbrev pub zero_address : Text
zero_address = codes "0x0000000000000000000000000000000000000000"

-- The checksummed form of an address is an address, is its own checksummed form, and differs from
-- the text it was made from in the case of letters only.
pub record IsChecksum (v : Viem) : Type 0 where
  pub get_address-is_address :
      (t : Text) → v.is_address t ≡ true → v.is_address (v.get_address t) ≡ true
  pub get_address_idem :
      (t : Text) → v.is_address t ≡ true → v.get_address (v.get_address t) ≡ v.get_address t
  pub lower-get_address : (t : Text) → v.is_address t ≡ true → lower (v.get_address t) ≡ lower t
