-- ===== src/Domain.antt =====
-- packages/domain: the canonical issuance request, the issuer permit, the claim identity and the
-- typed data that are signed.
pub mod Value
pub mod Viem
pub mod Errors
pub mod Fields
pub mod Request
pub mod Permit
pub mod Json
pub mod Claim
pub mod Boundary
pub mod Tests
