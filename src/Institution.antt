-- ===== src/Institution.antt =====
-- packages/institution: the ledger of institutional rights, backing pools and allocations.
pub mod Errors
pub mod Fields
pub mod Types
pub mod Store
pub mod Snapshots
pub mod Outcomes
pub mod Transaction
pub mod Rights
pub mod Pools
pub mod Allocations
pub mod Backing
pub mod Retry
pub mod Handles
pub mod Imported
mod Tests
pub mod Calls
pub mod Spec
pub mod Refinement
pub mod Safety
pub mod Bridge
