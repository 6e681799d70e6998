-- ===== src/Worker.antt =====
-- workers/issuance: the coordinator that tracks submitted issuance requests.
pub mod Errors
pub mod Model
pub mod Database
pub mod Requests
pub mod Observing
pub mod Schedule
pub mod Spec
pub mod Rows
pub mod Refinement
pub mod Life
pub mod Bounds
pub mod Isolation
pub mod Timing
pub mod Retry
pub mod Observer
pub mod Body
pub mod Auth
pub mod Routes
mod Tests
