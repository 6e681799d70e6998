-- ===== src/Institution/Retry.antt =====
-- Retries of the methods of the ledger that write allocations.
pub mod Equal
pub mod Reserve
pub mod Settle
