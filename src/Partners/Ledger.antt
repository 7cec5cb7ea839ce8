-- ===== src/Partners/Ledger.antt =====
-- The commission ledger under the services: what the row by row loops amount to, and which facts
-- of the table every operation keeps.
pub mod Bulk
pub mod Invariant
pub mod Reach
pub mod Revival
