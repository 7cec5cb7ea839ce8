-- ===== src/Observations.antt =====
-- app/modules/observations: the outbox of the checks and how it is drained.
pub mod Outbox
pub mod Batch
pub mod Conservation
pub mod Draining
mod Examples
