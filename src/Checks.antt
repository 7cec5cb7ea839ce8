-- ===== src/Checks.antt =====
-- app/modules/checks: the probe of an endpoint, and what its result does to the incidents of the
-- dependency.
pub mod Probe
pub mod Quorum
pub mod Service
pub mod Execution
pub mod Recovery
pub mod Records
mod Examples
