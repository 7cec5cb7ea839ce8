-- ===== src/Ssrf.antt =====
-- app/core/ssrf_protection.py: which addresses the service may connect to.
pub mod Address
pub mod Policy
pub mod Probing
pub mod Mapped
mod Examples
