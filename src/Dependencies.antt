-- ===== src/Dependencies.antt =====
-- app/modules/dependencies: the endpoints that an organization watches.
pub mod Model
pub mod Service
pub mod Steps
pub mod Limits
pub mod Tenancy
pub mod Own
pub mod Confined
pub mod Updates
pub mod Headers
mod Examples
