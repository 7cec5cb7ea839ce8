-- ===== src/Incidents.antt =====
-- app/modules/incidents: the incidents of dependencies, their resolution and their correlations.
pub mod Model
pub mod Service
pub mod Unique
pub mod Resolution
pub mod Correlation
pub mod Listing
mod Examples
