-- ===== src/Organizations.antt =====
-- app/modules/organizations: organizations, their members and the listing of members.
pub mod Model
pub mod Service
pub mod Owners
pub mod Unique
pub mod Listing
pub mod Slugs
mod Examples
