-- ===== src/Partners/Repository.antt =====
-- app/modules/partners/repository.py: the queries and the updates of the four tables, one module
-- for each class. A query is a selection from a table; an update finds the row by its identity.
pub mod Patches
pub mod Profiles
pub mod Referrals
pub mod Commissions
pub mod Payouts
pub mod Shared
pub mod Codes
