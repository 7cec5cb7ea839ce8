-- ===== src/Partners.antt =====
-- app/modules/partners: the referral program, its commission ledger and its payouts.
pub mod Model
pub mod Repository
pub mod Rate
pub mod Service
pub mod Commissions
pub mod Payouts
pub mod Ledger
mod Examples
