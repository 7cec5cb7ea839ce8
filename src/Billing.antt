-- ===== src/Billing.antt =====
-- app/modules/billing: payments through Paystack, subscriptions and plans, and what they do to the
-- referral program.
pub mod Model
pub mod Service
pub mod Webhook
pub mod Delivery
pub mod Effects
pub mod Ledger
pub mod Provision
mod Examples
