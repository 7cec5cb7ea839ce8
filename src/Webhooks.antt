-- ===== src/Webhooks.antt =====
-- app/modules/webhooks: deliveries of events to the webhooks of an organization, and their retries.
pub mod Model
pub mod Delivery
pub mod Settled
pub mod Exhausted
mod Examples
