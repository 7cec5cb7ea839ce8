-- ===== src/Auth.antt =====
-- app/modules/auth: refresh tokens, their rotation and their revocation, and the reset of passwords. Access
-- tokens, registration and the mails are not modelled.
pub mod Tokens
pub mod Rotation
pub mod Sessions
pub mod Replay
pub mod OneTime
pub mod Reset
mod Examples
