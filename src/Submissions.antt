-- ===== src/Submissions.antt =====
-- The public submission of vendors and its review: app/modules/vendor_submissions.
pub mod Model
pub mod Names
pub mod Service
pub mod Inverted
pub mod Reviewed
pub mod Steps
pub mod Review
mod Examples
