-- ===== src/RateLimit.antt =====
-- app/core/rate_limit.py: the sliding window over a Redis sorted set, and the client's address.
pub mod Limiter
pub mod Window
pub mod ClientIp
mod Examples
