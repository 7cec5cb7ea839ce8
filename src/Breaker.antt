-- ===== src/Breaker.antt =====
-- app/core/circuit_breaker.py: the circuit breaker of a dependency, over a Redis client. Times are
-- milliseconds of the server's clock.
pub mod Client
pub mod Model
pub mod History
pub mod Dispatch
mod Examples
