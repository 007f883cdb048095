-- ===== src/Activation.antt =====
-- internal/activation: tasks that deliver to destinations, with retries and a circuit breaker.
pub mod Backoff
pub mod Breaker
pub mod Task
pub mod Service
pub mod Fanout
pub mod Runner
