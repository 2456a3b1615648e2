-- ===== src/Resilience.antt =====
-- internal/resilience: the retry policy, the circuit breaker and the retrier.
pub mod Policy
pub mod Delay
pub mod Circuit
pub mod Retry
