-- ===== src/Resilience.antt =====
-- internal/resilience: the circuit breaker and the adaptive poller, each with its laws below it.
pub mod Breaker
pub mod Poller
