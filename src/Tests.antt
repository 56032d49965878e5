-- ===== src/Tests.antt =====
-- The theorems at concrete inputs.
mod Breaker
mod Poller
mod Export
mod Leader
mod Rows
mod Processor
mod Cycle
mod Walk
mod Family
mod Boundary
