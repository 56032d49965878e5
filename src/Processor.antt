-- ===== src/Processor.antt =====
-- internal/processor: the live cycle, the backfill, and what surrounds an export.
pub mod Addresses
pub mod Live
pub mod Fetch
pub mod Export
pub mod Backfill
pub mod Pipeline
