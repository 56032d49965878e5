-- ===== src/Reader.antt =====
-- internal/clickhouse: the reader of the span log.
pub mod Walk
