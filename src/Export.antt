-- ===== src/Export.antt =====
-- internal/export: the fan-out over several sinks.
pub mod Multi
