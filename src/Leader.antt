-- ===== src/Leader.antt =====
-- internal/leader/election.go and export_gate.go: leader election over Keeper, and the gate that
-- lets a cluster reader export.
pub mod Znodes
pub mod Election
