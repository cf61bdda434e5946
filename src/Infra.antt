-- ===== src/Infra.antt =====
-- The infrastructure of the ledger (ledger/src/infra).
pub mod Memory
pub mod Staged
