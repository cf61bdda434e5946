-- ===== src/Treasury.antt =====
-- The treasury (treasury/src/core), which proposes facts to the ledger.
pub mod Mapper
pub mod Distance
pub mod Dialog
