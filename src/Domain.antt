-- ===== src/Domain.antt =====
-- The domain layer of the ledger (ledger/src/core/domain).
pub mod Enums
pub mod Matrices
pub mod Contracts
pub mod Errors
pub mod Money
pub mod Hash
pub mod Entities
pub mod CashTypes
pub mod Event
pub mod Policy
pub mod Creation
