-- ===== src/Domain/Enums.antt =====
-- The enumerations of ledger/src/core/domain/enums.
mod Events
mod Objects
mod Reasons
mod Parties
pub use Events.*
pub use Objects.*
pub use Reasons.*
pub use Parties.*
