-- ===== src/Application.antt =====
-- The application layer of the ledger (ledger/src/core/application).
pub mod Retraction
pub mod Positions
pub mod Projection
pub mod Listing
pub mod Staging
pub mod Rejection
pub mod Posting
pub mod Submission
pub mod Statement
pub mod Recording
