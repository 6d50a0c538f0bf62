-- ===== src/Receipt.antt =====
-- baskety/internal/receipt: the scans of receipts, their processing and their commit.
pub mod Queries
pub mod Repository
pub mod Dto
pub mod Lookup
pub mod Service
pub mod Request
pub mod Worker
mod Tests
pub mod Settled
pub mod Commit
pub mod Upload
pub mod Handler
pub mod JobQueue
