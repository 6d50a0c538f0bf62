-- ===== src/Receipt/Queries.antt =====
-- The statements of the receipt tables, as generated in baskety/gen/sqlc.
pub mod Rows
mod Scans
mod Items
mod Transactions
unfoldable pub use Scans.*
unfoldable pub use Items.*
unfoldable pub use Transactions.*
