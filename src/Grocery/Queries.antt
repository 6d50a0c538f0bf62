-- ===== src/Grocery/Queries.antt =====
-- The SQL of the grocery tables (baskety/gen/sqlc), with the constraints of
-- baskety/db/migrations/00004_grocery_lists.sql.
pub mod Rows
mod Lists
mod Items
unfoldable pub use Lists.*
unfoldable pub use Items.*
