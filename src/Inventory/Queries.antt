-- ===== src/Inventory/Queries.antt =====
-- The SQL of the inventory tables (baskety/gen/sqlc), with the constraints of baskety/db/migrations:
-- primary keys, foreign keys, cascades, the unique index on item names.
pub mod Rows
mod Inventories
mod Items
mod Batches
unfoldable pub use Inventories.*
unfoldable pub use Items.*
unfoldable pub use Batches.*
