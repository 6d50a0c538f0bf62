-- ===== src/Inventory.antt =====
-- Inventories, their items and the batches in stock (baskety/internal/inventory).
pub mod Queries
pub mod Repository
pub mod Dto
pub mod Service
pub mod Integrity
pub mod Scope
pub mod Created
pub mod Isolation
pub mod Request
pub mod Stock
mod Tests
pub mod Effective
pub mod Counted
pub mod Listed
pub mod Fefo
pub mod Decision
pub mod Deleted
pub mod FirstBatch
pub mod Handler
