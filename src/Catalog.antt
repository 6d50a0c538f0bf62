-- ===== src/Catalog.antt =====
-- baskety/internal/catalog: stores, catalog entries, and what becomes of a committed purchase.
pub mod Queries
pub mod Repository
pub mod Dto
pub mod Service
pub mod Worker
pub mod Handler
