-- ===== src/Grocery.antt =====
-- Grocery lists and their generation from what runs short (baskety/internal/grocery).
pub mod Queries
pub mod Repository
pub mod Dto
pub mod Service
pub mod Request
pub mod Integrity
mod Tests
pub mod Generate
pub mod Scope
pub mod Isolation
pub mod Status
pub mod Errors
pub mod Handler
