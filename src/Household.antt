-- ===== src/Household.antt =====
-- baskety/internal/household: households, their members, and the middleware that tells for which
-- household a request is made.
pub mod Queries
pub mod Repository
pub mod Dto
pub mod Service
pub mod Middleware
pub mod Scope
pub mod Membership
mod Tests
pub mod Handler
