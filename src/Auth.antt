-- ===== src/Auth.antt =====
-- baskety/internal/auth: users, sessions, and the middleware that reads the token of a request.
pub mod Queries
pub mod Repository
pub mod Dto
pub mod Service
pub mod Middleware
pub mod Admission
pub mod Sessions
mod Tests
pub mod Handler
