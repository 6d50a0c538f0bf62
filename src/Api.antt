-- ===== src/Api.antt =====
-- The server as baskety/cmd/baskety/main.go puts it together.
pub mod Gate
mod Tests
