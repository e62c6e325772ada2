-- ===== src/Token.antt =====
-- The consumer's token (exchange/orchestration-engine/auth).
pub mod Claims
pub mod Validate
pub mod Checked
pub mod Accepted
pub mod Secured
pub mod Jwks
pub mod Fetched
mod Tests
mod KeyTests
