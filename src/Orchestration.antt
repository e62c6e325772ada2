-- ===== src/Orchestration.antt =====
-- The orchestration engine (exchange/orchestration-engine).
pub mod Models
pub mod Checks
pub mod Federate
pub mod Query
pub mod Versions
pub mod Compatibility
pub mod Notation
pub mod Declared
pub mod Activated
pub mod Preserved
pub mod Passed
pub mod Permitted
pub mod Authorized
pub mod Served
pub mod Answered
mod Tests
mod VersionTests
