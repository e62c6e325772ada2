-- ===== src/Policy.antt =====
-- The policy decision point (exchange/policy-decision-point/v1).
pub mod Models
pub mod Decision
pub mod Verdicts
pub mod Index
pub mod Decided
pub mod Answered
pub mod Database
pub mod Sync
pub mod Synced
pub mod Deleted
pub mod AllowLists
pub mod Granted
pub mod Handler
pub mod Handled
mod Tests
mod HandlerTests
