-- ===== src/Consent.antt =====
-- The consent engine (exchange/consent-engine/v1).
pub mod Models
pub mod Database
pub mod Rules
pub mod Views
pub mod Updates
pub mod Create
pub mod Comparison
pub mod Validation
pub mod Writes
pub mod Expiry
pub mod Lifecycle
pub mod Preservation
pub mod Traces
pub mod Creation
pub mod Outcomes
pub mod Revocation
pub mod Portal
pub mod Memory
pub mod Handlers
pub mod Owned
mod Tests
mod HandlerTests
