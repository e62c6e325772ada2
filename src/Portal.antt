-- ===== src/Portal.antt =====
-- The portal backend (portal-backend/v1).
pub mod Roles
pub mod Access
pub mod Rows
pub mod ApplicationRecords
pub mod Applications
pub mod ApplicationReads
pub mod SubmissionRecords
pub mod Submissions
pub mod Sagas
pub mod Approvals
pub mod MemberRecords
pub mod Members
pub mod MemberUpdates
pub mod Joined
pub mod SchemaRecords
pub mod Schemas
pub mod SchemaSubmissions
pub mod Offered
pub mod Granting
pub mod Endpoints
pub mod Hierarchy
mod Tests
mod ServiceTests
