-- ===== src/Orchestration/Query.antt =====
-- The queries for the providers (exchange/orchestration-engine/federator).
pub mod Trees
pub mod Paths
pub mod Segments
pub mod Built
pub mod Asked
pub mod Arguments
pub mod Required
pub mod Attached
pub mod Collect
pub mod Directives
pub mod Defined
pub mod Selected
pub mod Sources
pub mod Variables
pub mod Request
pub mod Least
mod Samples
mod Tests
mod BuildTests
