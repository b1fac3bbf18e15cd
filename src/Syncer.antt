-- ===== src/Syncer.antt =====
-- The address synchroniser (internal/syncer/manager.go).
pub mod Coverage
pub mod State
pub mod Persist
pub mod FetchRange
pub mod FetchRecent
pub mod Contract
pub mod Actions
pub mod Address
pub mod Process
pub mod Queue
pub mod Tests
mod CoverageTests
pub mod AddressTests
mod QueueTests
