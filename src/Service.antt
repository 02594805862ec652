-- ===== src/Service.antt =====
-- internal/service: the observer's decisions over the stored data.
pub mod Gate
pub mod Attempts
pub mod Lifecycle
pub mod Client
pub mod Verify
pub mod Observe
pub mod Execute
pub mod Search
pub mod Scan
pub mod Manual
pub mod Plan
pub mod Perform
pub mod Cycle
pub mod Outcome
pub mod Tests
