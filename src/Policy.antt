-- ===== src/Policy.antt =====
-- internal/policy: what may be done about a download, from one observation of it.
pub mod Observation
pub mod Fingerprint
pub mod Unexpected
pub mod Rejected
pub mod Review
pub mod Evaluate
pub mod Profile
pub mod Compare
pub mod Tests
