-- ===== src/Tests.antt =====
-- The theorems at concrete inputs.
pub mod Codec
pub mod Wire
pub mod Stores
pub mod Plane
pub mod Slots
pub mod Assembly
pub mod Daemon
pub mod Feedback
pub mod Requests
