-- ===== src/Daemon.antt =====
-- The parts of src/botster/webrtcDaemonClient.ts that keep state of their own.
pub mod Admission
pub mod Slots
pub mod Assembly
pub mod Terminal
pub mod Reconnect
pub mod EntityFrames
pub mod Pending
