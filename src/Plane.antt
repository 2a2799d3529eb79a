-- ===== src/Plane.antt =====
-- src/botster/hubTerminalDataPlane.ts: the terminal data plane of one session.
pub mod State
pub mod Basics
pub mod Queue
pub mod Settle
pub mod Commands
pub mod Lifecycle
pub mod Route
pub mod Frames
pub mod Construction
pub mod Window
pub mod Sound
pub mod Admission
pub mod Settling
pub mod Accounting
pub mod Outcomes
pub mod Closing
pub mod Keeping
pub mod Buffering
pub mod Bounded
pub mod Order
pub mod Outputs
pub mod Ending
pub mod Receiving
pub mod Dispatch
pub mod Sending
pub mod Whole
pub mod Hydrating
pub mod Attaching
pub mod Buffered
