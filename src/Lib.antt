-- ===== src/Lib.antt =====
-- A model of the core logic of botster-web: the browser client that shows terminals and entities of a
-- Botster Hub. Paths are from the repository's root.
--
-- Common: lists, finite maps by key and Boolean tests that the parts share.
-- Wire: src/botster/generated/terminal-protocol.ts, the binary protocol of a terminal route.
--   Wire.Enums has its tables, Wire.Event the bodies that the Hub sends (`decodeTerminalBody`,
--   `encodeTerminalBody`), Wire.Input the frames that the client sends (`encodeInputFrame` and its
--   callers), Wire.Keys the key table; Wire.RoundTrip, Wire.Frames and Wire.Paste prove that they read
--   back. An exception is an `err`; the browser's text codec is the parameter `TextCodec`, with the two
--   laws that the code relies on.
-- Input: src/botster/terminalInputEvents.ts and src/botster/terminalInputEncoding.ts, from DOM events
--   to semantic inputs to wire operations.
-- Plane: src/botster/hubTerminalDataPlane.ts, the class `HubTerminalDataPlane`. Plane.State holds its
--   fields as one record, with what it does to the world outside as a list of effects; every method is
--   a function on that record, up to its next wait, and what follows a wait is a function of its own
--   (`attach_acquire`, `attach_ready`, `snapshot_read`, `start_send`, `send_failed`, `reattach`).
--   Plane.Queue, Plane.Settle and Plane.Commands are the input side; Plane.Lifecycle and
--   Plane.Construction attach, detach and recover; Plane.Route and Plane.Frames receive. Plane.Whole
--   puts them together as a run of happenings. A task of the send chain runs up to its sends, which end
--   or fail later. The other modules of Plane are proofs. The time is an argument; a timer that fires is a happening.
-- Entities: src/botster/entities.ts, the store of entity frames.
-- PluginLogs: src/botster/pluginLogs.ts, the pages of a plugin's log and the view that merges them.
-- Daemon: src/botster/webrtcDaemonClient.ts, the client of the daemon over WebRTC, by the state that its
--   parts keep. Daemon.Admission counts the messages of a channel that wait to be decoded
--   (`admitInboundFrame`). Daemon.Slots has the slots of outstanding requests and the queue for them
--   (`acquireRequestSlot`, `reserveSlot`, `grantWaitingSlot`, `cancelRequestSlotWaiters`).
--   Daemon.Pending has the requests from `sendEncrypted` until they settle (`settlePending`,
--   `failPending`); a slot's release is a record there.
--   Daemon.Assembly reads the chunks of control deliveries (`parseDeliveryChunk`), and its Handler
--   assembles them (`handleMessage`, up to the decryption of the whole envelope). Daemon.Terminal
--   has the binary chunk of a terminal channel, and its Channel sends and receives frames in chunks
--   (`sendTerminalFrame`, `handleTerminalChannelMessage`). Daemon.Reconnect has the attempts to
--   connect, their timer and the recovery of lost ones; Daemon.EntityFrames the sequence numbers
--   of entity subscriptions. Each part has a run of events, in any order: a timer that fires, a queued
--   recovery, a settled attempt, a release and an arriving message are events.
-- Quarantines: src/botster/hubQuarantines.ts, the quarantines of a Hub status, the Resolve action of each
--   and the outcome that its row shows. Quarantines.Machine follows one row by itself.
-- Sessions: src/botster/terminalSession.ts and src/app/sessionEndNotice.ts, the notice of an ended session.
-- Tests: the theorems at concrete inputs.
--
-- The data plane encodes inputs with Input and Wire and decodes what the bridge delivers with Wire. Its
-- bridge, the snapshot reader of the vendored renderer and the listeners are outside the model: calls
-- of them are effects, their answers are arguments. Listeners are taken not to call the plane back.
-- The daemon client's encryption and the browser's UTF-8 length are parameters, and so are its nonces.
-- Loops are structural recursion on lists, so no fuel is needed. Numbers are natural numbers, with the
-- width of a wire field written out; pixels and cells are whole.
--
-- Not modelled: of the daemon client, the signalling and encryption of a connection,
-- subscription and package event channels; the Hub transport and its DTOs, the React application, the
-- vendored renderer, `readScreen` and `captureSnapshot`, entity pulls, pointer positions and the wheel,
-- the records of the live harness.
pub mod Common
pub mod Wire
pub mod Entities
pub mod PluginLogs
pub mod Input
pub mod Plane
pub mod Tests
pub mod Daemon
pub mod Quarantines
pub mod Sessions
