-- ===== src/Wire.antt =====
-- src/botster/generated/terminal-protocol.ts: the scheme 2 terminal codecs.
pub mod Error
pub mod Bytes
pub mod Enums
pub mod Event
pub mod RoundTrip
pub mod Input
pub mod Frames
pub mod Paste
pub mod Keys
