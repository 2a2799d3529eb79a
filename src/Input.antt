-- ===== src/Input.antt =====
-- Terminal input: src/botster/terminalInputEvents.ts and src/botster/terminalInputEncoding.ts.
pub mod Events
pub mod Encoding
