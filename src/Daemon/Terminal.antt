-- ===== src/Daemon/Terminal.antt =====
-- The binary chunks of a terminal DataChannel, in src/botster/webrtcDaemonClient.ts. AES-GCM is the
-- parameter `encrypt` and `decrypt`; each chunk's random nonce is an argument.
pub mod Channel
pub mod Loopback
pub mod Roundtrip
pub mod Delivery
use botster_web.Common.{
  ℕ, zero, suc, ◌+◌, ◌-◌, ◌*◌, ◌/◌, ◌<◌, ◌≡◌, max, Bool, true, false, not, ◌&&◌, ◌||◌, Option, none,
  some, List, [], ◌∷◌, ◌++◌, ltb, leb, ◌==◌, nat_eq, if◌then◌else◌, length, take, drop,
}
use botster_web.Wire.Bytes.{Bytes, le_bytes, get_le, byte_at}

abbrev pub delivery_chunk_version : ℕ
delivery_chunk_version = 2

abbrev pub max_frame_bytes : ℕ
max_frame_bytes = 65536

abbrev pub max_delivery_bytes : ℕ
max_delivery_bytes = 16777216

abbrev pub terminal_chunk_header_bytes : ℕ
terminal_chunk_header_bytes = 33

abbrev pub terminal_chunk_nonce_bytes : ℕ
terminal_chunk_nonce_bytes = 12

abbrev pub terminal_chunk_tag_bytes : ℕ
terminal_chunk_tag_bytes = 16

abbrev pub terminal_chunk_plaintext_bytes : ℕ
terminal_chunk_plaintext_bytes = 12288

pub record TerminalChunkHeader : Type 0 where
  pub message_id : ℕ
  pub chunk_index : ℕ
  pub chunk_count : ℕ
  pub total_bytes : ℕ
  pub generation : ℕ
  pub stream_epoch : ℕ

-- The fields of a message that is long enough to hold them.
unfoldable pub read_terminal_header : Bytes → TerminalChunkHeader
read_terminal_header message = record {
  message_id = get_le 8 1 message;
  chunk_index = get_le 4 9 message;
  chunk_count = get_le 4 13 message;
  total_bytes = get_le 4 17 message;
  generation = get_le 8 21 message;
  stream_epoch = get_le 4 29 message;
}

unfoldable pub is_bad_header : TerminalChunkHeader → Bool
is_bad_header header =
    (header.chunk_count == 0)
    || leb header.chunk_count header.chunk_index
    || ltb max_delivery_bytes header.total_bytes
    || ltb (max 1 header.total_bytes) header.chunk_count

-- `undefined` is `none`.
unfoldable pub parse_terminal_chunk : Bytes → Option (TerminalChunkHeader × Bytes)
parse_terminal_chunk message =
    let sealed_minimum = terminal_chunk_nonce_bytes + terminal_chunk_tag_bytes in
    if ltb (length message) (terminal_chunk_header_bytes + sealed_minimum)
    then none
    else if not (byte_at 0 message == delivery_chunk_version)
    then none
    else if is_bad_header (read_terminal_header message)
    then none
    else some (read_terminal_header message, drop terminal_chunk_header_bytes message)

pub record TerminalChannelAssembly : Type 0 where
  pub message_id : ℕ
  pub chunk_count : ℕ
  pub total_bytes : ℕ
  pub generation : ℕ
  pub stream_epoch : ℕ
  pub next_index : ℕ
  -- the bytes of the array that are written so far
  pub body : Bytes
  pub received_bytes : ℕ

pub record TerminalStreamEvent : Type 0 where
  pub generation : ℕ
  pub stream_epoch : ℕ
  pub body : Bytes

-- A binding: `is_open` is the `readyState` of its channel, `delivered` what its listener has been given.
pub record TerminalChannelBinding : Type 0 where
  pub generation : Option ℕ
  pub closed : Bool
  pub admitted : Bool
  pub is_open : Bool
  pub listener_closed : Bool
  pub outbound_message_id : ℕ
  pub last_inbound_message_id : ℕ
  pub assembly : Option TerminalChannelAssembly
  pub delivered : List TerminalStreamEvent

pub data TerminalFailure : Type 0 where
  unexpected_control not_one_chunk hello_rejected closed_by_hub generation_invalid : TerminalFailure
  not_admitted frame_unbounded header_invalid not_at_zero id_not_increasing order_invalid
        decryption_failed total_exceeded total_differs :
      TerminalFailure

-- The binding after a message, and the failure that closes the channel, if the handler throws.
abbrev pub Received : Type 0
Received = TerminalChannelBinding × Option TerminalFailure

-- The Hello's answer and what else the control side of the channel may carry, once decrypted.
pub data ControlFrame : Type 0 where
  hello_ack : (accepted : Bool) (terminal_generation : Option ℕ) → ControlFrame
  close other : ControlFrame

-- A control delivery: one chunk, with its frame.
unfoldable pub receive_control : ℕ → ℕ → ControlFrame → TerminalChannelBinding → Received
receive_control chunk_index chunk_count frame b =
    if not (chunk_index == 0) || not (chunk_count == 1)
    then (b, some not_one_chunk)
    else elim frame [
      | close ↦ (b, some closed_by_hub)
      | other ↦ (b, some unexpected_control)
      | hello_ack accepted terminal_generation ↦
          if b.admitted
          then (b, some unexpected_control)
          else if not accepted
          then (b, some hello_rejected)
          else elim terminal_generation [
            | none ↦ (b, some generation_invalid)
            | some g ↦ (record b { generation = some g; admitted = true }, none)
          ]
    ]
