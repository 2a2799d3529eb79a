-- ===== src/Daemon/Terminal/Channel.antt =====
-- Sending and receiving on a terminal DataChannel of src/botster/webrtcDaemonClient.ts.
use botster_web.Common.{
  ℕ, zero, suc, ◌+◌, ◌-◌, ◌*◌, ◌/◌, max, Bool, true, false, not, ◌&&◌, ◌||◌, Option, none, some,
  List, [], ◌∷◌, ◌++◌, ltb, leb, ◌==◌, nat_eq, if◌then◌else◌, length, take, drop,
}
use botster_web.Wire.Bytes.{Bytes, le_bytes}
use botster_web.Daemon.Terminal.{
  TerminalChunkHeader, parse_terminal_chunk, TerminalChannelAssembly, TerminalStreamEvent,
  TerminalChannelBinding, TerminalFailure, not_admitted, frame_unbounded, header_invalid,
  not_at_zero, id_not_increasing, order_invalid, decryption_failed, total_exceeded, total_differs,
  Received, delivery_chunk_version, max_frame_bytes, max_delivery_bytes,
  terminal_chunk_plaintext_bytes, terminal_chunk_nonce_bytes,
}

-- `none` where it throws.
unfoldable pub admitted_terminal_generation : TerminalChannelBinding → Option ℕ
admitted_terminal_generation b = if b.admitted then b.generation else none

-- The assembly that the chunk numbered 0 opens, if it may.
unfoldable pub open_delivery :
    TerminalChunkHeader
    → TerminalChannelBinding
    → (TerminalFailure → Received)
    → (TerminalChannelAssembly → Received)
    → Received
open_delivery header b fail go = elim b.assembly [
  | some assembly ↦ go assembly
  | none ↦
      if not (header.chunk_index == 0)
      then fail not_at_zero
      else if leb header.message_id b.last_inbound_message_id
      then fail id_not_increasing
      else if ltb max_delivery_bytes header.total_bytes
      then fail total_exceeded
      else go (record {
        message_id = header.message_id;
        chunk_count = header.chunk_count;
        total_bytes = header.total_bytes;
        generation = header.generation;
        stream_epoch = header.stream_epoch;
        next_index = 0;
        body = [];
        received_bytes = 0;
      })
]

unfoldable pub is_next : TerminalChunkHeader → TerminalChannelAssembly → Bool
is_next header assembly =
    (assembly.message_id == header.message_id)
    && (assembly.chunk_count == header.chunk_count)
    && (assembly.total_bytes == header.total_bytes)
    && (assembly.generation == header.generation)
    && (assembly.stream_epoch == header.stream_epoch)
    && (header.chunk_index == assembly.next_index)

-- What follows once a slice is decrypted.
unfoldable pub receive_slice : TerminalChannelAssembly → Bytes → TerminalChannelBinding → Received
receive_slice assembly slice b =
    let extended : TerminalChannelAssembly = record assembly {
      body = assembly.body ++ slice;
      received_bytes = assembly.received_bytes + length slice;
      next_index = assembly.next_index + 1;
    } in
    let event : TerminalStreamEvent = record {
      generation = assembly.generation;
      stream_epoch = assembly.stream_epoch;
      body = extended.body;
    } in
    if ltb assembly.total_bytes (assembly.received_bytes + length slice)
    then (record b { assembly = some assembly }, some total_exceeded)
    else if not (extended.next_index == extended.chunk_count)
    then (record b { assembly = some extended }, none)
    else if not (extended.received_bytes == extended.total_bytes)
    then (record b { assembly = some extended }, some total_differs)
    else (
      record b {
        assembly = none;
        last_inbound_message_id = assembly.message_id;
        delivered = if b.listener_closed then b.delivered else b.delivered ++ event ∷ [];
      },
      none,
    )

module _ (encrypt : Bytes → Bytes → Bytes) (decrypt : Bytes → Bytes → Option Bytes) where
  unfoldable pub seal_terminal_chunk : Bytes → TerminalChunkHeader → Bytes → Bytes
  seal_terminal_chunk nonce header plaintext =
      delivery_chunk_version ∷ le_bytes 8 header.message_id
      ++ (le_bytes 4 header.chunk_index
          ++ (le_bytes 4 header.chunk_count
              ++ (le_bytes 4 header.total_bytes
                  ++ (le_bytes 8 header.generation
                      ++ (le_bytes 4 header.stream_epoch ++ (nonce ++ encrypt nonce plaintext))))))

  unfoldable pub open_terminal_chunk : Bytes → Option Bytes
  open_terminal_chunk sealed =
      decrypt (take terminal_chunk_nonce_bytes sealed) (drop terminal_chunk_nonce_bytes sealed)

  -- What follows once there is an assembly.
  unfoldable pub receive_in_order :
      TerminalChunkHeader → Bytes → TerminalChannelBinding → TerminalChannelAssembly → Received
  receive_in_order header sealed b assembly =
      if not (is_next header assembly)
      then (record b { assembly = some assembly }, some order_invalid)
      else elim (open_terminal_chunk sealed) [
        | none ↦ (record b { assembly = some assembly }, some decryption_failed)
        | some slice ↦ receive_slice assembly slice b
      ]

  -- A binary message on an admitted channel. A chunk of another generation is dropped.
  unfoldable pub receive_terminal_chunk : Bytes → TerminalChannelBinding → Received
  receive_terminal_chunk message b =
      if not b.admitted
      then (b, some not_admitted)
      else if leb max_frame_bytes (length message)
      then (b, some frame_unbounded)
      else elim (parse_terminal_chunk message) [
        | none ↦ (b, some header_invalid)
        | some (header, sealed) ↦ elim (admitted_terminal_generation b) [
          | none ↦ (b, some not_admitted)
          | some generation ↦
              if not (header.generation == generation)
              then (b, none)
              else open_delivery header b (λ failure. (b, some failure))
                  (receive_in_order header sealed b)
        ]
      ]

  -- `Math.max(1, Math.ceil(total / size))`
  abbrev pub chunk_count_of : ℕ → ℕ
  chunk_count_of total =
      max 1 ((total + (terminal_chunk_plaintext_bytes - 1)) / terminal_chunk_plaintext_bytes)

  -- `frame.subarray(index * size, Math.min((index + 1) * size, total))`
  abbrev pub slice_of : Bytes → ℕ → Bytes
  slice_of frame index =
      take terminal_chunk_plaintext_bytes (drop (index * terminal_chunk_plaintext_bytes) frame)

  module _ (nonce_of : ℕ → Bytes) (message_id generation : ℕ) (frame : Bytes) where
    abbrev pub header_of : ℕ → TerminalChunkHeader
    header_of index = record {
      message_id = message_id;
      chunk_index = index;
      chunk_count = chunk_count_of (length frame);
      total_bytes = length frame;
      generation = generation;
      stream_epoch = 0;
    }

    -- The loop of `sendTerminalFrame` from the chunk `index` on: the messages it sends, and whether it
    -- ends without an exception. `stays_open` says of each round whether the channel is open then.
    unfoldable pub send_chunks : (ℕ → Bool) → ℕ → ℕ → List Bytes × Bool
    send_chunks stays_open index zero = ([], true)
    send_chunks stays_open index (suc left) =
        let (later, ended) = send_chunks stays_open (suc index) left in
        let message =
          seal_terminal_chunk (nonce_of index) (header_of index) (slice_of frame index) in
        if not (stays_open index)
        then ([], false)
        else if leb max_frame_bytes (length message)
        then ([], false)
        else (message ∷ later, ended)

  -- `none` where the channel is not ready. The key, which the cipher has, is there or not.
  unfoldable pub send_terminal_frame :
      Bool
      → (ℕ → Bool)
      → (ℕ → Bytes)
      → Bytes
      → TerminalChannelBinding
      → Option (TerminalChannelBinding × (List Bytes × Bool))
  send_terminal_frame has_key stays_open nonce_of frame b =
      let message_id = b.outbound_message_id + 1 in
      if b.closed || not b.admitted || not has_key || not b.is_open
      then none
      else elim (admitted_terminal_generation b) [
        | none ↦ none
        | some generation ↦ some (
          record b { outbound_message_id = message_id },
          send_chunks nonce_of message_id generation frame stays_open 0
              (chunk_count_of (length frame)),
        )
      ]
