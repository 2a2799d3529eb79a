-- ===== src/Daemon/Terminal/Roundtrip.antt =====
-- A frame sent in chunks and received, on the terminal DataChannels of
-- src/botster/webrtcDaemonClient.ts.
use botster_web.Common.{
  ℕ, zero, suc, ◌+◌, ◌-◌, ◌*◌, ◌^◌, ◌≤◌, ◌<◌, ◌≡◌, refl, sym, ap, ◌∙◌, Bool, true, false, Option,
  none, some, List, [], ◌∷◌, ◌++◌, ltb, leb, ◌==◌, nat_eq, if◌then◌else◌, length, take, drop, arith,
  length-append, length-take, eq_self, take-more, take-all,
}
use mathlib.Core.Path.{subst}
use botster_web.Wire.Bytes.{Bytes}
use botster_web.Daemon.Terminal.{
  TerminalChunkHeader, TerminalChannelAssembly, TerminalChannelBinding, TerminalFailure, Received,
  max_delivery_bytes, max_frame_bytes, terminal_chunk_plaintext_bytes, terminal_chunk_nonce_bytes,
  terminal_chunk_tag_bytes,
}
use botster_web.Daemon.Terminal.Channel.{
  admitted_terminal_generation, open_delivery, is_next, receive_slice, receive_in_order,
  seal_terminal_chunk, receive_terminal_chunk, chunk_count_of, slice_of, header_of, send_chunks,
}
use botster_web.Daemon.Terminal.Loopback.{
  IsHeader, length-seal_terminal_chunk, parse-seal_terminal_chunk, open-seal_terminal_chunk,
}

-- A message after another, until one fails.
abbrev pub then_received : Received → (TerminalChannelBinding → Received) → Received
then_received (b, none) continue = continue b
then_received (b, some failure) continue = (b, some failure)

module _ (encrypt : Bytes → Bytes → Bytes) (decrypt : Bytes → Bytes → Option Bytes)
    (tagged : (nonce plain : Bytes)
      → length (encrypt nonce plain) ≡ length plain + terminal_chunk_tag_bytes)
    (opens : (nonce plain : Bytes) → decrypt nonce (encrypt nonce plain) ≡ some plain) where
  unfoldable pub receive_all : List Bytes → TerminalChannelBinding → Received
  receive_all [] b = (b, none)
  receive_all (m ∷ ms) b =
      then_received (receive_terminal_chunk encrypt decrypt m b) (receive_all ms)

  module _ (nonce_of : ℕ → Bytes) (message_id generation : ℕ) (frame : Bytes)
      (nonces : (i : ℕ) → length (nonce_of i) ≡ terminal_chunk_nonce_bytes)
      (id_fits : message_id < 2 ^ 64) (generation_fits : generation < 2 ^ 64)
      (small : length frame ≤ max_delivery_bytes) where
    abbrev pub count : ℕ
    count = chunk_count_of encrypt decrypt (length frame)

    abbrev pub header : ℕ → TerminalChunkHeader
    header = header_of encrypt decrypt nonce_of message_id generation frame

    abbrev pub slice : ℕ → Bytes
    slice = slice_of encrypt decrypt frame

    abbrev pub message : ℕ → Bytes
    message i = seal_terminal_chunk encrypt decrypt (nonce_of i) (header i) (slice i)

    -- The assembly that waits for the chunk `i`.
    abbrev pub before : ℕ → TerminalChannelAssembly
    before i = record {
      message_id = message_id;
      chunk_count = count;
      total_bytes = length frame;
      generation = generation;
      stream_epoch = 0;
      next_index = i;
      body = take (i * terminal_chunk_plaintext_bytes) frame;
      received_bytes = length (take (i * terminal_chunk_plaintext_bytes) frame);
    }

    header-IsHeader : (i : ℕ) → i < count → IsHeader (header i)
    header-IsHeader i below = record {
      message_id = id_fits;
      generation = generation_fits;
      stream_epoch = omega arith;
      index = below;
      total = small;
      count = omega arith;
    }

    length-slice : (i : ℕ) → length (slice i) ≤ terminal_chunk_plaintext_bytes
    length-slice i = omega (
      arith,
      length-take terminal_chunk_plaintext_bytes (drop (i * terminal_chunk_plaintext_bytes) frame),
    )

    -- The chunk `i` is sent within the transport limit.
    length-message : (i : ℕ) → length (message i) < max_frame_bytes
    length-message i = omega (
      arith,
      length-slice i,
      length-seal_terminal_chunk encrypt decrypt tagged opens (nonce_of i) (header i) (slice i)
          (nonces i),
    )

    -- A binding that can take the chunk `i` of this frame.
    pub record Awaits (i : ℕ) (b : TerminalChannelBinding) : Type 0 where
      pub admitted : b.admitted ≡ true
      pub current : admitted_terminal_generation b ≡ some generation
      pub opened :
          (fail : TerminalFailure → Received) (go : TerminalChannelAssembly → Received)
          → open_delivery (header i) b fail go ≡ go (before i)

    before-is_next : (i : ℕ) → is_next (header i) (before i) ≡ true
    unfolding is_next
    before-is_next i = ground (
      arith,
      eq_self message_id,
      eq_self count,
      eq_self (length frame),
      eq_self generation,
      eq_self i,
    )

    decrypted :
        (i : ℕ) (b : TerminalChannelBinding)
        → receive_in_order encrypt decrypt
            (header i)
            (nonce_of i ++ encrypt (nonce_of i) (slice i))
            b
            (before i)
          ≡ receive_slice (before i) (slice i) b
    unfolding receive_in_order
    decrypted i b =
        rw (receive_in_order, before-is_next i)
          (rw
            (
              receive_in_order,
              open-seal_terminal_chunk encrypt decrypt tagged opens (nonce_of i) (slice i)
                  (nonces i),
            )
            refl)

    -- The chunk is decrypted and put in its place.
    receive-message :
        (i : ℕ) (b : TerminalChannelBinding)
        → i < count
        → Awaits i b
        → receive_terminal_chunk encrypt decrypt (message i) b
          ≡ receive_slice (before i) (slice i) b
    unfolding receive_terminal_chunk
    receive-message i b below h =
        let parses =
          parse-seal_terminal_chunk encrypt decrypt tagged opens (nonce_of i) (header i) (slice i)
            (nonces i) (header-IsHeader i below) in
        let short : leb max_frame_bytes (length (message i)) ≡ false =
          ground (arith, length-message i) in
        let same : (generation == generation) ≡ true = eq_self generation in
        simp h.admitted (
          rw short (
            rw (receive_terminal_chunk, parses)
              (rw (receive_terminal_chunk, h.current) (rw same (h.opened _ _ ∙ decrypted i b)))))

    -- The bytes in place after the chunk `i` are those before the chunk after it.
    body-next :
        (i : ℕ)
        → take (i * terminal_chunk_plaintext_bytes) frame ++ slice i
          ≡ take (suc i * terminal_chunk_plaintext_bytes) frame
    body-next i =
        take-more (i * terminal_chunk_plaintext_bytes) terminal_chunk_plaintext_bytes
          (suc i * terminal_chunk_plaintext_bytes) frame (omega arith)

    received-next :
        (i : ℕ)
        → length (take (i * terminal_chunk_plaintext_bytes) frame) + length (slice i)
          ≡ length (take (suc i * terminal_chunk_plaintext_bytes) frame)
    received-next i =
        sym (length-append (take (i * terminal_chunk_plaintext_bytes) frame) (slice i))
        ∙ ap length (body-next i)

    received-fits :
        (i : ℕ)
        → length (take (i * terminal_chunk_plaintext_bytes) frame) + length (slice i) ≤ length frame
    received-fits i =
        omega (arith, received-next i, length-take (suc i * terminal_chunk_plaintext_bytes) frame)

    -- The binding once the frame is whole.
    abbrev pub finished : TerminalChannelBinding → TerminalChannelBinding
    finished b = record b {
      assembly = none;
      last_inbound_message_id = message_id;
      delivered =
          if b.listener_closed
          then b.delivered
          else b.delivered
            ++ record { generation = generation; stream_epoch = 0; body = frame } ∷ [];
    }

    abbrev pub waits_for : ℕ → TerminalChannelBinding → TerminalChannelBinding
    waits_for i b = record b { assembly = some (before i) }

    receive_slice-later :
        (i : ℕ) (b : TerminalChannelBinding)
        → suc i < count
        → receive_slice (before i) (slice i) b ≡ (waits_for (suc i) b, none)
    unfolding receive_slice
    receive_slice-later i b more =
        let fits : ltb (length frame)
              (length (take (i * terminal_chunk_plaintext_bytes) frame) + length (slice i))
            ≡ false =
          ground (arith, received-fits i) in
        let unfinished : ((i + 1) == count) ≡ false = ground (arith, more) in
        let extended : Path TerminalChannelAssembly
            (record (before i) {
              body = take (i * terminal_chunk_plaintext_bytes) frame ++ slice i;
              received_bytes =
                  length (take (i * terminal_chunk_plaintext_bytes) frame) + length (slice i);
              next_index = i + 1;
            })
            (before (suc i)) =
          λ j. record (before (suc i)) {
            body = body-next i j;
            received_bytes = received-next i j;
            next_index = index-next i j;
          } in
        rw fits (
          rw unfinished
            (ap (λ (a : TerminalChannelAssembly). (record b { assembly = some a }, none)) extended))
      where
        index-next : (n : ℕ) → n + 1 ≡ suc n
        index-next n = omega arith

    receive_slice-last :
        (i : ℕ) (b : TerminalChannelBinding)
        → suc i ≡ count
        → receive_slice (before i) (slice i) b ≡ (finished b, none)
    unfolding receive_slice
    receive_slice-last i b last =
        let fits : ltb (length frame)
              (length (take (i * terminal_chunk_plaintext_bytes) frame) + length (slice i))
            ≡ false =
          ground (arith, received-fits i) in
        let ended : ((i + 1) == count) ≡ true = ground (arith, last) in
        let whole : take (suc i * terminal_chunk_plaintext_bytes) frame ≡ frame =
          take-all (suc i * terminal_chunk_plaintext_bytes) frame (omega (arith, last)) in
        let exact : ((length (take (i * terminal_chunk_plaintext_bytes) frame) + length (slice i))
              == length frame)
            ≡ true =
          ground (arith, received-next i, ap length whole) in
        rw fits (rw ended (rw exact (rw (body-next i ∙ whole) refl)))

    Awaits-later :
        (i : ℕ) (b : TerminalChannelBinding) → Awaits i b → Awaits (suc i) (waits_for (suc i) b)
    Awaits-later i b h = record {
      admitted = h.admitted;
      current = unfold admitted_terminal_generation in h.current;
      opened = λ fail go. unfold open_delivery in refl;
    }

    abbrev pub sent_from : ℕ → ℕ → List Bytes × Bool
    sent_from = send_chunks encrypt decrypt nonce_of message_id generation frame (λ i. true)

    send_chunks-more :
        (i left : ℕ)
        → sent_from i (suc left)
          ≡ (message i ∷ (sent_from (suc i) left).0, (sent_from (suc i) left).1)
    unfolding send_chunks
    send_chunks-more i left =
        let short : leb max_frame_bytes (length (message i)) ≡ false =
          ground (arith, length-message i) in
        rw short refl

    -- The chunks from `i` on are all sent, and received they finish the frame.
    sent_from-received :
        (left i : ℕ) (b : TerminalChannelBinding)
        → i + suc left ≡ count
        → Awaits i b
        → ((sent_from i (suc left)).1 ≡ true)
          × (receive_all (sent_from i (suc left)).0 b ≡ (finished b, none))
    unfolding receive_all
    sent_from-received zero i b last h =
        let more = send_chunks-more i 0 in
        let taken = receive-message i b (omega arith) h ∙ receive_slice-last i b (omega arith) in
        (
          ap (λ r. r.1) more ∙ (unfold send_chunks in refl),
          ap (λ r. receive_all r.0 b) more
              ∙ ap (λ r. then_received r (receive_all (sent_from (suc i) 0).0)) taken
              ∙ (unfold send_chunks in refl),
        )
    sent_from-received (suc left) i b last h =
        let more = send_chunks-more i (suc left) in
        let taken = receive-message i b (omega arith) h ∙ receive_slice-later i b (omega arith) in
        let (ended, received) =
          sent_from-received left (suc i) (waits_for (suc i) b) (omega arith)
            (Awaits-later i b h) in
        (
          ap (λ r. r.1) more ∙ ended,
          ap (λ r. receive_all r.0 b) more
              ∙ ap (λ r. then_received r (receive_all (sent_from (suc i) (suc left)).0)) taken
              ∙ received,
        )

    pub Awaits-first :
        (b : TerminalChannelBinding)
        → b.admitted ≡ true
        → b.generation ≡ some generation
        → b.assembly ≡ none
        → b.last_inbound_message_id < message_id
        → Awaits 0 b
    Awaits-first b admitted current between next = record {
      admitted = admitted;
      current = unfold admitted_terminal_generation in simp admitted current;
      opened = λ fail go.
          unfold open_delivery in
          let higher : leb message_id b.last_inbound_message_id ≡ false = ground (arith, next) in
          let bounded : ltb max_delivery_bytes (length frame) ≡ false = ground (arith, small) in
          rw (open_delivery, between) (rw higher (rw bounded refl));
    }

    -- The whole frame, from its first chunk.
    pub sent-received :
        (b : TerminalChannelBinding)
        → Awaits 0 b
        → ((sent_from 0 count).1 ≡ true)
          × (receive_all (sent_from 0 count).0 b ≡ (finished b, none))
    sent-received b h =
        let positive : suc (count - 1) ≡ count = omega arith in
        subst
          (λ n. ((sent_from 0 n).1 ≡ true) × (receive_all (sent_from 0 n).0 b ≡ (finished b, none)))
          positive (sent_from-received (count - 1) 0 b (omega arith) h)
