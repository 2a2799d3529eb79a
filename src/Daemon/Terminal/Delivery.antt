-- ===== src/Daemon/Terminal/Delivery.antt =====
-- A frame sent on one end of a terminal DataChannel of src/botster/webrtcDaemonClient.ts and received
-- on the other.
use botster_web.Common.{
  ℕ, ◌+◌, ◌^◌, ◌≤◌, ◌<◌, ◌≡◌, true, false, Option, none, some, List, [], ◌∷◌, ◌++◌, nat_eq,
  if◌then◌else◌, length, arith,
}
use botster_web.Wire.Bytes.{Bytes}
use botster_web.Daemon.Terminal.{
  TerminalChannelBinding, max_delivery_bytes, terminal_chunk_nonce_bytes, terminal_chunk_tag_bytes,
}
use botster_web.Daemon.Terminal.Channel.{
  admitted_terminal_generation, chunk_count_of, send_chunks, send_terminal_frame,
}
use botster_web.Daemon.Terminal.Roundtrip.{receive_all, Awaits-first, sent-received}

module _ (encrypt : Bytes → Bytes → Bytes) (decrypt : Bytes → Bytes → Option Bytes)
    (tagged : (nonce plain : Bytes)
      → length (encrypt nonce plain) ≡ length plain + terminal_chunk_tag_bytes)
    (opens : (nonce plain : Bytes) → decrypt nonce (encrypt nonce plain) ≡ some plain) where
  -- Two bindings admitted under one generation, the sender's open, the receiver's between deliveries
  -- and with its last message id below the next of the sender.
  pub record AreConnected (generation : ℕ) (sender receiver : TerminalChannelBinding) : Type 0 where
    pub ready : (sender.closed ≡ false) × (sender.admitted ≡ true) × (sender.is_open ≡ true)
    pub sends : sender.generation ≡ some generation
    pub receives : (receiver.admitted ≡ true) × (receiver.generation ≡ some generation)
    pub between : receiver.assembly ≡ none
    pub next : receiver.last_inbound_message_id < sender.outbound_message_id + 1

  -- If the cipher adds 16 bytes and opens what it seals, the nonces have 12 bytes, the bindings are
  -- connected, and the generation and the next message id fit 64 bits, then a frame of at most 16777216
  -- bytes, with the key there and the channel open throughout, is sent whole under the next id, and the messages received in order give the listener, unless
  -- it is closed, that one frame.
  pub send_terminal_frame-received :
      (nonce_of : ℕ → Bytes) (generation : ℕ) (frame : Bytes)
      (sender receiver : TerminalChannelBinding)
      → ((i : ℕ) → length (nonce_of i) ≡ terminal_chunk_nonce_bytes)
      → sender.outbound_message_id + 1 < 2 ^ 64
      → generation < 2 ^ 64
      → length frame ≤ max_delivery_bytes
      → AreConnected generation sender receiver
      → (messages : List Bytes) × (send_terminal_frame encrypt decrypt true
            (λ i. true)
            nonce_of
            frame
            sender
          ≡ some (
            record sender { outbound_message_id = sender.outbound_message_id + 1 },
            (messages, true),
          ))
        × (receive_all encrypt decrypt tagged opens messages receiver ≡ (
          record receiver {
            assembly = none;
            last_inbound_message_id = sender.outbound_message_id + 1;
            delivered =
                if receiver.listener_closed
                then receiver.delivered
                else receiver.delivered
                  ++ record { generation = generation; stream_epoch = 0; body = frame } ∷ [];
          },
          none,
        ))
  unfolding send_terminal_frame admitted_terminal_generation
  send_terminal_frame-received nonce_of generation frame sender receiver nonces id_fits
        generation_fits small h =
      let id = sender.outbound_message_id + 1 in
      let sent =
        send_chunks encrypt decrypt nonce_of id generation frame (λ i. true) 0
          (chunk_count_of encrypt decrypt (length frame)) in
      let (ended, received) =
        sent-received encrypt decrypt tagged opens nonce_of id generation frame nonces id_fits
          generation_fits small receiver
          (Awaits-first encrypt decrypt tagged opens nonce_of id generation frame nonces id_fits
            generation_fits small receiver h.receives.0 h.receives.1 h.between h.next) in
      (sent.0, ground (arith, h.ready.0, h.ready.1, h.ready.2, h.sends, ended), received)
