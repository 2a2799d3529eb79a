-- ===== src/Daemon/Terminal/Loopback.antt =====
-- What one end of a terminal DataChannel of src/botster/webrtcDaemonClient.ts sends, the other takes
-- to the same frame.
use botster_web.Common.{
  ◌+◌, ◌^◌, ◌≤◌, ◌<◌, ◌≡◌, refl, max, true, false, Option, some, ◌++◌, ◌==◌, nat_eq, length, drop,
  arith, length-append, take-append, drop-append,
}
use botster_web.Wire.Bytes.{Bytes, byte_at, le_value-4, le_value-8}
use botster_web.Daemon.Terminal.{
  TerminalChunkHeader, parse_terminal_chunk, read_terminal_header, is_bad_header,
  delivery_chunk_version, terminal_chunk_header_bytes, max_delivery_bytes,
  terminal_chunk_nonce_bytes, terminal_chunk_tag_bytes,
}
use botster_web.Daemon.Terminal.Channel.{seal_terminal_chunk, open_terminal_chunk}

-- A header whose fields fit their widths and the checks of the reader.
pub record IsHeader (h : TerminalChunkHeader) : Type 0 where
  pub message_id : h.message_id < 2 ^ 64
  pub generation : h.generation < 2 ^ 64
  pub stream_epoch : h.stream_epoch < 2 ^ 32
  pub index : h.chunk_index < h.chunk_count
  pub total : h.total_bytes ≤ max_delivery_bytes
  pub count : h.chunk_count ≤ max 1 h.total_bytes

module _ (encrypt : Bytes → Bytes → Bytes) (decrypt : Bytes → Bytes → Option Bytes)
    (tagged : (nonce plain : Bytes)
      → length (encrypt nonce plain) ≡ length plain + terminal_chunk_tag_bytes)
    (opens : (nonce plain : Bytes) → decrypt nonce (encrypt nonce plain) ≡ some plain) where
  pub length-seal_terminal_chunk :
      (nonce : Bytes) (h : TerminalChunkHeader) (plain : Bytes)
      → length nonce ≡ terminal_chunk_nonce_bytes
      → length (seal_terminal_chunk encrypt decrypt nonce h plain) ≡ 61 + length plain
  unfolding seal_terminal_chunk
  length-seal_terminal_chunk nonce h plain size =
      omega (arith, length-append nonce (encrypt nonce plain), tagged nonce plain)

  read-seal_terminal_chunk :
      (nonce : Bytes) (h : TerminalChunkHeader) (plain : Bytes)
      → IsHeader h
      → read_terminal_header (seal_terminal_chunk encrypt decrypt nonce h plain) ≡ h
  unfolding read_terminal_header seal_terminal_chunk
  read-seal_terminal_chunk nonce h plain fits = λ i. record {
    message_id = le_value-8 h.message_id fits.message_id i;
    chunk_index = le_value-4 h.chunk_index (omega (arith, fits.index, fits.count, fits.total)) i;
    chunk_count = le_value-4 h.chunk_count (omega (arith, fits.count, fits.total)) i;
    total_bytes = le_value-4 h.total_bytes (omega (arith, fits.total)) i;
    generation = le_value-8 h.generation fits.generation i;
    stream_epoch = le_value-4 h.stream_epoch fits.stream_epoch i;
  }

  is_bad_header_sound : (h : TerminalChunkHeader) → IsHeader h → is_bad_header h ≡ false
  unfolding is_bad_header
  is_bad_header_sound h fits = ground (arith, fits.index, fits.total, fits.count)

  -- The header and the sealed slice are read back.
  pub parse-seal_terminal_chunk :
      (nonce : Bytes) (h : TerminalChunkHeader) (plain : Bytes)
      → length nonce ≡ terminal_chunk_nonce_bytes
      → IsHeader h
      → parse_terminal_chunk (seal_terminal_chunk encrypt decrypt nonce h plain)
        ≡ some (h, nonce ++ encrypt nonce plain)
  unfolding parse_terminal_chunk
  parse-seal_terminal_chunk nonce h plain size fits =
      let long = length-seal_terminal_chunk nonce h plain size in
      let version : (byte_at 0 (seal_terminal_chunk encrypt decrypt nonce h plain)
            == delivery_chunk_version)
          ≡ true =
        unfold seal_terminal_chunk in ground arith in
      let sealed : drop terminal_chunk_header_bytes
            (seal_terminal_chunk encrypt decrypt nonce h plain)
          ≡ nonce ++ encrypt nonce plain =
        unfold seal_terminal_chunk in refl in
      rw (parse_terminal_chunk, read-seal_terminal_chunk nonce h plain fits)
        (rw (is_bad_header_sound h fits) (rw version (rw sealed (ground (arith, long)))))

  pub open-seal_terminal_chunk :
      (nonce plain : Bytes)
      → length nonce ≡ terminal_chunk_nonce_bytes
      → open_terminal_chunk encrypt decrypt (nonce ++ encrypt nonce plain) ≡ some plain
  unfolding open_terminal_chunk
  open-seal_terminal_chunk nonce plain size =
      rw (take-append terminal_chunk_nonce_bytes nonce (encrypt nonce plain) size) (
        rw (drop-append terminal_chunk_nonce_bytes nonce (encrypt nonce plain) size)
          (opens nonce plain))
