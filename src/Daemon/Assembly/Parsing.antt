-- ===== src/Daemon/Assembly/Parsing.antt =====
-- What a parsed delivery chunk satisfies, for src/botster/webrtcDaemonClient.ts.
use botster_web.Common.{
  ℕ, ◌-◌, ◌≤◌, ◌<◌, ◌≡◌, false, not, ◌||◌, some, ◌==◌, nat_eq, string_eq, opt_beq, opt_beq_iff,
  String, ltb, leb, arith, if_split, option_split,
}
use mathlib.Core.Path.{subst}
use botster_web.Daemon.Assembly.{
  RawChunk, DeliveryChunk, Parsed, refused, parsed, is_in_range, parse_chunk_body,
  parse_delivery_chunk, maximum_response_bytes,
}

-- The bounds that the handler relies on, and the fields they come from.
pub record IsParsed (utf8_byte_length : String → ℕ) (raw : RawChunk) (c : DeliveryChunk)
    : Type 0 where
  pub version : raw.version ≡ some 2
  pub kind : raw.delivery_kind ≡ some c.delivery_kind
  pub id : (raw.message_id ≡ some c.message_id) × ((c.message_id == "") ≡ false)
  pub count : (raw.chunk_count ≡ some c.chunk_count) × (0 < c.chunk_count)
  pub total : (raw.total_bytes ≡ some c.total_bytes) × (c.total_bytes ≤ maximum_response_bytes)
  pub fits : c.chunk_count ≤ c.total_bytes
  pub index : (raw.chunk_index ≡ some c.chunk_index) × (c.chunk_index < c.chunk_count)
  pub payload :
      (raw.payload ≡ some c.payload)
      × (0 < utf8_byte_length c.payload)
      × (utf8_byte_length c.payload ≤ c.total_bytes)

module _ (utf8_byte_length : String → ℕ) where
  -- What a result of the parser says.
  abbrev Says : RawChunk → Parsed → Type 0
  Says raw (refused failure) = Unit
  Says raw (parsed c) = IsParsed utf8_byte_length raw c

  parse_delivery_chunk-Says :
      (raw : RawChunk) → Says raw (parse_delivery_chunk utf8_byte_length raw)
  unfolding parse_delivery_chunk parse_chunk_body
  parse_delivery_chunk-Says raw =
      if_split (Says raw) (not (opt_beq raw.version (some 2))) (λ bad. tt)
        (λ version.
          if_split (Says raw) (not (opt_beq raw.delivery_kind (some "server_frame"))) (λ bad. tt)
            (λ kind.
              option_split (Says raw) raw.message_id (λ bad. tt)
                (λ message_id has_id.
                  if_split (Says raw) (message_id == "") (λ bad. tt)
                    (λ id_named.
                      option_split (Says raw) raw.chunk_count (λ bad. tt)
                        (λ chunk_count has_count.
                          if_split (Says raw) (leb chunk_count 0) (λ bad. tt)
                            (λ positive.
                              option_split (Says raw) raw.total_bytes (λ bad. tt)
                                (λ total_bytes has_total.
                                  if_split (Says raw)
                                    (not (is_in_range total_bytes 1 maximum_response_bytes))
                                    (λ bad. tt)
                                    (λ total.
                                      if_split (Says raw) (ltb total_bytes chunk_count) (λ bad. tt)
                                        (λ fits.
                                          option_split (Says raw) raw.chunk_index (λ bad. tt)
                                            (λ index has_index.
                                              if_split (Says raw)
                                                (not (is_in_range index 0 (chunk_count - 1)))
                                                (λ bad. tt)
                                                (λ below.
                                                  option_split (Says raw) raw.payload (λ bad. tt)
                                                    (λ text has_text.
                                                      if_split (Says raw)
                                                        (leb (utf8_byte_length text) 0
                                                          || ltb total_bytes
                                                            (utf8_byte_length text))
                                                        (λ bad. tt)
                                                        (λ sized. record {
                                                          version =
                                                            (opt_beq_iff raw.version (some 2)).0
                                                            (ground (arith, version));
                                                          kind =
                                                            (opt_beq_iff raw.delivery_kind
                                                            (some "server_frame")).0
                                                            (ground (arith, kind));
                                                          id = (has_id, id_named);
                                                          count =
                                                            (has_count, ground (arith, positive));
                                                          total =
                                                            (has_total, ground (arith, total));
                                                          fits = ground (arith, fits);
                                                          index = (
                                                            has_index,
                                                            ground (arith, below, positive),
                                                          );
                                                          payload = (
                                                            has_text,
                                                            ground (arith, sized),
                                                            ground (arith, sized),
                                                          );
                                                        })))))))))))))

  -- A raw chunk that parses is of version 2 and of the one known kind, its id is not empty, its chunk count
  -- is positive and at most its total, which is at most 16777216, its index is below the count, its payload
  -- has between 1 and that many bytes, and the parsed fields are the raw ones.
  pub parse_delivery_chunk-IsParsed :
      (raw : RawChunk) (c : DeliveryChunk)
      → parse_delivery_chunk utf8_byte_length raw ≡ parsed c
      → IsParsed utf8_byte_length raw c
  parse_delivery_chunk-IsParsed raw c h = subst (Says raw) h (parse_delivery_chunk-Says raw)
