-- ===== src/Wire/RoundTrip.antt =====
-- What `encodeTerminalBody` writes, `decodeTerminalBody` reads back
-- (src/botster/generated/terminal-protocol.ts).
use botster_web.Common.{
  ℕ, ◌+◌, ◌^◌, ◌≤◌, ◌<◌, ◌≡◌, refl, ◌∙◌, String, Option, none, some, [], ◌∷◌, ◌++◌, length, arith,
}
use botster_web.Common.Int.{ℤ, pos, negsuc}
use botster_web.Wire.Error.{ok}
use botster_web.Wire.Bytes.{
  Bytes, le_bytes, le_value, le_value-2, le_value-4, le_value-8, int32_bits, IsInt32,
  int32_value-int32_bits, int32_bits-lt,
}
use botster_web.Wire.Enums.{
  AttachState, attach_state_code, HistoryUnavailableReason, history_unavailable_code, InputOutcome,
  input_outcome_code, input_outcomes, name_of, name_of-input_outcome,
}
use botster_web.Wire.Event.{
  TextCodec, HasNoBom, InputResultBody, TerminalEvent, output, snapshot_ready, snapshot_history,
  snapshot_finish, process_exit, modes, attach_state, input_result, history_unavailable,
  route_resync, max_terminal_body_bytes, max_route_egress_bytes, max_input_result_detail_bytes,
  big_operation_id, encode_optional_u64, process_exit_body, decode_input_result, decode_kind,
  decode_terminal_body, encode_terminal_frame, encode_input_result, encode_terminal_body,
}

abbrev pub IsU64 : Option ℕ → Type 0
IsU64 none = Unit
IsU64 (some n) = n < 2 ^ 64

abbrev pub IsOptionalInt32 : Option ℤ → Type 0
IsOptionalInt32 none = Unit
IsOptionalInt32 (some z) = IsInt32 z

abbrev pub IsOperationId : ℤ → Type 0
IsOperationId (pos n) = (1 ≤ n) × (n < 2 ^ 64)
IsOperationId (negsuc n) = ⊥

-- The range that a value of each field has on the wire.
abbrev pub IsWellFormed : TextCodec → TerminalEvent → Type 0
IsWellFormed codec (output payload) = length payload ≤ max_terminal_body_bytes
IsWellFormed codec (snapshot_ready payload) = length payload ≤ max_terminal_body_bytes
IsWellFormed codec (snapshot_history payload) = length payload ≤ max_terminal_body_bytes
IsWellFormed codec snapshot_finish = Unit
IsWellFormed codec (process_exit code) = IsOptionalInt32 code
IsWellFormed codec (modes mode_bits rows cols) =
    (mode_bits < 2 ^ 32) × (rows < 2 ^ 16) × (cols < 2 ^ 16)
IsWellFormed codec (attach_state state) = Unit
IsWellFormed codec (input_result r) =
    IsOperationId r.operation_id
    × IsU64 r.accepted_payload_bytes
    × IsU64 r.written_pty_bytes
    × (r.mode_bits < 2 ^ 32)
    × HasNoBom r.detail
    × (length (codec.encode r.detail) ≤ max_input_result_detail_bytes)
IsWellFormed codec (history_unavailable reason) = Unit
IsWellFormed codec (route_resync from_epoch to_epoch) = (from_epoch < 2 ^ 32) × (to_epoch < 2 ^ 32)

module _ (codec : TextCodec) where
  -- The header that the encoder writes passes every check of the decoder.
  decode-frame :
      (kind : ℕ) (body : Bytes)
      → kind < 256
      → length body ≤ max_terminal_body_bytes
      → (bytes : Bytes) × (encode_terminal_frame kind body ≡ ok bytes)
        × (decode_terminal_body codec bytes ≡ decode_kind codec kind body)
        × (length bytes ≤ max_route_egress_bytes)
  unfolding encode_terminal_frame decode_terminal_body
  decode-frame kind body k h = (
    2 ∷ kind ∷ le_bytes 2 0 ++ (le_bytes 4 (length body) ++ body),
    ground arith,
    ground (arith, le_value-4 (length body)),
    omega arith,
  )

  abbrev pub RoundTrips : TerminalEvent → Type 0
  RoundTrips e =
      (bytes : Bytes) × (encode_terminal_body codec e ≡ ok bytes)
      × (decode_terminal_body codec bytes ≡ ok e)
      × (length bytes ≤ max_route_egress_bytes)

  RoundTrips-frame :
      (e : TerminalEvent) (kind : ℕ) (body : Bytes)
      → kind < 256
      → length body ≤ max_terminal_body_bytes
      → encode_terminal_body codec e ≡ encode_terminal_frame kind body
      → decode_kind codec kind body ≡ ok e
      → RoundTrips e
  RoundTrips-frame e kind body k h same read =
      let (bytes, written, decoded, fits) = decode-frame kind body k h in
      (bytes, same ∙ written, decoded ∙ read, fits)

  process_exit-reads :
      (code : Option ℤ)
      → IsOptionalInt32 code
      → decode_kind codec 5 (process_exit_body code) ≡ ok (process_exit code)
  unfolding decode_kind
  process_exit-reads none h = refl
  process_exit-reads (some z) h =
      ground (arith, le_value-4 (int32_bits z) (int32_bits-lt z), int32_value-int32_bits z h)

  modes-reads :
      (m r c : ℕ)
      → m < 2 ^ 32
      → r < 2 ^ 16
      → c < 2 ^ 16
      → decode_kind codec 6 (le_bytes 4 m ++ (le_bytes 2 r ++ le_bytes 2 c)) ≡ ok (modes m r c)
  unfolding decode_kind
  modes-reads m r c hm hr hc = cc (le_value-4 m hm, le_value-2 r hr, le_value-2 c hc)

  route_resync-reads :
      (f t : ℕ)
      → f < 2 ^ 32
      → t < 2 ^ 32
      → decode_kind codec 19 (le_bytes 4 f ++ le_bytes 4 t) ≡ ok (route_resync f t)
  unfolding decode_kind
  route_resync-reads f t hf ht = cc (le_value-4 f hf, le_value-4 t ht)

  attach_state-reads :
      (s : AttachState) → decode_kind codec 16 (attach_state_code s ∷ []) ≡ ok (attach_state s)
  unfolding decode_kind name_of
  attach_state-reads AttachState.attaching = refl
  attach_state-reads s = refl

  history_unavailable-reads :
      (r : HistoryUnavailableReason)
      → decode_kind codec 18 (history_unavailable_code r ∷ []) ≡ ok (history_unavailable r)
  unfolding decode_kind name_of
  history_unavailable-reads HistoryUnavailableReason.evicted = refl
  history_unavailable-reads r = refl

  -- The 33 fixed bytes of an input result and the text behind them.
  abbrev result_body : ℕ → InputOutcome → Option ℕ → Option ℕ → ℕ → Bytes → Bytes
  result_body id outcome accepted written mode_bits detail =
      le_bytes 8 id
      ++ (input_outcome_code outcome ∷ encode_optional_u64 accepted
          ++ (encode_optional_u64 written
              ++ (le_bytes 4 mode_bits ++ (le_bytes 2 (length detail) ++ detail))))

  length-result_body :
      (id : ℕ) (o : InputOutcome) (a w : Option ℕ) (m : ℕ) (detail : Bytes)
      → length (result_body id o a w m detail) ≡ 33 + length detail
  length-result_body id o none none m detail = omega arith
  length-result_body id o none (some w) m detail = omega arith
  length-result_body id o (some a) none m detail = omega arith
  length-result_body id o (some a) (some w) m detail = omega arith

  module _ (id : ℕ) (o : InputOutcome) (m : ℕ) (t : String) (id_fits : id < 2 ^ 64)
      (m_fits : m < 2 ^ 32) (t_fits : length (codec.encode t) ≤ max_input_result_detail_bytes)
      (plain : HasNoBom t) where
    fixed_fields :
        (le_value (le_bytes 8 id) ≡ id)
        × (le_value (le_bytes 4 m) ≡ m)
        × (le_value (le_bytes 2 (length (codec.encode t))) ≡ length (codec.encode t))
        × (name_of input_outcome_code input_outcomes (input_outcome_code o) ≡ ok o)
        × (codec.decode (codec.encode t) ≡ some t)
    fixed_fields = (
      le_value-8 id id_fits,
      le_value-4 m m_fits,
      le_value-2 (length (codec.encode t)) (omega arith),
      name_of-input_outcome o,
      codec.decode-encode t plain,
    )

    result_body-reads :
        (a w : Option ℕ)
        → IsU64 a
        → IsU64 w
        → decode_input_result codec (result_body id o a w m (codec.encode t))
          ≡ ok (record {
            operation_id = pos id;
            outcome = o;
            accepted_payload_bytes = a;
            written_pty_bytes = w;
            mode_bits = m;
            detail = t;
          })
    unfolding decode_input_result
    result_body-reads none none ha hw = ground (arith, fixed_fields)
    result_body-reads none (some w) ha hw = ground (arith, fixed_fields, le_value-8 w)
    result_body-reads (some a) none ha hw = ground (arith, fixed_fields, le_value-8 a)
    result_body-reads (some a) (some w) ha hw =
        ground (arith, fixed_fields, le_value-8 a, le_value-8 w)

  process_exit-RoundTrips :
      (code : Option ℤ) → IsOptionalInt32 code → RoundTrips (process_exit code)
  unfolding encode_terminal_body
  process_exit-RoundTrips none h =
      RoundTrips-frame _ 5 _ (omega arith) (omega arith) refl (process_exit-reads none h)
  process_exit-RoundTrips (some z) h =
      RoundTrips-frame _ 5 _ (omega arith) (omega arith) refl (process_exit-reads (some z) h)

  operation_id_parts :
      (z : ℤ) → IsOperationId z → (id : ℕ) × (z ≡ pos id) × (1 ≤ id) × (id < 2 ^ 64)
  operation_id_parts (pos id) (low, high) = (id, refl, low, high)
  operation_id_parts (negsuc n) h = absurd h

  abbrev body_of : ℕ → InputResultBody → Bytes
  body_of id r =
      result_body id r.outcome r.accepted_payload_bytes r.written_pty_bytes r.mode_bits
        (codec.encode r.detail)

  module _ (id : ℕ) (r : InputResultBody) (same : r.operation_id ≡ pos id) (low : 1 ≤ id)
      (high : id < 2 ^ 64)
      (t_fits : length (codec.encode r.detail) ≤ max_input_result_detail_bytes) where
    encode_input_result-ok : encode_input_result codec r ≡ ok (body_of id r)
    unfolding encode_input_result big_operation_id
    encode_input_result-ok = rw same (ground arith)

    input_result-RoundTrips :
        IsU64 r.accepted_payload_bytes
        → IsU64 r.written_pty_bytes
        → r.mode_bits < 2 ^ 32
        → HasNoBom r.detail
        → RoundTrips (input_result r)
    unfolding encode_terminal_body decode_kind
    input_result-RoundTrips ha hw hm plain =
        RoundTrips-frame (input_result r) 17 (body_of id r) (omega arith)
          (omega (
            arith,
            length-result_body id r.outcome r.accepted_payload_bytes r.written_pty_bytes r.mode_bits
                (codec.encode r.detail),
          ))
          (rw encode_input_result-ok)
          (rw (result_body-reads id r.outcome r.mode_bits r.detail high hm t_fits plain _ _ ha hw)
            (rw same))

  -- Every event whose fields are in range is encoded, in a frame that fits the egress bound of a
  -- route, and decoding that frame gives the same event back.
  pub decode-encode_body : (e : TerminalEvent) → IsWellFormed codec e → RoundTrips e
  unfolding encode_terminal_body decode_kind
  decode-encode_body (output p) h = RoundTrips-frame (output p) 1 p (omega arith) h refl refl
  decode-encode_body (snapshot_ready p) h = RoundTrips-frame _ 2 p (omega arith) h refl refl
  decode-encode_body (snapshot_history p) h = RoundTrips-frame _ 3 p (omega arith) h refl refl
  decode-encode_body snapshot_finish h =
      RoundTrips-frame _ 4 [] (omega arith) (omega arith) refl refl
  decode-encode_body (process_exit code) h = process_exit-RoundTrips code h
  decode-encode_body (modes m r c) (hm, hr, hc) =
      RoundTrips-frame _ 6 _ (omega arith) (omega arith) refl (modes-reads m r c hm hr hc)
  decode-encode_body (attach_state s) h =
      RoundTrips-frame _ 16 _ (omega arith) (omega arith) refl (attach_state-reads s)
  decode-encode_body (input_result r) (hid, ha, hw, hm, plain, t_fits) =
      let (id, same, low, high) = operation_id_parts r.operation_id hid in
      input_result-RoundTrips id r same low high t_fits ha hw hm plain
  decode-encode_body (history_unavailable r) h =
      RoundTrips-frame _ 18 _ (omega arith) (omega arith) refl (history_unavailable-reads r)
  decode-encode_body (route_resync f t) (hf, ht) =
      RoundTrips-frame _ 19 _ (omega arith) (omega arith) refl (route_resync-reads f t hf ht)
