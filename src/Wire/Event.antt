-- ===== src/Wire/Event.antt =====
-- Terminal bodies: `decodeTerminalBody` and `encodeTerminalBody` of
-- src/botster/generated/terminal-protocol.ts. An exception is an `err`.
use Prim.Native.Char.{code}
use botster_web.Common.{
  ℕ, ◌+◌, ◌-◌, ◌^◌, ◌≡◌, ◌≢◌, String, not, ◌||◌, Option, none, some, [], ◌∷◌, ◌++◌, length, drop,
  ltb, ◌==◌, nat_eq, if◌then◌else◌,
}
use botster_web.Common.Int.{ℤ, pos, negsuc}
use botster_web.Wire.Error.{
  truncated_header, invalid_detail, invalid_utf8, invalid_operation_id, wrong_scheme_version,
  unknown_kind, body_too_large, body_length_mismatch, body_length, Result, ok, err, ◌>>=◌, ◌>>◌,
  throw_if,
}
use botster_web.Wire.Bytes.{Bytes, AreBytes, le_bytes, get_le, byte_at, int32_bits, int32_value}
use botster_web.Wire.Enums.{
  TerminalKind, terminal_kind, AttachState, attach_state_code, attach_states,
  HistoryUnavailableReason, history_unavailable_code, history_unavailable_reasons, InputOutcome,
  input_outcome_code, input_outcomes, name_of,
}

abbrev pub terminal_stream_scheme_version : ℕ
terminal_stream_scheme_version = 2

abbrev pub terminal_body_header_bytes : ℕ
terminal_body_header_bytes = 8

abbrev pub max_route_egress_bytes : ℕ
max_route_egress_bytes = 4194304

abbrev pub max_terminal_body_bytes : ℕ
max_terminal_body_bytes = 4194296

abbrev pub max_input_result_detail_bytes : ℕ
max_input_result_detail_bytes = 1024

-- The text does not begin with a byte order mark, which `TextDecoder` removes.
abbrev pub HasNoBom : String → Type 0
HasNoBom String.[] = Unit
HasNoBom (String.◌∷◌ c s) = code c ≢ 0xfeff

-- The browser's `TextEncoder`, and its `TextDecoder("utf-8", { fatal: true })`, which throws on
-- bytes that are no UTF-8 text: `none` here.
pub record TextCodec : Type 0 where
  pub encode : String → Bytes
  pub decode : Bytes → Option String
  pub encode-AreBytes : (t : String) → AreBytes (encode t)
  pub decode-encode : (t : String) → HasNoBom t → decode (encode t) ≡ some t

-- `accepted_payload_bytes` and `written_pty_bytes` are null or a u64.
pub record InputResultBody : Type 0 where
  pub operation_id : ℤ
  pub outcome : InputOutcome
  pub accepted_payload_bytes : Option ℕ
  pub written_pty_bytes : Option ℕ
  pub mode_bits : ℕ
  pub detail : String

pub data TerminalEvent : Type 0 where
  output snapshot_ready snapshot_history : Bytes → TerminalEvent
  snapshot_finish : TerminalEvent
  process_exit : Option ℤ → TerminalEvent
  modes : ℕ → ℕ → ℕ → TerminalEvent
  attach_state : AttachState → TerminalEvent
  input_result : InputResultBody → TerminalEvent
  history_unavailable : HistoryUnavailableReason → TerminalEvent
  route_resync : ℕ → ℕ → TerminalEvent

abbrev pub expect_length : Bytes → ℕ → Result (Unit {0})
expect_length body expected =
    throw_if (not (length body == expected)) (body_length expected (length body))

abbrev pub or_invalid_utf8 : Option String → Result String
or_invalid_utf8 none = err invalid_utf8
or_invalid_utf8 (some t) = ok t

-- A bigint operation id: 1 to 2 ^ 64 - 1.
unfoldable pub big_operation_id : ℤ → Result ℕ
big_operation_id (pos n) = if ltb n 1 || ltb (2 ^ 64 - 1) n then err invalid_operation_id else ok n
big_operation_id (negsuc n) = err invalid_operation_id

-- `view.getUint8(offset) === 1 ? view.getBigUint64(offset + 1, true) : null`
abbrev pub optional_u64 : ℕ → Bytes → Option ℕ
optional_u64 offset body =
    if byte_at offset body == 1 then some (get_le 8 (offset + 1) body) else none

-- `encodeOptionalU64`
abbrev pub encode_optional_u64 : Option ℕ → Bytes
encode_optional_u64 none = 0 ∷ le_bytes 8 0
encode_optional_u64 (some value) = 1 ∷ le_bytes 8 value

module _ (codec : TextCodec) where
  unfoldable pub decode_input_result : Bytes → Result InputResultBody
  decode_input_result body = do
    throw_if (ltb (length body) 33) (body_length 33 (length body))
    let detail_len = get_le 2 31 body
    let detail_bytes = drop 33 body
    throw_if
        (not (detail_len == length detail_bytes) || ltb max_input_result_detail_bytes detail_len)
        invalid_detail
    outcome ← name_of input_outcome_code input_outcomes (byte_at 8 body)
    detail ← or_invalid_utf8 (codec.decode detail_bytes)
    ok (record {
      operation_id = pos (get_le 8 0 body);
      outcome = outcome;
      accepted_payload_bytes = optional_u64 9 body;
      written_pty_bytes = optional_u64 18 body;
      mode_bits = get_le 4 27 body;
      detail = detail;
    })

  -- The `switch (bytes[1])` of `decodeTerminalBody`, over the body behind the header.
  unfoldable pub decode_kind : ℕ → Bytes → Result TerminalEvent
  decode_kind kind body =
      if kind == terminal_kind TerminalKind.output
      then ok (output body)
      else if kind == terminal_kind TerminalKind.snapshot_ready
      then ok (snapshot_ready body)
      else if kind == terminal_kind TerminalKind.snapshot_history
      then ok (snapshot_history body)
      else if kind == terminal_kind TerminalKind.snapshot_finish
      then (do expect_length body 0; ok snapshot_finish)
      else if kind == terminal_kind TerminalKind.process_exit
      then (do
        expect_length body 5
        let code = int32_value (get_le 4 1 body)
        ok (process_exit (if byte_at 0 body == 1 then some code else none)))
      else if kind == terminal_kind TerminalKind.modes
      then (do
        expect_length body 8
        ok (modes (get_le 4 0 body) (get_le 2 4 body) (get_le 2 6 body)))
      else if kind == terminal_kind TerminalKind.attach_state
      then (do
        expect_length body 1
        state ← name_of attach_state_code attach_states (byte_at 0 body)
        ok (attach_state state))
      else if kind == terminal_kind TerminalKind.input_result
      then (do result ← decode_input_result body; ok (input_result result))
      else if kind == terminal_kind TerminalKind.history_unavailable
      then (do
        expect_length body 1
        reason ← name_of history_unavailable_code history_unavailable_reasons (byte_at 0 body)
        ok (history_unavailable reason))
      else if kind == terminal_kind TerminalKind.route_resync
      then (do expect_length body 8; ok (route_resync (get_le 4 0 body) (get_le 4 4 body)))
      else err (unknown_kind kind)

  unfoldable pub decode_terminal_body : Bytes → Result TerminalEvent
  decode_terminal_body bytes = do
    throw_if (ltb (length bytes) terminal_body_header_bytes) truncated_header
    throw_if (not (byte_at 0 bytes == terminal_stream_scheme_version))
        (wrong_scheme_version (byte_at 0 bytes))
    let declared = get_le 4 4 bytes
    let body = drop terminal_body_header_bytes bytes
    throw_if (not (declared == length body)) (body_length_mismatch declared (length body))
    decode_kind (byte_at 1 bytes) body

unfoldable pub encode_terminal_frame : ℕ → Bytes → Result Bytes
encode_terminal_frame kind body = do
  throw_if (ltb max_terminal_body_bytes (length body)) (body_too_large (length body))
  ok (terminal_stream_scheme_version ∷ kind ∷ le_bytes 2 0 ++ (le_bytes 4 (length body) ++ body))

-- The body of a process exit: all zero when there is no code.
abbrev pub process_exit_body : Option ℤ → Bytes
process_exit_body none = 0 ∷ le_bytes 4 0
process_exit_body (some code) = 1 ∷ le_bytes 4 (int32_bits code)

module _ (codec : TextCodec) where
  unfoldable pub encode_input_result : InputResultBody → Result Bytes
  unfolding big_operation_id
  encode_input_result result = do
    let detail = codec.encode result.detail
    throw_if (ltb max_input_result_detail_bytes (length detail)) invalid_detail
    id ← big_operation_id result.operation_id
    ok (
        le_bytes 8 id
        ++ (input_outcome_code result.outcome ∷ encode_optional_u64 result.accepted_payload_bytes
            ++ (encode_optional_u64 result.written_pty_bytes
                ++ (le_bytes 4 result.mode_bits ++ (le_bytes 2 (length detail) ++ detail)))))

  unfoldable pub encode_terminal_body : TerminalEvent → Result Bytes
  encode_terminal_body (output payload) =
      encode_terminal_frame (terminal_kind TerminalKind.output) payload
  encode_terminal_body (snapshot_ready payload) =
      encode_terminal_frame (terminal_kind TerminalKind.snapshot_ready) payload
  encode_terminal_body (snapshot_history payload) =
      encode_terminal_frame (terminal_kind TerminalKind.snapshot_history) payload
  encode_terminal_body snapshot_finish =
      encode_terminal_frame (terminal_kind TerminalKind.snapshot_finish) []
  encode_terminal_body (process_exit code) =
      encode_terminal_frame (terminal_kind TerminalKind.process_exit) (process_exit_body code)
  encode_terminal_body (modes mode_bits rows cols) =
      encode_terminal_frame (terminal_kind TerminalKind.modes)
        (le_bytes 4 mode_bits ++ (le_bytes 2 rows ++ le_bytes 2 cols))
  encode_terminal_body (attach_state state) =
      encode_terminal_frame (terminal_kind TerminalKind.attach_state) (attach_state_code state ∷ [])
  encode_terminal_body (input_result result) = do
    body ← encode_input_result result
    encode_terminal_frame (terminal_kind TerminalKind.input_result) body
  encode_terminal_body (history_unavailable reason) =
      encode_terminal_frame (terminal_kind TerminalKind.history_unavailable)
        (history_unavailable_code reason ∷ [])
  encode_terminal_body (route_resync from_epoch to_epoch) =
      encode_terminal_frame (terminal_kind TerminalKind.route_resync)
        (le_bytes 4 from_epoch ++ le_bytes 4 to_epoch)
