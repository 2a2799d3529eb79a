-- ===== src/Tests/Wire.antt =====
-- The wire theorems at concrete inputs.
use botster_web.Common.{◌+◌, ◌≤◌, ◌≡◌, refl, true, some, none, List, [], ◌∷◌, ◌++◌, length, arith}
use botster_web.Common.Int.{pos}
use botster_web.Wire.Error.{ok}
use botster_web.Wire.Bytes.{Bytes, be_bytes}
use botster_web.Wire.Enums.{written}
use botster_web.Wire.Event.{TerminalEvent, InputResultBody}
use botster_web.Wire.RoundTrip.{RoundTrips, decode-encode_body}
use botster_web.Wire.Input.{
  num, to_operation_id, encode_input_frame, encode_paste, flag_byte, max_paste_chunks,
}
use botster_web.Wire.Frames.{read_input_frame, encode_input_frame-reads}
use botster_web.Wire.Paste.{reassemble, encode_paste-reassembles}
use botster_web.Tests.Codec.{wide_codec, encode_wide}

abbrev written_result : InputResultBody
written_result = record {
  operation_id = pos 7;
  outcome = written;
  accepted_payload_bytes = some 3;
  written_pty_bytes = none;
  mode_bits = 5;
  detail = "ok";
}

decode-encode_body_example : RoundTrips wide_codec (TerminalEvent.input_result written_result)
unfolding encode_wide
decode-encode_body_example =
    decode-encode_body wide_codec (TerminalEvent.input_result written_result) (
      (omega arith, omega arith),
      omega arith,
      tt,
      omega arith,
      λ same. absurd (omega (arith, same)),
      omega arith,
    )

encode_input_frame-reads_example :
    (frame : Bytes) × (encode_input_frame 1 (num (pos 3)) (65 ∷ 66 ∷ []) ≡ ok frame)
    × (read_input_frame frame ≡ some (record { kind = 1; operation_id = 3; body = 65 ∷ 66 ∷ [] }))
    × (length frame ≡ 12 + 2)
encode_input_frame-reads_example =
    encode_input_frame-reads 1 (num (pos 3)) 3 (65 ∷ 66 ∷ []) (omega arith)
      (unfold to_operation_id in refl) (omega arith)

encode_paste-reassembles_example :
    (begin : Bytes) × (frames : List Bytes) × (commit : Bytes) × (encode_paste
        (num (pos 4))
        true
        (104 ∷ 105 ∷ [])
      ≡ ok (begin ∷ frames ++ commit ∷ []))
    × (read_input_frame begin
        ≡ some (record { kind = 6; operation_id = 4; body = be_bytes 4 2 ++ flag_byte true ∷ [] }))
    × (reassemble 4 0 frames ≡ some (104 ∷ 105 ∷ []))
    × (length frames ≤ max_paste_chunks)
    × (read_input_frame commit ≡ some (record { kind = 8; operation_id = 4; body = [] }))
encode_paste-reassembles_example =
    encode_paste-reassembles (num (pos 4)) 4 true (104 ∷ 105 ∷ []) (unfold to_operation_id in refl)
      (omega arith) (omega arith)
