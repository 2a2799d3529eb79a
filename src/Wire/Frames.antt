-- ===== src/Wire/Frames.antt =====
-- The input frame layout as its reader sees it, and what the encoders of
-- src/botster/generated/terminal-protocol.ts write in it.
use botster_web.Common.{
  ℕ, ◌+◌, ◌^◌, ◌≤◌, ◌<◌, ◌≡◌, ◌&&◌, Option, none, some, ◌∷◌, ◌++◌, length, drop, arith, leb, ◌==◌,
  nat_eq, if◌then◌else◌,
}
use botster_web.Wire.Error.{ok}
use botster_web.Wire.Bytes.{Bytes, be_bytes, get_be, byte_at, be_value-2, be_value-8}
use botster_web.Common.Int.{pos, negsuc}
use botster_web.Wire.Event.{big_operation_id}
use botster_web.Wire.Input.{OperationId, big, num, inexact, to_operation_id, encode_input_frame}

pub record InputFrame : Type 0 where
  pub kind : ℕ
  pub operation_id : ℕ
  pub body : Bytes

-- Version, kind, two bytes of length, eight bytes of operation id, body; all big-endian.
unfoldable pub read_input_frame : Bytes → Option InputFrame
read_input_frame frame =
    if leb 12 (length frame)
      && (byte_at 0 frame == 2)
      && (get_be 2 2 frame == length (drop 12 frame))
    then some
        (record { kind = byte_at 1 frame; operation_id = get_be 8 4 frame; body = drop 12 frame })
    else none

pub to_operation_id-lt :
    (operation_id : OperationId) {id : ℕ} → to_operation_id operation_id ≡ ok id → id < 2 ^ 64
unfolding to_operation_id big_operation_id
to_operation_id-lt (big (pos n)) e = ground arith
to_operation_id-lt (big (negsuc n)) e = cc
to_operation_id-lt (num (pos n)) e = ground arith
to_operation_id-lt (num (negsuc n)) e = cc
to_operation_id-lt inexact e = cc

-- A frame of any kind under a valid id.
pub encode_input_frame-reads :
    (kind : ℕ) (operation_id : OperationId) (id : ℕ) (body : Bytes)
    → kind < 256
    → to_operation_id operation_id ≡ ok id
    → length body ≤ 65535
    → (frame : Bytes) × (encode_input_frame kind operation_id body ≡ ok frame)
      × (read_input_frame frame ≡ some (record { kind = kind; operation_id = id; body = body }))
      × (length frame ≡ 12 + length body)
unfolding encode_input_frame read_input_frame
encode_input_frame-reads kind operation_id id body k valid fits = (
  2 ∷ kind ∷ be_bytes 2 (length body) ++ (be_bytes 8 id ++ body),
  rw valid (ground arith),
  ground (arith, be_value-2 (length body), be_value-8 id (to_operation_id-lt operation_id valid)),
  omega arith,
)
