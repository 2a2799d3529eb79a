-- ===== src/Wire/Input.antt =====
-- Input frames: `encodeInputFrame` and its callers in
-- src/botster/generated/terminal-protocol.ts. Key codes, coordinates and sizes are natural numbers.
use botster_web.Common.{
  ℕ, zero, suc, ◌+◌, ◌-◌, ◌^◌, String, Bool, ◌||◌, Option, none, some, List, [], ◌∷◌, ◌++◌, length,
  take, drop, ltb, if◌then◌else◌, leb,
}
use botster_web.Common.Int.{ℤ, pos, negsuc}
use botster_web.Wire.Error.{
  PayloadKind, frame_kind, payload_too_large, empty_paste, invalid_operation_id, Result, ok, err,
  ◌>>=◌, ◌>>◌, throw_if,
}
use botster_web.Wire.Bytes.{Bytes, be_bytes}
use botster_web.Wire.Event.{TextCodec, big_operation_id}

abbrev pub terminal_input_scheme_version : ℕ
terminal_input_scheme_version = 2

abbrev pub input_header_bytes : ℕ
input_header_bytes = 12

abbrev pub max_terminal_input_body_bytes : ℕ
max_terminal_input_body_bytes = 65535

abbrev pub max_raw_input_bytes : ℕ
max_raw_input_bytes = 65535

abbrev pub max_paste_chunk_data_bytes : ℕ
max_paste_chunk_data_bytes = 65531

abbrev pub max_paste_bytes : ℕ
max_paste_bytes = 1048576

abbrev pub max_paste_chunks : ℕ
max_paste_chunks = 17

pub data TerminalInputKind : Type 0 where
  raw_bytes key mouse focus resize paste_begin paste_chunk paste_commit paste_abort :
      TerminalInputKind

abbrev pub terminal_input_kind : TerminalInputKind → ℕ
terminal_input_kind TerminalInputKind.raw_bytes = 1
terminal_input_kind TerminalInputKind.key = 2
terminal_input_kind TerminalInputKind.mouse = 3
terminal_input_kind TerminalInputKind.focus = 4
terminal_input_kind TerminalInputKind.resize = 5
terminal_input_kind TerminalInputKind.paste_begin = 6
terminal_input_kind TerminalInputKind.paste_chunk = 7
terminal_input_kind TerminalInputKind.paste_commit = 8
terminal_input_kind TerminalInputKind.paste_abort = 9

pub data TerminalKeyAction : Type 0 where
  press release repeat : TerminalKeyAction

abbrev pub terminal_key_action : TerminalKeyAction → ℕ
terminal_key_action press = 1
terminal_key_action release = 2
terminal_key_action repeat = 3

pub data TerminalMouseAction : Type 0 where
  press release motion : TerminalMouseAction

abbrev pub terminal_mouse_action : TerminalMouseAction → ℕ
terminal_mouse_action TerminalMouseAction.press = 1
terminal_mouse_action TerminalMouseAction.release = 2
terminal_mouse_action TerminalMouseAction.motion = 3

pub data TerminalMouseButton : Type 0 where
  left right middle wheel_up wheel_down wheel_left wheel_right : TerminalMouseButton
  button8 button9 button10 button11 : TerminalMouseButton

abbrev pub terminal_mouse_button : TerminalMouseButton → ℕ
terminal_mouse_button left = 1
terminal_mouse_button right = 2
terminal_mouse_button middle = 3
terminal_mouse_button wheel_up = 4
terminal_mouse_button wheel_down = 5
terminal_mouse_button wheel_left = 6
terminal_mouse_button wheel_right = 7
terminal_mouse_button button8 = 8
terminal_mouse_button button9 = 9
terminal_mouse_button button10 = 10
terminal_mouse_button button11 = 11

-- `bigint | number`; `inexact` is a number that is no integer.
pub data OperationId : Type 0 where
  big num : ℤ → OperationId
  inexact : OperationId

-- `Number.isSafeInteger(n) && n >= 1`, or the bigint range.
unfoldable pub to_operation_id : OperationId → Result ℕ
to_operation_id (num (pos n)) =
    if ltb (2 ^ 53 - 1) n || ltb n 1 then err invalid_operation_id else ok n
to_operation_id (num (negsuc n)) = err invalid_operation_id
to_operation_id (big z) = big_operation_id z
to_operation_id inexact = err invalid_operation_id

unfoldable pub encode_input_frame : ℕ → OperationId → Bytes → Result Bytes
encode_input_frame kind operation_id body = do
  id ← to_operation_id operation_id
  throw_if (ltb max_terminal_input_body_bytes (length body))
      (payload_too_large (frame_kind kind) max_terminal_input_body_bytes (length body))
  ok (terminal_input_scheme_version ∷ kind ∷ be_bytes 2 (length body) ++ (be_bytes 8 id ++ body))

unfoldable pub encode_raw_bytes : OperationId → Bytes → Result Bytes
encode_raw_bytes operation_id bytes = do
  throw_if (ltb max_raw_input_bytes (length bytes))
      (payload_too_large PayloadKind.raw_bytes max_raw_input_bytes (length bytes))
  encode_input_frame (terminal_input_kind TerminalInputKind.raw_bytes) operation_id bytes

pub record KeyInput : Type 0 where
  pub action : TerminalKeyAction
  pub key : ℕ
  pub mods : ℕ
  pub consumed_mods : ℕ
  pub composing : Bool
  pub unshifted_codepoint : ℕ
  pub text : String

pub record MouseInput : Type 0 where
  pub action : TerminalMouseAction
  pub button : Option TerminalMouseButton
  pub mods : ℕ
  pub col : ℕ
  pub row : ℕ
  pub x_px : ℕ
  pub y_px : ℕ

abbrev pub flag_byte : Bool → ℕ
flag_byte b = if b then 1 else 0

abbrev pub key_body : TextCodec → KeyInput → Bytes
key_body codec k =
    terminal_key_action k.action ∷ be_bytes 2 k.key
    ++ (be_bytes 2 k.mods
        ++ (be_bytes 2 k.consumed_mods
            ++ (flag_byte k.composing ∷ be_bytes 4 k.unshifted_codepoint ++ codec.encode k.text)))

unfoldable pub encode_key : TextCodec → OperationId → KeyInput → Result Bytes
encode_key codec operation_id k =
    encode_input_frame (terminal_input_kind TerminalInputKind.key) operation_id (key_body codec k)

-- body[1] and body[2]
abbrev pub button_bytes : Option TerminalMouseButton → Bytes
button_bytes none = 0 ∷ 0 ∷ []
button_bytes (some button) = 1 ∷ terminal_mouse_button button ∷ []

abbrev pub mouse_body : MouseInput → Bytes
mouse_body m =
    terminal_mouse_action m.action ∷ button_bytes m.button
    ++ (be_bytes 2 m.mods
        ++ (be_bytes 2 m.col ++ (be_bytes 2 m.row ++ (be_bytes 4 m.x_px ++ be_bytes 4 m.y_px))))

unfoldable pub encode_mouse : OperationId → MouseInput → Result Bytes
encode_mouse operation_id m =
    encode_input_frame (terminal_input_kind TerminalInputKind.mouse) operation_id (mouse_body m)

unfoldable pub encode_focus : OperationId → Bool → Result Bytes
encode_focus operation_id focused =
    encode_input_frame (terminal_input_kind TerminalInputKind.focus) operation_id
      (flag_byte focused ∷ [])

unfoldable pub encode_resize : OperationId → ℕ → ℕ → ℕ → ℕ → Result Bytes
encode_resize operation_id rows cols width_px height_px =
    encode_input_frame (terminal_input_kind TerminalInputKind.resize) operation_id
      (be_bytes 2 rows ++ (be_bytes 2 cols ++ (be_bytes 4 width_px ++ be_bytes 4 height_px)))

-- The loop of `encodePaste`. `rest` is the data from `offset` on; each round takes a byte at least,
-- so fuel of the length of the data is enough. The chunk size is a parameter here.
unfoldable pub paste_chunk_frames : ℕ → OperationId → ℕ → ℕ → Bytes → Result (List Bytes)
paste_chunk_frames size operation_id fuel index [] = ok []
paste_chunk_frames size operation_id zero index (b ∷ rest) = ok []
paste_chunk_frames size operation_id (suc fuel) index (b ∷ rest) = do
  frame ←
      encode_input_frame (terminal_input_kind TerminalInputKind.paste_chunk) operation_id
        (be_bytes 4 index ++ take size (b ∷ rest))
  frames ← paste_chunk_frames size operation_id fuel (index + 1) (drop size (b ∷ rest))
  ok (frame ∷ frames)

unfoldable pub encode_paste : OperationId → Bool → Bytes → Result (List Bytes)
encode_paste operation_id allow_unsafe bytes = do
  throw_if (leb (length bytes) 0) empty_paste
  throw_if (ltb max_paste_bytes (length bytes))
      (payload_too_large PayloadKind.paste_begin max_paste_bytes (length bytes))
  begin ←
      encode_input_frame (terminal_input_kind TerminalInputKind.paste_begin) operation_id
        (be_bytes 4 (length bytes) ++ flag_byte allow_unsafe ∷ [])
  chunks ← paste_chunk_frames max_paste_chunk_data_bytes operation_id (length bytes) 0 bytes
  commit ← encode_input_frame (terminal_input_kind TerminalInputKind.paste_commit) operation_id []
  ok (begin ∷ chunks ++ commit ∷ [])

unfoldable pub encode_paste_abort : OperationId → Result Bytes
encode_paste_abort operation_id =
    encode_input_frame (terminal_input_kind TerminalInputKind.paste_abort) operation_id []
