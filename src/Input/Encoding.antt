-- ===== src/Input/Encoding.antt =====
-- src/botster/terminalInputEncoding.ts: semantic input as Core input frames.
use Prim.Native.Char.{code}
use Prim.Native.Nat.{bit_and, bit_or}
use botster_web.Common.{
  get_or, ℕ, ◌+◌, String, Bool, false, not, ◌||◌, Option, none, some, List, [], ◌∷◌, ◌==◌, nat_eq,
  string_eq, if◌then◌else◌, ltb, length,
}
use botster_web.Wire.Error.{Result, ok, ◌>>=◌}
use botster_web.Wire.Bytes.{Bytes}
use botster_web.Wire.Event.{TextCodec}
use botster_web.Wire.Input.{
  OperationId, TerminalMouseButton, button8, button9, KeyInput, encode_raw_bytes, encode_key,
  encode_mouse, encode_focus, encode_resize, encode_paste, encode_paste_abort,
}
use botster_web.Wire.Keys.{terminal_key_from_code}
use botster_web.Input.Events.{
  Modifiers, KeyInputEvent, MouseButton, left, middle, right, back, forward, wheel_up, wheel_down,
  wheel_left, wheel_right, SemanticInput, key, mouse, focus, resize, paste, raw, code_point_at_0,
}

-- `frames` and `abort_frame` are the closures that wait for the operation id.
pub record EncodedInputOperation : Type 0 where
  pub body_bytes : ℕ
  pub frames : OperationId → Result (List Bytes)
  pub abort_frame : Option (OperationId → Result Bytes)

abbrev pub set_if : Bool → ℕ → ℕ → ℕ
set_if flag bit bits = if flag then bit_or bits bit else bits

-- The bits are those of `TerminalMods`.
unfoldable pub terminal_mods_bits : Modifiers → ℕ
terminal_mods_bits mods = set_if mods.num_lock 32 (
    set_if mods.caps_lock 16
      (set_if mods.super 8 (set_if mods.alt 4 (set_if mods.ctrl 2 (set_if mods.shift 1 0)))))

unfoldable pub terminal_mouse_button_name : Option MouseButton → Option TerminalMouseButton
terminal_mouse_button_name none = none
terminal_mouse_button_name (some left) = some TerminalMouseButton.left
terminal_mouse_button_name (some middle) = some TerminalMouseButton.middle
terminal_mouse_button_name (some right) = some TerminalMouseButton.right
terminal_mouse_button_name (some back) = some button8
terminal_mouse_button_name (some forward) = some button9
terminal_mouse_button_name (some wheel_up) = some TerminalMouseButton.wheel_up
terminal_mouse_button_name (some wheel_down) = some TerminalMouseButton.wheel_down
terminal_mouse_button_name (some wheel_left) = some TerminalMouseButton.wheel_left
terminal_mouse_button_name (some wheel_right) = some TerminalMouseButton.wheel_right

-- Shift is consumed when it changed the unshifted code point into the committed text.
unfoldable pub consumed_mods_for_key : KeyInputEvent → ℕ → ℕ
consumed_mods_for_key input mods =
    if (input.text == "") || not input.mods.shift
    then 0
    else if not (code_point_at_0 input.text == input.unshifted_codepoint)
    then bit_and mods 1
    else 0

-- `text.length`: UTF-16 code units.
abbrev pub utf16_length : String → ℕ
utf16_length String.[] = 0
utf16_length (String.◌∷◌ c s) = (if ltb (code c) 0x1_0000 then 1 else 2) + utf16_length s

abbrev pub one_frame : Result Bytes → Result (List Bytes)
one_frame r = r >>= λ frame. ok (frame ∷ [])

module _ (codec : TextCodec) where
  unfoldable pub key_input : KeyInputEvent → KeyInput
  unfolding terminal_mods_bits consumed_mods_for_key
  key_input input =
      let mods = terminal_mods_bits input.mods in
      record {
        action = input.action;
        -- `setUint16` writes 0 for what is no number.
        key =
            get_or
              (if input.code == ""
                then terminal_key_from_code "Unidentified"
                else terminal_key_from_code input.code)
              0;
        mods = mods;
        consumed_mods = consumed_mods_for_key input mods;
        composing = input.composing;
        unshifted_codepoint = input.unshifted_codepoint;
        text = input.text;
      }

  unfoldable pub encode_paste_operation : Bytes → Bool → EncodedInputOperation
  encode_paste_operation bytes allow_unsafe = record {
    body_bytes = length bytes;
    frames = λ id. encode_paste id allow_unsafe bytes;
    abort_frame = some (λ id. encode_paste_abort id);
  }

  unfoldable pub encode_semantic_input : SemanticInput → EncodedInputOperation
  unfolding key_input terminal_mods_bits terminal_mouse_button_name encode_paste_operation
  encode_semantic_input (raw bytes) = record {
    body_bytes = length bytes;
    frames = λ id. one_frame (encode_raw_bytes id bytes);
    abort_frame = none;
  }
  encode_semantic_input (key input) = record {
    body_bytes = 12 + utf16_length input.text;
    frames = λ id. one_frame (encode_key codec id (key_input input));
    abort_frame = none;
  }
  encode_semantic_input (mouse input) = record {
    body_bytes = 17;
    frames = λ id. one_frame (
        encode_mouse id (record {
          action = input.action;
          button = terminal_mouse_button_name input.button;
          mods = terminal_mods_bits input.mods;
          col = input.col;
          row = input.row;
          x_px = input.x_px;
          y_px = input.y_px;
        }));
    abort_frame = none;
  }
  encode_semantic_input (focus focused) = record {
    body_bytes = 1;
    frames = λ id. one_frame (encode_focus id focused);
    abort_frame = none;
  }
  encode_semantic_input (resize g) = record {
    body_bytes = 12;
    frames = λ id. one_frame (encode_resize id g.rows g.cols g.width_px g.height_px);
    abort_frame = none;
  }
  encode_semantic_input (paste text) = encode_paste_operation (codec.encode text) false
