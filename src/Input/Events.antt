-- ===== src/Input/Events.antt =====
-- Semantic input records: src/botster/terminalInputEvents.ts. Cells, pixels and sizes are whole
-- numbers.
use Prim.Native.Char.{code}
use botster_web.Common.{
  ℕ, zero, suc, String, Bool, true, false, not, ◌||◌, Option, none, some, ◌==◌, nat_eq, string_eq,
  if◌then◌else◌, opt_beq,
}
use botster_web.Wire.Bytes.{Bytes}
use botster_web.Wire.Input.{TerminalKeyAction, release, TerminalMouseAction}

pub record Modifiers : Type 0 where
  pub shift : Bool
  pub ctrl : Bool
  pub alt : Bool
  pub super : Bool
  pub caps_lock : Bool
  pub num_lock : Bool

pub record KeyInputEvent : Type 0 where
  pub action : TerminalKeyAction
  pub code : String
  pub key : String
  pub mods : Modifiers
  pub text : String
  pub composing : Bool
  pub unshifted_codepoint : ℕ

pub data MouseButton : Type 0 where
  left middle right back forward wheel_up wheel_down wheel_left wheel_right : MouseButton

pub record MouseInputEvent : Type 0 where
  pub action : TerminalMouseAction
  pub button : Option MouseButton
  pub mods : Modifiers
  pub col : ℕ
  pub row : ℕ
  pub x_px : ℕ
  pub y_px : ℕ

pub record Geometry : Type 0 where
  pub rows : ℕ
  pub cols : ℕ
  pub width_px : ℕ
  pub height_px : ℕ

pub data SemanticInput : Type 0 where
  key : KeyInputEvent → SemanticInput
  mouse : MouseInputEvent → SemanticInput
  focus : Bool → SemanticInput
  resize : Geometry → SemanticInput
  paste : String → SemanticInput
  raw : Bytes → SemanticInput

-- The DOM keyboard event, as far as it is read.
pub record KeyboardEvent : Type 0 where
  pub code : String
  pub key : String
  pub key_code : Option ℕ
  pub is_composing : Bool
  pub shift_key : Bool
  pub ctrl_key : Bool
  pub alt_key : Bool
  pub meta_key : Bool
  pub caps_lock_state : Bool
  pub num_lock_state : Bool

unfoldable pub modifiers_from_event : KeyboardEvent → Modifiers
modifiers_from_event e = record {
  shift = e.shift_key;
  ctrl = e.ctrl_key;
  alt = e.alt_key;
  super = e.meta_key;
  caps_lock = e.caps_lock_state;
  num_lock = e.num_lock_state;
}

-- A key value of one code point is text.
unfoldable pub is_printable_key_value : String → Bool
is_printable_key_value String.[] = false
is_printable_key_value (String.◌∷◌ c String.[]) = true
is_printable_key_value (String.◌∷◌ c (String.◌∷◌ d s)) = false

unfoldable pub is_composition_placeholder_key : KeyboardEvent → Bool
is_composition_placeholder_key e =
    e.is_composing
    || e.key == "Process"
    || e.key == "Unidentified"
    || e.key == "Dead"
    || opt_beq e.key_code (some 229)

unfoldable pub committed_text_for_keydown : KeyboardEvent → String
unfolding is_printable_key_value
committed_text_for_keydown e =
    if not (is_printable_key_value e.key)
    then ""
    else if e.ctrl_key || e.meta_key
    then ""
    else e.key

-- `s.codePointAt(0) ?? 0`
abbrev pub code_point_at_0 : String → ℕ
code_point_at_0 String.[] = 0
code_point_at_0 (String.◌∷◌ c s) = code c

-- `toLowerCase` of the browser is the parameter `lower`.
unfoldable pub unshifted_codepoint_for_keydown : (String → String) → KeyboardEvent → ℕ
unfolding is_printable_key_value
unshifted_codepoint_for_keydown lower e =
    if not (is_printable_key_value e.key)
    then 0
    else code_point_at_0 (if e.shift_key then lower e.key else e.key)

abbrev pub is_release : TerminalKeyAction → Bool
is_release release = true
is_release action = false

unfoldable pub key_input_from_keyboard_event :
    (String → String) → KeyboardEvent → TerminalKeyAction → KeyInputEvent
unfolding modifiers_from_event committed_text_for_keydown unshifted_codepoint_for_keydown
key_input_from_keyboard_event lower e action = record {
  action = action;
  code = e.code;
  key = e.key;
  mods = modifiers_from_event e;
  text = if is_release action then "" else committed_text_for_keydown e;
  composing = false;
  unshifted_codepoint = unshifted_codepoint_for_keydown lower e;
}

abbrev no_modifiers : Modifiers
no_modifiers = record {
  shift = false;
  ctrl = false;
  alt = false;
  super = false;
  caps_lock = false;
  num_lock = false;
}

unfoldable pub key_input_from_committed_text : String → Bool → KeyInputEvent
key_input_from_committed_text text composing = record {
  action = TerminalKeyAction.press;
  code = "";
  key = "";
  mods = no_modifiers;
  text = text;
  composing = composing;
  unshifted_codepoint = 0;
}

unfoldable pub mouse_button_from_pointer_button : ℕ → Option MouseButton
mouse_button_from_pointer_button zero = some left
mouse_button_from_pointer_button (suc zero) = some middle
mouse_button_from_pointer_button (suc (suc zero)) = some right
mouse_button_from_pointer_button (suc (suc (suc zero))) = some back
mouse_button_from_pointer_button (suc (suc (suc (suc zero)))) = some forward
mouse_button_from_pointer_button (suc (suc (suc (suc (suc n))))) = none
