-- ===== src/Wire/Enums.antt =====
-- The numbered tables of src/botster/generated/terminal-protocol.ts, and `nameOf`.
use mathlib.Core.List.{List, [], ◌∷◌}
use botster_web.Common.{ℕ, ◌≡◌, refl, Bool, not, ◌==◌, nat_eq, if◌then◌else◌}
use botster_web.Wire.Error.{unknown_value, Result, ok, err}
use Prim.Native.Nat.{bit_and}

pub data TerminalKind : Type 0 where
  output snapshot_ready snapshot_history snapshot_finish process_exit modes : TerminalKind
  attach_state input_result history_unavailable route_resync : TerminalKind

abbrev pub terminal_kind : TerminalKind → ℕ
terminal_kind output = 1
terminal_kind snapshot_ready = 2
terminal_kind snapshot_history = 3
terminal_kind snapshot_finish = 4
terminal_kind process_exit = 5
terminal_kind modes = 6
terminal_kind attach_state = 16
terminal_kind input_result = 17
terminal_kind history_unavailable = 18
terminal_kind route_resync = 19

pub data AttachState : Type 0 where
  attaching attached detached failed : AttachState

abbrev pub attach_state_code : AttachState → ℕ
attach_state_code attaching = 1
attach_state_code attached = 2
attach_state_code detached = 3
attach_state_code failed = 4

abbrev pub attach_states : List AttachState
attach_states = attaching ∷ attached ∷ detached ∷ failed ∷ []

pub data HistoryUnavailableReason : Type 0 where
  evicted restart oversize capture_failed : HistoryUnavailableReason

abbrev pub history_unavailable_code : HistoryUnavailableReason → ℕ
history_unavailable_code evicted = 1
history_unavailable_code restart = 2
history_unavailable_code oversize = 3
history_unavailable_code capture_failed = 4

abbrev pub history_unavailable_reasons : List HistoryUnavailableReason
history_unavailable_reasons = evicted ∷ restart ∷ oversize ∷ capture_failed ∷ []

pub data InputOutcome : Type 0 where
  written partial_write write_failed cancelled rejected_not_writable : InputOutcome
  rejected_too_large rejected_unsafe_paste rejected_lane_full rejected_protocol : InputOutcome
  session_ended outcome_unknown : InputOutcome

abbrev pub input_outcome_code : InputOutcome → ℕ
input_outcome_code written = 1
input_outcome_code partial_write = 2
input_outcome_code write_failed = 3
input_outcome_code cancelled = 4
input_outcome_code rejected_not_writable = 5
input_outcome_code rejected_too_large = 6
input_outcome_code rejected_unsafe_paste = 7
input_outcome_code rejected_lane_full = 8
input_outcome_code rejected_protocol = 9
input_outcome_code session_ended = 10
input_outcome_code outcome_unknown = 11

abbrev pub input_outcomes : List InputOutcome
input_outcomes =
    written ∷ partial_write ∷ write_failed ∷ cancelled ∷ rejected_not_writable ∷ rejected_too_large
    ∷ rejected_unsafe_paste ∷ rejected_lane_full ∷ rejected_protocol ∷ session_ended
    ∷ outcome_unknown ∷ []

-- The first name of the table whose code is `value`; `code` is the table, `names` its keys in order.
unfoldable pub name_of : {A : Type 0} → (A → ℕ) → List A → ℕ → Result A
name_of code [] value = err (unknown_value value)
name_of code (name ∷ names) value = if code name == value then ok name else name_of code names value

pub name_of-attach_state :
    (s : AttachState) → name_of attach_state_code attach_states (attach_state_code s) ≡ ok s
unfolding name_of
name_of-attach_state attaching = refl
name_of-attach_state s = refl

pub name_of-history_unavailable :
    (r : HistoryUnavailableReason)
    → name_of history_unavailable_code history_unavailable_reasons (history_unavailable_code r)
      ≡ ok r
unfolding name_of
name_of-history_unavailable evicted = refl
name_of-history_unavailable r = refl

pub name_of-input_outcome :
    (o : InputOutcome) → name_of input_outcome_code input_outcomes (input_outcome_code o) ≡ ok o
unfolding name_of
name_of-input_outcome written = refl
name_of-input_outcome o = refl

pub record TerminalModeFlags : Type 0 where
  pub kitty_enabled : Bool
  pub cursor_visible : Bool
  pub bracketed_paste : Bool
  pub mouse_normal : Bool
  pub mouse_any : Bool
  pub mouse_button : Bool
  pub mouse_sgr : Bool
  pub alt_screen : Bool
  pub focus_reporting : Bool
  pub application_cursor : Bool

abbrev pub has_bit : ℕ → ℕ → Bool
has_bit bits bit = not (bit_and bits bit == 0)

-- The masks are those of `ModeBits`.
unfoldable pub decode_mode_flags : ℕ → TerminalModeFlags
decode_mode_flags mode_bits = record {
  kitty_enabled = has_bit mode_bits 1;
  cursor_visible = has_bit mode_bits 2;
  bracketed_paste = has_bit mode_bits 4;
  mouse_normal = has_bit mode_bits 8;
  mouse_any = has_bit mode_bits 16;
  mouse_button = has_bit mode_bits 32;
  mouse_sgr = has_bit mode_bits 64;
  alt_screen = has_bit mode_bits 128;
  focus_reporting = has_bit mode_bits 256;
  application_cursor = has_bit mode_bits 512;
}
