-- ===== src/Plane/State.antt =====
-- The state of `HubTerminalDataPlane` in src/botster/hubTerminalDataPlane.ts and the records that it
-- keeps, with the types of src/botster/terminal.ts that they name.
use botster_web.Common.{ℕ, String, Bool, Option, List}
use botster_web.Wire.Bytes.{Bytes}
use botster_web.Wire.Enums.{InputOutcome}
use botster_web.Common.Int.{ℤ}
use botster_web.Input.Events.{Geometry}
use botster_web.Input.Encoding.{EncodedInputOperation}

pub data AttachmentState : Type 0 where
  attaching attached exited failed : AttachmentState

pub record AttachmentStatus : Type 0 where
  pub state : AttachmentState
  pub message : String
  pub close_reason : Option String

pub record TerminalModes : Type 0 where
  pub mode_bits : ℕ
  pub rows : ℕ
  pub cols : ℕ

pub data OperationKind : Type 0 where
  raw key mouse focus resize paste : OperationKind

pub data OutcomeName : Type 0 where
  core : InputOutcome → OutcomeName
  rejected_locally : OutcomeName

pub record UnsafePasteConsent : Type 0 where
  pub attachment_generation : ℕ
  pub rejected_operation_id : ℕ
  pub expires_at : ℕ

-- The text of an outcome: fixed, or made from the numbers given.
pub data Detail : Type 0 where
  text : String → Detail
  queue_bounds : String → ℕ → ℕ → ℕ → Detail
  too_large : ℕ → Detail
  described : OperationKind → InputOutcome → Option ℕ → Detail

pub record Outcome : Type 0 where
  pub kind : OperationKind
  pub outcome : OutcomeName
  pub operation_id : Option ℕ
  pub requested_bytes : Option ℕ
  pub accepted_payload_bytes : Option ℕ
  pub written_pty_bytes : Option ℕ
  pub reason : Option String
  pub unsafe_paste_consent : Option UnsafePasteConsent
  pub detail : Detail

-- `resolves` says whether the entry has a `resolve` callback of its own.
pub record QueuedInput : Type 0 where
  pub operation : EncodedInputOperation
  pub kind : OperationKind
  pub requested_bytes : ℕ
  pub paste_data : Option Bytes
  pub paste_attempt : Option ℕ
  pub resolves : Bool

pub record InflightInput : Type 0 where
  pub entry : QueuedInput
  pub generation : ℕ
  pub operation_id : ℕ
  pub retained_bytes : ℕ

pub record PendingUnsafePaste : Type 0 where
  pub consent : UnsafePasteConsent
  pub bytes : Bytes

-- `serial` stands for the identity of the object; `has_reader` says that a reader was made for it, and
-- `progress_armed` that its progress timer runs.
pub record ScreenHydration : Type 0 where
  pub serial : ℕ
  pub generation : ℕ
  pub buffered_output : List Bytes
  pub buffered_bytes : ℕ
  pub pending_exit : Option (Option ℤ)
  pub ready_received : Bool
  pub decoder_finished : Bool
  pub finish_received : Bool
  pub history_incomplete : Bool
  pub completed : Bool
  pub progress_armed : Bool
  pub has_reader : Bool

-- `serial` stands for the identity of the stream subscription.
pub record StreamSubscription : Type 0 where
  pub serial : ℕ
  pub can_send : Bool
  pub attach_sent : Bool

pub record DetachKey : Type 0 where
  pub subscription_id : String
  pub generation : ℕ

pub record AbandonedDetach : Type 0 where
  pub key : DetachKey
  pub attach_sent : Bool

-- One task of `inputSendChain`: the operation, with its attachment, and the stream it was given.
pub record SendTask : Type 0 where
  pub inflight : InflightInput
  pub stream_serial : ℕ

-- What the plane does to the world outside it.
pub data Effect : Type 0 where
  status : AttachmentStatus → Effect
  output : Bytes → Effect
  modes : TerminalModes → Effect
  published resolved : Outcome → Effect
  abandon_stream : ℕ → Effect
  detach_request : DetachKey → Effect
  stream_requested : String → ℕ → Effect
  send_frames : ℕ → ℕ → List Bytes → Effect
  read_snapshot : ℕ → Bytes → Effect
  cancel_reader : ℕ → Effect
  lifecycle_unsubscribed : Effect

-- `effects` holds the newest first. `fresh_id` stands for `createTerminalSubscriptionId`, called at
-- each use with the next number; `listeners` counts the output listeners.
pub record Plane : Type 0 where
  pub session_id : String
  pub subscription_id : String
  pub fixed_subscription_id : Bool
  pub fresh_id : ℕ → String
  pub minted : ℕ
  pub serials : ℕ
  pub reader_bound : Bool
  pub listeners : ℕ
  pub effects : List Effect
  pub current_status : AttachmentStatus
  pub current_modes : Option TerminalModes
  pub stream : Option StreamSubscription
  pub attach_pending : Bool
  pub detached : Bool
  pub transport_lost : Bool
  pub attachment_generation : ℕ
  pub attached_received : Bool
  pub route_generation : Option ℕ
  pub accepted_epoch : Option ℕ
  pub detach_sent_for : Option DetachKey
  pub last_abandoned_detach : Option AbandonedDetach
  pub hydration : Option ScreenHydration
  pub snapshot_recoveries : ℕ
  pub next_operation_id : ℕ
  pub queued_inputs : List QueuedInput
  pub queued_input_bytes : ℕ
  pub inflight_inputs : List (ℕ × InflightInput)
  pub inflight_input_bytes : ℕ
  pub send_chain : List SendTask
  pub desired_geometry : Option Geometry
  pub sent_geometry : Option Geometry
  pub geometry_operation : Option ℕ
  pub paste_attempts : ℕ
  pub pending_unsafe_paste : Option PendingUnsafePaste
  pub consent_retained_bytes : ℕ

abbrev pub max_pending_terminal_items : ℕ
max_pending_terminal_items = 256

abbrev pub max_pending_terminal_bytes : ℕ
max_pending_terminal_bytes = 8388608

abbrev pub max_inflight_input_operations : ℕ
max_inflight_input_operations = 32

abbrev pub max_queued_input_bytes : ℕ
max_queued_input_bytes = 2097152

abbrev pub max_queued_input_operations : ℕ
max_queued_input_operations = 256

abbrev pub unsafe_paste_consent_timeout_ms : ℕ
unsafe_paste_consent_timeout_ms = 30000
