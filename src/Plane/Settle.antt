-- ===== src/Plane/Settle.antt =====
-- How operations of src/botster/hubTerminalDataPlane.ts end: `settleInflight`, `abandonInputs` and
-- `handleInputResult`.
use botster_web.Common.{
  ℕ, ◌+◌, String, Bool, true, false, not, ◌&&◌, Option, none, some, List, [], ◌∷◌, ◌==◌, nat_eq,
  string_eq, if◌then◌else◌, opt_beq, is_some,
}
use botster_web.Common.Int.{to_ℕ}
use botster_web.Common.Maps.{lookup}
use botster_web.Wire.Event.{TextCodec, InputResultBody}
use botster_web.Wire.Enums.{outcome_unknown, cancelled, rejected_unsafe_paste}
use botster_web.Plane.State.{
  OperationKind, paste, OutcomeName, core, UnsafePasteConsent, Detail, text, described, Outcome,
  QueuedInput, InflightInput, Plane, unsafe_paste_consent_timeout_ms,
}
use botster_web.Plane.Basics.{deliver, is_current_attachment, release_unsafe_paste_consent}
use botster_web.Plane.Queue.{holds, forget_inflight, pump_inputs}

-- The counts that an input result reports; absent ones are unknown.
pub record Counts : Type 0 where
  pub accepted_payload_bytes : Option ℕ
  pub written_pty_bytes : Option ℕ

abbrev pub no_counts : Counts
no_counts = record { accepted_payload_bytes = none; written_pty_bytes = none }

abbrev pub is_paste : OperationKind → Bool
is_paste paste = true
is_paste kind = false

abbrev pub is_unsafe_rejection : OutcomeName → Bool
is_unsafe_rejection (core rejected_unsafe_paste) = true
is_unsafe_rejection name = false

-- A rejected paste may be confirmed: nothing of it was accepted or written, it is the latest paste,
-- and its attachment is current.
unfoldable pub may_be_confirmed : InflightInput → OutcomeName → Counts → Plane → Bool
unfolding is_current_attachment
may_be_confirmed inflight outcome counts p =
    is_unsafe_rejection outcome
    && opt_beq counts.accepted_payload_bytes (some 0)
    && opt_beq counts.written_pty_bytes (some 0)
    && is_paste inflight.entry.kind
    && is_some inflight.entry.paste_data
    && opt_beq inflight.entry.paste_attempt (some p.paste_attempts)
    && is_current_attachment p inflight.generation

abbrev pub consent_for : InflightInput → ℕ → UnsafePasteConsent
consent_for inflight now = record {
  attachment_generation = inflight.generation;
  rejected_operation_id = inflight.operation_id;
  expires_at = now + unsafe_paste_consent_timeout_ms;
}

-- The consent window opens: the paste's bytes stay retained.
unfoldable pub open_consent : InflightInput → ℕ → Plane → Plane
unfolding release_unsafe_paste_consent
open_consent inflight now p = elim inflight.entry.paste_data [
  | none ↦ p
  | some bytes ↦ record (release_unsafe_paste_consent p) {
    pending_unsafe_paste = some (record { consent = consent_for inflight now; bytes = bytes });
    consent_retained_bytes = inflight.retained_bytes;
  }
]

abbrev pub outcome_of :
    InflightInput → OutcomeName → Detail → Counts → Option UnsafePasteConsent → Outcome
outcome_of inflight outcome detail counts consent = record {
  kind = inflight.entry.kind;
  outcome = outcome;
  operation_id = some inflight.operation_id;
  requested_bytes = some inflight.entry.requested_bytes;
  accepted_payload_bytes = counts.accepted_payload_bytes;
  written_pty_bytes = counts.written_pty_bytes;
  reason = none;
  unsafe_paste_consent = consent;
  detail = detail;
}

-- `settleInflight` up to its pump; `now` is `Date.now()`.
unfoldable pub settle_held : InflightInput → OutcomeName → Detail → Counts → ℕ → Plane → Plane
settle_held inflight outcome detail counts now p =
    let freed = forget_inflight inflight p in
    if may_be_confirmed inflight outcome counts freed
    then deliver inflight.entry.resolves
        (outcome_of inflight outcome detail counts (some (consent_for inflight now)))
        (open_consent inflight now freed)
    else deliver inflight.entry.resolves (outcome_of inflight outcome detail counts none) freed

-- An entry of the queue that was never sent.
abbrev pub cancelled_outcome : QueuedInput → String → Outcome
cancelled_outcome entry reason = record {
  kind = entry.kind;
  outcome = core cancelled;
  operation_id = none;
  requested_bytes = some entry.requested_bytes;
  accepted_payload_bytes = none;
  written_pty_bytes = none;
  reason = none;
  unsafe_paste_consent = none;
  detail = text reason;
}

unfoldable pub cancel_queued : String → List QueuedInput → Plane → Plane
cancel_queued reason [] p = p
cancel_queued reason (entry ∷ rest) p =
    cancel_queued reason rest (deliver entry.resolves (cancelled_outcome entry reason) p)

module _ (codec : TextCodec) where
  unfoldable pub settle_inflight : InflightInput → OutcomeName → Detail → Counts → ℕ → Plane → Plane
  settle_inflight inflight outcome detail counts now p =
      if not (holds inflight p)
      then p
      else pump_inputs codec (settle_held inflight outcome detail counts now p)

  -- Every operation in flight when `abandonInputs` begins; its outcome is unknown.
  unfoldable pub settle_unknown : String → ℕ → List (ℕ × InflightInput) → Plane → Plane
  settle_unknown reason now [] p = p
  settle_unknown reason now ((id, inflight) ∷ rest) p =
      settle_unknown reason now rest
        (settle_inflight inflight (core outcome_unknown) (text reason) no_counts now p)

  unfoldable pub abandon_inputs : String → ℕ → Plane → Plane
  abandon_inputs reason now p =
      let settled = settle_unknown reason now p.inflight_inputs p in
      let emptied =
        cancel_queued reason settled.queued_inputs (record settled { queued_inputs = [] }) in
      record (release_unsafe_paste_consent
        (record emptied { queued_input_bytes = 0; inflight_input_bytes = 0 })) {
          sent_geometry = none;
          geometry_operation = none;
          next_operation_id = 1;
        }

  -- A result of an operation that is not in flight on this attachment is dropped.
  unfoldable pub handle_input_result : InputResultBody → ℕ → Plane → Plane
  handle_input_result result now p = elim (lookup (to_ℕ result.operation_id) p.inflight_inputs) [
    | none ↦ p
    | some inflight ↦
        let counts : Counts = record {
          accepted_payload_bytes = result.accepted_payload_bytes;
          written_pty_bytes = result.written_pty_bytes;
        } in
        let detail =
          if result.detail == ""
          then described inflight.entry.kind result.outcome result.written_pty_bytes
          else text result.detail in
        if not (inflight.generation == p.attachment_generation)
        then p
        else settle_inflight inflight (core result.outcome) detail counts now p
  ]
