-- ===== src/Plane/Commands.antt =====
-- The input calls of src/botster/hubTerminalDataPlane.ts: `sendInput`, `resize`, `writePaste`, the
-- unsafe-paste consent, and the tasks of the send chain. `now` is `Date.now()`.
use botster_web.Common.{
  ℕ, ◌+◌, String, Bool, true, false, not, ◌&&◌, ◌||◌, Option, none, some, [], ◌∷◌, ltb, leb, length,
  ◌==◌, nat_eq, string_eq, if◌then◌else◌, opt_beq, is_some,
}
use botster_web.Common.Int.{pos}
use botster_web.Common.Maps.{lookup}
use botster_web.Wire.Error.{ok, err}
use botster_web.Wire.Bytes.{Bytes}
use botster_web.Wire.Event.{TextCodec}
use botster_web.Wire.Input.{num, max_paste_bytes}
use botster_web.Wire.Enums.{cancelled}
use botster_web.Input.Events.{Geometry, SemanticInput}
use botster_web.Input.Encoding.{
  EncodedInputOperation, encode_semantic_input, encode_paste_operation, utf16_length,
}
use botster_web.Plane.State.{
  OperationKind, raw, key, mouse, focus, resize, paste, core, rejected_locally, UnsafePasteConsent,
  Detail, text, queue_bounds, too_large, Outcome, QueuedInput, InflightInput, SendTask, send_frames,
  Plane,
}
use botster_web.Plane.Basics.{
  emit, deliver, is_current_attachment, same_geometry, screen_hydrated, retained_input_bytes,
  release_unsafe_paste_consent, ensure_attached, same_unsafe_paste_consent, stream_serial,
}
use botster_web.Plane.Queue.{pump_inputs, enqueue_input, release_unsent_operation, resize_operation}
use botster_web.Plane.Settle.{no_counts, settle_inflight}

abbrev pub kind_of : SemanticInput → OperationKind
kind_of (SemanticInput.key e) = key
kind_of (SemanticInput.mouse e) = mouse
kind_of (SemanticInput.focus f) = focus
kind_of (SemanticInput.resize g) = resize
kind_of (SemanticInput.paste t) = paste
kind_of (SemanticInput.raw b) = raw

-- The operation of a task is the object that the plane holds under its id, while it holds that one.
unfoldable pub held_inflight : InflightInput → Plane → InflightInput
held_inflight inflight p = elim (lookup inflight.operation_id p.inflight_inputs) [
  | none ↦ inflight
  | some held ↦ if held.generation == inflight.generation then held else inflight
]

abbrev pub held_task : SendTask → Plane → SendTask
held_task task p = record task { inflight = held_inflight task.inflight p }

-- `rejected(...)` of a paste, and the refusal of any other input.
abbrev pub rejected : OperationKind → String → Detail → Option ℕ → Outcome
rejected kind reason detail requested_bytes = record {
  kind = kind;
  outcome = rejected_locally;
  operation_id = none;
  requested_bytes = requested_bytes;
  accepted_payload_bytes = none;
  written_pty_bytes = none;
  reason = some reason;
  unsafe_paste_consent = none;
  detail = detail;
}

unfoldable pub queue_bounds_detail : String → Plane → Detail
unfolding retained_input_bytes
queue_bounds_detail subject p =
    queue_bounds subject (length p.inflight_inputs) (length p.queued_inputs)
      (retained_input_bytes p)

abbrev pub plain_entry : EncodedInputOperation → OperationKind → QueuedInput
plain_entry operation kind = record {
  operation = operation;
  kind = kind;
  requested_bytes = operation.body_bytes;
  paste_data = none;
  paste_attempt = none;
  resolves = false;
}

module _ (codec : TextCodec) where
  unfoldable pub resize_plane : Geometry → Plane → Plane
  resize_plane geometry p =
      if p.detached
      then p
      else pump_inputs codec (ensure_attached (record p { desired_geometry = some geometry }))

  abbrev pub paste_entry : Bytes → ℕ → QueuedInput
  paste_entry bytes attempt = record {
    operation = encode_paste_operation codec bytes false;
    kind = paste;
    requested_bytes = length bytes;
    paste_data = some bytes;
    paste_attempt = some attempt;
    resolves = true;
  }

  -- The admission of encoded paste bytes.
  unfoldable pub admit_paste : Bytes → Plane → Plane
  admit_paste bytes p =
      let (admitted, done) = enqueue_input codec (paste_entry bytes p.paste_attempts) p in
      if done
      then admitted
      else deliver true
          (rejected paste "queue_bounds" (queue_bounds_detail "Paste" p) (some (length bytes)))
          admitted

  -- `writePaste`: a new paste withdraws the consent that an earlier one waits for.
  unfoldable pub write_paste : String → Plane → Plane
  write_paste pasted p =
      let q : Plane = record (release_unsafe_paste_consent p) {
        paste_attempts = p.paste_attempts + 1;
      } in
      let bytes = codec.encode pasted in
      if pasted == ""
      then deliver true (rejected paste "empty" (text "Clipboard paste was empty.") none) q
      else if p.detached
      then deliver true
          (rejected paste "detached" (text "Terminal is detached; paste was not delivered.") none) q
      else if ltb max_paste_bytes (utf16_length pasted)
      then deliver true (rejected paste "too_large" (too_large (utf16_length pasted)) none) q
      else if ltb max_paste_bytes (length bytes)
      then deliver true
          (rejected paste "too_large" (too_large (length bytes)) (some (length bytes))) q
      else admit_paste bytes q

  abbrev pub confirmed_entry : Bytes → QueuedInput
  confirmed_entry bytes = record {
    operation = encode_paste_operation codec bytes true;
    kind = paste;
    requested_bytes = length bytes;
    paste_data = none;
    paste_attempt = none;
    resolves = true;
  }

  unfoldable pub admit_confirmed : Bytes → Plane → Plane × Bool
  admit_confirmed bytes p =
      let (admitted, done) = enqueue_input codec (confirmed_entry bytes) p in
      if done then (admitted, true) else (
        deliver false
            (rejected paste "queue_bounds" (queue_bounds_detail "Paste" p) (some (length bytes)))
            admitted,
        false,
      )

  -- The consent must be the pending one, of the current attachment, and not expired.
  unfoldable pub confirm_unsafe_paste : UnsafePasteConsent → ℕ → Plane → Plane × Bool
  confirm_unsafe_paste consent now p = elim p.pending_unsafe_paste [
    | none ↦ (p, false)
    | some pending ↦
        let released = release_unsafe_paste_consent p in
        if not (same_unsafe_paste_consent pending.consent consent)
        then (p, false)
        else if not (is_current_attachment p consent.attachment_generation)
            || leb consent.expires_at now
        then (released, false)
        else admit_confirmed pending.bytes released
  ]

  -- The tail of `sendInput` for what is neither a resize nor a paste.
  unfoldable pub send_plain : SemanticInput → Plane → Plane
  send_plain input p =
      let operation = encode_semantic_input codec input in
      let (admitted, done) = enqueue_input codec (plain_entry operation (kind_of input)) p in
      if done
      then admitted
      else deliver false
          (rejected (kind_of input) "queue_bounds" (queue_bounds_detail "Input" p)
            (some operation.body_bytes))
          admitted

  unfoldable pub send_input : SemanticInput → Plane → Plane
  send_input (SemanticInput.resize g) p = if p.detached then p else resize_plane g p
  send_input (SemanticInput.paste t) p = if p.detached then p else write_paste t p
  send_input input p = if p.detached then p else send_plain input p

  -- The frames of a task are built and handed to its stream, or the operation is cancelled.
  unfoldable pub send_task_frames : SendTask → EncodedInputOperation → ℕ → Plane → Plane
  send_task_frames task operation now p =
      elim (operation.frames (num (pos task.inflight.operation_id))) [
        | ok frames ↦ emit (send_frames task.stream_serial task.inflight.operation_id frames) p
        | err e ↦
            settle_inflight codec task.inflight (core cancelled) (text "Input was not sent.")
              no_counts now p
      ]

  -- The RESIZE reads the latest geometry when it is sent, or is released unsent.
  unfoldable pub send_geometry : SendTask → ℕ → Plane → Plane
  send_geometry task now p =
      let unsent = pump_inputs codec (release_unsent_operation task.inflight p) in
      elim p.desired_geometry [
        | none ↦ unsent
        | some geometry ↦
            if not (screen_hydrated p) || same_geometry geometry p.sent_geometry
            then unsent
            else send_task_frames task (resize_operation codec geometry) now
                (record p { sent_geometry = some geometry })
      ]

  -- The head of the send chain begins.
  unfoldable pub start_task : SendTask → ℕ → Plane → Plane
  start_task task now p =
      if not (is_current_attachment p task.inflight.generation)
        || not (is_some p.stream && (stream_serial p == task.stream_serial))
      then settle_inflight codec task.inflight (core cancelled)
          (text "Terminal attachment changed before the operation was sent.") no_counts now p
      else if opt_beq p.geometry_operation (some task.inflight.operation_id)
      then send_geometry task now p
      else send_task_frames task task.inflight.entry.operation now p

  unfoldable pub start_send : ℕ → Plane → Plane
  start_send now p = elim p.send_chain [
    | [] ↦ p
    | task ∷ rest ↦ start_task (held_task task p) now (record p { send_chain = rest })
  ]

  -- A send that failed after `sent` of `total` frames: a paste under way is aborted on its stream.
  unfoldable pub abort_partial : SendTask → ℕ → ℕ → Plane → Plane
  abort_partial task sent total p = elim task.inflight.entry.operation.abort_frame [
    | none ↦ p
    | some abort ↦
        let id = task.inflight.operation_id in
        if ltb 0 sent
          && ltb sent total
          && is_some p.stream
          && (stream_serial p == task.stream_serial)
        then elim (abort (num (pos id))) [
          | ok frame ↦ emit (send_frames task.stream_serial id (frame ∷ [])) p
          | err e ↦ p
        ]
        else p
  ]

  unfoldable pub send_failed : SendTask → ℕ → ℕ → ℕ → Plane → Plane
  send_failed task sent total now p =
      settle_inflight codec (held_task task p).inflight (core cancelled)
        (text "Input was not sent.") no_counts now (abort_partial task sent total p)

unfoldable pub cancel_unsafe_paste : UnsafePasteConsent → Plane → Plane × Bool
cancel_unsafe_paste consent p = elim p.pending_unsafe_paste [
  | none ↦ (p, false)
  | some pending ↦
      if not (same_unsafe_paste_consent pending.consent consent)
      then (p, false)
      else (release_unsafe_paste_consent p, true)
]

-- The consent timer of `consent` fires: only its own pending paste is released.
unfoldable pub consent_expired : UnsafePasteConsent → Plane → Plane
consent_expired consent p = elim p.pending_unsafe_paste [
  | none ↦ p
  | some pending ↦
      if same_unsafe_paste_consent pending.consent consent
      then release_unsafe_paste_consent p
      else p
]
