-- ===== src/Plane/Hydrating.antt =====
-- The inputs of src/botster/hubTerminalDataPlane.ts leave the hydration of the screen as it is.
use botster_web.Common.{
  ℕ, ◌≡◌, ◌∙◌, refl, Bool, true, false, ◌+◌, not, ◌&&◌, ◌||◌, some, List, [], ◌∷◌, ◌==◌, nat_eq,
  string_eq, String, if◌then◌else◌, if_split, option_split, ltb, leb, length, opt_beq, is_some,
}
use botster_web.Wire.Bytes.{Bytes}
use botster_web.Wire.Error.{Result, ok, err}
use botster_web.Wire.Event.{TextCodec}
use botster_web.Wire.Input.{num, max_paste_bytes}
use botster_web.Common.Int.{pos}
use botster_web.Input.Events.{Geometry, SemanticInput}
use botster_web.Input.Encoding.{EncodedInputOperation, encode_semantic_input, utf16_length}
use botster_web.Plane.State.{
  Outcome, UnsafePasteConsent, QueuedInput, SendTask, send_frames, core, text, Plane,
  max_queued_input_bytes, max_queued_input_operations,
}
use botster_web.Plane.Basics.{
  emit, deliver, is_current_attachment, same_geometry, screen_hydrated, stream_serial,
  release_unsafe_paste_consent, same_unsafe_paste_consent, retained_input_bytes,
}
use botster_web.Plane.Queue.{
  holds, forget_inflight, release_unsent_operation, enqueue_input, pump_inputs,
}
use botster_web.Plane.Settle.{settle_inflight, no_counts}
use botster_web.Wire.Enums.{cancelled as outcome_cancelled}
use botster_web.Plane.Commands.{
  resize_plane, paste_entry, admit_paste, write_paste, confirmed_entry, admit_confirmed,
  confirm_unsafe_paste, cancel_unsafe_paste, consent_expired, send_plain, send_input, plain_entry,
  kind_of, held_task, send_task_frames, send_geometry, start_task, start_send, abort_partial,
  send_failed,
}
use botster_web.Plane.Accounting.{
  InputCall, sent, pasted, resized, confirmed, cancelled, expired, result, call,
}
use botster_web.Plane.Keeping.{
  pump_inputs-Keeps, hydration-settle_inflight, hydration-handle_input_result,
  hydration-ensure_attached,
}

-- The hydration is left as it is.
abbrev pub IsSame : Plane → Plane → Type 0
IsSame p q = q.hydration ≡ p.hydration

module _ (codec : TextCodec) where
  pumped : (p : Plane) → IsSame p (pump_inputs codec p)
  pumped p = (pump_inputs-Keeps codec p).1

  enqueue_input-IsSame :
      (entry : QueuedInput) (p : Plane) → IsSame p (enqueue_input codec entry p).0
  unfolding enqueue_input
  enqueue_input-IsSame entry p =
      if_split (λ (r : Plane × Bool). IsSame p r.0)
        (leb max_queued_input_operations (length p.queued_inputs)
          || ltb max_queued_input_bytes (retained_input_bytes p + entry.operation.body_bytes))
        (λ full. refl) (λ room. pumped _ ∙ hydration-ensure_attached codec _)

  -- What an admission gives: the admitted plane, or the same one with an outcome delivered.
  admitted-IsSame :
      (resolves : Bool) (o : Outcome) (p : Plane) (r : Plane × Bool)
      → IsSame p r.0
      → IsSame p (if r.1 then r.0 else deliver resolves o r.0)
  unfolding deliver emit
  admitted-IsSame resolves o p (q, true) same = same
  admitted-IsSame resolves o p (q, false) same = same

  resize_plane-IsSame : (g : Geometry) (p : Plane) → IsSame p (resize_plane codec g p)
  unfolding resize_plane
  resize_plane-IsSame g p =
      if_split (IsSame p) p.detached (λ gone. refl)
        (λ here. pumped _ ∙ hydration-ensure_attached codec _)

  admit_paste-IsSame : (b : Bytes) (p : Plane) → IsSame p (admit_paste codec b p)
  unfolding admit_paste
  admit_paste-IsSame b p =
      admitted-IsSame _ _ p _ (enqueue_input-IsSame (paste_entry codec b p.paste_attempts) p)

  write_paste-IsSame : (t : String) (p : Plane) → IsSame p (write_paste codec t p)
  unfolding write_paste deliver emit release_unsafe_paste_consent
  write_paste-IsSame t p =
      if_split (IsSame p) (t == "") (λ empty. refl)
        (λ full.
          if_split (IsSame p) p.detached (λ gone. refl)
            (λ here.
              if_split (IsSame p) (ltb max_paste_bytes (utf16_length t)) (λ long. refl)
                (λ short.
                  if_split (IsSame p) (ltb max_paste_bytes (length (codec.encode t)))
                    (λ large. refl) (λ small. admit_paste-IsSame (codec.encode t) _))))

  send_plain-IsSame : (i : SemanticInput) (p : Plane) → IsSame p (send_plain codec i p)
  unfolding send_plain
  send_plain-IsSame i p =
      admitted-IsSame _ _ p _
        (enqueue_input-IsSame (plain_entry (encode_semantic_input codec i) (kind_of i)) p)

  send_input-IsSame : (i : SemanticInput) (p : Plane) → IsSame p (send_input codec i p)
  unfolding send_input
  send_input-IsSame (SemanticInput.resize g) p =
      if_split (IsSame p) p.detached (λ gone. refl) (λ here. resize_plane-IsSame g p)
  send_input-IsSame (SemanticInput.paste t) p =
      if_split (IsSame p) p.detached (λ gone. refl) (λ here. write_paste-IsSame t p)
  send_input-IsSame (SemanticInput.key e) p =
      if_split (IsSame p) p.detached (λ gone. refl) (λ here. send_plain-IsSame _ p)
  send_input-IsSame (SemanticInput.mouse e) p =
      if_split (IsSame p) p.detached (λ gone. refl) (λ here. send_plain-IsSame _ p)
  send_input-IsSame (SemanticInput.focus f) p =
      if_split (IsSame p) p.detached (λ gone. refl) (λ here. send_plain-IsSame _ p)
  send_input-IsSame (SemanticInput.raw b) p =
      if_split (IsSame p) p.detached (λ gone. refl) (λ here. send_plain-IsSame _ p)

  confirm_unsafe_paste-IsSame :
      (c : UnsafePasteConsent) (now : ℕ) (p : Plane)
      → IsSame p (confirm_unsafe_paste codec c now p).0
  unfolding confirm_unsafe_paste admit_confirmed release_unsafe_paste_consent deliver emit
  confirm_unsafe_paste-IsSame c now p =
      let Fine : Plane × Bool → Type 0 = λ r. IsSame p r.0 in
      option_split Fine p.pending_unsafe_paste (λ nothing. refl)
        (λ pending there.
          let q = release_unsafe_paste_consent p in
          let admitted = enqueue_input-IsSame (confirmed_entry codec pending.bytes) q in
          if_split Fine (not (same_unsafe_paste_consent pending.consent c)) (λ other. refl)
            (λ own.
              if_split Fine
                (not (is_current_attachment p c.attachment_generation) || leb c.expires_at now)
                (λ late. refl)
                (λ live.
                  if_split Fine (enqueue_input codec (confirmed_entry codec pending.bytes) q).1
                    (λ done. admitted) (λ full. admitted))))

  pub call-IsSame : (c : InputCall) (now : ℕ) (p : Plane) → IsSame p (call codec c now p)
  unfolding cancel_unsafe_paste consent_expired release_unsafe_paste_consent
  call-IsSame (sent i) now p = send_input-IsSame i p
  call-IsSame (pasted t) now p = write_paste-IsSame t p
  call-IsSame (resized g) now p = resize_plane-IsSame g p
  call-IsSame (confirmed c) now p = confirm_unsafe_paste-IsSame c now p
  call-IsSame (cancelled c) now p =
      let Fine : Plane × Bool → Type 0 = λ r. IsSame p r.0 in
      option_split Fine p.pending_unsafe_paste (λ nothing. refl)
        (λ pending there.
          if_split Fine (not (same_unsafe_paste_consent pending.consent c)) (λ other. refl)
            (λ own. refl))
  call-IsSame (expired c) now p =
      option_split (IsSame p) p.pending_unsafe_paste (λ nothing. refl)
        (λ pending there.
          if_split (IsSame p) (same_unsafe_paste_consent pending.consent c) (λ own. refl)
            (λ other. refl))
  call-IsSame (result r) now p = hydration-handle_input_result codec r now p

  release_unsent_operation-IsSame :
      (task : SendTask) (p : Plane) → IsSame p (release_unsent_operation task.inflight p)
  unfolding release_unsent_operation forget_inflight
  release_unsent_operation-IsSame task p =
      if_split (IsSame p) (not (holds task.inflight p)) (λ gone. refl) (λ here. refl)

  framed-IsSame :
      (r : Result (List Bytes)) (task : SendTask) (now : ℕ) (p : Plane)
      → IsSame p (elim r [
        | ok frames ↦ emit (send_frames task.stream_serial task.inflight.operation_id frames) p
        | err e ↦
            settle_inflight codec task.inflight
              (core outcome_cancelled)
              (text "Input was not sent.")
              no_counts
              now
              p
      ])
  unfolding emit
  framed-IsSame (ok frames) task now p = refl
  framed-IsSame (err e) task now p = hydration-settle_inflight codec task.inflight _ _ _ now p

  send_task_frames-IsSame :
      (task : SendTask) (operation : EncodedInputOperation) (now : ℕ) (p : Plane)
      → IsSame p (send_task_frames codec task operation now p)
  unfolding send_task_frames
  send_task_frames-IsSame task operation now p =
      framed-IsSame (operation.frames (num (pos task.inflight.operation_id))) task now p

  start_task-IsSame :
      (task : SendTask) (now : ℕ) (p : Plane) → IsSame p (start_task codec task now p)
  unfolding start_task send_geometry
  start_task-IsSame task now p =
      let unsent : IsSame p (pump_inputs codec (release_unsent_operation task.inflight p)) =
        pumped _ ∙ release_unsent_operation-IsSame task p in
      if_split (IsSame p)
        (not (is_current_attachment p task.inflight.generation)
          || not (is_some p.stream && (stream_serial p == task.stream_serial)))
        (λ stale. hydration-settle_inflight codec task.inflight _ _ _ now p)
        (λ current.
          if_split (IsSame p) (opt_beq p.geometry_operation (some task.inflight.operation_id))
            (λ resizes.
              option_split (IsSame p) p.desired_geometry (λ nothing. unsent)
                (λ geometry there.
                  if_split (IsSame p)
                    (not (screen_hydrated p) || same_geometry geometry p.sent_geometry)
                    (λ same. unsent) (λ differs. send_task_frames-IsSame task _ now _)))
            (λ other. send_task_frames-IsSame task _ now p))

  started-IsSame :
      (chain : List SendTask) (now : ℕ) (p : Plane)
      → IsSame p (elim chain [
        | [] ↦ p
        | task ∷ rest ↦ start_task codec (held_task task p) now (record p { send_chain = rest })
      ])
  started-IsSame [] now p = refl
  started-IsSame (task ∷ rest) now p = start_task-IsSame (held_task task p) now _

  pub start_send-IsSame : (now : ℕ) (p : Plane) → IsSame p (start_send codec now p)
  unfolding start_send
  start_send-IsSame now p = started-IsSame p.send_chain now p

  aborted-IsSame :
      (r : Result Bytes) (serial id : ℕ) (p : Plane)
      → IsSame p (elim r [ ok frame ↦ emit (send_frames serial id (frame ∷ [])) p | err e ↦ p ])
  unfolding emit
  aborted-IsSame (ok frame) serial id p = refl
  aborted-IsSame (err e) serial id p = refl

  pub send_failed-IsSame :
      (task : SendTask) (count total now : ℕ) (p : Plane)
      → IsSame p (send_failed codec task count total now p)
  unfolding send_failed abort_partial
  send_failed-IsSame task count total now p =
      let id = task.inflight.operation_id in
      hydration-settle_inflight codec (held_task task p).inflight _ _ _ now _
      ∙ option_split (IsSame p) task.inflight.entry.operation.abort_frame (λ nothing. refl)
          (λ abort there.
            if_split (IsSame p)
              (ltb 0 count
                && ltb count total
                && is_some p.stream
                && (stream_serial p == task.stream_serial))
              (λ partial. aborted-IsSame (abort (num (pos id))) task.stream_serial id p)
              (λ whole. refl))
