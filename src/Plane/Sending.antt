-- ===== src/Plane/Sending.antt =====
-- The send chain of src/botster/hubTerminalDataPlane.ts keeps the accounting of the inputs.
use botster_web.Common.{
  ℕ, ◌∙◌, ◌≡◌, ap, true, not, ◌&&◌, ◌||◌, some, List, [], ◌∷◌, ◌==◌, nat_eq, ltb, opt_beq, is_some,
  arith, Bool-cases, Option-cases, option_split, if_split, inl, inr,
}
use botster_web.Common.Int.{pos}
use botster_web.Common.Maps.{lookup}
use botster_web.Wire.Error.{Result, ok, err}
use botster_web.Wire.Bytes.{Bytes}
use botster_web.Wire.Event.{TextCodec}
use botster_web.Wire.Input.{num}
use botster_web.Wire.Enums.{cancelled}
use botster_web.Input.Encoding.{EncodedInputOperation}
use botster_web.Plane.State.{
  OutcomeName, Detail, text, core, InflightInput, SendTask, send_frames, Plane,
}
use botster_web.Plane.Basics.{
  emit, is_current_attachment, same_geometry, screen_hydrated, stream_serial,
}
use botster_web.Plane.Queue.{holds, release_unsent_operation, resize_operation}
use botster_web.Plane.Settle.{Counts, no_counts, settle_inflight}
use botster_web.Plane.Commands.{
  held_inflight, held_task, send_task_frames, send_geometry, start_task, start_send, abort_partial,
  send_failed,
}
use botster_web.Plane.Window.{lookup-IsHeld}
use botster_web.Plane.Sound.{IsSound, if-IsSound, pump_inputs-IsSound}
use botster_web.Plane.Settling.{settle_inflight-IsSound, forget_inflight-IsSound}
use botster_web.Plane.Ending.{same_inputs, IsSound-same}

-- The plane holds this very operation, if it holds one under its id and generation.
abbrev IsOwned : InflightInput → Plane → Type 0
IsOwned x p = holds x p ≡ true → lookup x.operation_id p.inflight_inputs ≡ some x

held_inflight-IsOwned : (x : InflightInput) (p : Plane) → IsSound p → IsOwned (held_inflight x p) p
unfolding held_inflight holds
held_inflight-IsOwned x p s = elim (Option-cases (lookup x.operation_id p.inflight_inputs)) [
  | inl e ↦ rw (held_inflight, e) (λ h. absurd (cc (rw (holds, e) at h)))
  | inr (y, e) ↦ elim (Bool-cases (y.generation == x.generation)) [
    | inl same ↦
        let fits = lookup-IsHeld _ _ x.operation_id y p.inflight_inputs s.window.each e in
        rw (held_inflight, e) (rw same (λ h. ap (λ id. lookup id p.inflight_inputs) fits.0 ∙ e))
    | inr differs ↦
        rw (held_inflight, e) (rw differs (λ h. absurd (cc (rw differs at (rw (holds, e) at h)))))
  ]
]

release_unsent_operation-IsSound :
    (x : InflightInput) (p : Plane)
    → IsOwned x p
    → IsSound p
    → IsSound (release_unsent_operation x p)
unfolding release_unsent_operation
release_unsent_operation-IsSound x p owned s =
    if-IsSound (not (holds x p)) (λ gone. s)
      (λ here. forget_inflight-IsSound x p (owned (ground (arith, here))) s)

module _ (codec : TextCodec) where
  settle_owned-IsSound :
      (x : InflightInput) (o : OutcomeName) (d : Detail) (c : Counts) (now : ℕ) (p : Plane)
      → IsOwned x p
      → IsSound p
      → IsSound (settle_inflight codec x o d c now p)
  settle_owned-IsSound x o d c now p owned s = elim (Bool-cases (holds x p)) [
    | inl here ↦ settle_inflight-IsSound codec x o d c now p (owned here) s
    | inr gone ↦ unfold settle_inflight in rw gone s
  ]

  framed-IsSound :
      (r : Result (List Bytes)) (task : SendTask) (now : ℕ) (p : Plane)
      → IsOwned task.inflight p
      → IsSound p
      → IsSound (elim r [
        | ok frames ↦ emit (send_frames task.stream_serial task.inflight.operation_id frames) p
        | err e ↦
            settle_inflight codec task.inflight
              (core cancelled)
              (text "Input was not sent.")
              no_counts
              now
              p
      ])
  unfolding emit
  framed-IsSound (ok frames) task now p owned s = IsSound-same p (same_inputs p) s
  framed-IsSound (err e) task now p owned s = settle_owned-IsSound task.inflight _ _ _ now p owned s

  send_task_frames-IsSound :
      (task : SendTask) (operation : EncodedInputOperation) (now : ℕ) (p : Plane)
      → IsOwned task.inflight p
      → IsSound p
      → IsSound (send_task_frames codec task operation now p)
  unfolding send_task_frames
  send_task_frames-IsSound task operation now p owned s =
      framed-IsSound (operation.frames (num (pos task.inflight.operation_id))) task now p owned s

  send_geometry-IsSound :
      (task : SendTask) (now : ℕ) (p : Plane)
      → IsOwned task.inflight p
      → IsSound p
      → IsSound (send_geometry codec task now p)
  unfolding send_geometry holds
  send_geometry-IsSound task now p owned s =
      let unsent =
        pump_inputs-IsSound codec _ (release_unsent_operation-IsSound task.inflight p owned s) in
      option_split IsSound p.desired_geometry (λ nothing. unsent)
        (λ geometry there.
          let told : Plane = record p { sent_geometry = some geometry } in
          if-IsSound (not (screen_hydrated p) || same_geometry geometry p.sent_geometry)
            (λ same. unsent)
            (λ differs.
              send_task_frames-IsSound task (resize_operation codec geometry) now told owned
                (IsSound-same p (same_inputs p) s)))

  start_task-IsSound :
      (task : SendTask) (now : ℕ) (p : Plane)
      → IsOwned task.inflight p
      → IsSound p
      → IsSound (start_task codec task now p)
  unfolding start_task
  start_task-IsSound task now p owned s =
      if-IsSound
        (not (is_current_attachment p task.inflight.generation)
          || not (is_some p.stream && (stream_serial p == task.stream_serial)))
        (λ stale. settle_owned-IsSound task.inflight _ _ _ now p owned s)
        (λ current.
          if-IsSound (opt_beq p.geometry_operation (some task.inflight.operation_id))
            (λ resizes. send_geometry-IsSound task now p owned s)
            (λ other. send_task_frames-IsSound task _ now p owned s))

  pub start_send-IsSound : (now : ℕ) (p : Plane) → IsSound p → IsSound (start_send codec now p)
  unfolding start_send holds
  start_send-IsSound now p s = started-IsSound p.send_chain now p s
    where
      started-IsSound :
          (chain : List SendTask) (now : ℕ) (p : Plane)
          → IsSound p
          → IsSound (elim chain [
            | [] ↦ p
            | task ∷ rest ↦ start_task codec (held_task task p) now (record p { send_chain = rest })
          ])
      started-IsSound [] now p s = s
      started-IsSound (task ∷ rest) now p s =
          start_task-IsSound (held_task task p) now (record p { send_chain = rest })
            (held_inflight-IsOwned task.inflight p s) (IsSound-same p (same_inputs p) s)

  sent_abort-IsSound :
      (x : InflightInput) (r : Result Bytes) (serial id : ℕ) (p : Plane)
      → IsOwned x p
      → IsSound p
      → IsOwned x (elim r [ ok frame ↦ emit (send_frames serial id (frame ∷ [])) p | err e ↦ p ])
        × IsSound (elim r [ ok frame ↦ emit (send_frames serial id (frame ∷ [])) p | err e ↦ p ])
  unfolding emit holds
  sent_abort-IsSound x (ok frame) serial id p owned s = (owned, IsSound-same p (same_inputs p) s)
  sent_abort-IsSound x (err e) serial id p owned s = (owned, s)

  abort_partial-IsSound :
      (x : InflightInput) (task : SendTask) (sent total : ℕ) (p : Plane)
      → IsOwned x p
      → IsSound p
      → IsOwned x (abort_partial codec task sent total p)
        × IsSound (abort_partial codec task sent total p)
  unfolding abort_partial emit holds
  abort_partial-IsSound x task sent total p owned s =
      let Fine : Plane → Type 0 = λ q. IsOwned x q × IsSound q in
      let id = task.inflight.operation_id in
      option_split Fine task.inflight.entry.operation.abort_frame (λ nothing. (owned, s))
        (λ abort there.
          if_split Fine
            (ltb 0 sent
              && ltb sent total
              && is_some p.stream
              && (stream_serial p == task.stream_serial))
            (λ partial. sent_abort-IsSound x (abort (num (pos id))) task.stream_serial id p owned s)
            (λ whole. (owned, s)))

  pub send_failed-IsSound :
      (task : SendTask) (sent total now : ℕ) (p : Plane)
      → IsSound p
      → IsSound (send_failed codec task sent total now p)
  unfolding send_failed
  send_failed-IsSound task sent total now p s =
      let (owned, aborted) =
        abort_partial-IsSound (held_inflight task.inflight p) task sent total p
          (held_inflight-IsOwned task.inflight p s) s in
      settle_owned-IsSound (held_inflight task.inflight p) _ _ _ now _ owned aborted
