-- ===== src/Plane/Frames.antt =====
-- The dispatch of route frames in src/botster/hubTerminalDataPlane.ts: `emitTerminalEvent`,
-- `receiveRouteFrame` and the installation of snapshot frames.
use botster_web.Common.{
  ℕ, Bool, true, false, not, ◌&&◌, ◌||◌, none, some, ◌==◌, nat_eq, string_eq, if◌then◌else◌,
}
use botster_web.Wire.Error.{ok, err}
use botster_web.Wire.Bytes.{Bytes}
use botster_web.Wire.Enums.{AttachState, HistoryUnavailableReason}
use botster_web.Wire.Event.{TextCodec, TerminalEvent, decode_terminal_body}
use botster_web.Plane.State.{attaching, failed, ScreenHydration, read_snapshot, Plane}
use botster_web.Plane.Basics.{emit, emit_status, says, is_current_attachment}
use botster_web.Plane.Queue.{pump_inputs}
use botster_web.Plane.Settle.{handle_input_result}
use botster_web.Plane.Lifecycle.{
  ensure_hydration, arm_progress, close_stream, close_stream_without_detach_request, fail_route,
  recover_route,
}
use botster_web.Plane.Route.{
  RouteFrame, SubscriptionClosed, Progress, ready, page, finish, other, threw, Texts,
  admit_route_generation, admit_stream_epoch, receive_modes, cancel_own_reader,
  receive_route_resync, receive_output, receive_process_exit, receive_snapshot_finish,
}

module _ (codec : TextCodec) (texts : Texts) where
  -- `receiveHistoryUnavailable` on the hydration that `ensureHydration` gives.
  unfoldable pub receive_history_unavailable :
      HistoryUnavailableReason → ScreenHydration → ℕ → Plane → Plane
  receive_history_unavailable reason h now p =
      let cancelled = cancel_own_reader h p in
      if not h.ready_received
      then fail_route codec (texts.history_before_ready reason) now cancelled
      else emit_status (says attaching (texts.history_missing reason))
          (record cancelled { hydration = some (record h { history_incomplete = true }) })

  -- A snapshot frame up to `reader.read`.
  unfoldable pub start_install : Bytes → Bool → ScreenHydration → ℕ → Plane → Plane
  start_install bytes is_ready h now p =
      if h.completed
      then fail_route codec "Terminal snapshot frame arrived after the route completed hydration."
          now p
      else if if is_ready then h.ready_received else not h.ready_received
      then fail_route codec
          (if is_ready
            then "Terminal sent SNAPSHOT_READY twice."
            else "Terminal sent SNAPSHOT_HISTORY before SNAPSHOT_READY.")
          now p
      else if h.history_incomplete || h.decoder_finished
      then p
      else if not h.has_reader
      then fail_route codec "Restty incremental snapshot reader is not bound." now p
      else emit (read_snapshot h.serial bytes) p

  -- The answer to a read for a frame that is READY or a history page.
  unfoldable pub install_progress : Progress → Bool → ScreenHydration → ℕ → Plane → Plane
  install_progress ready true h now p = arm_progress h.serial (
      emit_status
        (says attaching "Visible terminal screen restored at snapshot READY; loading history.")
        (record p { hydration = some (record h { ready_received = true }) }))
  install_progress ready false h now p =
      fail_route codec "Restty returned READY for a history frame." now p
  install_progress page true h now p =
      fail_route codec "Restty returned PAGE for the READY frame." now p
  install_progress page false h now p = arm_progress h.serial p
  install_progress finish true h now p =
      fail_route codec "Restty returned FINISH for the READY frame." now p
  install_progress finish false h now p =
      arm_progress h.serial (record p { hydration = some (record h { decoder_finished = true }) })
  install_progress (other name) is_ready h now p =
      fail_route codec (texts.unknown_progress name) now p
  install_progress (threw message) is_ready h now p = recover_route codec h.serial message now p

  -- The reader answers; an answer for another attachment or another hydration is dropped.
  unfoldable pub snapshot_read : ℕ → ℕ → Bool → Progress → ℕ → Plane → Plane
  snapshot_read serial generation is_ready progress now p = elim p.hydration [
    | none ↦ p
    | some h ↦
        if not (is_current_attachment p generation) || not (h.serial == serial)
        then p
        else install_progress progress is_ready h now p
  ]

  -- A handler on the hydration of this attachment, made if there is none.
  unfoldable pub with_hydration : ℕ → (ScreenHydration → Plane → Plane) → Plane → Plane
  with_hydration generation handler p =
      let q = ensure_hydration generation p in elim q.hydration [ none ↦ q | some h ↦ handler h q ]

  unfoldable pub receive_attach_state : AttachState → ℕ → ℕ → Plane → Plane
  receive_attach_state AttachState.attached generation now p = pump_inputs codec (
      emit_status (says attaching "Terminal route attached; waiting for the visible screen.")
        (record p { attached_received = true; accepted_epoch = some 0 }))
  receive_attach_state AttachState.attaching generation now p =
      emit_status (says attaching "Terminal route is attaching.") p
  receive_attach_state AttachState.failed generation now p = elim p.hydration [
    | none ↦ fail_route codec "Terminal attach failed." now p
    | some h ↦
        if (h.generation == generation) && not h.ready_received
        then recover_route codec h.serial "Terminal attach failed before the visible screen." now p
        else fail_route codec "Terminal attach failed." now p
  ]
  receive_attach_state AttachState.detached generation now p =
      close_stream codec now
        (emit_status (says failed "Terminal route was detached by the host.") p)

  -- The switch over the decoded kind.
  unfoldable pub receive_event : TerminalEvent → ℕ → ℕ → Plane → Plane
  receive_event (TerminalEvent.output bytes) generation now p =
      receive_output codec texts bytes generation now p
  receive_event (TerminalEvent.snapshot_ready bytes) generation now p =
      with_hydration generation (λ h. start_install bytes true h now) p
  receive_event (TerminalEvent.snapshot_history bytes) generation now p =
      with_hydration generation (λ h. start_install bytes false h now) p
  receive_event TerminalEvent.snapshot_finish generation now p =
      with_hydration generation (λ h. receive_snapshot_finish codec texts h now) p
  receive_event (TerminalEvent.process_exit code) generation now p =
      receive_process_exit codec texts code generation p
  receive_event (TerminalEvent.modes bits rows cols) generation now p =
      receive_modes (record { mode_bits = bits; rows = rows; cols = cols }) p
  receive_event (TerminalEvent.attach_state state) generation now p =
      receive_attach_state state generation now p
  receive_event (TerminalEvent.input_result result) generation now p =
      handle_input_result codec result now p
  receive_event (TerminalEvent.history_unavailable reason) generation now p =
      with_hydration generation (λ h. receive_history_unavailable reason h now) p
  receive_event (TerminalEvent.route_resync from_epoch to_epoch) generation now p =
      receive_route_resync to_epoch generation p

  -- A decoded frame passes the two fences, or changes nothing else.
  unfoldable pub receive_decoded : ℕ → ℕ → TerminalEvent → ℕ → ℕ → Plane → Plane
  receive_decoded frame_generation stream_epoch event generation now p =
      let (q, admitted) = admit_route_generation frame_generation p in
      if not admitted
      then q
      else if not (admit_stream_epoch stream_epoch event q.accepted_epoch)
      then q
      else receive_event event generation now q

  unfoldable pub receive_route_frame : RouteFrame → ℕ → ℕ → Plane → Plane
  receive_route_frame frame generation now p = elim (decode_terminal_body codec frame.body) [
    | err e ↦ fail_route codec (texts.undecodable e) now p
    | ok event ↦ receive_decoded frame.generation frame.stream_epoch event generation now p
  ]

  -- An event of the stream that was opened for this attachment generation.
  unfoldable pub emit_route_event : RouteFrame → ℕ → ℕ → Plane → Plane
  emit_route_event frame generation now p =
      if not (is_current_attachment p generation)
      then p
      else if not (frame.route == p.subscription_id)
      then p
      else receive_route_frame frame generation now p

  unfoldable pub emit_closed_event : SubscriptionClosed → ℕ → ℕ → Plane → Plane
  emit_closed_event event generation now p =
      if not (is_current_attachment p generation)
      then p
      else if not (event.subscription_id == p.subscription_id)
          || not (event.session_id == p.session_id)
      then p
      else if event.reason == "core_adapter_closed"
      then close_stream codec now
          (emit_status (says failed "Terminal subscription closed by Core write-budget.") p)
      else close_stream_without_detach_request codec
          "Terminal closed by the Hub before the operation completed." now
          (emit_status
            (record {
              state = failed;
              message = texts.close_message event.reason;
              close_reason = some event.reason;
            })
            p)
