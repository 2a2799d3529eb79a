-- ===== src/Plane/Dispatch.antt =====
-- Every route frame of src/botster/hubTerminalDataPlane.ts keeps the accounting of the inputs.
use botster_web.Common.{
  ℕ, Bool, true, false, not, ◌&&◌, ◌||◌, ◌==◌, nat_eq, string_eq, if◌then◌else◌, Option-cases, inl,
  inr,
}
use botster_web.Wire.Bytes.{Bytes}
use botster_web.Wire.Error.{ok, err}
use botster_web.Wire.Enums.{AttachState, HistoryUnavailableReason}
use botster_web.Wire.Event.{TextCodec, TerminalEvent, decode_terminal_body}
use botster_web.Plane.State.{ScreenHydration, Plane}
use botster_web.Plane.Basics.{is_current_attachment}
use botster_web.Plane.Lifecycle.{ensure_hydration, fail_route}
use botster_web.Plane.Route.{
  RouteFrame, SubscriptionClosed, Progress, ready, page, finish, other, threw, Texts,
  admit_route_generation, admit_stream_epoch, receive_modes, cancel_own_reader,
}
use botster_web.Plane.Frames.{
  receive_history_unavailable, start_install, install_progress, snapshot_read, with_hydration,
  receive_attach_state, receive_event, receive_decoded, receive_route_frame, emit_route_event,
  emit_closed_event,
}
use botster_web.Plane.Sound.{IsSound, if-IsSound, pump_inputs-IsSound}
use botster_web.Plane.Admission.{emit-IsSound}
use botster_web.Plane.Settling.{handle_input_result-IsSound}
use botster_web.Plane.Ending.{
  same_inputs, IsSound-same, emit_status-IsSound, arm_progress-IsSound, ensure_hydration-IsSound,
  close_stream-IsSound, close_stream_without_detach_request-IsSound, fail_route-IsSound,
  recover_route-IsSound,
}
use botster_web.Plane.Receiving.{
  receive_route_resync-IsSound, receive_output-IsSound, receive_process_exit-IsSound,
  receive_snapshot_finish-IsSound,
}

module _ (codec : TextCodec) (texts : Texts) where
  start_install-IsSound :
      (bytes : Bytes) (first : Bool) (h : ScreenHydration) (now : ℕ) (p : Plane)
      → IsSound p
      → IsSound (start_install codec texts bytes first h now p)
  unfolding start_install
  start_install-IsSound bytes first h now p s =
      if-IsSound h.completed (λ late. fail_route-IsSound codec _ now p s)
        (λ on.
          if-IsSound (if first then h.ready_received else not h.ready_received)
            (λ wrong. fail_route-IsSound codec _ now p s)
            (λ right.
              if-IsSound (h.history_incomplete || h.decoder_finished) (λ over. s)
                (λ reads.
                  if-IsSound (not h.has_reader) (λ unbound. fail_route-IsSound codec _ now p s)
                    (λ bound. emit-IsSound _ p s))))

  install_progress-IsSound :
      (progress : Progress) (first : Bool) (h : ScreenHydration) (now : ℕ) (p : Plane)
      → IsSound p
      → IsSound (install_progress codec texts progress first h now p)
  unfolding install_progress
  install_progress-IsSound ready true h now p s =
      arm_progress-IsSound h.serial _ (emit_status-IsSound _ _ (IsSound-same p (same_inputs p) s))
  install_progress-IsSound ready false h now p s = fail_route-IsSound codec _ now p s
  install_progress-IsSound page true h now p s = fail_route-IsSound codec _ now p s
  install_progress-IsSound page false h now p s = arm_progress-IsSound h.serial p s
  install_progress-IsSound finish true h now p s = fail_route-IsSound codec _ now p s
  install_progress-IsSound finish false h now p s =
      arm_progress-IsSound h.serial _ (IsSound-same p (same_inputs p) s)
  install_progress-IsSound (other name) first h now p s = fail_route-IsSound codec _ now p s
  install_progress-IsSound (threw message) first h now p s =
      recover_route-IsSound codec h.serial message now p s

  pub snapshot_read-IsSound :
      (serial generation : ℕ) (first : Bool) (progress : Progress) (now : ℕ) (p : Plane)
      → IsSound p
      → IsSound (snapshot_read codec texts serial generation first progress now p)
  unfolding snapshot_read
  snapshot_read-IsSound serial generation first progress now p s = elim (Option-cases p.hydration) [
    | inl e ↦ rw (snapshot_read, e) s
    | inr (h, e) ↦
        rw (snapshot_read, e)
          (if-IsSound (not (is_current_attachment p generation) || not (h.serial == serial))
            (λ stale. s) (λ own. install_progress-IsSound progress first h now p s))
  ]

  with_hydration-IsSound :
      (generation : ℕ) (handler : ScreenHydration → Plane → Plane) (p : Plane)
      → ((h : ScreenHydration) (q : Plane) → IsSound q → IsSound (handler h q))
      → IsSound p
      → IsSound (with_hydration codec texts generation handler p)
  unfolding with_hydration
  with_hydration-IsSound generation handler p handles s =
      let t = ensure_hydration-IsSound generation p s in
      elim (Option-cases (ensure_hydration generation p).hydration) [
        | inl e ↦ rw (with_hydration, e) t
        | inr (h, e) ↦ rw (with_hydration, e) (handles h _ t)
      ]

  receive_history_unavailable-IsSound :
      (reason : HistoryUnavailableReason) (h : ScreenHydration) (now : ℕ) (p : Plane)
      → IsSound p
      → IsSound (receive_history_unavailable codec texts reason h now p)
  unfolding receive_history_unavailable
  receive_history_unavailable-IsSound reason h now p s =
      let cancelled : IsSound (cancel_own_reader h p) = IsSound-same p (same_inputs p) s in
      if-IsSound (not h.ready_received) (λ early. fail_route-IsSound codec _ now _ cancelled)
        (λ readied. emit_status-IsSound _ _ (IsSound-same p (same_inputs p) s))

  receive_attach_state-IsSound :
      (state : AttachState) (generation now : ℕ) (p : Plane)
      → IsSound p
      → IsSound (receive_attach_state codec texts state generation now p)
  unfolding receive_attach_state
  receive_attach_state-IsSound AttachState.attached generation now p s =
      pump_inputs-IsSound codec _ (emit_status-IsSound _ _ (IsSound-same p (same_inputs p) s))
  receive_attach_state-IsSound AttachState.attaching generation now p s = emit_status-IsSound _ p s
  receive_attach_state-IsSound AttachState.detached generation now p s =
      close_stream-IsSound codec now _ (emit_status-IsSound _ p s)
  receive_attach_state-IsSound AttachState.failed generation now p s =
      elim (Option-cases p.hydration) [
        | inl e ↦ rw (receive_attach_state, e) (fail_route-IsSound codec _ now p s)
        | inr (h, e) ↦
            rw (receive_attach_state, e)
              (if-IsSound ((h.generation == generation) && not h.ready_received)
                (λ lost. recover_route-IsSound codec h.serial _ now p s)
                (λ failed. fail_route-IsSound codec _ now p s))
      ]

  receive_event-IsSound :
      (event : TerminalEvent) (generation now : ℕ) (p : Plane)
      → IsSound p
      → IsSound (receive_event codec texts event generation now p)
  unfolding receive_event receive_modes
  receive_event-IsSound (TerminalEvent.output bytes) generation now p s =
      receive_output-IsSound codec texts bytes generation now p s
  receive_event-IsSound (TerminalEvent.snapshot_ready bytes) generation now p s =
      with_hydration-IsSound generation _ p (λ h q t. start_install-IsSound bytes true h now q t) s
  receive_event-IsSound (TerminalEvent.snapshot_history bytes) generation now p s =
      with_hydration-IsSound generation _ p (λ h q t. start_install-IsSound bytes false h now q t) s
  receive_event-IsSound TerminalEvent.snapshot_finish generation now p s =
      with_hydration-IsSound generation _ p
        (λ h q t. receive_snapshot_finish-IsSound codec texts h now q t) s
  receive_event-IsSound (TerminalEvent.process_exit code) generation now p s =
      receive_process_exit-IsSound codec texts code generation p s
  receive_event-IsSound (TerminalEvent.modes bits rows cols) generation now p s =
      IsSound-same p (same_inputs p) s
  receive_event-IsSound (TerminalEvent.attach_state state) generation now p s =
      receive_attach_state-IsSound state generation now p s
  receive_event-IsSound (TerminalEvent.input_result result) generation now p s =
      handle_input_result-IsSound codec result now p s
  receive_event-IsSound (TerminalEvent.history_unavailable reason) generation now p s =
      with_hydration-IsSound generation _ p
        (λ h q t. receive_history_unavailable-IsSound reason h now q t) s
  receive_event-IsSound (TerminalEvent.route_resync from_epoch to_epoch) generation now p s =
      receive_route_resync-IsSound to_epoch generation p s

  admit_route_generation-IsSound :
      (frame_generation : ℕ) (p : Plane)
      → IsSound p
      → IsSound ((admit_route_generation frame_generation p).0)
  unfolding admit_route_generation
  admit_route_generation-IsSound frame_generation p s = elim (Option-cases p.route_generation) [
    | inl e ↦ rw (admit_route_generation, e) (IsSound-same p (same_inputs p) s)
    | inr (g, e) ↦ rw (admit_route_generation, e) s
  ]

  receive_decoded-IsSound :
      (frame_generation stream_epoch : ℕ) (event : TerminalEvent) (generation now : ℕ) (p : Plane)
      → IsSound p
      → IsSound (receive_decoded codec texts frame_generation stream_epoch event generation now p)
  unfolding receive_decoded
  receive_decoded-IsSound frame_generation stream_epoch event generation now p s =
      let (q, admitted) = admit_route_generation frame_generation p in
      let t = admit_route_generation-IsSound frame_generation p s in
      if-IsSound (not admitted) (λ stale. t)
        (λ own.
          if-IsSound (not (admit_stream_epoch stream_epoch event q.accepted_epoch)) (λ old. t)
            (λ current. receive_event-IsSound event generation now q t))

  receive_route_frame-IsSound :
      (frame : RouteFrame) (generation now : ℕ) (p : Plane)
      → IsSound p
      → IsSound (receive_route_frame codec texts frame generation now p)
  unfolding receive_route_frame
  receive_route_frame-IsSound frame generation now p s =
      elim (decode_terminal_body codec frame.body)
        as (λ r. IsSound (elim r as (λ x. Plane) [
          | err e ↦ fail_route codec (texts.undecodable e) now p
          | ok event ↦
              receive_decoded codec texts frame.generation frame.stream_epoch event generation now p
        ])) [
          | err e ↦ fail_route-IsSound codec _ now p s
          | ok event ↦
              receive_decoded-IsSound frame.generation frame.stream_epoch event generation now p s
        ]

  pub emit_route_event-IsSound :
      (frame : RouteFrame) (generation now : ℕ) (p : Plane)
      → IsSound p
      → IsSound (emit_route_event codec texts frame generation now p)
  unfolding emit_route_event
  emit_route_event-IsSound frame generation now p s =
      if-IsSound (not (is_current_attachment p generation)) (λ stale. s)
        (λ current.
          if-IsSound (not (frame.route == p.subscription_id)) (λ other. s)
            (λ own. receive_route_frame-IsSound frame generation now p s))

  pub emit_closed_event-IsSound :
      (event : SubscriptionClosed) (generation now : ℕ) (p : Plane)
      → IsSound p
      → IsSound (emit_closed_event codec texts event generation now p)
  unfolding emit_closed_event
  emit_closed_event-IsSound event generation now p s =
      if-IsSound (not (is_current_attachment p generation)) (λ stale. s)
        (λ current.
          if-IsSound
            (not (event.subscription_id == p.subscription_id)
              || not (event.session_id == p.session_id))
            (λ other. s)
            (λ own.
              if-IsSound (event.reason == "core_adapter_closed")
                (λ budget. close_stream-IsSound codec now _ (emit_status-IsSound _ p s))
                (λ ended.
                  close_stream_without_detach_request-IsSound codec _ now _
                    (emit_status-IsSound _ p s))))
