-- ===== src/Plane/Bounded.antt =====
-- Every route frame of src/botster/hubTerminalDataPlane.ts keeps the buffer of a hydrating screen
-- within its bounds.
use botster_web.Common.{
  ℕ, ◌≡◌, sym, Bool, true, false, not, ◌&&◌, ◌||◌, some, ◌==◌, nat_eq, if◌then◌else◌, Option-cases,
  inl, inr,
}
use mathlib.Core.Path.{subst}
use botster_web.Wire.Bytes.{Bytes}
use botster_web.Wire.Enums.{AttachState, HistoryUnavailableReason}
use botster_web.Wire.Event.{TextCodec, TerminalEvent}
use botster_web.Plane.State.{ScreenHydration, Plane}
use botster_web.Plane.Basics.{is_current_attachment, emit, emit_status}
use botster_web.Plane.Lifecycle.{ensure_hydration, fail_route}
use botster_web.Plane.Route.{
  Progress, ready, page, finish, other, threw, Texts, admit_route_generation, admit_stream_epoch,
  receive_modes,
}
use botster_web.Plane.Frames.{
  snapshot_read, receive_history_unavailable, start_install, install_progress, with_hydration,
  receive_attach_state, receive_event, receive_decoded,
}
use botster_web.Plane.Keeping.{
  pump_inputs-Keeps, hydration-handle_input_result, hydration-close_stream, hydration-fail_route,
}
use botster_web.Plane.Buffering.{
  IsBuffered, if-IsBuffered, gone, arm_progress-IsBuffered, ensure_hydration-IsBuffered,
  receive_route_resync-IsBuffered, recover_route-IsBuffered, receive_output-IsBuffered,
  receive_process_exit-IsBuffered, receive_snapshot_finish-IsBuffered,
}

module _ (codec : TextCodec) (texts : Texts) where
  start_install-IsBuffered :
      (bytes : Bytes) (first : Bool) (h : ScreenHydration) (now : ℕ) (p : Plane)
      → IsBuffered p.hydration
      → IsBuffered ((start_install codec texts bytes first h now p).hydration)
  unfolding start_install emit
  start_install-IsBuffered bytes first h now p s =
      let failed : (m : _) → IsBuffered ((fail_route codec m now p).hydration) =
        λ m. gone (hydration-fail_route codec m now p) in
      if-IsBuffered _ _ h.completed (λ late. failed _)
        (λ on.
          if-IsBuffered _ _ (if first then h.ready_received else not h.ready_received)
            (λ wrong. failed _)
            (λ right.
              if-IsBuffered _ _ (h.history_incomplete || h.decoder_finished) (λ over. s)
                (λ reads. if-IsBuffered _ _ (not h.has_reader) (λ unbound. failed _) (λ bound. s))))

  install_progress-IsBuffered :
      (progress : Progress) (first : Bool) (h : ScreenHydration) (now : ℕ) (p : Plane)
      → p.hydration ≡ some h
      → IsBuffered p.hydration
      → IsBuffered ((install_progress codec texts progress first h now p).hydration)
  unfolding install_progress emit_status
  install_progress-IsBuffered ready true h now p e s =
      let b = subst IsBuffered e s in
      arm_progress-IsBuffered h.serial _
        (record { items = b.items; counted = b.counted; bytes = b.bytes; flushed = b.flushed })
  install_progress-IsBuffered ready false h now p e s = gone (hydration-fail_route codec _ now p)
  install_progress-IsBuffered page true h now p e s = gone (hydration-fail_route codec _ now p)
  install_progress-IsBuffered page false h now p e s = arm_progress-IsBuffered h.serial p s
  install_progress-IsBuffered finish true h now p e s = gone (hydration-fail_route codec _ now p)
  install_progress-IsBuffered finish false h now p e s =
      let b = subst IsBuffered e s in
      arm_progress-IsBuffered h.serial _
        (record { items = b.items; counted = b.counted; bytes = b.bytes; flushed = b.flushed })
  install_progress-IsBuffered (other name) first h now p e s =
      gone (hydration-fail_route codec _ now p)
  install_progress-IsBuffered (threw message) first h now p e s =
      recover_route-IsBuffered codec texts h message now p e

  pub snapshot_read-IsBuffered :
      (serial generation : ℕ) (first : Bool) (progress : Progress) (now : ℕ) (p : Plane)
      → IsBuffered p.hydration
      → IsBuffered ((snapshot_read codec texts serial generation first progress now p).hydration)
  unfolding snapshot_read
  snapshot_read-IsBuffered serial generation first progress now p s =
      elim (Option-cases p.hydration) [
        | inl e ↦ rw (snapshot_read, e) s
        | inr (h, e) ↦
            rw (snapshot_read, e)
              (if-IsBuffered _ _
                (not (is_current_attachment p generation) || not (h.serial == serial)) (λ stale. s)
                (λ own. install_progress-IsBuffered progress first h now p e s))
      ]

  with_hydration-IsBuffered :
      (generation : ℕ) (handler : ScreenHydration → Plane → Plane) (p : Plane)
      → ((h : ScreenHydration) (q : Plane)
          → q.hydration ≡ some h
          → IsBuffered q.hydration
          → IsBuffered ((handler h q).hydration))
      → IsBuffered p.hydration
      → IsBuffered ((with_hydration codec texts generation handler p).hydration)
  unfolding with_hydration
  with_hydration-IsBuffered generation handler p handles s =
      let t = ensure_hydration-IsBuffered generation p s in
      elim (Option-cases (ensure_hydration generation p).hydration) [
        | inl e ↦ rw (with_hydration, e) t
        | inr (h, e) ↦ rw (with_hydration, e) (handles h _ e t)
      ]

  receive_history_unavailable-IsBuffered :
      (reason : HistoryUnavailableReason) (h : ScreenHydration) (now : ℕ) (p : Plane)
      → p.hydration ≡ some h
      → IsBuffered p.hydration
      → IsBuffered ((receive_history_unavailable codec texts reason h now p).hydration)
  unfolding receive_history_unavailable emit_status
  receive_history_unavailable-IsBuffered reason h now p e s =
      let b = subst IsBuffered e s in
      if-IsBuffered _ _ (not h.ready_received) (λ early. gone (hydration-fail_route codec _ now _))
        (λ readied. record {
          items = b.items;
          counted = b.counted;
          bytes = b.bytes;
          flushed = b.flushed;
        })

  receive_attach_state-IsBuffered :
      (state : AttachState) (generation now : ℕ) (p : Plane)
      → IsBuffered p.hydration
      → IsBuffered ((receive_attach_state codec texts state generation now p).hydration)
  unfolding receive_attach_state emit_status
  receive_attach_state-IsBuffered AttachState.attached generation now p s =
      subst IsBuffered (sym (pump_inputs-Keeps codec _).1) s
  receive_attach_state-IsBuffered AttachState.attaching generation now p s = s
  receive_attach_state-IsBuffered AttachState.detached generation now p s =
      gone (hydration-close_stream codec now _)
  receive_attach_state-IsBuffered AttachState.failed generation now p s =
      elim (Option-cases p.hydration) [
        | inl e ↦ rw (receive_attach_state, e) (gone (hydration-fail_route codec _ now p))
        | inr (h, e) ↦
            rw (receive_attach_state, e)
              (if-IsBuffered _ _ ((h.generation == generation) && not h.ready_received)
                (λ lost. recover_route-IsBuffered codec texts h _ now p e)
                (λ failed. gone (hydration-fail_route codec _ now p)))
      ]

  receive_event-IsBuffered :
      (event : TerminalEvent) (generation now : ℕ) (p : Plane)
      → IsBuffered p.hydration
      → IsBuffered ((receive_event codec texts event generation now p).hydration)
  unfolding receive_event receive_modes
  receive_event-IsBuffered (TerminalEvent.output bytes) generation now p s =
      receive_output-IsBuffered codec texts bytes generation now p s
  receive_event-IsBuffered (TerminalEvent.snapshot_ready bytes) generation now p s =
      with_hydration-IsBuffered generation _ p
        (λ h q e t. start_install-IsBuffered bytes true h now q t) s
  receive_event-IsBuffered (TerminalEvent.snapshot_history bytes) generation now p s =
      with_hydration-IsBuffered generation _ p
        (λ h q e t. start_install-IsBuffered bytes false h now q t) s
  receive_event-IsBuffered TerminalEvent.snapshot_finish generation now p s =
      with_hydration-IsBuffered generation _ p
        (λ h q e t. receive_snapshot_finish-IsBuffered codec texts h now q t) s
  receive_event-IsBuffered (TerminalEvent.process_exit code) generation now p s =
      receive_process_exit-IsBuffered codec texts code generation p s
  receive_event-IsBuffered (TerminalEvent.modes bits rows cols) generation now p s = s
  receive_event-IsBuffered (TerminalEvent.attach_state state) generation now p s =
      receive_attach_state-IsBuffered state generation now p s
  receive_event-IsBuffered (TerminalEvent.input_result result) generation now p s =
      subst IsBuffered (sym (hydration-handle_input_result codec result now p)) s
  receive_event-IsBuffered (TerminalEvent.history_unavailable reason) generation now p s =
      with_hydration-IsBuffered generation _ p
        (λ h q e t. receive_history_unavailable-IsBuffered reason h now q e t) s
  receive_event-IsBuffered (TerminalEvent.route_resync from_epoch to_epoch) generation now p s =
      receive_route_resync-IsBuffered to_epoch generation p

  admit_route_generation-IsBuffered :
      (frame_generation : ℕ) (p : Plane)
      → IsBuffered p.hydration
      → IsBuffered ((admit_route_generation frame_generation p).0.hydration)
  unfolding admit_route_generation
  admit_route_generation-IsBuffered frame_generation p s = elim (Option-cases p.route_generation) [
    | inl e ↦ rw (admit_route_generation, e) s
    | inr (g, e) ↦ rw (admit_route_generation, e) s
  ]

  pub receive_decoded-IsBuffered :
      (frame_generation stream_epoch : ℕ) (event : TerminalEvent) (generation now : ℕ) (p : Plane)
      → IsBuffered p.hydration
      → IsBuffered (
          (receive_decoded codec texts frame_generation stream_epoch event generation now
            p).hydration)
  unfolding receive_decoded
  receive_decoded-IsBuffered frame_generation stream_epoch event generation now p s =
      let (q, admitted) = admit_route_generation frame_generation p in
      let t = admit_route_generation-IsBuffered frame_generation p s in
      if-IsBuffered _ _ (not admitted) (λ stale. t)
        (λ own.
          if-IsBuffered _ _ (not (admit_stream_epoch stream_epoch event q.accepted_epoch))
            (λ old. t) (λ current. receive_event-IsBuffered event generation now q t))
