-- ===== src/Plane/Buffered.antt =====
-- The hydration buffer over a whole run of src/botster/hubTerminalDataPlane.ts.
use botster_web.Common.{
  arith, false, ℕ, refl, not, ◌||◌, Option, some, List, [], ◌∷◌, ◌==◌, nat_eq, string_eq, String,
  if_split, Option-cases, inl, inr,
}
use mathlib.Core.Path.{subst}
use botster_web.Wire.Error.{Result, ok, err}
use botster_web.Wire.Event.{TextCodec, TerminalEvent, decode_terminal_body}
use botster_web.Plane.State.{Plane, ScreenHydration}
use botster_web.Plane.Basics.{is_current_attachment}
use botster_web.Plane.Lifecycle.{
  progress_expired, close_stream_without_detach_request, recover_route, fail_route,
}
use botster_web.Plane.Construction.{new_plane, bind_incremental_snapshot_reader}
use botster_web.Plane.Route.{RouteFrame, SubscriptionClosed, Texts}
use botster_web.Plane.Frames.{
  receive_decoded, emit_route_event, emit_closed_event, receive_route_frame,
}
use botster_web.Plane.Keeping.{
  hydration-close_stream, hydration-reset_attachment_state, hydration-fail_route,
}
use botster_web.Plane.Buffering.{IsBuffered, gone, recover_route-IsBuffered, IsBounded}
use botster_web.Plane.Bounded.{receive_decoded-IsBuffered, snapshot_read-IsBuffered}
use botster_web.Plane.Hydrating.{call-IsSame, start_send-IsSame, send_failed-IsSame}
use botster_web.Plane.Accounting.{call}
use botster_web.Plane.Commands.{start_send, send_failed}
use botster_web.Plane.Whole.{
  Happening, called, subscribed, unsubscribed, reattached, acquired, made_ready, framed, closed,
  snapshot_answered, stalled, transport, attach_failed, task_started, task_failed, happen, run,
}
use botster_web.Plane.Attaching.{
  Fine, kept, attach_acquire-Fine, attach_ready-Fine, attach_rejected-Fine, subscribe_output-Fine,
  unsubscribe_output-Fine, detach-Fine, reattach-Fine, handle_lifecycle_event-Fine,
}

module _ (codec : TextCodec) (texts : Texts) where
  progress_expired-Fine :
      (serial : ℕ) (message : String) (now : ℕ) (p : Plane)
      → Fine p
      → Fine (progress_expired codec serial message now p)
  unfolding progress_expired
  progress_expired-Fine serial message now p s = elim (Option-cases p.hydration) [
    | inl e ↦ rw (progress_expired, e) s
    | inr (h, e) ↦
        let b : IsBounded h = subst IsBuffered e s in
        let disarmed : IsBounded (record h { progress_armed = false }) = record {
          items = b.items;
          counted = b.counted;
          bytes = b.bytes;
          flushed = b.flushed;
        } in
        rw (progress_expired, e)
          (if_split Fine (not (h.serial == serial)) (λ other. s)
            (λ own.
              if_split Fine h.completed (λ done. disarmed)
                (λ on.
                  let quiet : ScreenHydration = record h { progress_armed = false } in
                  let q : Plane = record p { hydration = some quiet } in
                  subst (λ n. Fine (recover_route codec n message now q)) (ground (arith, own))
                    (recover_route-IsBuffered codec texts quiet message now q refl))))
  ]

  decoded-Fine :
      (r : Result TerminalEvent) (frame : RouteFrame) (generation now : ℕ) (p : Plane)
      → Fine p
      → Fine (elim r [
        | err e ↦ fail_route codec (texts.undecodable e) now p
        | ok event ↦
            receive_decoded codec texts frame.generation frame.stream_epoch event generation now p
      ])
  decoded-Fine (err e) frame generation now p s = gone (hydration-fail_route codec _ now p)
  decoded-Fine (ok event) frame generation now p s =
      receive_decoded-IsBuffered codec texts frame.generation frame.stream_epoch event generation
        now p s

  emit_route_event-Fine :
      (frame : RouteFrame) (generation now : ℕ) (p : Plane)
      → Fine p
      → Fine (emit_route_event codec texts frame generation now p)
  unfolding emit_route_event receive_route_frame
  emit_route_event-Fine frame generation now p s =
      if_split Fine (not (is_current_attachment p generation)) (λ stale. s)
        (λ current.
          if_split Fine (not (frame.route == p.subscription_id)) (λ other. s)
            (λ own. decoded-Fine (decode_terminal_body codec frame.body) frame generation now p s))

  emit_closed_event-Fine :
      (event : SubscriptionClosed) (generation now : ℕ) (p : Plane)
      → Fine p
      → Fine (emit_closed_event codec texts event generation now p)
  unfolding emit_closed_event close_stream_without_detach_request
  emit_closed_event-Fine event generation now p s =
      if_split Fine (not (is_current_attachment p generation)) (λ stale. s)
        (λ current.
          if_split Fine
            (not (event.subscription_id == p.subscription_id)
              || not (event.session_id == p.session_id))
            (λ other. s)
            (λ own.
              if_split Fine (event.reason == "core_adapter_closed")
                (λ core. gone (hydration-close_stream codec now _))
                (λ hub. gone (hydration-reset_attachment_state codec _ now _))))

  happen-Fine : (h : Happening) (now : ℕ) (p : Plane) → Fine p → Fine (happen codec texts h now p)
  unfolding bind_incremental_snapshot_reader
  happen-Fine (called c) now p s = kept p (call codec c now p) (call-IsSame codec c now p) s
  happen-Fine Happening.reader_bound now p s = s
  happen-Fine subscribed now p s = subscribe_output-Fine codec p s
  happen-Fine unsubscribed now p s = unsubscribe_output-Fine codec now p s
  happen-Fine Happening.detached now p s = detach-Fine codec now p s
  happen-Fine reattached now p s = reattach-Fine codec p s
  happen-Fine (acquired generation subscription) now p s =
      attach_acquire-Fine generation subscription p s
  happen-Fine (made_ready generation reserved) now p s = attach_ready-Fine generation reserved p s
  happen-Fine (framed frame generation) now p s = emit_route_event-Fine frame generation now p s
  happen-Fine (closed event generation) now p s = emit_closed_event-Fine event generation now p s
  happen-Fine (snapshot_answered serial generation first progress) now p s =
      snapshot_read-IsBuffered codec texts serial generation first progress now p s
  happen-Fine (stalled serial message) now p s = progress_expired-Fine serial message now p s
  happen-Fine (attach_failed generation message) now p s =
      attach_rejected-Fine generation message p s
  happen-Fine task_started now p s =
      kept p (start_send codec now p) (start_send-IsSame codec now p) s
  happen-Fine (task_failed task count total) now p s =
      kept p (send_failed codec task count total now p)
        (send_failed-IsSame codec task count total now p) s
  happen-Fine (transport event) now p s = handle_lifecycle_event-Fine codec event now p s

  run-Fine : (hs : List (Happening × ℕ)) (p : Plane) → Fine p → Fine (run codec texts hs p)
  run-Fine [] p s = s
  run-Fine ((h, now) ∷ rest) p s = run-Fine rest _ (happen-Fine h now p s)

  -- Whatever happens to a new plane, in any order, the output that waits for the screen is at most 256
  -- items and 8 MiB, its bytes are counted exactly, and none waits in a completed hydration.
  pub history-IsBuffered :
      (session : String) (subscription : Option String) (fresh_id : ℕ → String)
      (hs : List (Happening × ℕ))
      → IsBuffered (run codec texts hs (new_plane session subscription fresh_id)).hydration
  unfolding new_plane
  history-IsBuffered session subscription fresh_id hs =
      run-Fine hs (new_plane session subscription fresh_id) tt
