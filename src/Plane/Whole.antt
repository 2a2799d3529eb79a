-- ===== src/Plane/Whole.antt =====
-- A whole run of the data plane of src/botster/hubTerminalDataPlane.ts: whatever happens to it, in
-- whatever order.
use botster_web.Common.{
  ℕ, ◌-◌, refl, Bool, not, ◌&&◌, ◌||◌, Option, none, some, List, [], ◌∷◌, ◌==◌, nat_eq, string_eq,
  arith, Option-cases, inl, inr, String,
}
use botster_web.Wire.Event.{TextCodec}
use botster_web.Plane.State.{AbandonedDetach, StreamSubscription, SendTask, Plane}
use botster_web.Plane.Basics.{is_current_attachment}
use botster_web.Plane.Lifecycle.{
  detach, progress_expired, subscribe_output, unsubscribe_output, handle_transport_recovered,
  reattach, attach_acquire, attach_ready, attach_rejected, arm_attached, release_abandoned,
}
use botster_web.Plane.Construction.{
  new_plane, bind_incremental_snapshot_reader, LifecycleEvent, data_channel_closed,
  data_channel_error, encrypted_stream_ready, terminal_data_channel_closed, handle_lifecycle_event,
}
use botster_web.Plane.Route.{RouteFrame, SubscriptionClosed, Progress, Texts}
use botster_web.Plane.Frames.{snapshot_read, emit_route_event, emit_closed_event}
use botster_web.Plane.Sound.{IsSound, if-IsSound}
use botster_web.Plane.Admission.{ensure_attached-IsSound}
use botster_web.Plane.Accounting.{InputCall, call, call-IsSound, if-first}
use botster_web.Plane.Ending.{
  same_inputs, IsSound-same, emit_status-IsSound, ensure_hydration-IsSound, arm_progress-IsSound,
  send_detach_request_once-IsSound, close_stream-IsSound, progress_expired-IsSound, detach-IsSound,
  handle_transport_lost-IsSound,
}
use botster_web.Plane.Commands.{start_send, send_failed}
use botster_web.Plane.Sending.{start_send-IsSound, send_failed-IsSound}
use botster_web.Plane.Dispatch.{
  snapshot_read-IsSound, emit_route_event-IsSound, emit_closed_event-IsSound,
}

-- What happens to a plane: a call, an answer of the bridge or of the reader, a timer, an event, or a
-- task of the send chain that starts or whose send fails after so many of its frames.
pub data Happening : Type 0 where
  called : InputCall → Happening
  reader_bound subscribed unsubscribed detached reattached : Happening
  acquired : ℕ → StreamSubscription → Happening
  made_ready : ℕ → Option ℕ → Happening
  framed : RouteFrame → ℕ → Happening
  closed : SubscriptionClosed → ℕ → Happening
  snapshot_answered : ℕ → ℕ → Bool → Progress → Happening
  stalled : ℕ → String → Happening
  transport : LifecycleEvent → Happening
  attach_failed : ℕ → Option String → Happening
  task_started : Happening
  task_failed : SendTask → ℕ → ℕ → Happening

attach_acquire-IsSound :
    (generation : ℕ) (subscription : StreamSubscription) (p : Plane)
    → IsSound p
    → IsSound (attach_acquire generation subscription p)
unfolding attach_acquire
attach_acquire-IsSound generation subscription p s =
    let t = ensure_hydration-IsSound generation p s in
    if-IsSound (not (is_current_attachment p generation)) (λ stale. s)
      (λ current.
        if-IsSound (p.listeners == 0) (λ nobody. IsSound-same p (same_inputs p) s)
          (λ heard. record {
            queued_sum = t.queued_sum;
            queue_bound = t.queue_bound;
            pastes = t.pastes;
            window = t.window;
            retained = t.retained;
            geometry = t.geometry;
            consent = t.consent;
            idle = λ e. absurd (ground (arith, e));
          }))

arm_attached-IsSound :
    (generation : ℕ) (p : Plane) → IsSound p → IsSound (arm_attached generation p)
unfolding arm_attached
arm_attached-IsSound generation p s = elim (Option-cases p.hydration) [
  | inl e ↦ rw (arm_attached, e) s
  | inr (h, e) ↦
      rw (arm_attached, e)
        (if-IsSound ((h.generation == generation) && not h.completed)
          (λ on. arm_progress-IsSound h.serial p s) (λ off. s))
]

attach_ready-IsSound :
    (generation : ℕ) (reserved : Option ℕ) (p : Plane)
    → IsSound p
    → IsSound (attach_ready generation reserved p)
unfolding attach_ready
attach_ready-IsSound generation reserved p s =
    if-IsSound (not (is_current_attachment p generation)) (λ stale. s)
      (λ current. arm_attached-IsSound generation _ (IsSound-same p (same_inputs p) s))

attach_rejected-IsSound :
    (generation : ℕ) (message : Option String) (p : Plane)
    → IsSound p
    → IsSound (attach_rejected generation message p)
unfolding attach_rejected
attach_rejected-IsSound generation none p s = IsSound-same p (same_inputs p) s
attach_rejected-IsSound generation (some detail) p s =
    emit_status-IsSound _ _ (IsSound-same p (same_inputs p) s)

subscribe_output-IsSound : (p : Plane) → IsSound p → IsSound (subscribe_output p)
unfolding subscribe_output
subscribe_output-IsSound p s =
    if-IsSound p.detached (λ gone. IsSound-same p (same_inputs p) s)
      (λ here.
        ensure_attached-IsSound _ (emit_status-IsSound _ _ (IsSound-same p (same_inputs p) s)))

reattach-IsSound : (p : Plane) → IsSound p → IsSound (reattach p)
unfolding reattach
reattach-IsSound p s =
    if-IsSound (p.detached || (p.listeners == 0)) (λ gone. s) (λ here. ensure_attached-IsSound p s)

release_abandoned-IsSound :
    (a : Option AbandonedDetach) (p : Plane) → IsSound p → IsSound ((release_abandoned a p).0)
unfolding release_abandoned
release_abandoned-IsSound none p s = ensure_attached-IsSound p s
release_abandoned-IsSound (some a) p s =
    if-first _ _ (not a.attach_sent) (ensure_attached-IsSound p s)
      (send_detach_request_once-IsSound a.key p s)

handle_transport_recovered-IsSound :
    (p : Plane) → IsSound p → IsSound ((handle_transport_recovered p).0)
unfolding handle_transport_recovered
handle_transport_recovered-IsSound p s =
    let told = emit_status-IsSound _ _ (IsSound-same p (same_inputs p) s) in
    if-first _ _ (p.detached || not p.transport_lost || (p.listeners == 0)) s (
      if-first _ _ _ (ensure_attached-IsSound _ told)
        (release_abandoned-IsSound p.last_abandoned_detach _ told))

module _ (codec : TextCodec) (texts : Texts) where
  unsubscribe_output-IsSound :
      (now : ℕ) (p : Plane) → IsSound p → IsSound (unsubscribe_output codec now p)
  unfolding unsubscribe_output
  unsubscribe_output-IsSound now p s =
      if-IsSound ((p.listeners - 1 == 0) && not p.detached)
        (λ last. close_stream-IsSound codec now _ (IsSound-same p (same_inputs p) s))
        (λ heard. IsSound-same p (same_inputs p) s)

  handle_lifecycle_event-IsSound :
      (event : LifecycleEvent) (now : ℕ) (p : Plane)
      → IsSound p
      → IsSound ((handle_lifecycle_event codec event now p).0)
  unfolding handle_lifecycle_event
  handle_lifecycle_event-IsSound data_channel_closed now p s =
      if-first _ _ p.detached s (handle_transport_lost-IsSound codec now p s)
  handle_lifecycle_event-IsSound data_channel_error now p s =
      if-first _ _ p.detached s (handle_transport_lost-IsSound codec now p s)
  handle_lifecycle_event-IsSound encrypted_stream_ready now p s =
      if-first _ _ p.detached s (handle_transport_recovered-IsSound p s)
  handle_lifecycle_event-IsSound (terminal_data_channel_closed session route) now p s =
      if-first _ _ p.detached s (
        if-first _ _ (not (session == p.session_id)) s (
          if-first _ _ (not (route == p.subscription_id)) s
            (if-first _ _ p.transport_lost s (handle_transport_lost-IsSound codec now p s))))

  -- One happening at the time `now`.
  abbrev pub happen : Happening → ℕ → Plane → Plane
  happen (called c) now p = call codec c now p
  happen Happening.reader_bound now p = bind_incremental_snapshot_reader p
  happen subscribed now p = subscribe_output p
  happen unsubscribed now p = unsubscribe_output codec now p
  happen Happening.detached now p = detach codec now p
  happen reattached now p = reattach p
  happen (acquired generation subscription) now p = attach_acquire generation subscription p
  happen (made_ready generation reserved) now p = attach_ready generation reserved p
  happen (framed frame generation) now p = emit_route_event codec texts frame generation now p
  happen (closed event generation) now p = emit_closed_event codec texts event generation now p
  happen (snapshot_answered serial generation first progress) now p =
      snapshot_read codec texts serial generation first progress now p
  happen (stalled serial message) now p = progress_expired codec serial message now p
  happen (attach_failed generation message) now p = attach_rejected generation message p
  happen task_started now p = start_send codec now p
  happen (task_failed task sent total) now p = send_failed codec task sent total now p
  happen (transport event) now p = (handle_lifecycle_event codec event now p).0

  -- A run: happenings, each with its time.
  abbrev pub run : List (Happening × ℕ) → Plane → Plane
  run [] p = p
  run ((h, now) ∷ rest) p = run rest (happen h now p)

  happen-IsSound : (h : Happening) (now : ℕ) (p : Plane) → IsSound p → IsSound (happen h now p)
  unfolding bind_incremental_snapshot_reader
  happen-IsSound (called c) now p s = call-IsSound codec c now p s
  happen-IsSound Happening.reader_bound now p s = IsSound-same p (same_inputs p) s
  happen-IsSound subscribed now p s = subscribe_output-IsSound p s
  happen-IsSound unsubscribed now p s = unsubscribe_output-IsSound now p s
  happen-IsSound Happening.detached now p s = detach-IsSound codec now p s
  happen-IsSound reattached now p s = reattach-IsSound p s
  happen-IsSound (acquired generation subscription) now p s =
      attach_acquire-IsSound generation subscription p s
  happen-IsSound (made_ready generation reserved) now p s =
      attach_ready-IsSound generation reserved p s
  happen-IsSound (framed frame generation) now p s =
      emit_route_event-IsSound codec texts frame generation now p s
  happen-IsSound (closed event generation) now p s =
      emit_closed_event-IsSound codec texts event generation now p s
  happen-IsSound (snapshot_answered serial generation first progress) now p s =
      snapshot_read-IsSound codec texts serial generation first progress now p s
  happen-IsSound (stalled serial message) now p s =
      progress_expired-IsSound codec serial message now p s
  happen-IsSound (attach_failed generation message) now p s =
      attach_rejected-IsSound generation message p s
  happen-IsSound task_started now p s = start_send-IsSound codec now p s
  happen-IsSound (task_failed task sent total) now p s =
      send_failed-IsSound codec task sent total now p s
  happen-IsSound (transport event) now p s = handle_lifecycle_event-IsSound event now p s

  run-IsSound : (hs : List (Happening × ℕ)) (p : Plane) → IsSound p → IsSound (run hs p)
  run-IsSound [] p s = s
  run-IsSound ((h, now) ∷ rest) p s = run-IsSound rest _ (happen-IsSound h now p s)

  -- Whatever happens to a new plane, in any order (calls, route frames, closes, answers of the
  -- snapshot reader, attaches and their rejections, detaches, timers, losses of the transport, starts
  -- and failures of sends), it keeps at most 32 operations in flight under distinct ids below the
  -- next one, at most 256 queued, byte counters that are exact, retained bytes within 2 MiB plus 12
  -- while a resize is in flight, and consent bytes that match the pending paste.
  pub history-IsSound :
      (session : String) (subscription : Option String) (fresh_id : ℕ → String)
      (hs : List (Happening × ℕ))
      → IsSound (run hs (new_plane session subscription fresh_id))
  unfolding new_plane
  history-IsSound session subscription fresh_id hs =
      run-IsSound hs (new_plane session subscription fresh_id) (record {
        queued_sum = refl;
        queue_bound = omega arith;
        pastes = tt;
        window = record { sum = refl; bound = omega arith; each = tt; distinct = tt };
        retained = omega arith;
        geometry = tt;
        consent = refl;
        idle = λ e. refl;
      })
