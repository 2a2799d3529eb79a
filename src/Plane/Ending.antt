-- ===== src/Plane/Ending.antt =====
-- Closing, failing and recovering in src/botster/hubTerminalDataPlane.ts keep the accounting.
use botster_web.Common.{
  ℕ, ◌+◌, ◌≡◌, refl, true, false, not, ◌||◌, none, some, ◌==◌, nat_eq, Option-cases, inl, inr,
  String, leb, is_some,
}
use mathlib.Core.Path.{subst}
use botster_web.Wire.Event.{TextCodec}
use botster_web.Plane.State.{AttachmentStatus, DetachKey, Plane}
use botster_web.Plane.Basics.{emit_status}
use botster_web.Plane.Lifecycle.{
  cancel_hydration, has_sent_detach_for, send_detach_request_once, abandon_held_stream,
  is_hydration, ensure_hydration, arm_progress, close_stream, close_stream_without_detach_request,
  fail_route, recover_route, progress_expired, detach, handle_transport_lost,
}
use botster_web.Plane.Sound.{IsSound, if-IsSound}
use botster_web.Plane.Admission.{ensure_attached-IsSound}
use botster_web.Plane.Closing.{reset_attachment_state-settles}

-- The plane `q` with the inputs and the stream of `p`.
abbrev with_inputs : Plane → Plane → Plane
with_inputs p q = record q {
  stream = p.stream;
  attachment_generation = p.attachment_generation;
  next_operation_id = p.next_operation_id;
  queued_inputs = p.queued_inputs;
  queued_input_bytes = p.queued_input_bytes;
  inflight_inputs = p.inflight_inputs;
  inflight_input_bytes = p.inflight_input_bytes;
  geometry_operation = p.geometry_operation;
  pending_unsafe_paste = p.pending_unsafe_paste;
  consent_retained_bytes = p.consent_retained_bytes;
}

with_inputs-IsSound : (p q : Plane) → IsSound p → IsSound (with_inputs p q)
with_inputs-IsSound p q s = record {
  queued_sum = s.queued_sum;
  queue_bound = s.queue_bound;
  pastes = s.pastes;
  window = s.window;
  retained = s.retained;
  geometry = s.geometry;
  consent = s.consent;
  idle = s.idle;
}

-- The two planes hold the same inputs on the same stream.
abbrev pub SameInputs : Plane → Plane → Type 0
SameInputs p q =
    (p.stream ≡ q.stream)
    × (p.attachment_generation ≡ q.attachment_generation)
    × (p.next_operation_id ≡ q.next_operation_id)
    × (p.queued_inputs ≡ q.queued_inputs)
    × (p.queued_input_bytes ≡ q.queued_input_bytes)
    × (p.inflight_inputs ≡ q.inflight_inputs)
    × (p.inflight_input_bytes ≡ q.inflight_input_bytes)
    × (p.geometry_operation ≡ q.geometry_operation)
    × (p.pending_unsafe_paste ≡ q.pending_unsafe_paste)
    × (p.consent_retained_bytes ≡ q.consent_retained_bytes)

pub same_inputs : (p : Plane) → SameInputs p p
same_inputs p = (refl, refl, refl, refl, refl, refl, refl, refl, refl, refl)

pub IsSound-same : (p : Plane) {q : Plane} → SameInputs p q → IsSound p → IsSound q
IsSound-same p {q} (a, b, c, d, e, f, g, h, k, l) s =
    subst IsSound
      (λ i. record q {
        stream = a i;
        attachment_generation = b i;
        next_operation_id = c i;
        queued_inputs = d i;
        queued_input_bytes = e i;
        inflight_inputs = f i;
        inflight_input_bytes = g i;
        geometry_operation = h i;
        pending_unsafe_paste = k i;
        consent_retained_bytes = l i;
      })
      (with_inputs-IsSound p q s)

pub emit_status-IsSound : (t : AttachmentStatus) (p : Plane) → IsSound p → IsSound (emit_status t p)
unfolding emit_status
emit_status-IsSound t p s = IsSound-same p (same_inputs p) s

pub cancel_hydration-IsSound : (p : Plane) → IsSound p → IsSound (cancel_hydration p)
unfolding cancel_hydration
cancel_hydration-IsSound p s = elim (Option-cases p.hydration) [
  | inl e ↦ rw (cancel_hydration, e) s
  | inr (h, e) ↦ rw (cancel_hydration, e) (IsSound-same p (same_inputs p) s)
]

pub arm_progress-IsSound : (serial : ℕ) (p : Plane) → IsSound p → IsSound (arm_progress serial p)
unfolding arm_progress
arm_progress-IsSound serial p s = elim (Option-cases p.hydration) [
  | inl e ↦ rw (arm_progress, e) s
  | inr (h, e) ↦
      rw (arm_progress, e)
        (if-IsSound (not (h.serial == serial) || h.completed) (λ same. s)
          (λ armed. IsSound-same p (same_inputs p) s))
]

pub ensure_hydration-IsSound :
    (generation : ℕ) (p : Plane) → IsSound p → IsSound (ensure_hydration generation p)
unfolding ensure_hydration
ensure_hydration-IsSound generation p s =
    if-IsSound (elim p.hydration [ none ↦ false | some h ↦ h.generation == generation ]) (λ same. s)
      (λ fresh. IsSound-same p (same_inputs p) s)

pub send_detach_request_once-IsSound :
    (key : DetachKey) (p : Plane) → IsSound p → IsSound (send_detach_request_once key p)
unfolding send_detach_request_once
send_detach_request_once-IsSound key p s =
    if-IsSound (has_sent_detach_for key p) (λ sent. s) (λ first. IsSound-same p (same_inputs p) s)

abandon_held_stream-IsSound : (p : Plane) → IsSound p → IsSound (abandon_held_stream p)
unfolding abandon_held_stream
abandon_held_stream-IsSound p s = elim (Option-cases p.stream) [
  | inl e ↦ rw (abandon_held_stream, e) s
  | inr (stream, e) ↦ rw (abandon_held_stream, e) (IsSound-same p (same_inputs p) s)
]

module _ (codec : TextCodec) where
  pub close_stream_without_detach_request-IsSound :
      (reason : String) (now : ℕ) (p : Plane)
      → IsSound p
      → IsSound (close_stream_without_detach_request codec reason now p)
  unfolding close_stream_without_detach_request
  close_stream_without_detach_request-IsSound reason now p s =
      (reset_attachment_state-settles codec reason now _ (abandon_held_stream-IsSound p s)).3

  pub close_stream-IsSound : (now : ℕ) (p : Plane) → IsSound p → IsSound (close_stream codec now p)
  unfolding close_stream
  close_stream-IsSound now p s =
      (reset_attachment_state-settles codec _ now _ (
        if-IsSound (is_some p.stream)
          (λ held. send_detach_request_once-IsSound _ _ (abandon_held_stream-IsSound p s))
          (λ free. s))).3

  pub fail_route-IsSound :
      (message : String) (now : ℕ) (p : Plane)
      → IsSound p
      → IsSound (fail_route codec message now p)
  unfolding fail_route
  fail_route-IsSound message now p s = close_stream-IsSound now _ (emit_status-IsSound _ p s)

  pub recover_route-IsSound :
      (serial : ℕ) (message : String) (now : ℕ) (p : Plane)
      → IsSound p
      → IsSound (recover_route codec serial message now p)
  unfolding recover_route
  recover_route-IsSound serial message now p s =
      let q =
        close_stream codec now (record p { snapshot_recoveries = p.snapshot_recoveries + 1 }) in
      let closed : IsSound q = close_stream-IsSound now _ (
        IsSound-same p {q = record p { snapshot_recoveries = p.snapshot_recoveries + 1 }}
          (same_inputs p) s) in
      if-IsSound (not (is_hydration serial p)) (λ other. s)
        (λ own.
          if-IsSound (leb 1 p.snapshot_recoveries || p.fixed_subscription_id)
            (λ again. fail_route-IsSound message now p s)
            (λ first.
              ensure_attached-IsSound _
                (emit_status-IsSound _ _ (IsSound-same q (same_inputs q) closed))))

  pub progress_expired-IsSound :
      (serial : ℕ) (message : String) (now : ℕ) (p : Plane)
      → IsSound p
      → IsSound (progress_expired codec serial message now p)
  unfolding progress_expired
  progress_expired-IsSound serial message now p s = elim (Option-cases p.hydration) [
    | inl e ↦ rw (progress_expired, e) s
    | inr (h, e) ↦
        let disarmed =
          IsSound-same p {q = record p { hydration = some (record h { progress_armed = false }) }}
            (same_inputs p) s in
        rw (progress_expired, e)
          (if-IsSound (not (h.serial == serial)) (λ other. s)
            (λ own.
              if-IsSound h.completed (λ done. disarmed)
                (λ on. recover_route-IsSound serial message now _ disarmed)))
  ]

  pub detach-IsSound : (now : ℕ) (p : Plane) → IsSound p → IsSound (detach codec now p)
  unfolding detach
  detach-IsSound now p s =
      let q =
        close_stream_without_detach_request codec
          "Terminal detached before the operation completed." now
          (record p { detached = true; transport_lost = false }) in
      let closed : IsSound q =
        close_stream_without_detach_request-IsSound _ now _ (IsSound-same p (same_inputs p) s) in
      if-IsSound p.detached (λ gone. s)
        (λ here. send_detach_request_once-IsSound _ _ (IsSound-same q (same_inputs q) closed))

  pub handle_transport_lost-IsSound :
      (now : ℕ) (p : Plane) → IsSound p → IsSound (handle_transport_lost codec now p)
  unfolding handle_transport_lost
  handle_transport_lost-IsSound now p s =
      if-IsSound (p.detached || p.transport_lost) (λ known. s)
        (λ lost.
          emit_status-IsSound _ _ (
            close_stream_without_detach_request-IsSound _ now _ (IsSound-same p (same_inputs p) s)))
