-- ===== src/Plane/Receiving.antt =====
-- Output, exits, finishes and resyncs of a route in src/botster/hubTerminalDataPlane.ts keep the
-- accounting of the inputs.
use botster_web.Common.{
  ℕ, ◌+◌, true, false, not, ◌&&◌, ◌||◌, Option, none, some, List, [], ◌∷◌, length, nat_eq,
  string_eq, Option-cases, inl, inr, String, ltb,
}
use botster_web.Common.Int.{ℤ}
use botster_web.Wire.Bytes.{Bytes}
use botster_web.Wire.Event.{TextCodec}
use botster_web.Plane.State.{attached, ScreenHydration, Plane}
use botster_web.Plane.Basics.{emit_status, says}
use botster_web.Plane.Route.{
  Texts, is_hydrating, emit_outputs, arm_own, receive_route_resync, emit_process_exit,
  emit_pending_exit, buffer_hydrating_output, receive_output, receive_process_exit,
  complete_hydration, receive_snapshot_finish,
}
use botster_web.Plane.Sound.{IsSound, if-IsSound, pump_inputs-IsSound}
use botster_web.Plane.Admission.{emit-IsSound, release-IsSound}
use botster_web.Plane.Ending.{
  same_inputs, IsSound-same, emit_status-IsSound, cancel_hydration-IsSound, arm_progress-IsSound,
  ensure_hydration-IsSound, fail_route-IsSound, recover_route-IsSound,
}

emit_outputs-IsSound : (bs : List Bytes) (p : Plane) → IsSound p → IsSound (emit_outputs bs p)
unfolding emit_outputs
emit_outputs-IsSound [] p s = s
emit_outputs-IsSound (b ∷ bs) p s = emit_outputs-IsSound bs _ (emit-IsSound _ p s)

arm_own-IsSound : (p : Plane) → IsSound p → IsSound (arm_own p)
unfolding arm_own
arm_own-IsSound p s = elim (Option-cases p.hydration) [
  | inl e ↦ rw (arm_own, e) s
  | inr (h, e) ↦ rw (arm_own, e) (arm_progress-IsSound h.serial p s)
]

pub receive_route_resync-IsSound :
    (to_epoch generation : ℕ) (p : Plane)
    → IsSound p
    → IsSound (receive_route_resync to_epoch generation p)
unfolding receive_route_resync
receive_route_resync-IsSound to_epoch generation p s = arm_own-IsSound _ (
    emit_status-IsSound _ _ (
      ensure_hydration-IsSound generation _
        (cancel_hydration-IsSound _ (release-IsSound _ (IsSound-same p (same_inputs p) s)))))

module _ (codec : TextCodec) (texts : Texts) where
  pub receive_output-IsSound :
      (bytes : Bytes) (generation now : ℕ) (p : Plane)
      → IsSound p
      → IsSound (receive_output codec texts bytes generation now p)
  unfolding receive_output buffer_hydrating_output
  receive_output-IsSound bytes generation now p s = elim (Option-cases p.hydration) [
    | inl e ↦ rw (receive_output, e) (emit-IsSound _ p s)
    | inr (h, e) ↦
        rw (receive_output, e)
          (if-IsSound (is_hydrating generation (some h))
            (λ on.
              if-IsSound
                (ltb 8388608 (h.buffered_bytes + length bytes)
                  || ltb 256 (length h.buffered_output + 1))
                (λ over. recover_route-IsSound codec h.serial _ now p s)
                (λ fits. IsSound-same p (same_inputs p) s))
            (λ off. emit-IsSound _ p s))
  ]

  emit_pending_exit-IsSound :
      (exit : Option (Option ℤ)) (p : Plane)
      → IsSound p
      → IsSound (emit_pending_exit codec texts exit p)
  unfolding emit_pending_exit emit_process_exit
  emit_pending_exit-IsSound none p s = s
  emit_pending_exit-IsSound (some code) p s = emit_status-IsSound _ p s

  pub receive_process_exit-IsSound :
      (code : Option ℤ) (generation : ℕ) (p : Plane)
      → IsSound p
      → IsSound (receive_process_exit codec texts code generation p)
  unfolding receive_process_exit emit_process_exit
  receive_process_exit-IsSound code generation p s = elim (Option-cases p.hydration) [
    | inl e ↦ rw (receive_process_exit, e) (emit_status-IsSound _ p s)
    | inr (h, e) ↦
        rw (receive_process_exit, e)
          (if-IsSound (is_hydrating generation (some h)) (λ on. IsSound-same p (same_inputs p) s)
            (λ off. emit_status-IsSound _ p s))
  ]

  complete_hydration-IsSound :
      (h : ScreenHydration) (message : String) (p : Plane)
      → IsSound p
      → IsSound (complete_hydration codec texts h message p)
  unfolding complete_hydration
  complete_hydration-IsSound h message p s =
      let closed : ScreenHydration = record h { completed = true; progress_armed = false } in
      let q =
        emit_outputs h.buffered_output
          (emit_status (says attached message) (record p { hydration = some closed })) in
      let flushed : IsSound q =
        emit_outputs-IsSound h.buffered_output _
          (emit_status-IsSound _ _ (IsSound-same p (same_inputs p) s)) in
      pump_inputs-IsSound codec _
        (emit_pending_exit-IsSound h.pending_exit _ (IsSound-same q (same_inputs q) flushed))

  pub receive_snapshot_finish-IsSound :
      (h : ScreenHydration) (now : ℕ) (p : Plane)
      → IsSound p
      → IsSound (receive_snapshot_finish codec texts h now p)
  unfolding receive_snapshot_finish
  receive_snapshot_finish-IsSound h now p s =
      if-IsSound h.completed (λ done. s)
        (λ on.
          if-IsSound (not h.ready_received) (λ early. fail_route-IsSound codec _ now p s)
            (λ readied. complete_hydration-IsSound _ _ _ (
              if-IsSound (not h.decoder_finished && not h.history_incomplete)
                (λ cut. IsSound-same p (same_inputs p) s) (λ whole. s))))
