-- ===== src/Plane/Keeping.antt =====
-- What the input side of src/botster/hubTerminalDataPlane.ts leaves alone: the hydration of the
-- screen, and what a closed stream leaves of it.
use botster_web.Common.{
  ℕ, ◌≡◌, refl, ◌∙◌, Bool, true, false, not, ◌||◌, Option, none, List, [], ◌∷◌, length, ◌==◌,
  nat_eq, if◌then◌else◌, arith, Bool-cases, Option-cases, inl, inr, String, ltb, leb,
}
use botster_web.Common.Maps.{lookup}
use botster_web.Common.Int.{to_ℕ}
use botster_web.Wire.Event.{TextCodec, InputResultBody}
use botster_web.Plane.State.{
  OutcomeName, Detail, QueuedInput, InflightInput, ScreenHydration, Plane,
  max_inflight_input_operations, OutcomeName,
}
use botster_web.Plane.Basics.{
  emit, emit_status, deliver, can_pump, ensure_attached, release_unsafe_paste_consent,
}
use botster_web.Plane.Queue.{
  append_operation, maybe_send_geometry, pump_queue, pump_inputs, holds, forget_inflight,
}
use botster_web.Plane.Settle.{
  Counts, open_consent, settle_held, settle_inflight, settle_unknown, cancel_queued, abandon_inputs,
  handle_input_result,
}
use botster_web.Plane.Lifecycle.{
  cancel_hydration, reset_attachment_state, close_stream, fail_route, recover_route, is_hydration,
}

-- The same effects and the same hydration.
abbrev pub Keeps : Plane → Plane → Type 0
Keeps p q = (q.effects ≡ p.effects) × (q.hydration ≡ p.hydration)

if-hydration :
    {o : Option ScreenHydration} (b : Bool) (p q : Plane)
    → p.hydration ≡ o
    → q.hydration ≡ o
    → (if b then p else q).hydration ≡ o
if-hydration true p q e f = e
if-hydration false p q e f = f

append_operation-Keeps : (entry : QueuedInput) (p : Plane) → Keeps p (append_operation entry p)
unfolding append_operation
append_operation-Keeps entry p = (refl, refl)

pump_queue-Keeps : (queue : List QueuedInput) (p : Plane) → Keeps p (pump_queue queue p)
unfolding pump_queue append_operation
pump_queue-Keeps [] p = (refl, refl)
pump_queue-Keeps (entry ∷ rest) p =
    elim (Bool-cases (ltb (length p.inflight_inputs) max_inflight_input_operations)) [
      | inl room ↦ rw room (pump_queue-Keeps rest _)
      | inr full ↦ rw full (refl, refl)
    ]

pub hydration-cancel_hydration : (p : Plane) → (cancel_hydration p).hydration ≡ none
unfolding cancel_hydration
hydration-cancel_hydration p = elim (Option-cases p.hydration) [
  | inl e ↦ rw (cancel_hydration, e) e
  | inr (h, e) ↦ rw (cancel_hydration, e) refl
]

module _ (codec : TextCodec) where
  maybe_send_geometry-Keeps : (p : Plane) → Keeps p (maybe_send_geometry codec p)
  unfolding maybe_send_geometry append_operation
  maybe_send_geometry-Keeps p = (ground arith, ground arith)

  pub pump_inputs-Keeps : (p : Plane) → Keeps p (pump_inputs codec p)
  unfolding pump_inputs
  pump_inputs-Keeps p =
      let ahead = maybe_send_geometry-Keeps p in
      let sent =
        pump_queue-Keeps (maybe_send_geometry codec p).queued_inputs
          (maybe_send_geometry codec p) in
      elim (Bool-cases (can_pump p)) [
        | inl ready ↦ rw ready (sent.0 ∙ ahead.0, sent.1 ∙ ahead.1)
        | inr shut ↦ rw shut (refl, refl)
      ]

  hydration-settle_held :
      (x : InflightInput) (o : OutcomeName) (d : Detail) (c : Counts) (now : ℕ) (p : Plane)
      → (settle_held x o d c now p).hydration ≡ p.hydration
  unfolding settle_held open_consent deliver emit forget_inflight release_unsafe_paste_consent
  hydration-settle_held x o d c now p = ground arith

  pub hydration-settle_inflight :
      (x : InflightInput) (o : OutcomeName) (d : Detail) (c : Counts) (now : ℕ) (p : Plane)
      → (settle_inflight codec x o d c now p).hydration ≡ p.hydration
  unfolding settle_inflight
  hydration-settle_inflight x o d c now p =
      if-hydration (not (holds x p)) p _ refl
        ((pump_inputs-Keeps (settle_held x o d c now p)).1 ∙ hydration-settle_held x o d c now p)

  pub hydration-handle_input_result :
      (r : InputResultBody) (now : ℕ) (p : Plane)
      → (handle_input_result codec r now p).hydration ≡ p.hydration
  unfolding handle_input_result
  hydration-handle_input_result r now p =
      elim (Option-cases (lookup (to_ℕ r.operation_id) p.inflight_inputs)) [
        | inl e ↦ rw (handle_input_result, e) refl
        | inr (x, e) ↦
            rw (handle_input_result, e)
              (if-hydration (not (x.generation == p.attachment_generation)) p _ refl
                (hydration-settle_inflight x _ _ _ now p))
      ]

  hydration-settle_unknown :
      (reason : String) (now : ℕ) (m : List (ℕ × InflightInput)) (p : Plane)
      → (settle_unknown codec reason now m p).hydration ≡ p.hydration
  unfolding settle_unknown
  hydration-settle_unknown reason now [] p = refl
  hydration-settle_unknown reason now ((id, x) ∷ m) p =
      hydration-settle_unknown reason now m _ ∙ hydration-settle_inflight x _ _ _ now p

  hydration-cancel_queued :
      (reason : String) (queue : List QueuedInput) (p : Plane)
      → (cancel_queued reason queue p).hydration ≡ p.hydration
  unfolding cancel_queued deliver emit
  hydration-cancel_queued reason [] p = refl
  hydration-cancel_queued reason (entry ∷ rest) p = hydration-cancel_queued reason rest _

  hydration-abandon_inputs :
      (reason : String) (now : ℕ) (p : Plane)
      → (abandon_inputs codec reason now p).hydration ≡ p.hydration
  unfolding abandon_inputs release_unsafe_paste_consent
  hydration-abandon_inputs reason now p =
      hydration-cancel_queued reason _ _ ∙ hydration-settle_unknown reason now p.inflight_inputs p

  -- An attachment that ends leaves no hydration.
  pub hydration-reset_attachment_state :
      (reason : String) (now : ℕ) (p : Plane)
      → (reset_attachment_state codec reason now p).hydration ≡ none
  unfolding reset_attachment_state
  hydration-reset_attachment_state reason now p =
      hydration-abandon_inputs reason now _ ∙ hydration-cancel_hydration _

  pub hydration-close_stream : (now : ℕ) (p : Plane) → (close_stream codec now p).hydration ≡ none
  unfolding close_stream
  hydration-close_stream now p = hydration-reset_attachment_state _ now _

  pub hydration-fail_route :
      (message : String) (now : ℕ) (p : Plane) → (fail_route codec message now p).hydration ≡ none
  unfolding fail_route
  hydration-fail_route message now p = hydration-close_stream now _

  pub hydration-ensure_attached : (p : Plane) → (ensure_attached p).hydration ≡ p.hydration
  unfolding ensure_attached
  hydration-ensure_attached p = ground arith

  pub hydration-recover_route :
      (serial : ℕ) (message : String) (now : ℕ) (p : Plane)
      → is_hydration serial p ≡ true
      → (recover_route codec serial message now p).hydration ≡ none
  unfolding recover_route emit_status
  hydration-recover_route serial message now p own = rw own (
      if-hydration (leb 1 p.snapshot_recoveries || p.fixed_subscription_id) _ _
        (hydration-fail_route message now p)
        (hydration-ensure_attached _ ∙ hydration-close_stream now _))
