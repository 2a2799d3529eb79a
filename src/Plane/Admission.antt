-- ===== src/Plane/Admission.antt =====
-- The admission of input in src/botster/hubTerminalDataPlane.ts keeps the accounting.
use botster_web.Common.{
  ℕ, ◌+◌, ◌≤◌, ◌<◌, ◌≡◌, refl, sym, Bool, ◌&&◌, ◌||◌, List, [], ◌∷◌, ◌++◌, length, length-append,
  ◌==◌, nat_eq, arith, Bool-cases, inl, inr, All, All-append, ltb, leb, is_some,
}
use mathlib.Core.Path.{subst}
use botster_web.Wire.Event.{TextCodec}
use botster_web.Plane.State.{
  Effect, Outcome, QueuedInput, InflightInput, Plane, max_queued_input_bytes,
  max_queued_input_operations,
}
use botster_web.Plane.Basics.{
  emit, deliver, retained_input_bytes, release_unsafe_paste_consent, ensure_attached,
}
use botster_web.Plane.Queue.{enqueue_input}
use botster_web.Plane.Window.{IsPasteSized, IsHeld, IsWindow}
use botster_web.Plane.Sound.{IsSound, if-IsSound, pump_inputs-IsSound, not_some, sum_bodies-append}

pub emit-IsSound : (e : Effect) (p : Plane) → IsSound p → IsSound (emit e p)
unfolding emit
emit-IsSound e p s = record {
  queued_sum = s.queued_sum;
  queue_bound = s.queue_bound;
  pastes = s.pastes;
  window = s.window;
  retained = s.retained;
  geometry = s.geometry;
  consent = s.consent;
  idle = s.idle;
}

pub deliver-IsSound : (b : Bool) (o : Outcome) (p : Plane) → IsSound p → IsSound (deliver b o p)
unfolding deliver
deliver-IsSound b o p s = emit-IsSound _ p s

pub release-IsSound : (p : Plane) → IsSound p → IsSound (release_unsafe_paste_consent p)
unfolding release_unsafe_paste_consent
release-IsSound p s = record {
  queued_sum = s.queued_sum;
  queue_bound = s.queue_bound;
  pastes = s.pastes;
  window = s.window;
  retained = omega (arith, s.retained);
  geometry = s.geometry;
  consent = refl;
  idle = s.idle;
}

IsWindow-idle :
    (next generation later : ℕ) (m : List (ℕ × InflightInput)) (bytes : ℕ)
    → m ≡ []
    → IsWindow next generation m bytes
    → IsWindow 1 later m bytes
IsWindow-idle next generation later m bytes e w = record {
  sum = w.sum;
  bound = w.bound;
  each = subst (All (IsHeld 1 later)) (sym e) tt;
  distinct = w.distinct;
}

-- An attach begins with nothing in flight, so the ids may start again at 1.
pub ensure_attached-IsSound : (p : Plane) → IsSound p → IsSound (ensure_attached p)
unfolding ensure_attached
ensure_attached-IsSound p s =
    if-IsSound (p.detached && (p.listeners == 0)) (λ shut. s)
      (λ on.
        if-IsSound p.attach_pending (λ pending. s)
          (λ still.
            if-IsSound (is_some p.stream) (λ held. s)
              (λ free.
                if-IsSound (p.listeners == 0) (λ nobody. s)
                  (λ some_one. record {
                    queued_sum = s.queued_sum;
                    queue_bound = s.queue_bound;
                    pastes = s.pastes;
                    window = IsWindow-idle _ _ _ _ _ (s.idle (not_some p.stream free)) s.window;
                    retained = s.retained;
                    geometry = s.geometry;
                    consent = s.consent;
                    idle = s.idle;
                  }))))

-- Both bounds of the admission hold for the queue that takes the entry.
IsSound-admit :
    (entry : QueuedInput) (p : Plane)
    → IsPasteSized entry
    → length p.queued_inputs < max_queued_input_operations
    → retained_input_bytes p + entry.operation.body_bytes ≤ max_queued_input_bytes
    → IsSound p
    → IsSound (record p {
      queued_inputs = p.queued_inputs ++ entry ∷ [];
      queued_input_bytes = p.queued_input_bytes + entry.operation.body_bytes;
    })
unfolding retained_input_bytes
IsSound-admit entry p sized room fits s = record {
  queued_sum = omega (arith, sum_bodies-append p.queued_inputs entry, s.queued_sum);
  queue_bound = omega (arith, length-append p.queued_inputs (entry ∷ []), room);
  pastes = All-append IsPasteSized p.queued_inputs (entry ∷ []) s.pastes (sized, tt);
  window = s.window;
  retained = omega (arith, fits);
  geometry = s.geometry;
  consent = s.consent;
  idle = s.idle;
}

module _ (codec : TextCodec) where
  pub enqueue_input-IsSound :
      (entry : QueuedInput) (p : Plane)
      → IsPasteSized entry
      → IsSound p
      → IsSound ((enqueue_input codec entry p).0)
  unfolding enqueue_input
  enqueue_input-IsSound entry p sized s =
      elim (Bool-cases (
        leb max_queued_input_operations (length p.queued_inputs)
        || ltb max_queued_input_bytes (retained_input_bytes p + entry.operation.body_bytes))) [
          | inl full ↦ rw full s
          | inr room ↦ rw room (
              pump_inputs-IsSound codec _ (
                ensure_attached-IsSound _
                  (IsSound-admit entry p sized (ground (arith, room)) (ground (arith, room)) s)))
        ]
