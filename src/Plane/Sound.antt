-- ===== src/Plane/Sound.antt =====
-- The accounting of the input queue of src/botster/hubTerminalDataPlane.ts.
use botster_web.Common.{
  ℕ, suc, ◌+◌, ◌-◌, ◌≤◌, ◌<◌, ◌≡◌, ◌≢◌, refl, sym, Bool, true, false, not, Option, none, some, List,
  [], ◌∷◌, ◌++◌, length, nat_eq, if◌then◌else◌, arith, ◌||◌, is_some, Bool-cases, Option-cases, inl,
  inr, All, ap, ◌∙◌, ltb, leb,
}
use mathlib.Core.Path.{subst}
use botster_web.Common.Maps.{lookup, insert, lookup-insert}
use botster_web.Wire.Event.{TextCodec}
use botster_web.Input.Events.{Geometry}
use botster_web.Input.Encoding.{encode_semantic_input}
use botster_web.Plane.State.{
  QueuedInput, InflightInput, PendingUnsafePaste, Plane, max_queued_input_bytes,
  max_queued_input_operations, max_inflight_input_operations,
}
use botster_web.Plane.Basics.{can_pump, screen_hydrated, same_geometry}
use botster_web.Plane.Queue.{
  append_operation, resize_entry, maybe_send_geometry, pump_queue, pump_inputs,
}
use botster_web.Plane.Window.{
  sum_bodies, IsPasteSized, IsHeld, IsWindow, lookup-IsHeld, IsWindow-insert,
}

-- A RESIZE in flight counts 12 bytes above the bound that admission keeps.
abbrev pub geometry_bytes : Option ℕ → ℕ
geometry_bytes none = 0
geometry_bytes (some id) = 12

abbrev pub GeometryHeld : Option ℕ → List (ℕ × InflightInput) → Type 0
GeometryHeld none m = Unit
GeometryHeld (some id) m =
    (x : InflightInput) × (lookup id m ≡ some x)
    × (x.retained_bytes ≡ 12)
    × (x.entry.paste_data ≡ none)

abbrev pub consent_bytes : Option PendingUnsafePaste → ℕ
consent_bytes none = 0
consent_bytes (some pending) = length pending.bytes

pub record IsSound (p : Plane) : Type 0 where
  pub queued_sum : sum_bodies p.queued_inputs ≡ p.queued_input_bytes
  pub queue_bound : length p.queued_inputs ≤ max_queued_input_operations
  pub pastes : All IsPasteSized p.queued_inputs
  pub window :
      IsWindow p.next_operation_id p.attachment_generation p.inflight_inputs p.inflight_input_bytes
  pub retained :
      p.queued_input_bytes + p.inflight_input_bytes + p.consent_retained_bytes
      ≤ max_queued_input_bytes + geometry_bytes p.geometry_operation
  pub geometry : GeometryHeld p.geometry_operation p.inflight_inputs
  pub consent : consent_bytes p.pending_unsafe_paste ≡ p.consent_retained_bytes
  pub idle : p.stream ≡ none → p.inflight_inputs ≡ []

pub sum_bodies-append :
    (xs : List QueuedInput) (entry : QueuedInput)
    → sum_bodies (xs ++ entry ∷ []) ≡ sum_bodies xs + entry.operation.body_bytes
sum_bodies-append [] entry = omega arith
sum_bodies-append (x ∷ xs) entry = omega (arith, sum_bodies-append xs entry)

-- The next id is not the geometry operation's, so that one stays held.
GeometryHeld-insert :
    (next generation : ℕ) (op : Option ℕ) (m : List (ℕ × InflightInput)) (x : InflightInput)
    → All (IsHeld next generation) m
    → GeometryHeld op m
    → GeometryHeld op (insert next x m)
GeometryHeld-insert next generation none m x h g = tt
GeometryHeld-insert next generation (some id) m x h (y, held, size, plain) =
    let fits = lookup-IsHeld next generation id y m h held in
    (y, ground (arith, lookup-insert next id x m, fits.1), size, plain)

queue_head :
    (p : Plane) (entry : QueuedInput) (rest : List QueuedInput)
    → p.queued_inputs ≡ entry ∷ rest
    → IsSound p
    → (entry.operation.body_bytes + sum_bodies rest ≡ p.queued_input_bytes)
      × (suc (length rest) ≤ max_queued_input_operations)
      × IsPasteSized entry
      × All IsPasteSized rest
queue_head p entry rest e s =
    let sized = subst (All IsPasteSized) e s.pastes in
    (
      sym (ap sum_bodies e) ∙ s.queued_sum,
      omega (arith, ap (λ (xs : List QueuedInput). length xs) e, s.queue_bound),
      sized.0,
      sized.1,
    )

-- One round of the pump: an entry of the queue goes in flight.
IsSound-take :
    (p : Plane) (entry : QueuedInput) (rest : List QueuedInput)
    → p.queued_inputs ≡ entry ∷ rest
    → length p.inflight_inputs < max_inflight_input_operations
    → p.stream ≢ none
    → IsSound p
    → IsSound (
        append_operation entry (record p {
          queued_inputs = rest;
          queued_input_bytes = p.queued_input_bytes - entry.operation.body_bytes;
        }))
unfolding append_operation
IsSound-take p entry rest e room held s =
    let (total, short, sized, later) = queue_head p entry rest e s in
    record {
      queued_sum = omega arith;
      queue_bound = omega arith;
      pastes = later;
      window = IsWindow-insert _ s.window room (refl, omega arith, refl, refl, sized);
      retained = omega (arith, s.retained);
      geometry = GeometryHeld-insert _ _ p.geometry_operation _ _ s.window.each s.geometry;
      consent = s.consent;
      idle = λ q. absurd (held q);
    }

stream-append_operation :
    (p : Plane) (entry : QueuedInput) → (append_operation entry p).stream ≡ p.stream
unfolding append_operation
stream-append_operation p entry = refl

IsSound-rest :
    (p : Plane) (queue : List QueuedInput)
    → p.queued_inputs ≡ queue
    → IsSound p
    → IsSound (record p { queued_inputs = queue })
IsSound-rest p queue e s = subst (λ q. IsSound (record p { queued_inputs = q })) e s

pub pump_queue-IsSound :
    (queue : List QueuedInput) (p : Plane)
    → p.queued_inputs ≡ queue
    → p.stream ≢ none
    → IsSound p
    → IsSound (pump_queue queue p)
unfolding pump_queue
pump_queue-IsSound [] p e held s = IsSound-rest p [] e s
pump_queue-IsSound (entry ∷ rest) p e held s =
    elim (Bool-cases (ltb (length p.inflight_inputs) max_inflight_input_operations)) [
      | inl room ↦ rw room (
          pump_queue-IsSound rest _ (unfold append_operation in refl)
            (unfold append_operation in held)
            (IsSound-take p entry rest e (ground (arith, room)) held s))
      | inr full ↦ rw full (IsSound-rest p (entry ∷ rest) e s)
    ]

pub if-IsSound :
    {p q : Plane} (b : Bool)
    → (b ≡ true → IsSound p)
    → (b ≡ false → IsSound q)
    → IsSound (if b then p else q)
if-IsSound true here there = here refl
if-IsSound false here there = there refl

lookup-insert-same :
    (id : ℕ) (x : InflightInput) (m : List (ℕ × InflightInput)) → lookup id (insert id x m) ≡ some x
lookup-insert-same id x m = ground (arith, lookup-insert id id x m)

pub not_some {ℓ} : {A : Type ℓ} (op : Option A) → is_some op ≡ false → op ≡ none
not_some none h = refl
not_some (some a) h = absurd (ground (arith, h))

can_pump-stream : (p : Plane) → can_pump p ≡ true → p.stream ≢ none
unfolding can_pump
can_pump-stream p h e = ground arith

module _ (codec : TextCodec) where
  IsSound-geometry :
      (p : Plane) (g : Geometry)
      → p.stream ≢ none
      → p.geometry_operation ≡ none
      → length p.inflight_inputs < max_inflight_input_operations
      → IsSound p
      → IsSound (record (append_operation (resize_entry codec g) p) {
        geometry_operation = some p.next_operation_id;
      })
  unfolding append_operation encode_semantic_input
  IsSound-geometry p g held free room s =
      let x : InflightInput = record {
        entry = resize_entry codec g;
        generation = p.attachment_generation;
        operation_id = p.next_operation_id;
        retained_bytes = (resize_entry codec g).operation.body_bytes;
      } in
      record {
        queued_sum = s.queued_sum;
        queue_bound = s.queue_bound;
        pastes = s.pastes;
        window = IsWindow-insert x s.window room (refl, omega arith, refl, refl, tt);
        retained = omega (arith, s.retained, ap geometry_bytes free);
        geometry = (x, lookup-insert-same p.next_operation_id x p.inflight_inputs, refl, refl);
        consent = s.consent;
        idle = λ q. absurd (held q);
      }

  stream-maybe_send_geometry : (p : Plane) → (maybe_send_geometry codec p).stream ≡ p.stream
  unfolding maybe_send_geometry append_operation
  stream-maybe_send_geometry p = ground arith

  maybe_send_geometry-IsSound : (p : Plane) → IsSound p → IsSound (maybe_send_geometry codec p)
  unfolding maybe_send_geometry
  maybe_send_geometry-IsSound p s = elim (Option-cases p.desired_geometry) [
    | inl e ↦ rw (maybe_send_geometry, e) s
    | inr (g, e) ↦
        rw (maybe_send_geometry, e)
          (if-IsSound (not (can_pump p)) (λ shut. s)
            (λ ready.
              if-IsSound (is_some p.geometry_operation || not (screen_hydrated p)) (λ busy. s)
                (λ free.
                  if-IsSound (leb 32 (length p.inflight_inputs) || same_geometry g p.sent_geometry)
                    (λ known. s)
                    (λ room.
                      IsSound-geometry p g (can_pump-stream p (ground (arith, ready)))
                        (not_some p.geometry_operation (ground (arith, free)))
                        (ground (arith, room)) s))))
  ]

  pub pump_inputs-IsSound : (p : Plane) → IsSound p → IsSound (pump_inputs codec p)
  unfolding pump_inputs
  pump_inputs-IsSound p s = elim (Bool-cases (can_pump p)) [
    | inr shut ↦ rw shut s
    | inl ready ↦ rw ready (
        pump_queue-IsSound _ (maybe_send_geometry codec p) refl
          (λ e. can_pump-stream p ready (sym (stream-maybe_send_geometry p) ∙ e))
          (maybe_send_geometry-IsSound p s))
  ]
