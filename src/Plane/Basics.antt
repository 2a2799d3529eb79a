-- ===== src/Plane/Basics.antt =====
-- Small steps that the handlers of src/botster/hubTerminalDataPlane.ts share.
use botster_web.Common.{
  ℕ, ◌+◌, String, Bool, true, false, not, ◌&&◌, Option, none, some, ◌∷◌, ◌==◌, nat_eq, string_eq,
  if◌then◌else◌, is_some,
}
use botster_web.Input.Events.{Geometry}
use botster_web.Plane.State.{
  AttachmentState, AttachmentStatus, UnsafePasteConsent, Outcome, ScreenHydration, Effect, status,
  published, resolved, Plane,
}

unfoldable pub emit : Effect → Plane → Plane
emit e p = record p { effects = e ∷ p.effects }

unfoldable pub emit_status : AttachmentStatus → Plane → Plane
emit_status s p = record p { current_status = s; effects = status s ∷ p.effects }

abbrev pub says : AttachmentState → String → AttachmentStatus
says state message = record { state = state; message = message; close_reason = none }

-- An outcome goes to its entry's `resolve`, or else to the outcome listeners.
unfoldable pub deliver : Bool → Outcome → Plane → Plane
unfolding emit
deliver resolves o p = emit (if resolves then resolved o else published o) p

unfoldable pub is_current_attachment : Plane → ℕ → Bool
is_current_attachment p generation = not p.detached && (p.attachment_generation == generation)

unfoldable pub same_geometry : Geometry → Option Geometry → Bool
same_geometry left none = false
same_geometry left (some right) =
    (left.rows == right.rows)
    && (left.cols == right.cols)
    && (left.width_px == right.width_px)
    && (left.height_px == right.height_px)

unfoldable pub same_unsafe_paste_consent : UnsafePasteConsent → UnsafePasteConsent → Bool
same_unsafe_paste_consent left right =
    (left.attachment_generation == right.attachment_generation)
    && (left.rejected_operation_id == right.rejected_operation_id)
    && (left.expires_at == right.expires_at)

unfoldable pub hydrated_at : ℕ → Option ScreenHydration → Bool
hydrated_at generation none = false
hydrated_at generation (some h) = (h.generation == generation) && h.completed

unfoldable pub screen_hydrated : Plane → Bool
unfolding hydrated_at
screen_hydrated p = hydrated_at p.attachment_generation p.hydration

-- Queued, in-flight and consent bytes.
unfoldable pub retained_input_bytes : Plane → ℕ
retained_input_bytes p = p.queued_input_bytes + p.inflight_input_bytes + p.consent_retained_bytes

unfoldable pub release_unsafe_paste_consent : Plane → Plane
release_unsafe_paste_consent p = record p {
  pending_unsafe_paste = none;
  consent_retained_bytes = 0;
}

-- `ensureAttached` up to its first wait. The bridge offers `streamTerminal`; with a stream held or
-- without listeners nothing starts.
unfoldable pub ensure_attached : Plane → Plane
ensure_attached p =
    if p.detached && (p.listeners == 0)
    then p
    else if p.attach_pending
    then p
    else if is_some p.stream
    then p
    else if p.listeners == 0
    then p
    else record p {
      attachment_generation = p.attachment_generation + 1;
      next_operation_id = 1;
      attached_received = false;
      attach_pending = true;
    }

-- `stream?.sendFrame` with the route attached and the plane not detached.
unfoldable pub can_pump : Plane → Bool
can_pump p = elim p.stream [
  | none ↦ false
  | some s ↦ s.can_send && p.attached_received && not p.detached
]

abbrev pub stream_serial : Plane → ℕ
stream_serial p = elim p.stream [ none ↦ 0 | some s ↦ s.serial ]
