-- ===== src/Plane/Lifecycle.antt =====
-- The attachment lifecycle of src/botster/hubTerminalDataPlane.ts: closing, failing, recovering,
-- attaching and detaching. `now` is `Date.now()`. A listener is taken not to call the plane back.
use botster_web.Common.{
  ℕ, ◌+◌, ◌-◌, String, Bool, true, false, not, ◌&&◌, ◌||◌, Option, none, some, [], ◌∷◌, ◌==◌,
  nat_eq, string_eq, if◌then◌else◌, leb, is_some,
}
use botster_web.Wire.Event.{TextCodec}
use botster_web.Plane.State.{
  attaching, failed, ScreenHydration, StreamSubscription, DetachKey, AbandonedDetach,
  abandon_stream, detach_request, cancel_reader, stream_requested, lifecycle_unsubscribed, Plane,
}
use botster_web.Plane.Basics.{emit_status, says, is_current_attachment, ensure_attached}
use botster_web.Plane.Settle.{abandon_inputs}

unfoldable pub cancel_hydration : Plane → Plane
cancel_hydration p = elim p.hydration [
  | none ↦ p
  | some h ↦ record p {
    effects = if h.has_reader then cancel_reader h.serial ∷ p.effects else p.effects;
    hydration = none;
  }
]

unfoldable pub has_sent_detach_for : DetachKey → Plane → Bool
has_sent_detach_for key p = elim p.detach_sent_for [
  | none ↦ false
  | some sent ↦
      (p.detached && (sent.subscription_id == key.subscription_id))
      || ((sent.subscription_id == key.subscription_id) && (sent.generation == key.generation))
]

-- `sendDetachRequestOnce` up to its wait for the bridge.
unfoldable pub send_detach_request_once : DetachKey → Plane → Plane
send_detach_request_once key p =
    if has_sent_detach_for key p
    then p
    else record p { detach_sent_for = some key; effects = detach_request key ∷ p.effects }

-- `this.hydration?.generation ?? this.attachmentGeneration` under the current subscription id.
unfoldable pub held_key : Plane → DetachKey
held_key p = record {
  subscription_id = p.subscription_id;
  generation = elim p.hydration [ none ↦ p.attachment_generation | some h ↦ h.generation ];
}

unfoldable pub abandon_held_stream : Plane → Plane
abandon_held_stream p = elim p.stream [
  | none ↦ p
  | some s ↦ record p { effects = abandon_stream s.serial ∷ p.effects }
]

-- The same hydration object is still the plane's.
unfoldable pub is_hydration : ℕ → Plane → Bool
is_hydration serial p = elim p.hydration [ none ↦ false | some h ↦ h.serial == serial ]

unfoldable pub ensure_hydration : ℕ → Plane → Plane
ensure_hydration generation p =
    let fresh : ScreenHydration = record {
      serial = p.serials;
      generation = generation;
      buffered_output = [];
      buffered_bytes = 0;
      pending_exit = none;
      ready_received = false;
      decoder_finished = false;
      finish_received = false;
      history_incomplete = false;
      completed = false;
      progress_armed = false;
      has_reader = p.reader_bound;
    } in
    if elim p.hydration [ none ↦ false | some h ↦ h.generation == generation ]
    then p
    else record p { hydration = some fresh; serials = p.serials + 1 }

-- The progress timer of the current hydration is set again.
unfoldable pub arm_progress : ℕ → Plane → Plane
arm_progress serial p = elim p.hydration [
  | none ↦ p
  | some h ↦
      if not (h.serial == serial) || h.completed
      then p
      else record p { hydration = some (record h { progress_armed = true }) }
]

module _ (codec : TextCodec) where
  -- The tasks of the old send chain find their operations gone, so the chain starts empty.
  unfoldable pub reset_attachment_state : String → ℕ → Plane → Plane
  reset_attachment_state reason now p =
      let dropped : Plane = record p {
        stream = none;
        attach_pending = false;
        attachment_generation = p.attachment_generation + 1;
        attached_received = false;
        route_generation = none;
        accepted_epoch = none;
      } in
      let cleared : Plane = record (cancel_hydration dropped) { send_chain = [] } in
      record (abandon_inputs codec reason now cleared) { current_modes = none }

  unfoldable pub close_stream_without_detach_request : String → ℕ → Plane → Plane
  close_stream_without_detach_request reason now p =
      reset_attachment_state reason now (abandon_held_stream p)

  unfoldable pub close_stream : ℕ → Plane → Plane
  close_stream now p =
      let released =
        if is_some p.stream
        then send_detach_request_once (held_key p) (abandon_held_stream p)
        else p in
      reset_attachment_state "Terminal stream closed before the operation completed." now released

  unfoldable pub fail_route : String → ℕ → Plane → Plane
  fail_route message now p = close_stream now (emit_status (says failed message) p)

  -- One fresh attach for a lost snapshot, under a new subscription id; a second loss fails.
  unfoldable pub recover_route : ℕ → String → ℕ → Plane → Plane
  recover_route serial message now p =
      let closed =
        close_stream now (record p { snapshot_recoveries = p.snapshot_recoveries + 1 }) in
      let renamed : Plane = record closed {
        subscription_id = closed.fresh_id closed.minted;
        minted = closed.minted + 1;
      } in
      if not (is_hydration serial p)
      then p
      else if leb 1 p.snapshot_recoveries || p.fixed_subscription_id
      then fail_route message now p
      else ensure_attached
          (emit_status (says attaching "Lost snapshot page; starting a fresh attach.") renamed)

  -- The progress timer of a hydration fires; `message` names its bound.
  unfoldable pub progress_expired : ℕ → String → ℕ → Plane → Plane
  progress_expired serial message now p = elim p.hydration [
    | none ↦ p
    | some h ↦
        let disarmed : Plane = record p {
          hydration = some (record h { progress_armed = false });
        } in
        if not (h.serial == serial)
        then p
        else if h.completed
        then disarmed
        else recover_route serial message now disarmed
  ]

  unfoldable pub detach : ℕ → Plane → Plane
  detach now p =
      let closed =
        close_stream_without_detach_request "Terminal detached before the operation completed." now
          (record p { detached = true; transport_lost = false }) in
      let silent : Plane = record closed {
        listeners = 0;
        effects = lifecycle_unsubscribed ∷ closed.effects;
      } in
      if p.detached then p else send_detach_request_once (held_key p) silent

  unfoldable pub handle_transport_lost : ℕ → Plane → Plane
  handle_transport_lost now p =
      let abandoned : AbandonedDetach = record {
        key = held_key p;
        attach_sent =
            p.attached_received || elim p.stream [ none ↦ false | some s ↦ s.attach_sent ];
      } in
      let closed =
        close_stream_without_detach_request "Terminal stream was lost; delivery is unknown." now
          (record p { transport_lost = true; last_abandoned_detach = some abandoned }) in
      if p.detached || p.transport_lost
      then p
      else emit_status
          (says attaching "WebRTC data channel lost; waiting to reattach terminal stream.") closed

  -- The last listener of the output unsubscribes.
  unfoldable pub unsubscribe_output : ℕ → Plane → Plane
  unsubscribe_output now p =
      let fewer : Plane = record p { listeners = p.listeners - 1 } in
      if (fewer.listeners == 0) && not p.detached then close_stream now fewer else fewer

unfoldable pub subscribe_output : Plane → Plane
subscribe_output p =
    let joined : Plane = record p { listeners = p.listeners + 1 } in
    if p.detached
    then joined
    else ensure_attached (emit_status (says attaching "Attaching terminal stream.") joined)

-- Only an attach that was sent owes a detach.
unfoldable pub release_abandoned : Option AbandonedDetach → Plane → Plane × Bool
release_abandoned none p = (ensure_attached p, false)
release_abandoned (some abandoned) p =
    if not abandoned.attach_sent
    then (ensure_attached p, false)
    else (send_detach_request_once abandoned.key p, true)

-- `handleTransportRecovered` up to its wait for a stale detach, if it sends one; the flag says that
-- `reattach` is still to come.
unfoldable pub handle_transport_recovered : Plane → Plane × Bool
handle_transport_recovered p =
    let renamed : Plane =
      if p.fixed_subscription_id
      then p
      else record p { subscription_id = p.fresh_id p.minted; minted = p.minted + 1 } in
    let told =
      emit_status (says attaching "Reattaching terminal stream after WebRTC recovery.") (record p {
        subscription_id = renamed.subscription_id;
        minted = renamed.minted;
        transport_lost = false;
        snapshot_recoveries = 0;
        last_abandoned_detach = none;
      }) in
    if p.detached || not p.transport_lost || (p.listeners == 0)
    then (p, false)
    else if p.subscription_id == renamed.subscription_id
    then (ensure_attached told, false)
    else release_abandoned p.last_abandoned_detach told

unfoldable pub reattach : Plane → Plane
reattach p = if p.detached || (p.listeners == 0) then p else ensure_attached p

-- `attachToAuthoritativeSession` after its first wait: the bridge gives a stream.
unfoldable pub attach_acquire : ℕ → StreamSubscription → Plane → Plane
attach_acquire generation subscription p =
    let hydrating = ensure_hydration generation p in
    if not (is_current_attachment p generation)
    then p
    else if p.listeners == 0
    then record p { attach_pending = false }
    else record hydrating {
      effects = stream_requested p.subscription_id generation ∷ hydrating.effects;
      stream = some subscription;
      route_generation = none;
      accepted_epoch = none;
      detach_sent_for = none;
    }

-- The attach of a generation is rejected: its promise is dropped, and a caller that waits for it tells
-- that it failed.
unfoldable pub attach_rejected : ℕ → Option String → Plane → Plane
attach_rejected generation message p =
    let dropped : Plane = record p {
      attach_pending = if p.attachment_generation == generation then false else p.attach_pending;
    } in
    elim message [ none ↦ dropped | some detail ↦ emit_status (says failed detail) dropped ]

-- An attach that is ready sets the progress timer of its hydration.
unfoldable pub arm_attached : ℕ → Plane → Plane
arm_attached generation p = elim p.hydration [
  | none ↦ p
  | some h ↦ if (h.generation == generation) && not h.completed then arm_progress h.serial p else p
]

-- The stream is ready; its reservation may name the route generation.
unfoldable pub attach_ready : ℕ → Option ℕ → Plane → Plane
attach_ready generation reserved p =
    let settled : Plane = record p {
      attach_pending = false;
      route_generation = elim reserved [ none ↦ p.route_generation | some g ↦ some g ];
    } in
    if not (is_current_attachment p generation) then p else arm_attached generation settled
