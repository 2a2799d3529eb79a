-- ===== src/Plane/Attaching.antt =====
-- The hydration buffer while the plane of src/botster/hubTerminalDataPlane.ts attaches and detaches.
use botster_web.Common.{
  true, false, if◌then◌else◌, ◌+◌, ℕ, ◌-◌, sym, Bool, not, ◌&&◌, ◌||◌, Option, none, some, ◌∷◌,
  ◌==◌, nat_eq, string_eq, String, if_split, option_split,
}
use mathlib.Core.Path.{subst}
use botster_web.Wire.Event.{TextCodec}
use botster_web.Plane.State.{
  lifecycle_unsubscribed, attaching, DetachKey, AbandonedDetach, StreamSubscription, Plane,
}
use botster_web.Plane.Basics.{says, emit_status, is_current_attachment, ensure_attached}
use botster_web.Plane.Lifecycle.{
  detach, subscribe_output, unsubscribe_output, handle_transport_recovered, reattach,
  attach_acquire, attach_ready, attach_rejected, arm_attached, release_abandoned,
  send_detach_request_once, has_sent_detach_for, held_key, handle_transport_lost,
  close_stream_without_detach_request,
}
use botster_web.Plane.Construction.{
  LifecycleEvent, data_channel_closed, data_channel_error, encrypted_stream_ready,
  terminal_data_channel_closed, handle_lifecycle_event,
}
use botster_web.Plane.Keeping.{
  hydration-ensure_attached, hydration-close_stream, hydration-reset_attachment_state,
}
use botster_web.Plane.Buffering.{
  IsBuffered, gone, arm_progress-IsBuffered, ensure_hydration-IsBuffered,
}
use botster_web.Plane.Hydrating.{IsSame}

abbrev pub Fine : Plane → Type 0
Fine p = IsBuffered p.hydration

pub kept : (p q : Plane) → IsSame p q → Fine p → Fine q
kept p q same s = subst IsBuffered (sym same) s

pub attach_acquire-Fine :
    (generation : ℕ) (subscription : StreamSubscription) (p : Plane)
    → Fine p
    → Fine (attach_acquire generation subscription p)
unfolding attach_acquire
attach_acquire-Fine generation subscription p s =
    if_split Fine (not (is_current_attachment p generation)) (λ stale. s)
      (λ current.
        if_split Fine (p.listeners == 0) (λ nobody. s)
          (λ heard. ensure_hydration-IsBuffered generation p s))

pub attach_ready-Fine :
    (generation : ℕ) (reserved : Option ℕ) (p : Plane)
    → Fine p
    → Fine (attach_ready generation reserved p)
unfolding attach_ready arm_attached
attach_ready-Fine generation reserved p s =
    if_split Fine (not (is_current_attachment p generation)) (λ stale. s)
      (λ current.
        option_split Fine p.hydration (λ nothing. s)
          (λ h there.
            if_split Fine ((h.generation == generation) && not h.completed)
              (λ on. arm_progress-IsBuffered h.serial _ s) (λ off. s)))

pub attach_rejected-Fine :
    (generation : ℕ) (message : Option String) (p : Plane)
    → Fine p
    → Fine (attach_rejected generation message p)
unfolding attach_rejected emit_status
attach_rejected-Fine generation none p s = s
attach_rejected-Fine generation (some detail) p s = s

module _ (codec : TextCodec) where
  attached : (p : Plane) → Fine p → Fine (ensure_attached p)
  attached p s = kept p (ensure_attached p) (hydration-ensure_attached codec p) s

  pub subscribe_output-Fine : (p : Plane) → Fine p → Fine (subscribe_output p)
  unfolding subscribe_output emit_status
  subscribe_output-Fine p s = if_split Fine p.detached (λ over. s) (λ here. attached _ s)

  pub unsubscribe_output-Fine :
      (now : ℕ) (p : Plane) → Fine p → Fine (unsubscribe_output codec now p)
  unfolding unsubscribe_output
  unsubscribe_output-Fine now p s =
      if_split Fine ((p.listeners - 1 == 0) && not p.detached)
        (λ last. gone (hydration-close_stream codec now _)) (λ heard. s)

  send_detach_request_once-Fine :
      (key : DetachKey) (p : Plane) → Fine p → Fine (send_detach_request_once key p)
  unfolding send_detach_request_once
  send_detach_request_once-Fine key p s =
      if_split Fine (has_sent_detach_for key p) (λ told. s) (λ asks. s)

  closed-Fine :
      (reason : String) (now : ℕ) (p : Plane)
      → Fine (close_stream_without_detach_request codec reason now p)
  unfolding close_stream_without_detach_request
  closed-Fine reason now p = gone (hydration-reset_attachment_state codec reason now _)

  pub detach-Fine : (now : ℕ) (p : Plane) → Fine p → Fine (detach codec now p)
  unfolding detach
  detach-Fine now p s =
      let here : Plane = record p { detached = true; transport_lost = false } in
      let closed =
        close_stream_without_detach_request codec
          "Terminal detached before the operation completed." now here in
      let silent : Plane = record closed {
        listeners = 0;
        effects = lifecycle_unsubscribed ∷ closed.effects;
      } in
      if_split Fine p.detached (λ twice. s)
        (λ first. send_detach_request_once-Fine (held_key p) silent (closed-Fine _ now here))

  pub reattach-Fine : (p : Plane) → Fine p → Fine (reattach p)
  unfolding reattach
  reattach-Fine p s =
      if_split Fine (p.detached || (p.listeners == 0)) (λ over. s) (λ here. attached p s)

  release_abandoned-Fine :
      (a : Option AbandonedDetach) (p : Plane) → Fine p → Fine (release_abandoned a p).0
  unfolding release_abandoned send_detach_request_once
  release_abandoned-Fine none p s = attached p s
  release_abandoned-Fine (some a) p s =
      if_split (λ (r : Plane × Bool). Fine r.0) (not a.attach_sent) (λ unsent. attached p s)
        (λ owes. if_split Fine (has_sent_detach_for a.key p) (λ told. s) (λ asks. s))

  handle_transport_recovered-Fine : (p : Plane) → Fine p → Fine (handle_transport_recovered p).0
  unfolding handle_transport_recovered emit_status
  handle_transport_recovered-Fine p s =
      let renamed : Plane =
        if p.fixed_subscription_id
        then p
        else record p { subscription_id = p.fresh_id p.minted; minted = p.minted + 1 } in
      let told =
        emit_status (says attaching "Reattaching terminal stream after WebRTC recovery.")
          (record p {
            subscription_id = renamed.subscription_id;
            minted = renamed.minted;
            transport_lost = false;
            snapshot_recoveries = 0;
            last_abandoned_detach = none;
          }) in
      let Told : Plane × Bool → Type 0 = λ r. Fine r.0 in
      if_split Told (p.detached || not p.transport_lost || (p.listeners == 0)) (λ over. s)
        (λ here.
          if_split Told (p.subscription_id == renamed.subscription_id) (λ same. attached told s)
            (λ different. release_abandoned-Fine p.last_abandoned_detach told s))

  handle_transport_lost-Fine :
      (now : ℕ) (p : Plane) → Fine p → Fine (handle_transport_lost codec now p)
  unfolding handle_transport_lost emit_status close_stream_without_detach_request
  handle_transport_lost-Fine now p s =
      if_split Fine (p.detached || p.transport_lost) (λ over. s)
        (λ here. gone (hydration-reset_attachment_state codec _ now _))

  pub handle_lifecycle_event-Fine :
      (event : LifecycleEvent) (now : ℕ) (p : Plane)
      → Fine p
      → Fine (handle_lifecycle_event codec event now p).0
  unfolding handle_lifecycle_event
  handle_lifecycle_event-Fine event now p s =
      let Told : Plane × Bool → Type 0 = λ r. Fine r.0 in
      let lost = handle_transport_lost-Fine now p s in
      elim event as (λ e. Fine (handle_lifecycle_event codec e now p).0) [
        | data_channel_closed ↦ if_split Told p.detached (λ over. s) (λ here. lost)
        | data_channel_error ↦ if_split Told p.detached (λ over. s) (λ here. lost)
        | encrypted_stream_ready ↦
            if_split Told p.detached (λ over. s) (λ here. handle_transport_recovered-Fine p s)
        | terminal_data_channel_closed session route ↦
            if_split Told p.detached (λ over. s)
              (λ here.
                if_split Told (not (session == p.session_id)) (λ other. s)
                  (λ mine.
                    if_split Told (not (route == p.subscription_id)) (λ other. s)
                      (λ own. if_split Told p.transport_lost (λ again. s) (λ first. lost))))
      ]
