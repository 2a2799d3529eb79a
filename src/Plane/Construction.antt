-- ===== src/Plane/Construction.antt =====
-- The constructor of `HubTerminalDataPlane` in src/botster/hubTerminalDataPlane.ts, and the events of
-- its transport's lifecycle.
use botster_web.Common.{
  ℕ, String, Bool, true, false, not, Option, none, [], ◌==◌, string_eq, if◌then◌else◌, get_or,
  is_some,
}
use botster_web.Wire.Event.{TextCodec}
use botster_web.Plane.State.{attaching, Plane}
use botster_web.Plane.Basics.{says}
use botster_web.Plane.Lifecycle.{handle_transport_lost, handle_transport_recovered}

-- A session id and a bridge with lifecycle events are given; without them the constructor throws.
unfoldable pub new_plane : String → Option String → (ℕ → String) → Plane
new_plane session_id subscription_id fresh_id = record {
  session_id = session_id;
  subscription_id = get_or subscription_id (fresh_id 0);
  fixed_subscription_id = not (get_or subscription_id "" == "");
  fresh_id = fresh_id;
  minted = if is_some subscription_id then 0 else 1;
  serials = 0;
  reader_bound = false;
  listeners = 0;
  effects = [];
  current_status = says attaching "Attaching terminal stream.";
  current_modes = none;
  stream = none;
  attach_pending = false;
  detached = false;
  transport_lost = false;
  attachment_generation = 0;
  attached_received = false;
  route_generation = none;
  accepted_epoch = none;
  detach_sent_for = none;
  last_abandoned_detach = none;
  hydration = none;
  snapshot_recoveries = 0;
  next_operation_id = 1;
  queued_inputs = [];
  queued_input_bytes = 0;
  inflight_inputs = [];
  inflight_input_bytes = 0;
  send_chain = [];
  desired_geometry = none;
  sent_geometry = none;
  geometry_operation = none;
  paste_attempts = 0;
  pending_unsafe_paste = none;
  consent_retained_bytes = 0;
}

unfoldable pub bind_incremental_snapshot_reader : Plane → Plane
bind_incremental_snapshot_reader p = record p { reader_bound = true }

pub data LifecycleEvent : Type 0 where
  data_channel_closed data_channel_error encrypted_stream_ready : LifecycleEvent
  terminal_data_channel_closed : String → String → LifecycleEvent

-- The recovery after a closed route channel runs in a microtask of its own: the flag says so.
unfoldable pub handle_lifecycle_event : TextCodec → LifecycleEvent → ℕ → Plane → Plane × Bool
handle_lifecycle_event codec data_channel_closed now p =
    if p.detached then (p, false) else (handle_transport_lost codec now p, false)
handle_lifecycle_event codec data_channel_error now p =
    if p.detached then (p, false) else (handle_transport_lost codec now p, false)
handle_lifecycle_event codec encrypted_stream_ready now p =
    if p.detached then (p, false) else ((handle_transport_recovered p).0, false)
handle_lifecycle_event codec (terminal_data_channel_closed session_id subscription_id) now p =
    if p.detached
    then (p, false)
    else if not (session_id == p.session_id)
    then (p, false)
    else if not (subscription_id == p.subscription_id)
    then (p, false)
    else if p.transport_lost
    then (p, false)
    else (handle_transport_lost codec now p, true)
