-- ===== src/Daemon/Reconnect.antt =====
-- Connection attempts and recovery, in src/botster/webrtcDaemonClient.ts. An attempt is known by its
-- generation. Lifecycle listeners are taken not to call the client back; timers and microtasks are
-- events of Daemon.Reconnect.Run.
pub mod Run
pub mod Delay
pub mod Coherent
pub mod Failing
pub mod Lost
pub mod Ending
pub mod History
use botster_web.Common.{
  ℕ, suc, ◌+◌, ◌-◌, ◌*◌, ◌^◌, min, Bool, true, false, not, ◌&&◌, ◌||◌, Option, none, some, List, [],
  ◌∷◌, ◌==◌, nat_eq, if◌then◌else◌, get_or, is_some, opt_beq, filter,
}

abbrev pub initial_delay_ms : ℕ
initial_delay_ms = 250

abbrev pub max_delay_ms : ℕ
max_delay_ms = 8000

-- `cryptoKey` is set with the channel and cleared with the stream, so `encrypted_stream_ready` stands
-- for both. `unsettled` holds the generations of the attempts that have not settled; `outcomes` how each other
-- one settled. `demanded` is `hasReconnectDemand()`; `recoveries` counts the queued calls of
-- `recoverConnection`.
pub record Connection : Type 0 where
  pub peer_generation : ℕ
  pub unsettled : List ℕ
  pub outcomes : List (ℕ × Bool)
  pub current_attempt : Option ℕ
  pub connect_promise : Option ℕ
  pub data_channel : Option ℕ
  pub channel_open : Bool
  pub encrypted_stream_ready : Bool
  pub retry_timer : Option ℕ
  pub retry_attempt : ℕ
  pub reconnect_demand : Bool
  pub demanded : Bool
  pub disconnected : Bool
  pub peer_failed : Bool
  pub recoveries : ℕ

unfoldable pub new_connection : Connection
new_connection = record {
  peer_generation = 0;
  unsettled = [];
  outcomes = [];
  current_attempt = none;
  connect_promise = none;
  data_channel = none;
  channel_open = false;
  encrypted_stream_ready = false;
  retry_timer = none;
  retry_attempt = 0;
  reconnect_demand = false;
  demanded = false;
  disconnected = false;
  peer_failed = false;
  recoveries = 0;
}

-- `Math.min(initialDelayMs * 2 ** (attempt - 1), maxDelayMs)`
unfoldable pub retry_delay : ℕ → ℕ
retry_delay attempt = min (initial_delay_ms * 2 ^ (attempt - 1)) max_delay_ms

unfoldable pub has_generation : ℕ → List ℕ → Bool
has_generation g [] = false
has_generation g (h ∷ hs) = h == g || has_generation g hs

unfoldable pub reset_peer_state : Connection → Connection
reset_peer_state s = record s {
  data_channel = none;
  channel_open = false;
  encrypted_stream_ready = false;
}

unfoldable pub cancel_retry_timer : Connection → Connection
cancel_retry_timer s = record s { retry_timer = none }

unfoldable pub start_attempt : Connection → Connection
start_attempt s =
    let generation = suc s.peer_generation in
    record (reset_peer_state s) {
      peer_generation = generation;
      unsettled = generation ∷ s.unsettled;
      current_attempt = some generation;
      connect_promise = some generation;
      peer_failed = false;
    }

-- A disconnected client throws.
unfoldable pub connect : Connection → Connection
connect s =
    if s.disconnected
    then s
    else if s.channel_open && s.encrypted_stream_ready
    then s
    else if is_some s.connect_promise
    then s
    else start_attempt (cancel_retry_timer s)

unfoldable pub owns_attempt : ℕ → Connection → Bool
owns_attempt g s =
    opt_beq s.current_attempt (some g) && (g == s.peer_generation) && not s.disconnected

-- An attempt settles: resolved or rejected.
unfoldable pub settle_attempt : ℕ → Bool → Connection → Connection
settle_attempt g resolved s = record s {
  unsettled = filter (λ h. not (h == g)) s.unsettled;
  outcomes = (g, resolved) ∷ s.outcomes;
}

unfoldable pub drop_promise : ℕ → Connection → Connection
drop_promise g s = record s {
  connect_promise = if opt_beq s.connect_promise (some g) then none else s.connect_promise;
}

unfoldable pub complete_attempt : ℕ → Connection → Connection
complete_attempt g s =
    let settled = drop_promise g (settle_attempt g true s) in
    if not (has_generation g s.unsettled)
    then s
    else if owns_attempt g s
    then cancel_retry_timer (record settled { retry_attempt = 0; reconnect_demand = false })
    else settled

unfoldable pub schedule_retry : Connection → Connection
schedule_retry s = if is_some s.retry_timer || s.disconnected then s else record s {
  retry_attempt = suc s.retry_attempt;
  retry_timer = some (retry_delay (suc s.retry_attempt));
}

-- What an attempt published closes with it.
unfoldable pub close_attempt_resources : ℕ → Connection → Connection
close_attempt_resources g s =
    if opt_beq s.data_channel (some g)
    then record s { data_channel = none; channel_open = false }
    else s

-- The rest of `failAttempt` once the attempt is settled, where it owns the client.
unfoldable pub fail_owner : ℕ → Bool → Connection → Connection
fail_owner g demand s =
    let closed =
      close_attempt_resources g
        (reset_peer_state (drop_promise g (record s { current_attempt = none }))) in
    if demand && not s.disconnected
    then schedule_retry (record closed { reconnect_demand = true })
    else closed

unfoldable pub fail_attempt : ℕ → Option Bool → Connection → Connection
fail_attempt g demand_override s =
    let settled = settle_attempt g false s in
    if not (has_generation g s.unsettled)
    then s
    else if owns_attempt g s
    then fail_owner g (get_or demand_override (s.reconnect_demand || s.demanded)) settled
    else close_attempt_resources g settled

-- The attempt that `disconnect` rejects: the current one, if it has not settled.
unfoldable pub reject_current : Connection → Connection
reject_current s = elim s.current_attempt [
  | none ↦ s
  | some g ↦
      if has_generation g s.unsettled
      then close_attempt_resources g (settle_attempt g false s)
      else s
]

unfoldable pub disconnect : Connection → Connection
disconnect s = record (reset_peer_state (reject_current s)) {
  disconnected = true;
  current_attempt = none;
  retry_timer = none;
  reconnect_demand = false;
  connect_promise = none;
}

-- The current attempt, if it has not settled.
unfoldable pub connecting : Connection → Option ℕ
connecting s = elim s.current_attempt [
  | none ↦ none
  | some g ↦ if has_generation g s.unsettled then some g else none
]

unfoldable pub handle_transport_closed : Bool → ℕ → Connection → Connection
handle_transport_closed should_reconnect generation s =
    let wanted = should_reconnect || s.reconnect_demand in
    let closed = reset_peer_state s in
    if not (generation == s.peer_generation) then s else elim (connecting s) [
      | some g ↦ fail_attempt g (some wanted) s
      | none ↦
          if not s.disconnected && wanted
          then record closed { reconnect_demand = true; recoveries = suc s.recoveries }
          else closed
    ]

unfoldable pub capture_reconnect_demand : Connection → Connection × Bool
capture_reconnect_demand s =
    let demand = s.reconnect_demand || s.demanded in
    (record s { reconnect_demand = s.reconnect_demand || (demand && not s.disconnected) }, demand)

-- The listeners of the current channel's "close" and "error" events.
unfoldable pub channel_lost : ℕ → Connection → Connection
channel_lost generation s =
    let (captured, should_reconnect) = capture_reconnect_demand s in
    if not (generation == s.peer_generation && opt_beq s.data_channel (some generation))
    then s
    else handle_transport_closed should_reconnect generation captured

unfoldable pub fail_peer_generation : ℕ → Connection → Connection
fail_peer_generation generation s =
    let (captured, should_reconnect) = capture_reconnect_demand (record s { peer_failed = true }) in
    if not (generation == s.peer_generation) || s.peer_failed
    then s
    else handle_transport_closed should_reconnect generation captured

unfoldable pub recover_connection : Connection → Connection
recover_connection s = if s.disconnected || not s.reconnect_demand then s else connect s
