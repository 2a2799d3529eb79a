-- ===== src/Daemon/Reconnect/Run.antt =====
-- What happens to a connection, in src/botster/webrtcDaemonClient.ts, and what stays true of it.
use botster_web.Common.{
  ℕ, ◌+◌, ◌-◌, ◌≤◌, ◌≡◌, ◌⊎◌, Bool, true, false, not, ◌&&◌, ◌||◌, none, some, List, [], ◌∷◌, ltb,
  leb, ◌==◌, nat_eq, if◌then◌else◌, is_some, opt_beq,
}
use botster_web.Daemon.Reconnect.{
  Connection, connect, complete_attempt, fail_attempt, owns_attempt, channel_lost,
  fail_peer_generation, recover_connection, disconnect, retry_delay,
}

-- A listener set becomes empty or not; a caller connects; the attempt publishes its channel; the channel
-- opens, or leaves the open state ahead of its event; the Hello of an attempt is acknowledged; a
-- request other than the Hello is sent; `open` resolves or rejects (the
-- attempt's deadline too); the channel is lost; the peer fails; a timer or a microtask runs; the client
-- disconnects.
pub data ConnectionEvent : Type 0 where
  demand_changed : Bool → ConnectionEvent
  called : ConnectionEvent
  published opened greeted : ℕ → ConnectionEvent
  closing sent : ConnectionEvent
  attempt_opened attempt_failed lost peer_fault : ℕ → ConnectionEvent
  retry_fired recovery_ran disconnected_by_caller : ConnectionEvent

-- A timer that is set fires once.
unfoldable pub fire_retry : Connection → Connection
fire_retry s =
    let fired : Connection = record s { retry_timer = none } in
    if not (is_some s.retry_timer)
    then s
    else if s.disconnected || not s.reconnect_demand
    then fired
    else connect fired

-- A queued microtask runs once.
unfoldable pub run_recovery : Connection → Connection
run_recovery s =
    if leb s.recoveries 0
    then s
    else recover_connection (record s { recoveries = s.recoveries - 1 })

unfoldable pub connection_event : ConnectionEvent → Connection → Connection
connection_event (demand_changed wanted) s = record s { demanded = wanted }
connection_event called s = connect s
connection_event (published g) s =
    if owns_attempt g s then record s { data_channel = some g; channel_open = false } else s
connection_event (opened g) s =
    if opt_beq s.data_channel (some g) && is_some s.connect_promise
    then record s { channel_open = true }
    else s
connection_event closing s = record s { channel_open = false }
connection_event (greeted g) s =
    if owns_attempt g s then record s { encrypted_stream_ready = true } else s
connection_event sent s = if s.channel_open then record s { encrypted_stream_ready = true } else s
connection_event (attempt_opened g) s = complete_attempt g s
connection_event (attempt_failed g) s = fail_attempt g none s
connection_event (lost g) s = channel_lost g s
connection_event (peer_fault g) s = fail_peer_generation g s
connection_event retry_fired s = fire_retry s
connection_event recovery_ran s = run_recovery s
connection_event disconnected_by_caller s = disconnect s

unfoldable pub connection_history : List ConnectionEvent → Connection → Connection
connection_history [] s = s
connection_history (e ∷ es) s = connection_history es (connection_event e s)

abbrev pub tick : Bool → ℕ
tick b = if b then 1 else 0

abbrev pub times : ℕ → List ℕ → ℕ
times g [] = 0
times g (h ∷ hs) = tick (h == g) + times g hs

abbrev pub times_settled : ℕ → List (ℕ × Bool) → ℕ
times_settled g [] = 0
times_settled g ((h, resolved) ∷ others) = tick (h == g) + times_settled g others

-- No attempt runs, or only the one of the current generation, which holds the promise of the callers.
abbrev pub IsIdle : Connection → Type 0
IsIdle s = (s.unsettled ≡ []) × (s.connect_promise ≡ none)

abbrev pub IsConnecting : Connection → Type 0
IsConnecting s =
    (s.unsettled ≡ s.peer_generation ∷ [])
    × (s.connect_promise ≡ some s.peer_generation)
    × (s.current_attempt ≡ some s.peer_generation)
    × (s.disconnected ≡ false)
    × (s.retry_timer ≡ none)

pub record IsOrdered (s : Connection) : Type 0 where
  pub phase : IsIdle s ⊎ IsConnecting s
  pub ended : s.disconnected ≡ true → (s.retry_timer ≡ none) × (s.reconnect_demand ≡ false)
  pub delay :
      (d : ℕ)
      → s.retry_timer ≡ some d
      → (s.reconnect_demand ≡ true) × (1 ≤ s.retry_attempt) × (d ≡ retry_delay s.retry_attempt)
  pub once :
      (g : ℕ)
      → times g s.unsettled + times_settled g s.outcomes ≡ tick (ltb 0 g && leb g s.peer_generation)

-- What demand for a connection implies: no channel is open but the one of a running attempt, and a
-- connection is on its way.
pub record IsRecovering (s : Connection) : Type 0 where
  pub shut : s.reconnect_demand ≡ true → s.connect_promise ≡ none → s.channel_open ≡ false
  pub going :
      s.reconnect_demand ≡ true
      → (is_some s.retry_timer || is_some s.connect_promise || ltb 0 s.recoveries) ≡ true
