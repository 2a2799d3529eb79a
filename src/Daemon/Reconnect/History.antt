-- ===== src/Daemon/Reconnect/History.antt =====
-- A connection over any sequence of events, for src/botster/webrtcDaemonClient.ts.
use botster_web.Common.{
  ℕ, refl, true, inl, inr, not, ◌&&◌, none, some, List, [], ◌∷◌, nat_eq, is_some, opt_beq, arith,
  Bool-cases, if_split,
}
use botster_web.Daemon.Reconnect.{
  Connection, new_connection, fail_attempt, owns_attempt, has_generation,
}
use botster_web.Daemon.Reconnect.Run.{
  ConnectionEvent, demand_changed, called, published, opened, greeted, closing, sent,
  attempt_opened, attempt_failed, lost, peer_fault, retry_fired, recovery_ran,
  disconnected_by_caller, connection_event, connection_history, IsOrdered, IsRecovering,
}
use botster_web.Daemon.Reconnect.Coherent.{unsettled-current}
use botster_web.Daemon.Reconnect.Failing.{
  fail_attempt-IsOrdered, fail_attempt-IsRecovering, complete_attempt-IsOrdered,
}
use botster_web.Daemon.Reconnect.Coherent.{connect-IsOrdered, connect-IsRecovering}
use botster_web.Daemon.Reconnect.Lost.{Both, channel_lost-Both, fail_peer_generation-Both}
use botster_web.Daemon.Reconnect.Ending.{
  complete_attempt-IsRecovering, disconnect-Both, fire_retry-Both, run_recovery-Both,
}

failed : (g : ℕ) (s : Connection) → Both s → IsRecovering (fail_attempt g none s)
failed g s h = elim (Bool-cases (has_generation g s.unsettled)) [
  | inl known ↦
      let (runs, mine) = unsettled-current g s h.0 known in
      fail_attempt-IsRecovering g none s h.0 runs mine (λ had. ground (arith, had))
  | inr unknown ↦
      unfold fail_attempt in
      if_split IsRecovering (not (has_generation g s.unsettled)) (λ same. h.1)
        (λ other. absurd (ground (arith, unknown, other)))
]

readied : (s : Connection) → Both s → Both (record s { encrypted_stream_ready = true })
readied s h = (
  record { phase = h.0.phase; ended = h.0.ended; delay = h.0.delay; once = h.0.once },
  record { shut = h.1.shut; going = h.1.going },
)

connection_event-Both :
    (e : ConnectionEvent) (s : Connection) → Both s → Both (connection_event e s)
unfolding connection_event
connection_event-Both (demand_changed wanted) s h = (
  record { phase = h.0.phase; ended = h.0.ended; delay = h.0.delay; once = h.0.once },
  record { shut = h.1.shut; going = h.1.going },
)
connection_event-Both called s h = (connect-IsOrdered s h.0, connect-IsRecovering s h.1)
connection_event-Both (published g) s h =
    if_split Both (owns_attempt g s)
      (λ owner. (
        record { phase = h.0.phase; ended = h.0.ended; delay = h.0.delay; once = h.0.once },
        record { shut = λ had nothing. refl; going = h.1.going },
      ))
      (λ stranger. h)
connection_event-Both (opened g) s h =
    if_split Both (opt_beq s.data_channel (some g) && is_some s.connect_promise)
      (λ mine. (
        record { phase = h.0.phase; ended = h.0.ended; delay = h.0.delay; once = h.0.once },
        record { shut = λ had nothing. absurd (ground (arith, mine, nothing)); going = h.1.going },
      ))
      (λ other. h)
connection_event-Both closing s h = (
  record { phase = h.0.phase; ended = h.0.ended; delay = h.0.delay; once = h.0.once },
  record { shut = λ had nothing. refl; going = h.1.going },
)
connection_event-Both (greeted g) s h =
    if_split Both (owns_attempt g s) (λ owner. (readied s h)) (λ stranger. h)
connection_event-Both sent s h =
    if_split Both s.channel_open (λ sending. (readied s h)) (λ closed. h)
connection_event-Both (attempt_opened g) s h =
    (complete_attempt-IsOrdered g s h.0, complete_attempt-IsRecovering g s h)
connection_event-Both (attempt_failed g) s h = (fail_attempt-IsOrdered g none s h.0, failed g s h)
connection_event-Both (lost g) s h = channel_lost-Both g s h
connection_event-Both (peer_fault g) s h = fail_peer_generation-Both g s h
connection_event-Both retry_fired s h = fire_retry-Both s h
connection_event-Both recovery_ran s h = run_recovery-Both s h
connection_event-Both disconnected_by_caller s h = disconnect-Both s h

connection_history-keeps :
    (es : List ConnectionEvent) (s : Connection) → Both s → Both (connection_history es s)
unfolding connection_history
connection_history-keeps [] s h = h
connection_history-keeps (e ∷ es) s h =
    connection_history-keeps es (connection_event e s) (connection_event-Both e s h)

new_connection-Both : Both new_connection
unfolding new_connection
new_connection-Both = (
  record {
    phase = inl (refl, refl);
    ended = λ over. (refl, refl);
    delay = λ d set. absurd (cc (set));
    once = λ g. ground arith;
  },
  record { shut = λ had nothing. refl; going = λ had. absurd (cc (had)) },
)

-- Whatever happens to a new client, at most one attempt has not settled, the one of the current
-- generation, which holds the callers' promise, and then no retry timer is set; every other attempt so
-- far has settled exactly once; the delay of a set timer is the backoff of the retry it announces; and
-- while the client is disconnected no attempt runs, no timer is set and there is no demand.
pub connection_history-IsOrdered :
    (es : List ConnectionEvent) → IsOrdered (connection_history es new_connection)
connection_history-IsOrdered es = (connection_history-keeps es new_connection new_connection-Both).0

-- Whatever happens to a new client, while it has captured demand for a connection no channel is open
-- unless an attempt runs, and its recovery is on its way: a retry timer is set, an attempt runs, or a
-- recovery is queued.
pub connection_history-IsRecovering :
    (es : List ConnectionEvent) → IsRecovering (connection_history es new_connection)
connection_history-IsRecovering es =
    (connection_history-keeps es new_connection new_connection-Both).1
