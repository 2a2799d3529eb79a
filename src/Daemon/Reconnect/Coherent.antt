-- ===== src/Daemon/Reconnect/Coherent.antt =====
-- The operations on a connection keep it in order, for src/botster/webrtcDaemonClient.ts.
use botster_web.Common.{
  ℕ, suc, ◌+◌, ◌≡◌, refl, ap, inl, inr, Bool, true, false, not, ◌&&◌, [], ◌∷◌, ltb, leb, ◌==◌,
  nat_eq, nat_beq_iff, is_some, filter, arith, if_split,
}
use botster_web.Daemon.Reconnect.{
  Connection, connect, has_generation, reset_peer_state, cancel_retry_timer, start_attempt,
}
use botster_web.Daemon.Reconnect.Run.{
  IsIdle, IsConnecting, IsOrdered, IsRecovering, tick, times, times_settled,
}

-- Starting an attempt from an idle client.
start_attempt-IsOrdered :
    (s : Connection)
    → IsIdle s
    → IsOrdered s
    → s.disconnected ≡ false
    → IsOrdered (start_attempt (cancel_retry_timer s))
unfolding start_attempt cancel_retry_timer reset_peer_state
start_attempt-IsOrdered s idle h alive = record {
  phase = inr (ap (λ gs. suc s.peer_generation ∷ gs) idle.0, refl, refl, alive, refl);
  ended = λ over. absurd (cc (over, alive));
  delay = λ d set. absurd (cc (set));
  once = λ g. ground (arith, h.once g, idle.0);
}

pub start_attempt-IsRecovering : (s : Connection) → IsRecovering (start_attempt s)
unfolding start_attempt reset_peer_state
start_attempt-IsRecovering s = record {
  shut = λ wanted nothing. refl;
  going = λ wanted. ground arith;
}

-- No promise: no attempt runs.
pub idle : (s : Connection) → IsOrdered s → is_some s.connect_promise ≡ false → IsIdle s
idle s h nothing = elim h.phase [
  | inl rests ↦ rests
  | inr runs ↦ absurd (ground (arith, nothing, runs.1))
]

pub connect-IsOrdered : (s : Connection) → IsOrdered s → IsOrdered (connect s)
unfolding connect
connect-IsOrdered s h =
    if_split IsOrdered s.disconnected (λ over. h)
      (λ alive.
        if_split IsOrdered (s.channel_open && s.encrypted_stream_ready) (λ ready. h)
          (λ unready.
            if_split IsOrdered (is_some s.connect_promise) (λ runs. h)
              (λ nothing. start_attempt-IsOrdered s (idle s h nothing) h alive)))

pub connect-IsRecovering : (s : Connection) → IsRecovering s → IsRecovering (connect s)
unfolding connect
connect-IsRecovering s k =
    if_split IsRecovering s.disconnected (λ over. k)
      (λ alive.
        if_split IsRecovering (s.channel_open && s.encrypted_stream_ready) (λ ready. k)
          (λ unready.
            if_split IsRecovering (is_some s.connect_promise) (λ runs. k)
              (λ nothing. start_attempt-IsRecovering (cancel_retry_timer s))))

-- An attempt that has not settled is the current one.
pub unsettled-current :
    (g : ℕ) (s : Connection)
    → IsOrdered s
    → has_generation g s.unsettled ≡ true
    → IsConnecting s × (g ≡ s.peer_generation)
unfolding has_generation
unsettled-current g s h found = elim h.phase [
  | inl rests ↦ absurd (ground (arith, found, rests.0))
  | inr runs ↦ (runs, ground (arith, found, runs.0, nat_beq_iff s.peer_generation g))
]

-- The one running attempt settles.
pub settled-once :
    (g : ℕ) (resolved : Bool) (s : Connection)
    → IsOrdered s
    → IsConnecting s
    → g ≡ s.peer_generation
    → (filter (λ h. not (h == g)) s.unsettled ≡ [])
      × ((h : ℕ)
          → times h [] + times_settled h ((g, resolved) ∷ s.outcomes)
            ≡ tick (ltb 0 h && leb h s.peer_generation))
unfolding filter
settled-once g resolved s h runs mine = (
  ground (arith, runs.0, mine, nat_beq_iff s.peer_generation g),
  λ k. ground (arith, h.once k, runs.0, mine),
)
