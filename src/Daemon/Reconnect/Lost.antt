-- ===== src/Daemon/Reconnect/Lost.antt =====
-- Lost connections, timers and disconnects, for src/botster/webrtcDaemonClient.ts.
use botster_web.Common.{
  ℕ, suc, ◌≡◌, refl, sym, inl, inr, Bool, true, false, not, ◌&&◌, ◌||◌, none, some, ◌==◌, nat_eq,
  nat_beq_iff, opt_beq, arith, Bool-cases, Option-cases, eq_self, if_split,
}
use botster_web.Daemon.Reconnect.{
  Connection, channel_lost, fail_peer_generation, has_generation, reset_peer_state, connecting,
  handle_transport_closed, capture_reconnect_demand,
}
use botster_web.Daemon.Reconnect.Run.{IsIdle, IsConnecting, IsOrdered, IsRecovering}
use botster_web.Daemon.Reconnect.Coherent.{unsettled-current}
use botster_web.Daemon.Reconnect.Failing.{fail_attempt-IsOrdered, fail_attempt-IsRecovering}

reset_peer_state-IsOrdered : (s : Connection) → IsOrdered s → IsOrdered (reset_peer_state s)
unfolding reset_peer_state
reset_peer_state-IsOrdered s h = record {
  phase = h.phase;
  ended = h.ended;
  delay = h.delay;
  once = h.once;
}

-- Which attempt `connecting` finds.
connecting-found :
    (g : ℕ) (s : Connection)
    → IsOrdered s
    → connecting s ≡ some g
    → IsConnecting s × (g ≡ s.peer_generation)
unfolding connecting
connecting-found g s h found = elim (Option-cases s.current_attempt) [
  | inl nobody ↦ absurd (ground (arith, found, nobody))
  | inr (c, mine) ↦
      let (live, same) : (has_generation c s.unsettled ≡ true) × (c ≡ g) =
        (ground (arith, found, mine), ground (arith, found, mine)) in
      rw (sym same) (unsettled-current c s h live)
]

connecting-none : (s : Connection) → IsOrdered s → connecting s ≡ none → IsIdle s
unfolding connecting has_generation
connecting-none s h nobody = elim h.phase [
  | inl rests ↦ rests
  | inr runs ↦ absurd (ground (arith, nobody, runs.0, runs.2, eq_self s.peer_generation))
]

-- A loss of the current generation, whatever the demand was a moment ago.
handle_transport_closed-Both :
    (should : Bool) (s : Connection)
    → IsOrdered s
    → IsOrdered (handle_transport_closed should s.peer_generation s)
      × IsRecovering (handle_transport_closed should s.peer_generation s)
unfolding handle_transport_closed
handle_transport_closed-Both should s h =
    let same : (s.peer_generation == s.peer_generation) ≡ true = eq_self s.peer_generation in
    let wanted = should || s.reconnect_demand in
    elim (Option-cases (connecting s)) [
      | inr (g, found) ↦
          let (runs, mine) = connecting-found g s h found in
          rw same (
            rw (handle_transport_closed, found)
              (
                fail_attempt-IsOrdered g (some wanted) s h,
                fail_attempt-IsRecovering g (some wanted) s h runs mine
                    (λ had. ground (arith, had)),
              ))
      | inl nobody ↦
          let idles = connecting-none s h nobody in
          let queued : Connection = record (reset_peer_state s) {
            reconnect_demand = true;
            recoveries = suc s.recoveries;
          } in
          let ordered : s.disconnected ≡ false → IsOrdered queued = λ alive.
            unfold reset_peer_state in
            record {
              phase = inl idles;
              ended = λ over. absurd (cc (over, alive));
              delay = λ d set. (refl, (h.delay d set).1, (h.delay d set).2);
              once = h.once;
            } in
          let recovering : IsRecovering queued =
            unfold reset_peer_state in
            record { shut = λ had nothing. refl; going = λ had. ground arith } in
          rw same (
            rw (handle_transport_closed, nobody)
              (
                if_split IsOrdered (not s.disconnected && wanted)
                    (λ go. ordered (ground (arith, go))) (λ stay. reset_peer_state-IsOrdered s h),
                if_split IsRecovering (not s.disconnected && wanted) (λ go. recovering)
                    (λ stay.
                      unfold reset_peer_state in
                      record {
                        shut = λ had nothing. refl;
                        going = λ had. absurd (elim (Bool-cases s.disconnected) [
                          | inl over ↦ ground (arith, had, (h.ended over).1)
                          | inr alive ↦ ground (arith, stay, had, alive)
                        ]);
                      }),
              ))
    ]

capture-IsOrdered : (s : Connection) → IsOrdered s → IsOrdered (capture_reconnect_demand s).0
unfolding capture_reconnect_demand
capture-IsOrdered s h = record {
  phase = h.phase;
  ended = λ over. ((h.ended over).0, ground (arith, over, (h.ended over).1));
  delay = λ d set. (ground (arith, (h.delay d set).0), (h.delay d set).1, (h.delay d set).2);
  once = h.once;
}

abbrev pub Both : Connection → Type 0
Both s = IsOrdered s × IsRecovering s

-- A loss that is captured first.
captured-Both :
    (s : Connection)
    → IsOrdered s
    → Both (
        handle_transport_closed
          (capture_reconnect_demand s).1
          s.peer_generation
          (capture_reconnect_demand s).0)
captured-Both s h =
    let kept : (capture_reconnect_demand s).0.peer_generation ≡ s.peer_generation =
      unfold capture_reconnect_demand in refl in
    unfold capture_reconnect_demand in handle_transport_closed-Both _ _ (capture-IsOrdered s h)

pub channel_lost-Both : (g : ℕ) (s : Connection) → Both s → Both (channel_lost g s)
unfolding channel_lost
channel_lost-Both g s h =
    if_split Both (not (g == s.peer_generation && opt_beq s.data_channel (some g))) (λ stale. h)
      (λ current.
        let mine : g ≡ s.peer_generation =
          ground (arith, current, nat_beq_iff g s.peer_generation) in
        rw mine (captured-Both s h.0))

pub fail_peer_generation-Both : (g : ℕ) (s : Connection) → Both s → Both (fail_peer_generation g s)
unfolding fail_peer_generation
fail_peer_generation-Both g s h =
    let failed : Connection = record s { peer_failed = true } in
    let ordered : IsOrdered failed = record {
      phase = h.0.phase;
      ended = h.0.ended;
      delay = h.0.delay;
      once = h.0.once;
    } in
    if_split Both (not (g == s.peer_generation) || s.peer_failed) (λ stale. h)
      (λ current.
        let mine : g ≡ s.peer_generation =
          ground (arith, current, nat_beq_iff g s.peer_generation) in
        rw mine (captured-Both failed ordered))
