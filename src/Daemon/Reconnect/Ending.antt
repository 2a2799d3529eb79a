-- ===== src/Daemon/Reconnect/Ending.antt =====
-- Ends of attempts, timers and disconnects, for src/botster/webrtcDaemonClient.ts.
use botster_web.Common.{
  ℕ, ◌+◌, ◌-◌, ◌≡◌, refl, sym, ap, ◌∙◌, inl, inr, true, false, not, ◌&&◌, ◌||◌, none, some, [], ltb,
  leb, nat_eq, is_some, opt_beq, arith, Bool-cases, Option-cases, eq_self, if_split,
}
use botster_web.Daemon.Reconnect.{
  Connection, connect, complete_attempt, owns_attempt, recover_connection, disconnect,
  has_generation, reset_peer_state, cancel_retry_timer, settle_attempt, drop_promise,
  close_attempt_resources, reject_current,
}
use botster_web.Daemon.Reconnect.Run.{
  fire_retry, run_recovery, IsOrdered, IsRecovering, tick, times, times_settled,
}
use botster_web.Daemon.Reconnect.Coherent.{unsettled-current, settled-once}
use botster_web.Daemon.Reconnect.Coherent.{connect-IsOrdered, start_attempt-IsRecovering}
use botster_web.Daemon.Reconnect.Lost.{Both}

-- Without demand there is nothing to recover.
content : (s : Connection) → s.reconnect_demand ≡ false → IsRecovering s
content s nothing = record {
  shut = λ had free. absurd (cc (had, nothing));
  going = λ had. absurd (cc (had, nothing));
}

pub complete_attempt-IsRecovering :
    (g : ℕ) (s : Connection) → Both s → IsRecovering (complete_attempt g s)
unfolding complete_attempt owns_attempt
complete_attempt-IsRecovering g s h =
    let owned : Connection = cancel_retry_timer (record (drop_promise g (settle_attempt g true s)) {
      retry_attempt = 0;
      reconnect_demand = false;
    }) in
    if_split IsRecovering (not (has_generation g s.unsettled)) (λ unknown. h.1)
      (λ known.
        let (runs, mine) = unsettled-current g s h.0 (ground (arith, known)) in
        if_split IsRecovering (owns_attempt g s)
          (λ owner. content owned (unfold cancel_retry_timer in refl))
          (λ stranger. absurd (ground (arith, stranger, runs.2, runs.3, mine, eq_self g))))

-- Every attempt of `s` is settled.
abbrev IsSettled : Connection → Connection → Type 0
IsSettled s t =
    (t.unsettled ≡ [])
    × ((g : ℕ)
        → times g t.unsettled + times_settled g t.outcomes
          ≡ tick (ltb 0 g && leb g s.peer_generation))
    × (t.peer_generation ≡ s.peer_generation)

rejected : (s : Connection) → IsOrdered s → IsSettled s (reject_current s)
unfolding reject_current settle_attempt close_attempt_resources
rejected s h = elim h.phase [
  | inr runs ↦
      let live : has_generation s.peer_generation s.unsettled ≡ true =
        unfold has_generation in ground (arith, runs.0, eq_self s.peer_generation) in
      let (gone, once) = settled-once s.peer_generation false s h runs refl in
      let ends : IsSettled s (settle_attempt s.peer_generation false s) =
        (gone, (λ g. ground (arith, once g, gone)), refl) in
      rw (reject_current, runs.2)
        (rw live (
          if_split (IsSettled s) (opt_beq s.data_channel (some s.peer_generation)) (λ mine. ends)
            (λ other. ends)))
  | inl rests ↦ elim (Option-cases s.current_attempt) [
    | inl nobody ↦ rw (reject_current, nobody) (rests.0, h.once, refl)
    | inr (c, mine) ↦
        let settled : has_generation c s.unsettled ≡ false =
          unfold has_generation in ground (arith, rests.0) in
        rw (reject_current, mine) (rw settled (rests.0, h.once, refl))
  ]
]

pub disconnect-Both : (s : Connection) → Both s → Both (disconnect s)
unfolding disconnect reset_peer_state
disconnect-Both s h =
    let (gone, once, same) = rejected s h.0 in
    (
      record {
        phase = inl (gone, refl);
        ended = λ over. (refl, refl);
        delay = λ d set. absurd (cc (set));
        once = λ g. once g ∙ ap (λ n. tick (ltb 0 g && leb g n)) (sym same);
      },
      record { shut = λ had nothing. refl; going = λ had. absurd (cc (had)) },
    )

-- Connecting restores what demand implies, where nothing waits.
connect-restores :
    (s : Connection)
    → (s.reconnect_demand ≡ true → s.connect_promise ≡ none → s.channel_open ≡ false)
    → s.disconnected ≡ false
    → IsRecovering (connect s)
unfolding connect
connect-restores s shut alive =
    if_split IsRecovering s.disconnected (λ over. absurd (cc (over, alive)))
      (λ alive'.
        if_split IsRecovering (s.channel_open && s.encrypted_stream_ready)
          (λ ready. record {
            shut = shut;
            going = λ had. elim (Option-cases s.connect_promise) [
              | inl nothing ↦ absurd (ground (arith, ready, shut had nothing))
              | inr (g, runs) ↦ ground (arith, runs)
            ];
          })
          (λ waits.
            if_split IsRecovering (is_some s.connect_promise)
              (λ runs. record { shut = shut; going = λ had. ground (arith, runs) })
              (λ nothing. start_attempt-IsRecovering (cancel_retry_timer s))))

pub fire_retry-Both : (s : Connection) → Both s → Both (fire_retry s)
unfolding fire_retry
fire_retry-Both s h =
    let fired : Connection = record s { retry_timer = none } in
    let ordered : IsOrdered fired = record {
      phase = elim h.0.phase [
        | inl rests ↦ inl rests
        | inr runs ↦ inr (runs.0, runs.1, runs.2, runs.3, refl)
      ];
      ended = λ over. (refl, (h.0.ended over).1);
      delay = λ d set. absurd (cc (set));
      once = h.0.once;
    } in
    if_split Both (not (is_some s.retry_timer)) (λ unset. h)
      (λ set. elim (Option-cases s.retry_timer) [
        | inl unset ↦ absurd (ground (arith, set, unset))
        | inr (d, timer) ↦
            let had = (h.0.delay d timer).0 in
            if_split Both (s.disconnected || not s.reconnect_demand)
              (λ stop. absurd (elim (Bool-cases s.disconnected) [
                | inl over ↦ cc ((h.0.ended over).0, timer)
                | inr alive ↦ ground (arith, stop, alive, had)
              ]))
              (λ go. (
                connect-IsOrdered fired ordered,
                connect-restores fired h.1.shut (ground (arith, go)),
              ))
      ])

pub run_recovery-Both : (s : Connection) → Both s → Both (run_recovery s)
unfolding run_recovery recover_connection
run_recovery-Both s h =
    let begun : Connection = record s { recoveries = s.recoveries - 1 } in
    let ordered : IsOrdered begun = record {
      phase = h.0.phase;
      ended = h.0.ended;
      delay = h.0.delay;
      once = h.0.once;
    } in
    if_split Both (leb s.recoveries 0) (λ nothing. h)
      (λ queued.
        if_split Both (s.disconnected || not s.reconnect_demand)
          (λ stop. (
            ordered,
            content begun (elim (Bool-cases s.disconnected) [
              | inl over ↦ (h.0.ended over).1
              | inr alive ↦ ground (arith, stop, alive)
            ]),
          ))
          (λ go. (
            connect-IsOrdered begun ordered,
            connect-restores begun h.1.shut (ground (arith, go)),
          )))
