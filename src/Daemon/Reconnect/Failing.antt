-- ===== src/Daemon/Reconnect/Failing.antt =====
-- Attempts that end and connections that are lost, for src/botster/webrtcDaemonClient.ts.
use botster_web.Common.{
  ℕ, suc, ◌≡◌, refl, inl, Bool, true, false, not, ◌&&◌, ◌||◌, Option, none, some, nat_eq, is_some,
  get_or, arith, eq_self, if_split,
}
use botster_web.Daemon.Reconnect.{
  Connection, complete_attempt, fail_attempt, fail_owner, owns_attempt, retry_delay, has_generation,
  reset_peer_state, cancel_retry_timer, settle_attempt, drop_promise, schedule_retry,
  close_attempt_resources,
}
use botster_web.Daemon.Reconnect.Run.{IsIdle, IsConnecting, IsOrdered, IsRecovering}
use botster_web.Daemon.Reconnect.Coherent.{unsettled-current, settled-once}

settled-IsIdle :
    (g : ℕ) (resolved : Bool) (s : Connection)
    → IsOrdered s
    → IsConnecting s
    → g ≡ s.peer_generation
    → IsIdle (drop_promise g (settle_attempt g resolved s))
unfolding drop_promise settle_attempt
settled-IsIdle g resolved s h runs mine =
    let (gone, once) = settled-once g resolved s h runs mine in
    (gone, ground (arith, runs.1, mine, eq_self g))

-- The client once its one attempt has settled.
settled-IsOrdered :
    (g : ℕ) (resolved : Bool) (s : Connection)
    → IsOrdered s
    → IsConnecting s
    → g ≡ s.peer_generation
    → IsOrdered (drop_promise g (settle_attempt g resolved s))
unfolding drop_promise settle_attempt
settled-IsOrdered g resolved s h runs mine =
    let (gone, once) = settled-once g resolved s h runs mine in
    record {
      phase = inl (settled-IsIdle g resolved s h runs mine);
      ended = h.ended;
      delay = h.delay;
      once = λ k. ground (arith, once k, gone);
    }

pub complete_attempt-IsOrdered :
    (g : ℕ) (s : Connection) → IsOrdered s → IsOrdered (complete_attempt g s)
unfolding complete_attempt cancel_retry_timer
complete_attempt-IsOrdered g s h =
    if_split IsOrdered (not (has_generation g s.unsettled)) (λ unknown. h)
      (λ known.
        let (runs, mine) = unsettled-current g s h (ground (arith, known)) in
        let k = settled-IsOrdered g true s h runs mine in
        let settled = drop_promise g (settle_attempt g true s) in
        let owned : IsOrdered
            (cancel_retry_timer (record settled { retry_attempt = 0; reconnect_demand = false })) =
          record {
            phase = inl (settled-IsIdle g true s h runs mine);
            ended = λ over. (refl, refl);
            delay = λ d set. absurd (cc (set));
            once = k.once;
          } in
        if_split IsOrdered (owns_attempt g s) (λ owner. owned) (λ stranger. k))

-- With demand, the retry is scheduled; without, or after a disconnect, it is not.
fail_owner-IsOrdered :
    (g : ℕ) (demand : Bool) (s : Connection)
    → IsOrdered s
    → IsConnecting s
    → g ≡ s.peer_generation
    → IsOrdered (fail_owner g demand (settle_attempt g false s))
unfolding fail_owner reset_peer_state close_attempt_resources drop_promise settle_attempt
    schedule_retry
fail_owner-IsOrdered g demand s h runs mine =
    let (gone, once) = settled-once g false s h runs mine in
    let freed : (drop_promise g s).connect_promise ≡ none =
      ground (arith, runs.1, mine, eq_self g) in
    let closed = close_attempt_resources g (
      reset_peer_state
        (drop_promise g (record (settle_attempt g false s) { current_attempt = none }))) in
    let ordered : IsOrdered closed = record {
      phase = inl (gone, freed);
      ended = h.ended;
      delay = h.delay;
      once = λ k. ground (arith, once k, gone);
    } in
    let retrying : IsOrdered (record closed {
      reconnect_demand = true;
      retry_attempt = suc s.retry_attempt;
      retry_timer = some (retry_delay (suc s.retry_attempt));
    }) =
      record {
        phase = inl (gone, freed);
        ended = λ over. absurd (cc (over, runs.3));
        delay = λ d set. (refl, omega arith, ground (arith, set));
        once = λ k. ground (arith, once k, gone);
      } in
    if_split IsOrdered (demand && not s.disconnected)
      (λ wanted.
        if_split IsOrdered (is_some s.retry_timer || s.disconnected)
          (λ held. absurd (ground (arith, held, runs.3, runs.4))) (λ free. retrying))
      (λ unwanted. ordered)

-- The demand that an attempt fails with is at least the one there is.
fail_owner-IsRecovering :
    (g : ℕ) (demand : Bool) (s : Connection)
    → IsConnecting s
    → (s.reconnect_demand ≡ true → demand ≡ true)
    → IsRecovering (fail_owner g demand (settle_attempt g false s))
unfolding fail_owner reset_peer_state close_attempt_resources drop_promise settle_attempt
    schedule_retry
fail_owner-IsRecovering g demand s runs stays =
    let closed = close_attempt_resources g (
      reset_peer_state
        (drop_promise g (record (settle_attempt g false s) { current_attempt = none }))) in
    let retrying : IsRecovering (record closed {
      reconnect_demand = true;
      retry_attempt = suc s.retry_attempt;
      retry_timer = some (retry_delay (suc s.retry_attempt));
    }) =
      record { shut = λ wanted nothing. refl; going = λ wanted. refl } in
    if_split IsRecovering (demand && not s.disconnected)
      (λ wanted.
        if_split IsRecovering (is_some s.retry_timer || s.disconnected)
          (λ held. absurd (ground (arith, held, runs.3, runs.4))) (λ free. retrying))
      (λ unwanted. record {
        shut = λ wanted nothing. refl;
        going = λ wanted. absurd (ground (arith, unwanted, runs.3, stays wanted));
      })

owns_attempt-connecting :
    (g : ℕ) (s : Connection) → IsConnecting s → g ≡ s.peer_generation → owns_attempt g s ≡ true
unfolding owns_attempt
owns_attempt-connecting g s runs mine = ground (arith, runs.2, runs.3, mine, eq_self g)

pub fail_attempt-IsOrdered :
    (g : ℕ) (override : Option Bool) (s : Connection)
    → IsOrdered s
    → IsOrdered (fail_attempt g override s)
unfolding fail_attempt
fail_attempt-IsOrdered g override s h =
    if_split IsOrdered (not (has_generation g s.unsettled)) (λ unknown. h)
      (λ known.
        let (runs, mine) = unsettled-current g s h (ground (arith, known)) in
        let owner = owns_attempt-connecting g s runs mine in
        if_split IsOrdered (owns_attempt g s) (λ mine'. fail_owner-IsOrdered g _ s h runs mine)
          (λ stranger. absurd (cc (owner, stranger))))

pub fail_attempt-IsRecovering :
    (g : ℕ) (override : Option Bool) (s : Connection)
    → IsOrdered s
    → IsConnecting s
    → g ≡ s.peer_generation
    → (s.reconnect_demand ≡ true → get_or override (s.reconnect_demand || s.demanded) ≡ true)
    → IsRecovering (fail_attempt g override s)
unfolding fail_attempt
fail_attempt-IsRecovering g override s h runs mine stays =
    let owner = owns_attempt-connecting g s runs mine in
    let live : has_generation g s.unsettled ≡ true =
      unfold has_generation in ground (arith, runs.0, mine, eq_self g) in
    if_split IsRecovering (not (has_generation g s.unsettled))
      (λ unknown. absurd (ground (arith, unknown, live)))
      (λ known.
        if_split IsRecovering (owns_attempt g s) (λ mine'. fail_owner-IsRecovering g _ s runs stays)
          (λ stranger. absurd (cc (owner, stranger))))
