-- ===== src/Daemon/Slots/Cancelling.antt =====
-- Callers whose wait for a request slot is cancelled, in src/botster/webrtcDaemonClient.ts.
use botster_web.Common.{
  ℕ, ◌+◌, ◌≡◌, refl, not, Option, List, [], ◌∷◌, nat_eq, filter, arith, Bool-cases, inl, inr, ap,
}
use botster_web.Daemon.Slots.{SlotWaiter, cancelled, SlotTable, answer, is_addressed, cancel_from}
use botster_web.Daemon.Slots.Counting.{times_waiting, times_answered}

-- What a cancellation leaves: the callers it answers are those it takes from the queue.
pub cancel_from-answers :
    (asked : Option ℕ) (c : ℕ) (ws : List SlotWaiter) (t : SlotTable)
    → times_waiting c (filter (λ w. not (is_addressed asked w.generation)) ws)
        + times_answered c (cancel_from asked ws t).answers
      ≡ times_waiting c ws + times_answered c t.answers
unfolding cancel_from times_waiting times_answered filter
cancel_from-answers asked c [] t = refl
cancel_from-answers asked c (w ∷ ws) t = elim (Bool-cases (is_addressed asked w.generation)) [
  | inl addressed ↦
      rw (cancel_from, addressed)
        (omega (arith, cancel_from-answers asked c ws (answer w.caller cancelled t)))
  | inr other ↦ rw (cancel_from, other) (omega (arith, cancel_from-answers asked c ws t))
]

pub cancel_from-same :
    (asked : Option ℕ) (ws : List SlotWaiter) (t : SlotTable)
    → record (cancel_from asked ws t) { answers = t.answers } ≡ t
unfolding cancel_from
cancel_from-same asked [] t = refl
cancel_from-same asked (w ∷ ws) t = elim (Bool-cases (is_addressed asked w.generation)) [
  | inl addressed ↦
      rw (cancel_from, addressed)
        (ap (λ (u : SlotTable). record u { answers = t.answers })
          (cancel_from-same asked ws (answer w.caller cancelled t)))
  | inr other ↦ rw (cancel_from, other) (cancel_from-same asked ws t)
]
