-- ===== src/Daemon/Slots/Progress.antt =====
-- Who waits for a request slot, and until when, in src/botster/webrtcDaemonClient.ts.
use botster_web.Common.{
  ℕ, ◌<◌, ◌≡◌, refl, true, false, some, List, [], ◌∷◌, ◌++◌, leb, ◌==◌, nat_eq, arith, nat_beq_iff,
  All, ap,
}
use botster_web.Common.Maps.{lookup, insert}
use botster_web.Daemon.Slots.{
  RequestSlot, SlotWaiter, SlotAnswer, granted, cancelled, SlotTable, reserved_slot_count,
  count_down, answer, reserve_slot, grant_from, grant_waiting_slot, release,
  max_outstanding_requests,
}
use botster_web.Daemon.Slots.Counting.{reserved_slot_count-count_down}
use botster_web.Daemon.Slots.Sound.{IsSound}

-- The answers once these callers are cancelled, first to last.
abbrev pub cancellations : List SlotWaiter → List (ℕ × SlotAnswer) → List (ℕ × SlotAnswer)
cancellations [] answers = answers
cancellations (v ∷ stale) answers = cancellations stale ((v.caller, cancelled) ∷ answers)

-- The waiters of other generations in front are cancelled, and the first of the current one is
-- granted a slot, where there is room.
grant_from-first :
    (stale : List SlotWaiter) (w : SlotWaiter) (ws : List SlotWaiter) (t : SlotTable)
    → All (λ v. (v.generation == t.peer_generation) ≡ false) stale
    → w.generation ≡ t.peer_generation
    → reserved_slot_count t.reserved_slots w.generation < max_outstanding_requests
    → grant_from (stale ++ w ∷ ws) t
      ≡ reserve_slot w.caller w.generation
          (record t { request_slot_waiters = ws; answers = cancellations stale t.answers })
unfolding grant_from
grant_from-first [] w ws t old current room =
    rw ((nat_beq_iff w.generation t.peer_generation).1 current)
      (rw (not_full (reserved_slot_count t.reserved_slots w.generation) room) refl)
  where
    not_full : (n : ℕ) → n < max_outstanding_requests → leb max_outstanding_requests n ≡ false
    not_full n h = ground arith
grant_from-first (v ∷ stale) w ws t old current room =
    rw old.0 (grant_from-first stale w ws (answer v.caller cancelled t) old.1 current room)

-- In a sound table, the release of an open slot of the current generation gives a slot to the first
-- waiter of that generation; the waiters of other generations in front of it are cancelled, in order,
-- and the waiters behind it stay.
pub release-grants :
    (caller : ℕ) (slot : RequestSlot) (stale : List SlotWaiter) (w : SlotWaiter)
    (ws : List SlotWaiter) (t : SlotTable)
    → IsSound t
    → lookup caller t.slots ≡ some slot
    → slot.released ≡ false
    → slot.generation ≡ t.peer_generation
    → t.request_slot_waiters ≡ stale ++ w ∷ ws
    → All (λ v. (v.generation == t.peer_generation) ≡ false) stale
    → w.generation ≡ t.peer_generation
    → ((release caller t).request_slot_waiters ≡ ws)
      × ((release caller t).answers
          ≡ (w.caller, granted w.generation) ∷ cancellations stale t.answers)
unfolding release grant_waiting_slot
release-grants caller slot stale w ws t h found unreleased mine waiters old current =
    let after : SlotTable = record t {
      reserved_slots = count_down slot.generation t.reserved_slots;
      slots = insert caller (record slot { released = true }) t.slots;
    } in
    let room : reserved_slot_count after.reserved_slots w.generation < max_outstanding_requests =
      ground (
        arith,
        h.counted.bounded w.generation,
        reserved_slot_count-count_down w.generation slot.generation t.reserved_slots,
        nat_beq_iff slot.generation w.generation,
      ) in
    let ends : release caller t
        ≡ reserve_slot w.caller w.generation
            (record after { request_slot_waiters = ws; answers = cancellations stale t.answers }) =
      rw (release, found)
        (rw unreleased (
          rw waiters (
            grant_from-first stale w ws (record after { request_slot_waiters = stale ++ w ∷ ws })
              old current room))) in
    unfold reserve_slot in
    (ap (λ (u : SlotTable). u.request_slot_waiters) ends, ap (λ (u : SlotTable). u.answers) ends)
