-- ===== src/Daemon/Slots/Sound.antt =====
-- The accounting of the request slots of src/botster/webrtcDaemonClient.ts.
use botster_web.Common.{
  ℕ, suc, ◌+◌, ◌≤◌, ◌<◌, ◌≡◌, true, false, ◌&&◌, some, List, [], ◌∷◌, ltb, leb, ◌==◌, nat_eq,
  length, arith, Bool-cases, inl, inr, nat_beq_iff, Option-cases, length-append,
}
use botster_web.Common.Maps.{lookup, insert}
use botster_web.Daemon.Slots.{
  RequestSlot, SlotWaiter, SlotAnswer, granted, cancelled, queue_full, SlotTable,
  reserved_slot_count, count_down, answer, reserve_slot, grant_from, grant_waiting_slot, release,
  acquire_request_slot, max_outstanding_requests, max_waiting_requests,
}
use botster_web.Daemon.Slots.Counting.{
  tick, open_slots, times_waiting, times_answered, times_waiting-append, open_slots-release,
  reserved_slot_count-insert, reserved_slot_count-count_down,
}

-- The count of each generation is that of its open slots, at most 32.
pub record IsCounted (reserved : List (ℕ × ℕ)) (slots : List (ℕ × RequestSlot)) : Type 0 where
  pub exact : (g : ℕ) → reserved_slot_count reserved g ≡ open_slots g slots
  pub bounded : (g : ℕ) → reserved_slot_count reserved g ≤ max_outstanding_requests

-- At most 256 callers wait; each caller so far waits or has its one answer, and not both.
pub record IsQueued (waiters : List SlotWaiter) (answers : List (ℕ × SlotAnswer)) (next_caller : ℕ)
    : Type 0 where
  pub few : length waiters ≤ max_waiting_requests
  pub once : (c : ℕ) → times_waiting c waiters + times_answered c answers ≡ tick (ltb c next_caller)

pub record IsSound (t : SlotTable) : Type 0 where
  pub counted : IsCounted t.reserved_slots t.slots
  pub queued : IsQueued t.request_slot_waiters t.answers t.next_caller

reserve_slot-IsCounted :
    (caller generation : ℕ) (reserved : List (ℕ × ℕ)) (slots : List (ℕ × RequestSlot))
    → IsCounted reserved slots
    → reserved_slot_count reserved generation < max_outstanding_requests
    → IsCounted
        (insert generation (suc (reserved_slot_count reserved generation)) reserved)
        ((caller, record { generation = generation; released = false }) ∷ slots)
unfolding open_slots
reserve_slot-IsCounted caller generation reserved slots h room =
    let count = suc (reserved_slot_count reserved generation) in
    record {
      exact = λ g. ground (
        arith,
        h.exact g,
        nat_beq_iff generation g,
        reserved_slot_count-insert g generation count reserved,
      );
      bounded = λ g.
          ground (arith, h.bounded g, room, reserved_slot_count-insert g generation count reserved);
    }

count_down-IsCounted :
    (caller : ℕ) (slot : RequestSlot) (reserved : List (ℕ × ℕ)) (slots : List (ℕ × RequestSlot))
    → lookup caller slots ≡ some slot
    → slot.released ≡ false
    → IsCounted reserved slots
    → IsCounted
        (count_down slot.generation reserved)
        (insert caller (record slot { released = true }) slots)
count_down-IsCounted caller slot reserved slots found unreleased h = record {
  exact = λ g. omega (
    arith,
    h.exact g,
    reserved_slot_count-count_down g slot.generation reserved,
    open_slots-release g caller slot slots found unreleased,
  );
  bounded =
      λ g. omega (arith, h.bounded g, reserved_slot_count-count_down g slot.generation reserved);
}

-- A waiter that leaves the queue for its answer.
answer-IsQueued :
    (w : SlotWaiter) (a : SlotAnswer) (ws : List SlotWaiter) (answers : List (ℕ × SlotAnswer))
    (next_caller : ℕ)
    → IsQueued (w ∷ ws) answers next_caller
    → IsQueued ws ((w.caller, a) ∷ answers) next_caller
unfolding times_waiting times_answered
answer-IsQueued w a ws answers next_caller h = record {
  few = omega (arith, h.few);
  once = λ c. omega (arith, h.once c);
}

pub grant_from-IsSound :
    (ws : List SlotWaiter) (t : SlotTable)
    → IsCounted t.reserved_slots t.slots
    → IsQueued ws t.answers t.next_caller
    → IsSound (grant_from ws t)
unfolding grant_from reserve_slot
grant_from-IsSound [] t counted queued = record { counted = counted; queued = queued }
grant_from-IsSound (w ∷ ws) t counted queued =
    elim (Bool-cases (w.generation == t.peer_generation)) [
      | inl current ↦
          elim (Bool-cases
            (leb max_outstanding_requests (reserved_slot_count t.reserved_slots w.generation))) [
              | inl full ↦ rw current (rw full (record { counted = counted; queued = queued }))
              | inr room ↦ rw current (
                  rw room (record {
                    counted =
                        reserve_slot-IsCounted w.caller w.generation t.reserved_slots t.slots
                          counted (ground (arith, room));
                    queued =
                        answer-IsQueued w (granted w.generation) ws t.answers t.next_caller queued;
                  }))
            ]
      | inr stale ↦ rw stale (
          grant_from-IsSound ws (answer w.caller cancelled t) counted
            (answer-IsQueued w cancelled ws t.answers t.next_caller queued))
    ]

pub release-IsSound : (caller : ℕ) (t : SlotTable) → IsSound t → IsSound (release caller t)
unfolding release grant_waiting_slot
release-IsSound caller t h = elim (Option-cases (lookup caller t.slots)) [
  | inl missing ↦ rw (release, missing) h
  | inr (slot, found) ↦ elim (Bool-cases slot.released) [
    | inl released ↦ rw (release, found) (rw released h)
    | inr unreleased ↦
        rw (release, found)
          (rw unreleased (
            grant_from-IsSound t.request_slot_waiters _
              (count_down-IsCounted caller slot t.reserved_slots t.slots found unreleased h.counted)
              h.queued))
  ]
]

-- The next caller, answered at once or put in the queue.
new_answer-IsQueued :
    (a : SlotAnswer) (ws : List SlotWaiter) (answers : List (ℕ × SlotAnswer)) (next_caller : ℕ)
    → IsQueued ws answers next_caller
    → IsQueued ws ((next_caller, a) ∷ answers) (suc next_caller)
unfolding times_answered
new_answer-IsQueued a ws answers next_caller h = record {
  few = h.few;
  once = λ c. ground (arith, h.once c);
}

pub acquire_request_slot-IsSound :
    (generation : ℕ) (t : SlotTable) → IsSound t → IsSound (acquire_request_slot generation t)
unfolding acquire_request_slot reserve_slot times_waiting
acquire_request_slot-IsSound generation t h =
    let immediate =
      leb (length t.request_slot_waiters) 0
      && ltb (reserved_slot_count t.reserved_slots generation) max_outstanding_requests in
    elim (Bool-cases immediate) [
      | inl free ↦ rw free (record {
        counted =
            reserve_slot-IsCounted t.next_caller generation t.reserved_slots t.slots h.counted
              (ground (arith, free));
        queued =
            new_answer-IsQueued (granted generation) t.request_slot_waiters t.answers t.next_caller
              h.queued;
      })
      | inr busy ↦ elim (Bool-cases (leb max_waiting_requests (length t.request_slot_waiters))) [
        | inl full ↦ rw busy (
            rw full (record {
              counted = h.counted;
              queued =
                  new_answer-IsQueued queue_full t.request_slot_waiters t.answers t.next_caller
                    h.queued;
            }))
        | inr room ↦
            let mine : SlotWaiter = record { caller = t.next_caller; generation = generation } in
            rw busy (
              rw room (record {
                counted = h.counted;
                queued = record {
                  few = ground (arith, room, length-append t.request_slot_waiters (mine ∷ []));
                  once = λ c. ground (
                    arith,
                    h.queued.once c,
                    times_waiting-append c t.request_slot_waiters (mine ∷ []),
                  );
                };
              }))
      ]
    ]
