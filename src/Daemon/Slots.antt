-- ===== src/Daemon/Slots.antt =====
-- The slots for outstanding host-control requests, in src/botster/webrtcDaemonClient.ts: at most 32
-- per connection generation, and a bounded queue of the callers that wait for one. A caller is
-- numbered in the order of its request; the promise it holds is its first entry in `answers`.
pub mod Counting
pub mod Sound
pub mod Cancelling
pub mod History
pub mod Progress
use botster_web.Common.{
  ℕ, suc, ◌+◌, ◌-◌, Bool, true, false, not, ◌&&◌, Option, none, some, List, [], ◌∷◌, ◌++◌, ltb, leb,
  ◌==◌, nat_eq, if◌then◌else◌, get_or, length, filter,
}
use botster_web.Common.Maps.{lookup, insert, delete}

abbrev pub max_outstanding_requests : ℕ
max_outstanding_requests = 32

abbrev pub max_waiting_requests : ℕ
max_waiting_requests = 256

-- `released` is the flag that the closure of `reserveSlot` keeps.
pub record RequestSlot : Type 0 where
  pub generation : ℕ
  pub released : Bool

pub record SlotWaiter : Type 0 where
  pub caller : ℕ
  pub generation : ℕ

-- How the promise of a caller settles.
pub data SlotAnswer : Type 0 where
  granted : ℕ → SlotAnswer
  cancelled queue_full : SlotAnswer

-- `slots` holds each slot handed out, by its caller.
pub record SlotTable : Type 0 where
  pub peer_generation : ℕ
  pub next_caller : ℕ
  pub reserved_slots : List (ℕ × ℕ)
  pub request_slot_waiters : List SlotWaiter
  pub slots : List (ℕ × RequestSlot)
  pub answers : List (ℕ × SlotAnswer)

unfoldable pub new_table : SlotTable
new_table = record {
  peer_generation = 0;
  next_caller = 0;
  reserved_slots = [];
  request_slot_waiters = [];
  slots = [];
  answers = [];
}

unfoldable pub reserved_slot_count : List (ℕ × ℕ) → ℕ → ℕ
reserved_slot_count reserved generation = get_or (lookup generation reserved) 0

abbrev pub answer : ℕ → SlotAnswer → SlotTable → SlotTable
answer caller a t = record t { answers = (caller, a) ∷ t.answers }

-- `reserveSlot`, and the promise of the caller resolved with the slot.
unfoldable pub reserve_slot : ℕ → ℕ → SlotTable → SlotTable
reserve_slot caller generation t = record t {
  reserved_slots =
      insert generation (suc (reserved_slot_count t.reserved_slots generation)) t.reserved_slots;
  slots = (caller, record { generation = generation; released = false }) ∷ t.slots;
  answers = (caller, granted generation) ∷ t.answers;
}

-- The loop of `grantWaitingSlot` over the waiters that are left.
unfoldable pub grant_from : List SlotWaiter → SlotTable → SlotTable
grant_from [] t = record t { request_slot_waiters = [] }
grant_from (w ∷ ws) t =
    let next = grant_from ws (answer w.caller cancelled t) in
    if not (w.generation == t.peer_generation)
    then next
    else if leb max_outstanding_requests (reserved_slot_count t.reserved_slots w.generation)
    then record t { request_slot_waiters = w ∷ ws }
    else reserve_slot w.caller w.generation (record t { request_slot_waiters = ws })

unfoldable pub grant_waiting_slot : SlotTable → SlotTable
grant_waiting_slot t = grant_from t.request_slot_waiters t

-- The count of a generation after one release; a count of 0 is not kept.
unfoldable pub count_down : ℕ → List (ℕ × ℕ) → List (ℕ × ℕ)
count_down generation reserved =
    let remaining = reserved_slot_count reserved generation - 1 in
    if leb remaining 0 then delete generation reserved else insert generation remaining reserved

-- `release` of the slot that a caller holds.
unfoldable pub release : ℕ → SlotTable → SlotTable
release caller t = elim (lookup caller t.slots) [
  | none ↦ t
  | some slot ↦
      if slot.released
      then t
      else grant_waiting_slot (record t {
        reserved_slots = count_down slot.generation t.reserved_slots;
        slots = insert caller (record slot { released = true }) t.slots;
      })
]

-- The next caller asks for a slot of a generation.
unfoldable pub acquire_request_slot : ℕ → SlotTable → SlotTable
acquire_request_slot generation t =
    let caller = t.next_caller in
    let t' : SlotTable = record t { next_caller = suc caller } in
    if leb (length t.request_slot_waiters) 0
      && ltb (reserved_slot_count t.reserved_slots generation) max_outstanding_requests
    then reserve_slot caller generation t'
    else if leb max_waiting_requests (length t.request_slot_waiters)
    then answer caller queue_full t'
    else record t' {
      request_slot_waiters =
          t.request_slot_waiters ++ record { caller = caller; generation = generation } ∷ [];
    }

-- `generation === undefined || waiter.generation === generation`
unfoldable pub is_addressed : Option ℕ → ℕ → Bool
is_addressed none generation = true
is_addressed (some asked) generation = generation == asked

unfoldable pub cancel_from : Option ℕ → List SlotWaiter → SlotTable → SlotTable
cancel_from asked [] t = t
cancel_from asked (w ∷ ws) t =
    cancel_from asked ws
      (if is_addressed asked w.generation then answer w.caller cancelled t else t)

unfoldable pub cancel_request_slot_waiters : Option ℕ → SlotTable → SlotTable
cancel_request_slot_waiters asked t = record (cancel_from asked t.request_slot_waiters t) {
  request_slot_waiters = filter (λ w. not (is_addressed asked w.generation)) t.request_slot_waiters;
}

-- What happens to the table: a request, the release of a slot, the slots' part of `failPending`, and
-- the generation of a new attempt.
pub data SlotEvent : Type 0 where
  wanted : ℕ → SlotEvent
  freed : ℕ → SlotEvent
  failed : Option ℕ → SlotEvent
  renewed : SlotEvent

unfoldable pub slot_event : SlotEvent → SlotTable → SlotTable
slot_event (wanted generation) t = acquire_request_slot generation t
slot_event (freed caller) t = release caller t
slot_event (failed generation) t = cancel_request_slot_waiters generation t
slot_event renewed t = record t { peer_generation = suc t.peer_generation }

unfoldable pub slot_history : List SlotEvent → SlotTable → SlotTable
slot_history [] t = t
slot_history (e ∷ es) t = slot_history es (slot_event e t)
