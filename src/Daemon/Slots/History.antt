-- ===== src/Daemon/Slots/History.antt =====
-- The request slots of src/botster/webrtcDaemonClient.ts over any sequence of events.
use mathlib.Core.Path.{subst}
use botster_web.Common.{
  ℕ, refl, not, Option, List, [], ◌∷◌, nat_eq, filter, arith, length-filter, ap, sym, ◌∙◌,
}
use botster_web.Common.Maps.{lookup}
use botster_web.Daemon.Slots.{
  SlotWaiter, SlotTable, new_table, reserved_slot_count, is_addressed, cancel_request_slot_waiters,
  SlotEvent, wanted, freed, failed, renewed, slot_event, slot_history,
}
use botster_web.Daemon.Slots.Counting.{open_slots, times_waiting, times_answered}
use botster_web.Daemon.Slots.Cancelling.{cancel_from-answers, cancel_from-same}
use botster_web.Daemon.Slots.Sound.{
  IsSound, acquire_request_slot-IsSound, release-IsSound, IsCounted,
}

pub cancel_request_slot_waiters-IsSound :
    (asked : Option ℕ) (t : SlotTable) → IsSound t → IsSound (cancel_request_slot_waiters asked t)
unfolding cancel_request_slot_waiters
cancel_request_slot_waiters-IsSound asked t h =
    let same = cancel_from-same asked t.request_slot_waiters t in
    let kept =
      filter (λ (w : SlotWaiter). not (is_addressed asked w.generation)) t.request_slot_waiters in
    record {
      counted = subst (λ (u : SlotTable). IsCounted u.reserved_slots u.slots) (sym same) h.counted;
      queued = record {
        few = omega (
          arith,
          h.queued.few,
          length-filter (λ (w : SlotWaiter). not (is_addressed asked w.generation))
              t.request_slot_waiters,
        );
        once = λ c.
            rw (ap (λ (u : SlotTable). u.next_caller) same)
              (cancel_from-answers asked c t.request_slot_waiters t ∙ h.queued.once c);
      };
    }

slot_event-IsSound : (e : SlotEvent) (t : SlotTable) → IsSound t → IsSound (slot_event e t)
unfolding slot_event
slot_event-IsSound (wanted generation) t h = acquire_request_slot-IsSound generation t h
slot_event-IsSound (freed caller) t h = release-IsSound caller t h
slot_event-IsSound (failed generation) t h = cancel_request_slot_waiters-IsSound generation t h
slot_event-IsSound renewed t h = record { counted = h.counted; queued = h.queued }

slot_history-keeps : (es : List SlotEvent) (t : SlotTable) → IsSound t → IsSound (slot_history es t)
unfolding slot_history
slot_history-keeps [] t h = h
slot_history-keeps (e ∷ es) t h = slot_history-keeps es (slot_event e t) (slot_event-IsSound e t h)

-- Whatever happens to a new table, in any order (requests of any generation, releases repeated or
-- not, failures of one generation or of all, new generations), the count of each generation is the
-- number of its slots handed out and not released, at most 32; at most 256 callers wait; and each
-- caller so far either waits, once, or has exactly one answer.
pub slot_history-IsSound : (es : List SlotEvent) → IsSound (slot_history es new_table)
unfolding new_table
slot_history-IsSound es = slot_history-keeps es new_table (record {
  counted = record {
    exact = λ g. unfold reserved_slot_count lookup open_slots in refl;
    bounded = λ g. unfold reserved_slot_count lookup in omega arith;
  };
  queued = record {
    few = omega arith;
    once = λ c. unfold times_waiting times_answered in ground arith;
  };
})
