-- ===== src/Daemon/Slots/Counting.antt =====
-- Counting slots, waiters and answers, for src/botster/webrtcDaemonClient.ts.
use botster_web.Common.{
  ℕ, ◌+◌, ◌-◌, ◌≡◌, Bool, true, false, not, ◌&&◌, some, List, [], ◌∷◌, ◌++◌, leb, ◌==◌, nat_eq,
  if◌then◌else◌, arith, ap, nat_beq_iff, Bool-cases, inl, inr,
}
use botster_web.Common.Maps.{lookup, insert, delete, lookup-insert, lookup-delete}
use botster_web.Daemon.Slots.{RequestSlot, SlotWaiter, SlotAnswer, reserved_slot_count, count_down}

abbrev pub tick : Bool → ℕ
tick b = if b then 1 else 0

-- The slots of a generation that are not released.
unfoldable pub open_slots : ℕ → List (ℕ × RequestSlot) → ℕ
open_slots g [] = 0
open_slots g ((caller, slot) ∷ slots) =
    tick (slot.generation == g && not slot.released) + open_slots g slots

unfoldable pub times_waiting : ℕ → List SlotWaiter → ℕ
times_waiting c [] = 0
times_waiting c (w ∷ ws) = tick (w.caller == c) + times_waiting c ws

unfoldable pub times_answered : ℕ → List (ℕ × SlotAnswer) → ℕ
times_answered c [] = 0
times_answered c ((caller, a) ∷ answers) = tick (caller == c) + times_answered c answers

pub times_waiting-append :
    (c : ℕ) (ws vs : List SlotWaiter)
    → times_waiting c (ws ++ vs) ≡ times_waiting c ws + times_waiting c vs
unfolding times_waiting
times_waiting-append c [] vs = omega arith
times_waiting-append c (w ∷ ws) vs = omega (arith, times_waiting-append c ws vs)

-- Releasing the slot of a caller takes one from the open slots of its generation.
pub open_slots-release :
    (g caller : ℕ) (slot : RequestSlot) (slots : List (ℕ × RequestSlot))
    → lookup caller slots ≡ some slot
    → slot.released ≡ false
    → open_slots g (insert caller (record slot { released = true }) slots)
        + tick (slot.generation == g)
      ≡ open_slots g slots
unfolding lookup insert open_slots
open_slots-release g caller slot [] h k = absurd (ground arith)
open_slots-release g caller slot ((other, mine) ∷ slots) h k = elim (Bool-cases (other == caller)) [
  | inl same ↦ rw same (
      let mine_is_slot : mine ≡ slot = cc (h, same) in
      ground (arith, ap (λ s. s.generation) mine_is_slot, ap (λ s. s.released) mine_is_slot))
  | inr differs ↦ rw differs (ground (arith, open_slots-release g caller slot slots))
]

pub reserved_slot_count-insert :
    (g generation n : ℕ) (reserved : List (ℕ × ℕ))
    → reserved_slot_count (insert generation n reserved) g
      ≡ (if generation == g then n else reserved_slot_count reserved g)
unfolding reserved_slot_count
reserved_slot_count-insert g generation n reserved =
    ground (arith, lookup-insert generation g n reserved)

reserved_slot_count-delete :
    (g generation : ℕ) (reserved : List (ℕ × ℕ))
    → reserved_slot_count (delete generation reserved) g
      ≡ (if generation == g then 0 else reserved_slot_count reserved g)
unfolding reserved_slot_count
reserved_slot_count-delete g generation reserved =
    ground (arith, lookup-delete generation g reserved)

pub reserved_slot_count-count_down :
    (g generation : ℕ) (reserved : List (ℕ × ℕ))
    → reserved_slot_count (count_down generation reserved) g
      ≡ reserved_slot_count reserved g - tick (generation == g)
unfolding count_down
reserved_slot_count-count_down g generation reserved =
    elim (Bool-cases (leb (reserved_slot_count reserved generation - 1) 0)) [
      | inl last ↦ rw last (
          ground
            (arith, nat_beq_iff generation g, reserved_slot_count-delete g generation reserved))
      | inr more ↦ rw more (
          ground (
            arith,
            nat_beq_iff generation g,
            reserved_slot_count-insert g generation (reserved_slot_count reserved generation - 1)
                reserved,
          ))
    ]
