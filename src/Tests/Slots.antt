-- ===== src/Tests/Slots.antt =====
-- The theorems on the request slots and the inbound admission at concrete inputs.
use botster_web.Common.{ℕ, zero, suc, ◌≡◌, refl, List, [], ◌∷◌, false, none}
use botster_web.Daemon.Admission.{
  ChannelEvent, arrives, handled, channel_history, new_channel, IsAdmitted,
  channel_history-IsAdmitted,
}
use botster_web.Daemon.Slots.{
  SlotEvent, wanted, freed, failed, renewed, SlotTable, slot_history, slot_event, new_table,
  release, acquire_request_slot, reserve_slot, reserved_slot_count, granted,
}
use botster_web.Daemon.Slots.Sound.{IsSound}
use botster_web.Daemon.Slots.History.{slot_history-IsSound}
use botster_web.Daemon.Slots.Progress.{release-grants}
use botster_web.Common.Maps.{lookup, insert}

abbrev arrivals : List ChannelEvent
arrivals = arrives 100 ∷ arrives 8388600 ∷ arrives 20 ∷ handled ∷ arrives 5 ∷ []

channel_history-IsAdmitted_example : IsAdmitted (channel_history arrivals new_channel)
channel_history-IsAdmitted_example = channel_history-IsAdmitted arrivals

-- So many callers ask for a slot of the first generation.
abbrev crowd : ℕ → List SlotEvent
crowd zero = []
crowd (suc n) = wanted 0 ∷ crowd n

abbrev busy_table : SlotTable
busy_table = slot_history (crowd 33) new_table

slot_history-IsSound_example :
    IsSound (
      slot_history (wanted 0 ∷ wanted 0 ∷ freed 1 ∷ failed none ∷ renewed ∷ freed 1 ∷ []) new_table)
slot_history-IsSound_example =
    slot_history-IsSound (wanted 0 ∷ wanted 0 ∷ freed 1 ∷ failed none ∷ renewed ∷ freed 1 ∷ [])

release-grants_example :
    ((release 0 busy_table).request_slot_waiters ≡ [])
    × ((release 0 busy_table).answers ≡ (32, granted 0) ∷ busy_table.answers)
unfolding slot_history new_table slot_event acquire_request_slot reserve_slot lookup insert
    reserved_slot_count
release-grants_example =
    release-grants 0 (record { generation = 0; released = false }) []
      (record { caller = 32; generation = 0 }) [] busy_table (slot_history-IsSound (crowd 33)) refl
      refl refl refl tt refl
