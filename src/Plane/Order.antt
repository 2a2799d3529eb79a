-- ===== src/Plane/Order.antt =====
-- The order of the output that src/botster/hubTerminalDataPlane.ts gives its listeners.
use botster_web.Common.{
  ℕ, ◌≡◌, refl, sym, ap, ◌∙◌, Bool, true, false, Option, none, some, List, [], ◌∷◌, ◌++◌, nat_eq,
  if◌then◌else◌, arith, String,
}
use mathlib.Core.List.{append_assoc, append-nil}
use botster_web.Wire.Bytes.{Bytes}
use botster_web.Common.Int.{ℤ}
use botster_web.Wire.Event.{TextCodec}
use botster_web.Plane.State.{ScreenHydration, Effect, output, Plane}
use botster_web.Plane.Basics.{emit, emit_status}
use botster_web.Plane.Route.{
  Texts, emit_outputs, emit_process_exit, emit_pending_exit, complete_hydration,
  receive_snapshot_finish, cancel_own_reader,
}
use botster_web.Plane.Keeping.{pump_inputs-Keeps}

-- The output given so far, the oldest first.
abbrev pub delivered : List Effect → List Bytes
delivered [] = []
delivered (output bytes ∷ rest) = delivered rest ++ bytes ∷ []
delivered (effect ∷ rest) = delivered rest

-- The output that waits for the screen.
abbrev pub waiting : Option ScreenHydration → List Bytes
waiting none = []
waiting (some h) = h.buffered_output

-- Everything that the plane took and did not lose.
abbrev pub screen_stream : Plane → List Bytes
screen_stream p = delivered p.effects ++ waiting p.hydration

abbrev pub IsOfAttachment : ℕ → Option ScreenHydration → Type 0
IsOfAttachment generation none = Unit
IsOfAttachment generation (some h) = h.generation ≡ generation

delivered-emit_outputs :
    (bs : List Bytes) (p : Plane)
    → delivered ((emit_outputs bs p).effects) ≡ delivered p.effects ++ bs
unfolding emit_outputs emit
delivered-emit_outputs [] p = sym (append-nil (delivered p.effects))
delivered-emit_outputs (b ∷ bs) p =
    delivered-emit_outputs bs _ ∙ append_assoc (delivered p.effects) (b ∷ []) bs

module _ (codec : TextCodec) (texts : Texts) where
  delivered-emit_pending_exit :
      (exit : Option (Option ℤ)) (p : Plane)
      → delivered ((emit_pending_exit codec texts exit p).effects) ≡ delivered p.effects
  unfolding emit_pending_exit emit_process_exit emit_status
  delivered-emit_pending_exit none p = refl
  delivered-emit_pending_exit (some code) p = refl

  delivered-complete_hydration :
      (h : ScreenHydration) (message : String) (p : Plane)
      → delivered ((complete_hydration codec texts h message p).effects)
        ≡ delivered p.effects ++ h.buffered_output
  unfolding complete_hydration emit_status
  delivered-complete_hydration h message p =
      ap delivered (pump_inputs-Keeps codec _).0
      ∙ delivered-emit_pending_exit h.pending_exit _
      ∙ delivered-emit_outputs h.buffered_output _

  delivered-cancel :
      (h : ScreenHydration) (b : Bool) (p : Plane)
      → delivered ((if b then cancel_own_reader h p else p).effects) ≡ delivered p.effects
  delivered-cancel h b p = ground arith

  -- On a hydration that is ready and not completed, SNAPSHOT_FINISH gives the listeners all the output
  -- that waited in it, in order, behind what they were given before.
  pub receive_snapshot_finish-flushes :
      (h : ScreenHydration) (now : ℕ) (p : Plane)
      → h.completed ≡ false
      → h.ready_received ≡ true
      → delivered ((receive_snapshot_finish codec texts h now p).effects)
        ≡ delivered p.effects ++ h.buffered_output
  unfolding receive_snapshot_finish
  receive_snapshot_finish-flushes h now p on readied =
      rw (on, readied)
        (delivered-complete_hydration _ _ _
          ∙ ap (λ d. d ++ h.buffered_output) (delivered-cancel h _ p))
