-- ===== src/Plane/Buffering.antt =====
-- The output that src/botster/hubTerminalDataPlane.ts buffers while the screen hydrates: its bounds
-- and its order.
use botster_web.Common.{
  ℕ, ◌+◌, ◌≤◌, ◌≡◌, refl, sym, ◌∙◌, Bool, true, false, not, ◌||◌, Option, none, some, List, [], ◌∷◌,
  ◌++◌, length, length-append, ◌==◌, nat_eq, if◌then◌else◌, arith, Option-cases, inl, inr, String,
  ltb,
}
use mathlib.Core.Path.{subst}
use botster_web.Wire.Bytes.{Bytes}
use botster_web.Wire.Event.{TextCodec}
use botster_web.Common.Int.{ℤ}
use botster_web.Plane.State.{ScreenHydration, Plane}
use botster_web.Plane.Basics.{emit, emit_status}
use botster_web.Plane.Lifecycle.{
  cancel_hydration, ensure_hydration, arm_progress, is_hydration, recover_route,
}
use botster_web.Plane.Route.{
  Texts, emit_outputs, arm_own, receive_route_resync, emit_process_exit, emit_pending_exit,
  buffer_hydrating_output, receive_output, receive_process_exit, complete_hydration,
  receive_snapshot_finish, is_hydrating,
}
use botster_web.Plane.Keeping.{
  pump_inputs-Keeps, hydration-fail_route, hydration-recover_route, hydration-cancel_hydration,
}

abbrev pub sum_lengths : List Bytes → ℕ
sum_lengths [] = 0
sum_lengths (bytes ∷ rest) = length bytes + sum_lengths rest

-- Both bounds hold, the bytes are counted, and a completed hydration waits with nothing.
pub record IsBounded (h : ScreenHydration) : Type 0 where
  pub items : length h.buffered_output ≤ 256
  pub counted : sum_lengths h.buffered_output ≡ h.buffered_bytes
  pub bytes : h.buffered_bytes ≤ 8388608
  pub flushed : h.completed ≡ true → h.buffered_output ≡ []

abbrev pub IsBuffered : Option ScreenHydration → Type 0
IsBuffered none = Unit
IsBuffered (some h) = IsBounded h

pub sum_lengths-append :
    (xs : List Bytes) (b : Bytes) → sum_lengths (xs ++ b ∷ []) ≡ sum_lengths xs + length b
sum_lengths-append [] b = omega arith
sum_lengths-append (x ∷ xs) b = omega (arith, sum_lengths-append xs b)

pub if-IsBuffered :
    (p q : Plane) (b : Bool)
    → (b ≡ true → IsBuffered p.hydration)
    → (b ≡ false → IsBuffered q.hydration)
    → IsBuffered ((if b then p else q).hydration)
if-IsBuffered p q true here there = here refl
if-IsBuffered p q false here there = there refl

-- Whatever ends the attachment leaves nothing buffered.
pub gone : {o : Option ScreenHydration} → o ≡ none → IsBuffered o
gone e = subst IsBuffered (sym e) tt

is_hydration-serial :
    (p : Plane) (h : ScreenHydration) → p.hydration ≡ some h → is_hydration h.serial p ≡ true
unfolding is_hydration
is_hydration-serial p h e = rw (is_hydration, e) (ground arith)

pub arm_progress-IsBuffered :
    (serial : ℕ) (p : Plane)
    → IsBuffered p.hydration
    → IsBuffered ((arm_progress serial p).hydration)
unfolding arm_progress
arm_progress-IsBuffered serial p s = elim (Option-cases p.hydration) [
  | inl e ↦ rw (arm_progress, e) s
  | inr (h, e) ↦
      let b = subst IsBuffered e s in
      rw (arm_progress, e)
        (if-IsBuffered _ _ (not (h.serial == serial) || h.completed) (λ same. s)
          (λ armed. record {
            items = b.items;
            counted = b.counted;
            bytes = b.bytes;
            flushed = b.flushed;
          }))
]

pub ensure_hydration-IsBuffered :
    (generation : ℕ) (p : Plane)
    → IsBuffered p.hydration
    → IsBuffered ((ensure_hydration generation p).hydration)
unfolding ensure_hydration
ensure_hydration-IsBuffered generation p s =
    if-IsBuffered _ _ (elim p.hydration [ none ↦ false | some h ↦ h.generation == generation ])
      (λ same. s)
      (λ fresh. record {
        items = omega arith;
        counted = refl;
        bytes = omega arith;
        flushed = λ e. refl;
      })

hydration-emit_outputs : (bs : List Bytes) (p : Plane) → (emit_outputs bs p).hydration ≡ p.hydration
unfolding emit_outputs emit
hydration-emit_outputs [] p = refl
hydration-emit_outputs (b ∷ bs) p = hydration-emit_outputs bs _

arm_own-IsBuffered : (p : Plane) → IsBuffered p.hydration → IsBuffered ((arm_own p).hydration)
unfolding arm_own
arm_own-IsBuffered p s = elim (Option-cases p.hydration) [
  | inl e ↦ rw (arm_own, e) s
  | inr (h, e) ↦ rw (arm_own, e) (arm_progress-IsBuffered h.serial p s)
]

pub receive_route_resync-IsBuffered :
    (to_epoch generation : ℕ) (p : Plane)
    → IsBuffered ((receive_route_resync to_epoch generation p).hydration)
unfolding receive_route_resync emit_status
receive_route_resync-IsBuffered to_epoch generation p = arm_own-IsBuffered _ (
    ensure_hydration-IsBuffered generation (cancel_hydration _)
      (gone (hydration-cancel_hydration _)))

module _ (codec : TextCodec) (texts : Texts) where
  pub recover_route-IsBuffered :
      (h : ScreenHydration) (message : String) (now : ℕ) (p : Plane)
      → p.hydration ≡ some h
      → IsBuffered ((recover_route codec h.serial message now p).hydration)
  recover_route-IsBuffered h message now p e =
      gone (hydration-recover_route codec h.serial message now p (is_hydration-serial p h e))

  buffer_hydrating_output-IsBuffered :
      (bytes : Bytes) (h : ScreenHydration) (now : ℕ) (p : Plane)
      → p.hydration ≡ some h
      → h.completed ≡ false
      → IsBounded h
      → IsBuffered ((buffer_hydrating_output codec texts bytes h now p).hydration)
  unfolding buffer_hydrating_output
  buffer_hydrating_output-IsBuffered bytes h now p e on b =
      if-IsBuffered _ _
        (ltb 8388608 (h.buffered_bytes + length bytes) || ltb 256 (length h.buffered_output + 1))
        (λ over. recover_route-IsBuffered h _ now p e)
        (λ fits. record {
          items = ground (arith, length-append h.buffered_output (bytes ∷ []), fits);
          counted = omega (arith, sum_lengths-append h.buffered_output bytes, b.counted);
          bytes = ground (arith, fits);
          flushed = λ done. absurd (ground (arith, on, done));
        })

  pub receive_output-IsBuffered :
      (bytes : Bytes) (generation now : ℕ) (p : Plane)
      → IsBuffered p.hydration
      → IsBuffered ((receive_output codec texts bytes generation now p).hydration)
  unfolding receive_output emit
  receive_output-IsBuffered bytes generation now p s = elim (Option-cases p.hydration) [
    | inl e ↦ rw (receive_output, e) s
    | inr (h, e) ↦
        rw (receive_output, e)
          (if-IsBuffered _ _ (is_hydrating generation (some h))
            (λ on.
              buffer_hydrating_output-IsBuffered bytes h now p e (ground (arith, on))
                (subst IsBuffered e s))
            (λ off. s))
  ]

  pub receive_process_exit-IsBuffered :
      (code : Option ℤ) (generation : ℕ) (p : Plane)
      → IsBuffered p.hydration
      → IsBuffered ((receive_process_exit codec texts code generation p).hydration)
  unfolding receive_process_exit emit_process_exit emit_status
  receive_process_exit-IsBuffered code generation p s = elim (Option-cases p.hydration) [
    | inl e ↦ rw (receive_process_exit, e) s
    | inr (h, e) ↦
        let b = subst IsBuffered e s in
        rw (receive_process_exit, e)
          (if-IsBuffered _ _ (is_hydrating generation (some h))
            (λ on. record {
              items = b.items;
              counted = b.counted;
              bytes = b.bytes;
              flushed = b.flushed;
            })
            (λ off. s))
  ]

  hydration-emit_pending_exit :
      (exit : Option (Option ℤ)) (p : Plane)
      → (emit_pending_exit codec texts exit p).hydration ≡ p.hydration
  unfolding emit_pending_exit emit_process_exit emit_status
  hydration-emit_pending_exit none p = refl
  hydration-emit_pending_exit (some code) p = refl

  complete_hydration-IsBuffered :
      (h : ScreenHydration) (message : String) (p : Plane)
      → IsBuffered ((complete_hydration codec texts h message p).hydration)
  unfolding complete_hydration
  complete_hydration-IsBuffered h message p =
      subst IsBuffered
        (sym ((pump_inputs-Keeps codec _).1 ∙ hydration-emit_pending_exit h.pending_exit _))
        (record { items = omega arith; counted = refl; bytes = omega arith; flushed = λ e. refl })

  pub receive_snapshot_finish-IsBuffered :
      (h : ScreenHydration) (now : ℕ) (p : Plane)
      → IsBuffered p.hydration
      → IsBuffered ((receive_snapshot_finish codec texts h now p).hydration)
  unfolding receive_snapshot_finish
  receive_snapshot_finish-IsBuffered h now p s =
      if-IsBuffered _ _ h.completed (λ done. s)
        (λ on.
          if-IsBuffered _ _ (not h.ready_received)
            (λ early. gone (hydration-fail_route codec _ now p))
            (λ readied. complete_hydration-IsBuffered _ _ _))
