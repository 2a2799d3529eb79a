-- ===== src/Plane/Closing.antt =====
-- The end of an attachment in src/botster/hubTerminalDataPlane.ts: what `resetAttachmentState`
-- leaves of the inputs.
use botster_web.Common.{
  ◌++◌, ℕ, ◌+◌, ◌≡◌, refl, sym, ap, ◌∙◌, false, none, List, [], ◌∷◌, nat_eq, arith, All, String,
}
use mathlib.Core.Path.{subst}
use botster_web.Common.Maps.{HasDistinctKeys}
use botster_web.Wire.Event.{TextCodec}
use botster_web.Plane.State.{InflightInput, Plane}
use botster_web.Plane.Basics.{release_unsafe_paste_consent}
use botster_web.Plane.Settle.{settle_unknown, cancel_queued, abandon_inputs}
use botster_web.Plane.Lifecycle.{cancel_hydration, reset_attachment_state}
use botster_web.Plane.Window.{IsHeld, IsPasteSized, sum_bodies, sum_retained}
use botster_web.Plane.Sound.{IsSound}
use botster_web.Plane.Outcomes.{
  outcomes, unknown_outcomes, cancelled_outcomes, cancel_hydration-unchanged,
  outcomes-cancel_hydration, outcomes-cancel_queued, IsOwn, settle_unknown-IsClosing,
}

-- A plane that holds no input, with its counters reset, is sound.
IsSound-empty :
    (p : Plane)
    → p.inflight_inputs ≡ []
    → p.queued_inputs ≡ []
    → IsSound (record p {
      queued_input_bytes = 0;
      inflight_input_bytes = 0;
      pending_unsafe_paste = none;
      consent_retained_bytes = 0;
      sent_geometry = none;
      geometry_operation = none;
      next_operation_id = 1;
    })
IsSound-empty p e f = record {
  queued_sum = ap sum_bodies f;
  queue_bound = rw f (omega arith);
  pastes = subst (All IsPasteSized) (sym f) tt;
  window = record {
    sum = ap sum_retained e;
    bound = rw e (omega arith);
    each = subst (All _) (sym e) tt;
    distinct = subst HasDistinctKeys (sym e) tt;
  };
  retained = omega arith;
  geometry = tt;
  consent = refl;
  idle = λ _. e;
}

All-IsOwn :
    (next generation : ℕ) (m : List (ℕ × InflightInput))
    → All (IsHeld next generation) m
    → All IsOwn m
All-IsOwn next generation [] h = tt
All-IsOwn next generation ((id, x) ∷ m) h = (h.0.0, All-IsOwn next generation m h.1)

IsSound-modes : (p : Plane) → IsSound p → IsSound (record p { current_modes = none })
IsSound-modes p s = record {
  queued_sum = s.queued_sum;
  queue_bound = s.queue_bound;
  pastes = s.pastes;
  window = s.window;
  retained = s.retained;
  geometry = s.geometry;
  consent = s.consent;
  idle = s.idle;
}

module _ (codec : TextCodec) where
  abandon_inputs-clears :
      (reason : String) (now : ℕ) (p : Plane)
      → p.stream ≡ none
      → All IsOwn p.inflight_inputs
      → HasDistinctKeys p.inflight_inputs
      → ((abandon_inputs codec reason now p).inflight_inputs ≡ [])
        × ((abandon_inputs codec reason now p).queued_inputs ≡ [])
        × (outcomes ((abandon_inputs codec reason now p).effects)
            ≡ (outcomes p.effects ++ unknown_outcomes reason p.inflight_inputs)
              ++ cancelled_outcomes reason p.queued_inputs)
        × IsSound (abandon_inputs codec reason now p)
  unfolding abandon_inputs release_unsafe_paste_consent
  abandon_inputs-clears reason now p held own d =
      let c =
        settle_unknown-IsClosing codec reason now (outcomes p.effects) p.inflight_inputs
          p.queued_inputs p own d
          (record { unheld = held; inflight = refl; queued = refl; told = refl }) in
      let settled = settle_unknown codec reason now p.inflight_inputs p in
      let emptied =
        cancel_queued reason settled.queued_inputs (record settled { queued_inputs = [] }) in
      let (told, kept, left, free) =
        outcomes-cancel_queued reason settled.queued_inputs
          (record settled { queued_inputs = [] }) in
      (
        kept ∙ c.inflight,
        left,
        told
            ∙ ap (λ given. given ++ cancelled_outcomes reason settled.queued_inputs) c.told
            ∙ ap
                (λ queue.
                  (outcomes p.effects ++ unknown_outcomes reason p.inflight_inputs)
                  ++ cancelled_outcomes reason queue)
                c.queued,
        IsSound-empty emptied (kept ∙ c.inflight) left,
      )

  -- Closing the attachment of a sound plane tells each operation in flight, in order, that its outcome
  -- is unknown, under its id, and then each queued one that it was cancelled; each is told once, through
  -- its own promise where it has one and else the listeners; no other outcome is given, no input is
  -- left behind, and the plane is sound again.
  pub reset_attachment_state-settles :
      (reason : String) (now : ℕ) (p : Plane)
      → IsSound p
      → (outcomes ((reset_attachment_state codec reason now p).effects)
          ≡ (outcomes p.effects ++ unknown_outcomes reason p.inflight_inputs)
            ++ cancelled_outcomes reason p.queued_inputs)
        × ((reset_attachment_state codec reason now p).inflight_inputs ≡ [])
        × ((reset_attachment_state codec reason now p).queued_inputs ≡ [])
        × IsSound (reset_attachment_state codec reason now p)
  unfolding reset_attachment_state
  reset_attachment_state-settles reason now p s =
      let dropped : Plane = record p {
        stream = none;
        attach_pending = false;
        attachment_generation = p.attachment_generation + 1;
        attached_received = false;
        route_generation = none;
        accepted_epoch = none;
      } in
      let cleared : Plane = record (cancel_hydration dropped) { send_chain = [] } in
      let (kept, left, unheld) = cancel_hydration-unchanged dropped in
      let (none_inflight, none_queued, told, sound) =
        abandon_inputs-clears reason now cleared unheld
          (subst (All IsOwn) (sym kept) (All-IsOwn _ _ _ s.window.each))
          (subst HasDistinctKeys (sym kept) s.window.distinct) in
      (
        told
            ∙ ap
                (λ given.
                  (given ++ unknown_outcomes reason cleared.inflight_inputs)
                  ++ cancelled_outcomes reason cleared.queued_inputs)
                (outcomes-cancel_hydration dropped)
            ∙ ap
                (λ m.
                  (outcomes p.effects ++ unknown_outcomes reason m)
                  ++ cancelled_outcomes reason cleared.queued_inputs)
                kept
            ∙ ap
                (λ queue.
                  (outcomes p.effects ++ unknown_outcomes reason p.inflight_inputs)
                  ++ cancelled_outcomes reason queue)
                left,
        none_inflight,
        none_queued,
        IsSound-modes _ sound,
      )
