-- ===== src/Plane/Outcomes.antt =====
-- The outcomes that src/botster/hubTerminalDataPlane.ts gives its inputs when an attachment ends.
use botster_web.Common.{
  some, ◌++◌, ℕ, ◌≡◌, refl, sym, ap, ◌∙◌, Bool, true, false, none, List, [], ◌∷◌, nat_eq,
  Bool-cases, Option-cases, inl, inr, All, String, nat_beq_iff,
}
use mathlib.Core.Path.{subst}
use mathlib.Core.List.{append_assoc, append-nil}
use botster_web.Common.Maps.{lookup, delete, delete-missing, HasDistinctKeys}
use botster_web.Wire.Event.{TextCodec}
use botster_web.Plane.State.{
  text, Outcome, QueuedInput, InflightInput, Effect, published, resolved, Plane, core,
}
use botster_web.Wire.Enums.{outcome_unknown, cancelled}
use botster_web.Plane.Basics.{emit, deliver, can_pump}
use botster_web.Plane.Queue.{holds, forget_inflight, pump_inputs}
use botster_web.Plane.Settle.{
  no_counts, outcome_of, settle_held, settle_inflight, settle_unknown, cancel_queued,
  may_be_confirmed,
}
use botster_web.Plane.Lifecycle.{cancel_hydration}

-- The outcomes that the plane has given, in order: `true` where the operation's own `resolve` has it,
-- `false` where the outcome listeners have it.
abbrev pub outcomes : List Effect → List (Bool × Outcome)
outcomes [] = []
outcomes (published o ∷ rest) = outcomes rest ++ (false, o) ∷ []
outcomes (resolved o ∷ rest) = outcomes rest ++ (true, o) ∷ []
outcomes (effect ∷ rest) = outcomes rest

-- What each operation in flight is told: its delivery is unknown.
abbrev pub unknown_outcomes : String → List (ℕ × InflightInput) → List (Bool × Outcome)
unknown_outcomes reason [] = []
unknown_outcomes reason ((id, x) ∷ rest) =
    (
      x.entry.resolves,
      record {
        kind = x.entry.kind;
        outcome = core outcome_unknown;
        operation_id = some id;
        requested_bytes = some x.entry.requested_bytes;
        accepted_payload_bytes = none;
        written_pty_bytes = none;
        reason = none;
        unsafe_paste_consent = none;
        detail = text reason;
      },
    )
    ∷ unknown_outcomes reason rest

-- What each queued operation is told: it was cancelled, and has no id.
abbrev pub cancelled_outcomes : String → List QueuedInput → List (Bool × Outcome)
cancelled_outcomes reason [] = []
cancelled_outcomes reason (entry ∷ rest) =
    (
      entry.resolves,
      record {
        kind = entry.kind;
        outcome = core cancelled;
        operation_id = none;
        requested_bytes = some entry.requested_bytes;
        accepted_payload_bytes = none;
        written_pty_bytes = none;
        reason = none;
        unsafe_paste_consent = none;
        detail = text reason;
      },
    )
    ∷ cancelled_outcomes reason rest

outcomes-deliver :
    (b : Bool) (o : Outcome) (p : Plane)
    → outcomes ((deliver b o p).effects) ≡ outcomes p.effects ++ (b, o) ∷ []
unfolding deliver emit
outcomes-deliver true o p = refl
outcomes-deliver false o p = refl

pub cancel_hydration-unchanged :
    (p : Plane)
    → ((cancel_hydration p).inflight_inputs ≡ p.inflight_inputs)
      × ((cancel_hydration p).queued_inputs ≡ p.queued_inputs)
      × ((cancel_hydration p).stream ≡ p.stream)
unfolding cancel_hydration
cancel_hydration-unchanged p = elim (Option-cases p.hydration) [
  | inl e ↦ rw (cancel_hydration, e) (refl, refl, refl)
  | inr (h, e) ↦ rw (cancel_hydration, e) (refl, refl, refl)
]

pub outcomes-cancel_hydration :
    (p : Plane) → outcomes ((cancel_hydration p).effects) ≡ outcomes p.effects
unfolding cancel_hydration
outcomes-cancel_hydration p = elim (Option-cases p.hydration) [
  | inl e ↦ rw (cancel_hydration, e) refl
  | inr (h, e) ↦
      rw (cancel_hydration, e)
        (elim (Bool-cases h.has_reader) [ inl r ↦ rw r refl | inr r ↦ rw r refl ])
]

-- The inputs of a plane while it closes: no stream, these in flight, these queued, these outcomes
-- given.
pub record IsClosing (p : Plane) (m : List (ℕ × InflightInput)) (queue : List QueuedInput)
    (n : List (Bool × Outcome)) : Type 0 where
  pub unheld : p.stream ≡ none
  pub inflight : p.inflight_inputs ≡ m
  pub queued : p.queued_inputs ≡ queue
  pub told : outcomes p.effects ≡ n

can_pump-closed : (p : Plane) → p.stream ≡ none → can_pump p ≡ false
unfolding can_pump
can_pump-closed p e = rw (can_pump, e) refl

abbrev pub IsOwn : ℕ × InflightInput → Type 0
IsOwn (id, x) = x.operation_id ≡ id

holds-first :
    (p : Plane) (id : ℕ) (x : InflightInput) (m : List (ℕ × InflightInput))
    → x.operation_id ≡ id
    → p.inflight_inputs ≡ (id, x) ∷ m
    → holds x p ≡ true
unfolding holds lookup
holds-first p id x m own e =
    rw (holds, e, own, (nat_beq_iff id id).1 refl, (nat_beq_iff x.generation x.generation).1 refl)
      refl

delete-first :
    (id : ℕ) (x : InflightInput) (m : List (ℕ × InflightInput))
    → lookup id m ≡ none
    → delete id ((id, x) ∷ m) ≡ m
unfolding delete
delete-first id x m gone = rw ((nat_beq_iff id id).1 refl) (delete-missing id m gone)

deliver-IsClosing :
    (b : Bool) (o : Outcome) (id : ℕ) (n : List (Bool × Outcome)) (x : InflightInput)
    (m : List (ℕ × InflightInput)) (queue : List QueuedInput) (p : Plane)
    → x.operation_id ≡ id
    → lookup id m ≡ none
    → IsClosing p ((id, x) ∷ m) queue n
    → IsClosing (deliver b o (forget_inflight x p)) m queue (n ++ (b, o) ∷ [])
unfolding deliver emit forget_inflight
deliver-IsClosing b o id n x m queue p own gone c = record {
  unheld = c.unheld;
  inflight =
      ap (λ j. delete j p.inflight_inputs) own
      ∙ ap (delete id) c.inflight
      ∙ delete-first id x m gone;
  queued = c.queued;
  told = outcomes-deliver b o (forget_inflight x p) ∙ ap (λ told. told ++ (b, o) ∷ []) c.told;
}

module _ (codec : TextCodec) where
  pump-closed : (p : Plane) → p.stream ≡ none → pump_inputs codec p ≡ p
  unfolding pump_inputs
  pump-closed p e = rw (can_pump-closed p e) refl

  settle-IsClosing :
      (reason : String) (now id : ℕ) (n : List (Bool × Outcome)) (x : InflightInput)
      (m : List (ℕ × InflightInput)) (queue : List QueuedInput) (p : Plane)
      → x.operation_id ≡ id
      → lookup id m ≡ none
      → IsClosing p ((id, x) ∷ m) queue n
      → IsClosing
          (settle_inflight codec x (core outcome_unknown) (text reason) no_counts now p)
          m
          queue
          (n ++ unknown_outcomes reason ((id, x) ∷ []))
  unfolding settle_inflight settle_held may_be_confirmed
  settle-IsClosing reason now id n x m queue p own gone c =
      let sent = outcome_of x (core outcome_unknown) (text reason) no_counts none in
      let named : (x.entry.resolves, sent) ∷ [] ≡ unknown_outcomes reason ((id, x) ∷ []) =
        ap (λ i. (x.entry.resolves, record sent { operation_id = some i }) ∷ []) own in
      let told =
        subst
          (λ ends.
            IsClosing (deliver x.entry.resolves sent (forget_inflight x p)) m queue (n ++ ends))
          named (deliver-IsClosing x.entry.resolves sent id n x m queue p own gone c) in
      rw (holds-first p id x m own c.inflight) (
        subst (λ q. IsClosing q m queue (n ++ unknown_outcomes reason ((id, x) ∷ [])))
          (sym (pump-closed _ told.unheld)) told)

  pub settle_unknown-IsClosing :
      (reason : String) (now : ℕ) (n : List (Bool × Outcome)) (m : List (ℕ × InflightInput))
      (queue : List QueuedInput) (p : Plane)
      → All IsOwn m
      → HasDistinctKeys m
      → IsClosing p m queue n
      → IsClosing (settle_unknown codec reason now m p) [] queue (n ++ unknown_outcomes reason m)
  unfolding settle_unknown
  settle_unknown-IsClosing reason now n [] queue p own d c =
      subst (IsClosing p [] queue) (sym (append-nil n)) c
  settle_unknown-IsClosing reason now n ((id, x) ∷ m) queue p own d c =
      subst (IsClosing _ [] queue)
        (append_assoc n (unknown_outcomes reason ((id, x) ∷ [])) (unknown_outcomes reason m))
        (settle_unknown-IsClosing reason now (n ++ unknown_outcomes reason ((id, x) ∷ [])) m queue _
          own.1 d.1 (settle-IsClosing reason now id n x m queue p own.0 d.0 c))

pub outcomes-cancel_queued :
    (reason : String) (queue : List QueuedInput) (p : Plane)
    → (outcomes ((cancel_queued reason queue p).effects)
        ≡ outcomes p.effects ++ cancelled_outcomes reason queue)
      × ((cancel_queued reason queue p).inflight_inputs ≡ p.inflight_inputs)
      × ((cancel_queued reason queue p).queued_inputs ≡ p.queued_inputs)
      × ((cancel_queued reason queue p).stream ≡ p.stream)
unfolding cancel_queued deliver emit
outcomes-cancel_queued reason [] p = (sym (append-nil (outcomes p.effects)), refl, refl, refl)
outcomes-cancel_queued reason (entry ∷ rest) p =
    let (told, kept, left, held) = outcomes-cancel_queued reason rest _ in
    (
      told
          ∙ ap (λ given. given ++ cancelled_outcomes reason rest)
              (outcomes-deliver entry.resolves _ p)
          ∙ append_assoc (outcomes p.effects) (cancelled_outcomes reason (entry ∷ []))
              (cancelled_outcomes reason rest),
      kept,
      left,
      held,
    )
