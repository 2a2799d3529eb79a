-- ===== src/Plane/Settling.antt =====
-- The end of an operation in src/botster/hubTerminalDataPlane.ts keeps the accounting.
use botster_web.Common.{
  ℕ, ◌+◌, ◌≤◌, ◌≡◌, refl, sym, true, not, Option, none, some, List, [], ◌==◌, nat_eq, if◌then◌else◌,
  arith, Bool-cases, Option-cases, inl, inr, is_some, opt_beq, ap, ◌∙◌, nat_beq_iff,
}
use botster_web.Common.Maps.{lookup, delete, lookup-delete}
use botster_web.Common.Int.{to_ℕ}
use botster_web.Wire.Event.{TextCodec, InputResultBody}
use botster_web.Plane.State.{OutcomeName, Detail, InflightInput, Plane}
use botster_web.Plane.Queue.{holds, forget_inflight}
use botster_web.Plane.Settle.{
  Counts, may_be_confirmed, open_consent, settle_held, settle_inflight, handle_input_result,
}
use botster_web.Plane.Window.{IsWindow-delete, lookup-IsHeld}
use botster_web.Plane.Sound.{IsSound, GeometryHeld, geometry_bytes, if-IsSound, pump_inputs-IsSound}
use botster_web.Plane.Admission.{deliver-IsSound}

delete-[] : (id : ℕ) (m : List (ℕ × InflightInput)) → m ≡ [] → delete id m ≡ []
unfolding delete
delete-[] id m e = ap (delete id) e

same_entry :
    (j id : ℕ) (x y : InflightInput) (m : List (ℕ × InflightInput))
    → (j == id) ≡ true
    → lookup j m ≡ some y
    → lookup id m ≡ some x
    → y ≡ x
same_entry j id x y m same kept held =
    ap (λ o. elim o [ none ↦ x | some z ↦ z ])
      (sym kept ∙ ap (λ k. lookup k m) ((nat_beq_iff j id).0 same) ∙ held)

abbrev without : Option ℕ → ℕ → Option ℕ
without op id = if opt_beq op (some id) then none else op

-- The geometry operation's bytes leave with it, and with it only; it is no paste.
forget-geometry :
    (op : Option ℕ) (id : ℕ) (x : InflightInput) (m : List (ℕ × InflightInput))
    → lookup id m ≡ some x
    → GeometryHeld op m
    → GeometryHeld (without op id) (delete id m)
      × (geometry_bytes op ≤ geometry_bytes (without op id) + x.retained_bytes)
      × (is_some x.entry.paste_data ≡ true → geometry_bytes op ≡ geometry_bytes (without op id))
forget-geometry none id x m held g = (tt, omega arith, λ h. refl)
forget-geometry (some j) id x m held (y, kept, size, plain) = elim (Bool-cases (j == id)) [
  | inl same ↦
      let e = same_entry j id x y m same kept held in
      rw same (
        tt,
        omega (arith, size, ap (λ (z : InflightInput). z.retained_bytes) e),
        λ h. absurd (ground (arith, plain, h, ap (λ (z : InflightInput). z.entry.paste_data) e)),
      )
  | inr differs ↦ rw differs (
    (y, ground (arith, lookup-delete id j m, kept, differs), size, plain),
    omega arith,
    λ h. refl,
  )
]

pub forget_inflight-IsSound :
    (x : InflightInput) (p : Plane)
    → lookup x.operation_id p.inflight_inputs ≡ some x
    → IsSound p
    → IsSound (forget_inflight x p)
unfolding forget_inflight
forget_inflight-IsSound x p held s =
    let (w, within) = IsWindow-delete x.operation_id x s.window held in
    let (g, freed, plain) =
      forget-geometry p.geometry_operation x.operation_id x p.inflight_inputs held s.geometry in
    record {
      queued_sum = s.queued_sum;
      queue_bound = s.queue_bound;
      pastes = s.pastes;
      window = w;
      retained = omega (arith, s.retained, within, freed);
      geometry = g;
      consent = s.consent;
      idle = λ q. delete-[] x.operation_id p.inflight_inputs (s.idle q);
    }

within :
    (x : InflightInput) (p : Plane)
    → lookup x.operation_id p.inflight_inputs ≡ some x
    → IsSound p
    → x.retained_bytes ≤ p.inflight_input_bytes
within x p held s = (IsWindow-delete x.operation_id x s.window held).1

-- The bytes of a paste that waits for its confirmation stay counted.
open_consent-IsSound :
    (x : InflightInput) (now : ℕ) (p : Plane)
    → lookup x.operation_id p.inflight_inputs ≡ some x
    → IsSound p
    → IsSound (open_consent x now (forget_inflight x p))
unfolding open_consent forget_inflight
open_consent-IsSound x now p held s = elim (Option-cases x.entry.paste_data) [
  | inl e ↦ rw (open_consent, e) (forget_inflight-IsSound x p held s)
  | inr (bytes, e) ↦
      let freed = forget_inflight-IsSound x p held s in
      let (g, small, plain) =
        forget-geometry p.geometry_operation x.operation_id x p.inflight_inputs held s.geometry in
      let fits = lookup-IsHeld _ _ x.operation_id x p.inflight_inputs s.window.each held in
      rw (open_consent, e)
        (record {
          queued_sum = freed.queued_sum;
          queue_bound = freed.queue_bound;
          pastes = freed.pastes;
          window = freed.window;
          retained = omega (arith, s.retained, within x p held s, plain (ap is_some e));
          geometry = freed.geometry;
          consent = sym (fits.3 ∙ (rw e at (fits.4)));
          idle = freed.idle;
        })
]

settle_held-IsSound :
    (x : InflightInput) (o : OutcomeName) (d : Detail) (c : Counts) (now : ℕ) (p : Plane)
    → lookup x.operation_id p.inflight_inputs ≡ some x
    → IsSound p
    → IsSound (settle_held x o d c now p)
unfolding settle_held
settle_held-IsSound x o d c now p held s =
    if-IsSound (may_be_confirmed x o c (forget_inflight x p))
      (λ consents. deliver-IsSound _ _ _ (open_consent-IsSound x now p held s))
      (λ ends. deliver-IsSound _ _ _ (forget_inflight-IsSound x p held s))

module _ (codec : TextCodec) where
  pub settle_inflight-IsSound :
      (x : InflightInput) (o : OutcomeName) (d : Detail) (c : Counts) (now : ℕ) (p : Plane)
      → lookup x.operation_id p.inflight_inputs ≡ some x
      → IsSound p
      → IsSound (settle_inflight codec x o d c now p)
  unfolding settle_inflight
  settle_inflight-IsSound x o d c now p held s =
      if-IsSound (not (holds x p)) (λ gone. s)
        (λ here. pump_inputs-IsSound codec _ (settle_held-IsSound x o d c now p held s))

  pub handle_input_result-IsSound :
      (r : InputResultBody) (now : ℕ) (p : Plane)
      → IsSound p
      → IsSound (handle_input_result codec r now p)
  unfolding handle_input_result
  handle_input_result-IsSound r now p s =
      elim (Option-cases (lookup (to_ℕ r.operation_id) p.inflight_inputs)) [
        | inl e ↦ rw (handle_input_result, e) s
        | inr (x, e) ↦
            let fits =
              lookup-IsHeld _ _ (to_ℕ r.operation_id) x p.inflight_inputs s.window.each e in
            rw (handle_input_result, e)
              (if-IsSound (not (x.generation == p.attachment_generation)) (λ stale. s)
                (λ current.
                  settle_inflight-IsSound x _ _ _ now p
                    (ap (λ id. lookup id p.inflight_inputs) fits.0 ∙ e) s))
      ]
