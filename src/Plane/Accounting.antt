-- ===== src/Plane/Accounting.antt =====
-- Every call of the input side of src/botster/hubTerminalDataPlane.ts keeps the accounting.
use botster_web.Common.{
  ℕ, ◌+◌, refl, Bool, true, false, not, ◌||◌, some, length, ◌==◌, nat_eq, string_eq, if◌then◌else◌,
  Option-cases, inl, inr, ltb, leb, String,
}
use botster_web.Wire.Bytes.{Bytes}
use botster_web.Wire.Input.{max_paste_bytes}
use botster_web.Wire.Event.{TextCodec, InputResultBody}
use botster_web.Input.Events.{Geometry, SemanticInput}
use botster_web.Input.Encoding.{encode_semantic_input, encode_paste_operation, utf16_length}
use botster_web.Plane.State.{UnsafePasteConsent, Outcome, Plane}
use botster_web.Plane.Basics.{
  deliver, is_current_attachment, release_unsafe_paste_consent, same_unsafe_paste_consent,
}
use botster_web.Plane.Settle.{handle_input_result}
use botster_web.Plane.Commands.{
  resize_plane, paste_entry, admit_paste, write_paste, confirmed_entry, admit_confirmed,
  confirm_unsafe_paste, cancel_unsafe_paste, consent_expired, send_plain, send_input, plain_entry,
  kind_of,
}
use botster_web.Plane.Sound.{IsSound, if-IsSound, pump_inputs-IsSound}
use botster_web.Plane.Admission.{
  deliver-IsSound, release-IsSound, ensure_attached-IsSound, enqueue_input-IsSound,
}
use botster_web.Plane.Settling.{handle_input_result-IsSound}

-- The calls of a plane that is attached or waits to be: those of the renderer and the results of
-- the wire.
pub data InputCall : Type 0 where
  sent : SemanticInput → InputCall
  pasted : String → InputCall
  resized : Geometry → InputCall
  confirmed cancelled expired : UnsafePasteConsent → InputCall
  result : InputResultBody → InputCall

IsSound-counted : (n : ℕ) (p : Plane) → IsSound p → IsSound (record p { paste_attempts = n })
IsSound-counted n p s = record {
  queued_sum = s.queued_sum;
  queue_bound = s.queue_bound;
  pastes = s.pastes;
  window = s.window;
  retained = s.retained;
  geometry = s.geometry;
  consent = s.consent;
  idle = s.idle;
}

IsSound-desired :
    (g : Geometry) (p : Plane) → IsSound p → IsSound (record p { desired_geometry = some g })
IsSound-desired g p s = record {
  queued_sum = s.queued_sum;
  queue_bound = s.queue_bound;
  pastes = s.pastes;
  window = s.window;
  retained = s.retained;
  geometry = s.geometry;
  consent = s.consent;
  idle = s.idle;
}

pub if-first :
    (p q : Plane × Bool) (b : Bool)
    → IsSound (p.0)
    → IsSound (q.0)
    → IsSound ((if b then p else q).0)
if-first p q true s t = s
if-first p q false s t = t

cancel_unsafe_paste-IsSound :
    (c : UnsafePasteConsent) (p : Plane) → IsSound p → IsSound ((cancel_unsafe_paste c p).0)
unfolding cancel_unsafe_paste
cancel_unsafe_paste-IsSound c p s = elim (Option-cases p.pending_unsafe_paste) [
  | inl e ↦ rw (cancel_unsafe_paste, e) s
  | inr (pending, e) ↦
      rw (cancel_unsafe_paste, e)
        (if-first _ _ (not (same_unsafe_paste_consent pending.consent c)) s (release-IsSound p s))
]

consent_expired-IsSound :
    (c : UnsafePasteConsent) (p : Plane) → IsSound p → IsSound (consent_expired c p)
unfolding consent_expired
consent_expired-IsSound c p s = elim (Option-cases p.pending_unsafe_paste) [
  | inl e ↦ rw (consent_expired, e) s
  | inr (pending, e) ↦
      rw (consent_expired, e)
        (if-IsSound (same_unsafe_paste_consent pending.consent c) (λ own. release-IsSound p s)
          (λ other. s))
]

-- What an admission gives: the admitted plane, or the same one with an outcome delivered.
IsSound-or-refused :
    (resolves : Bool) (o : Outcome) (r : Plane × Bool)
    → IsSound (r.0)
    → IsSound (if r.1 then r.0 else deliver resolves o (r.0))
IsSound-or-refused resolves o (p, true) s = s
IsSound-or-refused resolves o (p, false) s = deliver-IsSound resolves o p s

module _ (codec : TextCodec) where
  resize_plane-IsSound : (g : Geometry) (p : Plane) → IsSound p → IsSound (resize_plane codec g p)
  unfolding resize_plane
  resize_plane-IsSound g p s =
      if-IsSound p.detached (λ gone. s)
        (λ here. pump_inputs-IsSound codec _ (ensure_attached-IsSound _ (IsSound-desired g p s)))

  admit_paste-IsSound : (b : Bytes) (p : Plane) → IsSound p → IsSound (admit_paste codec b p)
  unfolding admit_paste
  admit_paste-IsSound b p s =
      let admitted =
        enqueue_input-IsSound codec (paste_entry codec b p.paste_attempts) p
          (unfold encode_paste_operation in refl) s in
      IsSound-or-refused _ _ _ admitted

  write_paste-IsSound : (t : String) (p : Plane) → IsSound p → IsSound (write_paste codec t p)
  unfolding write_paste
  write_paste-IsSound t p s =
      let q : Plane = record (release_unsafe_paste_consent p) {
        paste_attempts = p.paste_attempts + 1;
      } in
      let counted : IsSound q = IsSound-counted (p.paste_attempts + 1) _ (release-IsSound p s) in
      if-IsSound (t == "") (λ empty. deliver-IsSound _ _ q counted)
        (λ full.
          if-IsSound p.detached (λ gone. deliver-IsSound _ _ q counted)
            (λ here.
              if-IsSound (ltb max_paste_bytes (utf16_length t))
                (λ long. deliver-IsSound _ _ q counted)
                (λ short.
                  if-IsSound (ltb max_paste_bytes (length (codec.encode t)))
                    (λ large. deliver-IsSound _ _ q counted)
                    (λ small. admit_paste-IsSound (codec.encode t) q counted))))

  send_plain-IsSound : (i : SemanticInput) (p : Plane) → IsSound p → IsSound (send_plain codec i p)
  unfolding send_plain
  send_plain-IsSound i p s =
      let entry = plain_entry (encode_semantic_input codec i) (kind_of i) in
      let admitted = enqueue_input-IsSound codec entry p tt s in IsSound-or-refused _ _ _ admitted

  send_input-IsSound : (i : SemanticInput) (p : Plane) → IsSound p → IsSound (send_input codec i p)
  unfolding send_input
  send_input-IsSound (SemanticInput.resize g) p s =
      if-IsSound p.detached (λ gone. s) (λ here. resize_plane-IsSound g p s)
  send_input-IsSound (SemanticInput.paste t) p s =
      if-IsSound p.detached (λ gone. s) (λ here. write_paste-IsSound t p s)
  send_input-IsSound (SemanticInput.key e) p s =
      if-IsSound p.detached (λ gone. s) (λ here. send_plain-IsSound _ p s)
  send_input-IsSound (SemanticInput.mouse e) p s =
      if-IsSound p.detached (λ gone. s) (λ here. send_plain-IsSound _ p s)
  send_input-IsSound (SemanticInput.focus f) p s =
      if-IsSound p.detached (λ gone. s) (λ here. send_plain-IsSound _ p s)
  send_input-IsSound (SemanticInput.raw b) p s =
      if-IsSound p.detached (λ gone. s) (λ here. send_plain-IsSound _ p s)

  confirm_unsafe_paste-IsSound :
      (c : UnsafePasteConsent) (now : ℕ) (p : Plane)
      → IsSound p
      → IsSound ((confirm_unsafe_paste codec c now p).0)
  unfolding confirm_unsafe_paste admit_confirmed
  confirm_unsafe_paste-IsSound c now p s = elim (Option-cases p.pending_unsafe_paste) [
    | inl e ↦ rw (confirm_unsafe_paste, e) s
    | inr (pending, e) ↦
        let q = release_unsafe_paste_consent p in
        let admitted =
          enqueue_input-IsSound codec (confirmed_entry codec pending.bytes) q tt
            (release-IsSound p s) in
        rw (confirm_unsafe_paste, e)
          (if-first _ _ (not (same_unsafe_paste_consent pending.consent c)) s (
            if-first _ _
              (not (is_current_attachment p c.attachment_generation) || leb c.expires_at now)
              (release-IsSound p s) (if-first _ _ _ admitted (deliver-IsSound _ _ _ admitted))))
  ]

  abbrev pub call : InputCall → ℕ → Plane → Plane
  call (sent input) now p = send_input codec input p
  call (pasted t) now p = write_paste codec t p
  call (resized g) now p = resize_plane codec g p
  call (confirmed c) now p = (confirm_unsafe_paste codec c now p).0
  call (cancelled c) now p = (cancel_unsafe_paste c p).0
  call (expired c) now p = consent_expired c p
  call (result r) now p = handle_input_result codec r now p

  pub call-IsSound : (c : InputCall) (now : ℕ) (p : Plane) → IsSound p → IsSound (call c now p)
  call-IsSound (sent i) now p s = send_input-IsSound i p s
  call-IsSound (pasted t) now p s = write_paste-IsSound t p s
  call-IsSound (resized g) now p s = resize_plane-IsSound g p s
  call-IsSound (confirmed c) now p s = confirm_unsafe_paste-IsSound c now p s
  call-IsSound (cancelled c) now p s = cancel_unsafe_paste-IsSound c p s
  call-IsSound (expired c) now p s = consent_expired-IsSound c p s
  call-IsSound (result r) now p s = handle_input_result-IsSound codec r now p s
