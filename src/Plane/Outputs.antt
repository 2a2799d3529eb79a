-- ===== src/Plane/Outputs.antt =====
-- Output that src/botster/hubTerminalDataPlane.ts gives its listeners, or keeps until the screen is
-- there.
use botster_web.Common.{
  length-append, ℕ, ◌+◌, ◌≤◌, ◌≡◌, refl, sym, ap, ◌∙◌, true, false, none, some, List, [], ◌∷◌, ◌++◌,
  length, nat_eq, arith, Bool-cases, Option-cases, inl, inr, ltb, nat_beq_iff,
}
use mathlib.Core.Path.{subst}
use mathlib.Core.List.{append_assoc, append-nil}
use botster_web.Wire.Bytes.{Bytes}
use botster_web.Wire.Event.{TextCodec}
use botster_web.Plane.State.{ScreenHydration, output, Plane}
use botster_web.Plane.Basics.{emit}
use botster_web.Plane.Route.{Texts, buffer_hydrating_output, receive_output}
use botster_web.Plane.Buffering.{
  IsBounded, IsBuffered, sum_lengths, sum_lengths-append, receive_output-IsBuffered,
}
use botster_web.Plane.Order.{delivered, waiting, screen_stream, IsOfAttachment}

emit-appends :
    (bytes : Bytes) (p : Plane)
    → waiting p.hydration ≡ []
    → screen_stream (emit (output bytes) p) ≡ screen_stream p ++ bytes ∷ []
unfolding emit
emit-appends bytes p e =
    ap (λ w. (delivered p.effects ++ bytes ∷ []) ++ w) e
    ∙ append-nil (delivered p.effects ++ bytes ∷ [])
    ∙ ap (λ d. d ++ bytes ∷ []) (sym (append-nil (delivered p.effects)))
    ∙ ap (λ w. (delivered p.effects ++ w) ++ bytes ∷ []) (sym e)

module _ (codec : TextCodec) (texts : Texts) where
  abbrev with_buffered : Bytes → ScreenHydration → Plane → Plane
  with_buffered bytes h p = record p {
    hydration = some (record h {
      buffered_output = h.buffered_output ++ bytes ∷ [];
      buffered_bytes = h.buffered_bytes + length bytes;
    });
  }

  receive_output-hydrating :
      (bytes : Bytes) (now : ℕ) (h : ScreenHydration) (p : Plane)
      → p.hydration ≡ some h
      → h.completed ≡ false
      → length h.buffered_output + 1 ≤ 256
      → h.buffered_bytes + length bytes ≤ 8388608
      → receive_output codec texts bytes h.generation now p ≡ with_buffered bytes h p
  unfolding receive_output buffer_hydrating_output
  receive_output-hydrating bytes now h p e on items fits =
      rw
        (
          receive_output,
          e,
          on,
          (nat_beq_iff h.generation h.generation).1 refl,
          within 8388608 (h.buffered_bytes + length bytes) fits,
          within 256 (length h.buffered_output + 1) items,
        )
        refl
    where
      within : (bound n : ℕ) → n ≤ bound → ltb bound n ≡ false
      within bound n k = ground (arith, k)

  with_buffered-appends :
      (bytes : Bytes) (h : ScreenHydration) (p : Plane)
      → p.hydration ≡ some h
      → screen_stream (with_buffered bytes h p) ≡ screen_stream p ++ bytes ∷ []
  with_buffered-appends bytes h p e =
      sym (append_assoc (delivered p.effects) h.buffered_output (bytes ∷ []))
      ∙ ap (λ o. (delivered p.effects ++ waiting o) ++ bytes ∷ []) (sym e)

  hydrating-appends :
      (bytes : Bytes) (generation now : ℕ) (h : ScreenHydration) (p : Plane)
      → p.hydration ≡ some h
      → IsBuffered p.hydration
      → IsOfAttachment generation p.hydration
      → length (waiting p.hydration) + 1 ≤ 256
      → sum_lengths (waiting p.hydration) + length bytes ≤ 8388608
      → h.completed ≡ false
      → screen_stream (receive_output codec texts bytes generation now p)
        ≡ screen_stream p ++ bytes ∷ []
  hydrating-appends bytes generation now h p e s own items fits on =
      let b : IsBounded h = subst IsBuffered e s in
      let same : h.generation ≡ generation = subst (IsOfAttachment generation) e own in
      let few : length h.buffered_output + 1 ≤ 256 =
        subst (λ o. length (waiting o) + 1 ≤ 256) e items in
      let small : sum_lengths h.buffered_output + length bytes ≤ 8388608 =
        subst (λ o. sum_lengths (waiting o) + length bytes ≤ 8388608) e fits in
      ap (λ g. screen_stream (receive_output codec texts bytes g now p)) (sym same)
      ∙ ap screen_stream
          (receive_output-hydrating bytes now h p e on few (omega (arith, small, b.counted)))
      ∙ with_buffered-appends bytes h p e

  receive_output-idle :
      (bytes : Bytes) (generation now : ℕ) (p : Plane)
      → p.hydration ≡ none
      → receive_output codec texts bytes generation now p ≡ emit (output bytes) p
  unfolding receive_output
  receive_output-idle bytes generation now p e =
      rw (receive_output, e) (ap (λ o. emit (output bytes) (record p { hydration = o })) e)

  receive_output-completed :
      (bytes : Bytes) (generation now : ℕ) (h : ScreenHydration) (p : Plane)
      → p.hydration ≡ some h
      → h.completed ≡ true
      → receive_output codec texts bytes generation now p ≡ emit (output bytes) p
  unfolding receive_output
  receive_output-completed bytes generation now h p e done =
      rw (receive_output, e, done) (ground arith)

  -- An output that fits the bounds is given to the listeners, or waits, behind all that came before it.
  receive_output-appends :
      (bytes : Bytes) (generation now : ℕ) (p : Plane)
      → IsBuffered p.hydration
      → IsOfAttachment generation p.hydration
      → length (waiting p.hydration) + 1 ≤ 256
      → sum_lengths (waiting p.hydration) + length bytes ≤ 8388608
      → screen_stream (receive_output codec texts bytes generation now p)
        ≡ screen_stream p ++ bytes ∷ []
  receive_output-appends bytes generation now p s own items fits = elim (Option-cases p.hydration) [
    | inl e ↦
        ap screen_stream (receive_output-idle bytes generation now p e)
        ∙ emit-appends bytes p (ap waiting e)
    | inr (h, e) ↦ elim (Bool-cases h.completed) [
      | inl done ↦
          ap screen_stream (receive_output-completed bytes generation now h p e done)
          ∙ emit-appends bytes p (ap waiting e ∙ IsBounded.flushed (subst IsBuffered e s) done)
      | inr on ↦ hydrating-appends bytes generation now h p e s own items fits on
    ]
  ]

  -- What waits after an output is of the attachment, and at most what waited and that output.
  record IsStep (text : Bytes) (generation : ℕ) (p q : Plane) : Type 0 where
    pub own : IsOfAttachment generation q.hydration
    pub items : length (waiting q.hydration) ≤ length (waiting p.hydration) + 1
    pub bytes : sum_lengths (waiting q.hydration) ≤ sum_lengths (waiting p.hydration) + length text

  emit-IsStep :
      (bytes : Bytes) (generation : ℕ) (p : Plane)
      → IsOfAttachment generation p.hydration
      → IsStep bytes generation p (emit (output bytes) p)
  unfolding emit
  emit-IsStep bytes generation p own = record {
    own = own;
    items = omega arith;
    bytes = omega arith;
  }

  with_buffered-IsStep :
      (bytes : Bytes) (generation : ℕ) (h : ScreenHydration) (p : Plane)
      → p.hydration ≡ some h
      → h.generation ≡ generation
      → IsStep bytes generation p (with_buffered bytes h p)
  with_buffered-IsStep bytes generation h p e own = record {
    own = own;
    items =
        omega (arith, length-append h.buffered_output (bytes ∷ []), ap (λ o. length (waiting o)) e);
    bytes =
        omega
          (arith, sum_lengths-append h.buffered_output bytes, ap (λ o. sum_lengths (waiting o)) e);
  }

  receive_output-IsStep :
      (bytes : Bytes) (generation now : ℕ) (p : Plane)
      → IsBuffered p.hydration
      → IsOfAttachment generation p.hydration
      → length (waiting p.hydration) + 1 ≤ 256
      → sum_lengths (waiting p.hydration) + length bytes ≤ 8388608
      → IsStep bytes generation p (receive_output codec texts bytes generation now p)
  receive_output-IsStep bytes generation now p s own items fits =
      let Fine : Plane → Type 0 = IsStep bytes generation p in
      elim (Option-cases p.hydration) [
        | inl e ↦
            subst Fine (sym (receive_output-idle bytes generation now p e))
              (emit-IsStep bytes generation p own)
        | inr (h, e) ↦ elim (Bool-cases h.completed) [
          | inl done ↦
              subst Fine (sym (receive_output-completed bytes generation now h p e done))
                (emit-IsStep bytes generation p own)
          | inr on ↦
              let b : IsBounded h = subst IsBuffered e s in
              let same : h.generation ≡ generation = subst (IsOfAttachment generation) e own in
              let few : length h.buffered_output + 1 ≤ 256 =
                subst (λ o. length (waiting o) + 1 ≤ 256) e items in
              let small : sum_lengths h.buffered_output + length bytes ≤ 8388608 =
                subst (λ o. sum_lengths (waiting o) + length bytes ≤ 8388608) e fits in
              let buffered : receive_output codec texts bytes generation now p
                  ≡ with_buffered bytes h p =
                ap (λ g. receive_output codec texts bytes g now p) (sym same)
                ∙ receive_output-hydrating bytes now h p e on few
                    (omega (arith, small, b.counted)) in
              subst Fine (sym buffered) (with_buffered-IsStep bytes generation h p e same)
        ]
      ]

  abbrev pub receive_outputs : List Bytes → ℕ → ℕ → Plane → Plane
  receive_outputs [] generation now p = p
  receive_outputs (bytes ∷ rest) generation now p =
      receive_outputs rest generation now (receive_output codec texts bytes generation now p)

  -- If the hydration is within its bounds and of this attachment, or there is none, outputs that
  -- together still fit the bounds are all given to the listeners, or wait, in order and behind what
  -- came before them.
  pub receive_outputs-appends :
      (outputs : List Bytes) (generation now : ℕ) (p : Plane)
      → IsBuffered p.hydration
      → IsOfAttachment generation p.hydration
      → length (waiting p.hydration) + length outputs ≤ 256
      → sum_lengths (waiting p.hydration) + sum_lengths outputs ≤ 8388608
      → screen_stream (receive_outputs outputs generation now p) ≡ screen_stream p ++ outputs
  receive_outputs-appends [] generation now p s own items fits = sym (append-nil (screen_stream p))
  receive_outputs-appends (bytes ∷ rest) generation now p s own items fits =
      let step : IsStep bytes generation p (receive_output codec texts bytes generation now p) =
        receive_output-IsStep bytes generation now p s own (omega (arith, items))
          (omega (arith, fits)) in
      receive_outputs-appends rest generation now _
        (receive_output-IsBuffered codec texts bytes generation now p s) step.own
        (omega (arith, items, step.items)) (omega (arith, fits, step.bytes))
      ∙ ap (λ stream. stream ++ rest)
          (receive_output-appends bytes generation now p s own (omega (arith, items))
            (omega (arith, fits)))
      ∙ append_assoc (screen_stream p) (bytes ∷ []) rest
