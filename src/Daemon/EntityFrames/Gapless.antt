-- ===== src/Daemon/EntityFrames/Gapless.antt =====
-- The entity frames that a listener of src/botster/webrtcDaemonClient.ts is given have no gaps.
use botster_web.Common.{
  ℕ, zero, suc, ◌+◌, ◌≡◌, ◌⊎◌, refl, sym, ◌∙◌, inl, inr, true, not, ◌||◌, Option, none, some, List,
  [], ◌∷◌, ◌++◌, ◌==◌, nat_eq, string_eq, if◌then◌else◌, String, All, arith, Option-cases, if_split,
  option_split, All-append,
}
use botster_web.Daemon.EntityFrames.{
  EntityFrameKind, entity_error, entity_snapshot, entity_delta, DaemonEntityFrame,
  EntitySubscription, is_addressee, resubscribe_entity, receive_delta, receive_for,
  receive_entity_frame, reset_subscription, reset_subscriptions, restart_subscription,
}

-- The sequence after a frame: a snapshot sets it, a delta must be the next of it, an error leaves it.
unfoldable pub sequence_step : Option ℕ → DaemonEntityFrame → Option (Option ℕ)
sequence_step last frame = elim frame.kind [
  | entity_error ↦ some last
  | entity_snapshot ↦ some (some frame.snapshot_seq)
  | entity_delta ↦ elim last [
    | none ↦ none
    | some n ↦ if frame.snapshot_seq == n + 1 then some (some frame.snapshot_seq) else none
  ]
]

-- The sequence after frames read in order; `none` where a delta is not the next.
unfoldable pub sequence_after : Option ℕ → List DaemonEntityFrame → Option (Option ℕ)
sequence_after last [] = some last
sequence_after last (frame ∷ frames) = elim (sequence_step last frame) [
  | none ↦ none
  | some next ↦ sequence_after next frames
]

sequence_after-append :
    (last reached : Option ℕ) (frames : List DaemonEntityFrame) (frame : DaemonEntityFrame)
    → sequence_after last frames ≡ some reached
    → sequence_after last (frames ++ frame ∷ []) ≡ sequence_step reached frame
unfolding sequence_after
sequence_after-append last reached [] frame h =
    let same : last ≡ reached = cc (h) in rw (sym same) (ends (sequence_step last frame))
  where
    ends : (o : Option (Option ℕ)) → (elim o [ none ↦ none | some next ↦ some next ]) ≡ o
    ends none = refl
    ends (some next) = refl
sequence_after-append last reached (first ∷ frames) frame h =
    elim (Option-cases (sequence_step last first)) [
      | inl broken ↦ absurd (cc (rw (sequence_after, broken) at h))
      | inr (next, step) ↦
          rw (sequence_after, step)
            (sequence_after-append next reached frames frame (rw (sequence_after, step) at h))
    ]

-- What has been delivered has no gaps, and the sequence held, if any, is the one reached.
abbrev pub IsGapless : EntitySubscription → Type 0
IsGapless s =
    (reached : Option ℕ) × (sequence_after none s.delivered ≡ some reached)
    × ((s.snapshot_seq ≡ none) ⊎ (s.snapshot_seq ≡ reached))

resubscribe_entity-IsGapless :
    (generation peer : ℕ) (s : EntitySubscription)
    → IsGapless s
    → IsGapless (resubscribe_entity generation peer s)
unfolding resubscribe_entity
resubscribe_entity-IsGapless generation peer s h =
    if_split IsGapless (s.resubscribing || s.closed || not (generation == peer)) (λ stays. h)
      (λ asks. h)

delta-step :
    (n : ℕ) (frame : DaemonEntityFrame)
    → frame.kind ≡ entity_delta
    → (frame.snapshot_seq == n + 1) ≡ true
    → sequence_step (some n) frame ≡ some (some frame.snapshot_seq)
unfolding sequence_step
delta-step n frame delta next = rw (sequence_step, delta) (rw next refl)

receive_delta-IsGapless :
    (frame : DaemonEntityFrame) (generation peer : ℕ) (s : EntitySubscription)
    → frame.kind ≡ entity_delta
    → IsGapless s
    → IsGapless (receive_delta frame generation peer s)
unfolding receive_delta
receive_delta-IsGapless frame generation peer s delta h =
    let (reached, whole, at_it) = h in
    option_split IsGapless s.snapshot_seq
      (λ nothing. resubscribe_entity-IsGapless generation peer s h)
      (λ current held.
        if_split IsGapless (not (frame.snapshot_seq == current + 1))
          (λ gap. resubscribe_entity-IsGapless generation peer s h)
          (λ next. (
            some frame.snapshot_seq,
            sequence_after-append none reached s.delivered frame whole
                ∙ (let reached_it : reached ≡ some current = elim at_it [
                  | inl nothing ↦ absurd (cc (nothing, held))
                  | inr same ↦ sym same ∙ held
                ] in
                    rw reached_it (delta-step current frame delta (ground (arith, next)))),
            inr refl,
          )))

receive_for-IsGapless :
    (kind : EntityFrameKind) (frame : DaemonEntityFrame) (generation peer : ℕ)
    (s : EntitySubscription)
    → frame.kind ≡ kind
    → IsGapless s
    → IsGapless (receive_for frame generation peer s)
unfolding receive_for
receive_for-IsGapless entity_error frame generation peer s is_error (reached, whole, at_it) =
    rw (receive_for, is_error)
      (
        reached,
        sequence_after-append none reached s.delivered frame whole
            ∙ (unfold sequence_step in rw (sequence_step, is_error) refl),
        at_it,
      )
receive_for-IsGapless entity_snapshot frame generation peer s is_snapshot (reached, whole, at_it) =
    rw (receive_for, is_snapshot)
      (
        some frame.snapshot_seq,
        sequence_after-append none reached s.delivered frame whole
            ∙ (unfold sequence_step in rw (sequence_step, is_snapshot) refl),
        inr refl,
      )
receive_for-IsGapless entity_delta frame generation peer s is_delta h =
    rw (receive_for, is_delta) (receive_delta-IsGapless frame generation peer s is_delta h)

receive_entity_frame-IsGapless :
    (frame : DaemonEntityFrame) (generation peer : ℕ) (subscriptions : List EntitySubscription)
    → All IsGapless subscriptions
    → All IsGapless (receive_entity_frame frame generation peer subscriptions)
unfolding receive_entity_frame
receive_entity_frame-IsGapless frame generation peer [] h = tt
receive_entity_frame-IsGapless frame generation peer (s ∷ subscriptions) h =
    if_split (All IsGapless) (is_addressee frame generation s)
      (λ mine. (receive_for-IsGapless frame.kind frame generation peer s refl h.0, h.1))
      (λ other. (h.0, receive_entity_frame-IsGapless frame generation peer subscriptions h.1))

reset_subscriptions-IsGapless :
    (subscriptions : List EntitySubscription)
    → All IsGapless subscriptions
    → All IsGapless (reset_subscriptions subscriptions)
unfolding reset_subscriptions reset_subscription
reset_subscriptions-IsGapless [] h = tt
reset_subscriptions-IsGapless (s ∷ subscriptions) h =
    ((h.0.0, h.0.1, inl refl), reset_subscriptions-IsGapless subscriptions h.1)

restart_subscription-IsGapless :
    (place generation : ℕ) (id : String) (subscriptions : List EntitySubscription)
    → All IsGapless subscriptions
    → All IsGapless (restart_subscription place generation id subscriptions)
unfolding restart_subscription
restart_subscription-IsGapless place generation id [] h = tt
restart_subscription-IsGapless zero generation id (s ∷ subscriptions) h =
    ((h.0.0, h.0.1, inl refl), h.1)
restart_subscription-IsGapless (suc place) generation id (s ∷ subscriptions) h =
    (h.0, restart_subscription-IsGapless place generation id subscriptions h.1)

-- A frame arrives on a channel of a generation while another may be current, the peer is reset, a
-- subscription starts again, or a caller makes one.
pub data SubscriptionEvent : Type 0 where
  frame_arrived : DaemonEntityFrame → (generation peer_generation : ℕ) → SubscriptionEvent
  peer_reset : SubscriptionEvent
  restarted : (place generation : ℕ) (id : String) → SubscriptionEvent
  subscribed : EntitySubscription → SubscriptionEvent

-- A caller's new subscription has been given nothing and holds no sequence.
unfoldable pub new_subscription : EntitySubscription → EntitySubscription
new_subscription s = record s { snapshot_seq = none; delivered = [] }

unfoldable pub subscription_event :
    SubscriptionEvent → List EntitySubscription → List EntitySubscription
subscription_event (frame_arrived frame generation peer) subscriptions =
    receive_entity_frame frame generation peer subscriptions
subscription_event peer_reset subscriptions = reset_subscriptions subscriptions
subscription_event (restarted place generation id) subscriptions =
    restart_subscription place generation id subscriptions
subscription_event (subscribed s) subscriptions = subscriptions ++ new_subscription s ∷ []

unfoldable pub subscription_history :
    List SubscriptionEvent → List EntitySubscription → List EntitySubscription
subscription_history [] subscriptions = subscriptions
subscription_history (e ∷ es) subscriptions =
    subscription_history es (subscription_event e subscriptions)

subscription_event-IsGapless :
    (e : SubscriptionEvent) (subscriptions : List EntitySubscription)
    → All IsGapless subscriptions
    → All IsGapless (subscription_event e subscriptions)
unfolding subscription_event new_subscription
subscription_event-IsGapless (frame_arrived frame generation peer) subscriptions h =
    receive_entity_frame-IsGapless frame generation peer subscriptions h
subscription_event-IsGapless peer_reset subscriptions h =
    reset_subscriptions-IsGapless subscriptions h
subscription_event-IsGapless (restarted place generation id) subscriptions h =
    restart_subscription-IsGapless place generation id subscriptions h
subscription_event-IsGapless (subscribed s) subscriptions h =
    All-append IsGapless subscriptions _ h ((none, unfold sequence_after in refl, inl refl), tt)

subscription_history-keeps :
    (es : List SubscriptionEvent) (subscriptions : List EntitySubscription)
    → All IsGapless subscriptions
    → All IsGapless (subscription_history es subscriptions)
unfolding subscription_history
subscription_history-keeps [] subscriptions h = h
subscription_history-keeps (e ∷ es) subscriptions h =
    subscription_history-keeps es (subscription_event e subscriptions)
      (subscription_event-IsGapless e subscriptions h)

-- Whatever frames of whatever generations arrive at whatever subscriptions, and however often the
-- peer is reset and subscriptions start again, the frames that each listener has been given have no
-- gap: each delta follows a snapshot and is numbered one above the delta or snapshot given before it.
pub subscription_history-IsGapless :
    (es : List SubscriptionEvent) → All IsGapless (subscription_history es [])
subscription_history-IsGapless es = subscription_history-keeps es [] tt
