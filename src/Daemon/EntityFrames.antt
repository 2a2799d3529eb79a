-- ===== src/Daemon/EntityFrames.antt =====
-- Entity frames and their sequence, in src/botster/webrtcDaemonClient.ts. A resubscription is followed
-- up to its first wait.
pub mod Gapless
use botster_web.Common.{
  ℕ, zero, suc, ◌+◌, ◌≡◌, ◌⊎◌, refl, sym, ap, ◌∙◌, inl, inr, Bool, true, false, not, ◌&&◌, ◌||◌,
  Option, none, some, List, [], ◌∷◌, ◌++◌, ◌==◌, nat_eq, nat_beq_iff, string_eq, if◌then◌else◌,
  opt_beq, String, All, arith, Bool-cases, Option-cases, if_split, option_split,
}

pub data EntityFrameKind : Type 0 where
  entity_error entity_snapshot entity_delta : EntityFrameKind

-- What the client reads of a frame; `entity_delta` is an upsert, a patch or a removal.
pub record DaemonEntityFrame : Type 0 where
  pub subscription_id : String
  pub entity_type : String
  pub kind : EntityFrameKind
  pub snapshot_seq : ℕ

-- `delivered` is what the listener has been given, `ready` whether the caller's promise is resolved.
pub record EntitySubscription : Type 0 where
  pub entity_type : String
  pub closed : Bool
  pub generation : Option ℕ
  pub subscription_id : Option String
  pub snapshot_seq : Option ℕ
  pub resubscribing : Bool
  pub ready : Bool
  pub delivered : List DaemonEntityFrame

unfoldable pub is_addressee : DaemonEntityFrame → ℕ → EntitySubscription → Bool
is_addressee frame generation s =
    not s.closed
    && opt_beq s.generation (some generation)
    && opt_beq s.subscription_id (some frame.subscription_id)
    && (s.entity_type == frame.entity_type)

-- `resubscribeEntity`, up to its first wait
unfoldable pub resubscribe_entity : ℕ → ℕ → EntitySubscription → EntitySubscription
resubscribe_entity generation peer_generation s =
    if s.resubscribing || s.closed || not (generation == peer_generation)
    then s
    else record s { resubscribing = true }

abbrev pub deliver : DaemonEntityFrame → EntitySubscription → EntitySubscription
deliver frame s = record s { delivered = s.delivered ++ frame ∷ [] }

-- A delta that is not the next one is not delivered.
unfoldable pub receive_delta : DaemonEntityFrame → ℕ → ℕ → EntitySubscription → EntitySubscription
receive_delta frame generation peer_generation s = elim s.snapshot_seq [
  | none ↦ resubscribe_entity generation peer_generation s
  | some current ↦
      if not (frame.snapshot_seq == current + 1)
      then resubscribe_entity generation peer_generation s
      else deliver frame (record s { snapshot_seq = some frame.snapshot_seq })
]

-- What the subscription that a frame is for does with it.
unfoldable pub receive_for : DaemonEntityFrame → ℕ → ℕ → EntitySubscription → EntitySubscription
receive_for frame generation peer_generation s = elim frame.kind [
  | entity_error ↦ deliver frame s
  | entity_snapshot ↦
      deliver frame (record s { snapshot_seq = some frame.snapshot_seq; ready = true })
  | entity_delta ↦ receive_delta frame generation peer_generation s
]

-- The first subscription that the frame is for receives it; a frame for none is dropped.
unfoldable pub receive_entity_frame :
    DaemonEntityFrame → ℕ → ℕ → List EntitySubscription → List EntitySubscription
receive_entity_frame frame generation peer_generation [] = []
receive_entity_frame frame generation peer_generation (s ∷ subscriptions) =
    let others = receive_entity_frame frame generation peer_generation subscriptions in
    if is_addressee frame generation s
    then receive_for frame generation peer_generation s ∷ subscriptions
    else s ∷ others

-- What `resetPeerState` does to a subscription.
unfoldable pub reset_subscription : EntitySubscription → EntitySubscription
reset_subscription s = record s {
  generation = none;
  subscription_id = none;
  snapshot_seq = none;
  resubscribing = false;
}

unfoldable pub reset_subscriptions : List EntitySubscription → List EntitySubscription
reset_subscriptions [] = []
reset_subscriptions (s ∷ subscriptions) = reset_subscription s ∷ reset_subscriptions subscriptions

-- A subscription starts again, on the peer of a generation under a new id: `startEntitySubscription` on
-- the subscription at a place of the set.
unfoldable pub restart_subscription :
    ℕ → ℕ → String → List EntitySubscription → List EntitySubscription
restart_subscription place generation id [] = []
restart_subscription zero generation id (s ∷ subscriptions) =
    record s { generation = some generation; subscription_id = some id; snapshot_seq = none }
    ∷ subscriptions
restart_subscription (suc place) generation id (s ∷ subscriptions) =
    s ∷ restart_subscription place generation id subscriptions
