-- ===== src/Daemon/Pending.antt =====
-- Pending requests on the control channel, in src/botster/webrtcDaemonClient.ts. A request is numbered
-- in the order of its `sendEncrypted`; the key of the pending map is the pair that its string spells.
pub mod Counting
pub mod Settled
use botster_web.Common.{
  ℕ, suc, Bool, true, false, not, ◌&&◌, ◌||◌, Option, none, some, List, [], ◌∷◌, ◌++◌, ◌==◌, nat_eq,
  string_eq, String, if◌then◌else◌, filter, is_some,
}

pub record PendingRequest : Type 0 where
  pub number : ℕ
  pub generation : ℕ
  pub request_id : String
  pub is_hello : Bool

-- How the promise of a request settles.
pub data Settlement : Type 0 where
  resolved not_open encryption_failed cancelled_before_send connection_changed : Settlement
  id_in_use send_failed timed_out connection_lost : Settlement

-- `encrypting` has the requests that wait for their envelope, `dropped` those that left the pending map
-- and never settle, `released` each call of a slot's `release`, by the request that holds the slot.
pub record Requests : Type 0 where
  pub next_number : ℕ
  pub encrypting : List PendingRequest
  pub pending_requests : List PendingRequest
  pub dropped : List PendingRequest
  pub settled : List (PendingRequest × Settlement)
  pub released : List ℕ

unfoldable pub no_requests : Requests
no_requests = record {
  next_number = 0;
  encrypting = [];
  pending_requests = [];
  dropped = [];
  settled = [];
  released = [];
}

unfoldable pub has_pending_key : ℕ → String → PendingRequest → Bool
has_pending_key generation request_id r = r.generation == generation && r.request_id == request_id

-- The first element that passes a test, and the list without it.
unfoldable pub take_out :
    (PendingRequest → Bool) → List PendingRequest → Option (PendingRequest × List PendingRequest)
take_out p [] = none
take_out p (r ∷ rs) = elim (take_out p rs) [
  | none ↦ if p r then some (r, rs) else none
  | some (found, rest) ↦ if p r then some (r, rs) else some (found, r ∷ rest)
]

-- The promise of a request settles: `resolve`, `reject` or the exception of `sendEncrypted`.
unfoldable pub settle : PendingRequest → Settlement → Requests → Requests
settle r settlement s = record s { settled = (r, settlement) ∷ s.settled }

-- `slot?.release()`; the Hello holds no slot.
unfoldable pub release_slot : PendingRequest → Requests → Requests
release_slot r s = record s { released = if r.is_hello then s.released else r.number ∷ s.released }

-- `settlePending` under a key, for the pending request with a number. The settlement is `none` where
-- the callback throws, which leaves out what follows it.
unfoldable pub settle_pending : ℕ → String → ℕ → Option Settlement → Requests → Requests
settle_pending generation request_id number outcome s =
    elim (take_out (has_pending_key generation request_id) s.pending_requests) [
      | none ↦ s
      | some (r, rest) ↦ if not (r.number == number) then s else elim outcome [
        | none ↦ record s { pending_requests = rest; dropped = r ∷ s.dropped }
        | some settlement ↦
            release_slot r (settle r settlement (record s { pending_requests = rest }))
      ]
    ]

-- `sendEncrypted` up to its wait for the envelope.
unfoldable pub send_encrypted : ℕ → String → Bool → Bool → Requests → Requests
send_encrypted generation request_id is_hello owned s =
    let r : PendingRequest = record {
      number = s.next_number;
      generation = generation;
      request_id = request_id;
      is_hello = is_hello;
    } in
    let begun : Requests = record s { next_number = suc s.next_number } in
    if not owned
    then settle r not_open (release_slot r begun)
    else record begun { encrypting = r ∷ begun.encrypting }

-- What `sendEncrypted` finds after its wait: whether the encryption succeeded, the caller gave up, the
-- connection is still the one it was for, and `channel.send` succeeds.
pub record Sending : Type 0 where
  pub encrypted : Bool
  pub cancelled : Bool
  pub owned : Bool
  pub sends : Bool

unfoldable pub has_pending : ℕ → String → List PendingRequest → Bool
has_pending generation request_id rs = is_some (take_out (has_pending_key generation request_id) rs)

-- The rest of `sendEncrypted`.
unfoldable pub send_request : PendingRequest → Sending → Requests → Requests
send_request r found s =
    let registered : Requests = record s { pending_requests = s.pending_requests ++ r ∷ [] } in
    if not found.encrypted
    then settle r encryption_failed (release_slot r s)
    else if found.cancelled
    then settle r cancelled_before_send (release_slot r s)
    else if not found.owned
    then settle r connection_changed (release_slot r s)
    else if has_pending r.generation r.request_id s.pending_requests
    then settle r id_in_use (release_slot r s)
    else if found.sends
    then registered
    else settle_pending r.generation r.request_id r.number (some send_failed) registered

unfoldable pub resume_sending : ℕ → Sending → Requests → Requests
resume_sending number found s = elim (take_out (λ r. r.number == number) s.encrypting) [
  | none ↦ s
  | some (r, rest) ↦ send_request r found (record s { encrypting = rest })
]

-- A response, or a HelloAck under the empty id, resolves what is pending under its key. What finds
-- nothing changes no request here. The `parse` of a Hello throws where the payload is no HelloAck; that
-- of a request returns its payload.
unfoldable pub receive_response : ℕ → String → Bool → Requests → Requests
receive_response generation request_id is_ack s =
    elim (take_out (has_pending_key generation request_id) s.pending_requests) [
      | none ↦ s
      | some (r, rest) ↦
          settle_pending generation request_id r.number
            (if r.is_hello && not is_ack then none else some resolved) s
    ]

-- The deadline of a request. That of the Hello fails its generation instead, whose `failPending` is
-- an event of its own.
unfoldable pub expire_request : Bool → ℕ → String → ℕ → Requests → Requests
expire_request is_hello generation request_id number s =
    if is_hello then s else settle_pending generation request_id number (some timed_out) s

unfoldable pub is_failing : Option ℕ → PendingRequest → Bool
is_failing none r = true
is_failing (some generation) r = r.generation == generation

unfoldable pub finish_all : List PendingRequest → Requests → Requests
finish_all [] s = s
finish_all (r ∷ rs) s = finish_all rs (release_slot r (settle r connection_lost s))

-- `failPending`, less the callers that wait for a slot (Daemon.Slots).
unfoldable pub fail_pending : Option ℕ → Requests → Requests
fail_pending generation s =
    finish_all (filter (is_failing generation) s.pending_requests) (record s {
      pending_requests = filter (λ r. not (is_failing generation r)) s.pending_requests;
    })

pub data RequestEvent : Type 0 where
  sent : ℕ → String → Bool → Bool → RequestEvent
  resumed : ℕ → Sending → RequestEvent
  answered : ℕ → String → Bool → RequestEvent
  expired : Bool → ℕ → String → ℕ → RequestEvent
  lost : Option ℕ → RequestEvent

unfoldable pub request_event : RequestEvent → Requests → Requests
request_event (sent generation request_id is_hello owned) s =
    send_encrypted generation request_id is_hello owned s
request_event (resumed number found) s = resume_sending number found s
request_event (answered generation request_id is_ack) s =
    receive_response generation request_id is_ack s
request_event (expired is_hello generation request_id number) s =
    expire_request is_hello generation request_id number s
request_event (lost generation) s = fail_pending generation s

unfoldable pub request_history : List RequestEvent → Requests → Requests
request_history [] s = s
request_history (e ∷ es) s = request_history es (request_event e s)
