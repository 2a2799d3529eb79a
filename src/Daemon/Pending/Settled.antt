-- ===== src/Daemon/Pending/Settled.antt =====
-- Every request settles once and releases its slot then, in src/botster/webrtcDaemonClient.ts.
use mathlib.Core.Path.{subst}
use botster_web.Common.{
  sym, ◌∙◌, ap, get_or, none, some, All, true, ◌&&◌, if◌then◌else◌, ℕ, ◌+◌, ◌≡◌, refl, Bool, not,
  Option, List, [], ◌∷◌, ◌++◌, ltb, ◌==◌, nat_eq, arith, filter, if_split, option_split, String,
  nat_beq_iff,
}
use botster_web.Daemon.Slots.Counting.{tick}
use botster_web.Daemon.Pending.{
  PendingRequest, Settlement, Requests, no_requests, has_pending_key, take_out, settle,
  release_slot, settle_pending, send_encrypted, Sending, send_request, resume_sending,
  receive_response, expire_request, is_failing, finish_all, fail_pending, RequestEvent, sent,
  resumed, answered, expired, lost, request_event, request_history, send_failed, connection_lost,
  has_pending, not_open, encryption_failed, cancelled_before_send, connection_changed, id_in_use,
  timed_out, resolved,
}
use botster_web.Daemon.Pending.Counting.{
  times, times_settled, times_held, times_released, times-append, times-filter, IsTaken,
  take_out-IsTaken,
}

-- Each request so far is held by running code, waits for its envelope, is pending, was dropped or has
-- settled, in one of these ways and once; a slot is released as often as its request has settled; and
-- only a Hello, which holds no slot, is dropped.
pub record IsBalanced (held : List PendingRequest) (s : Requests) : Type 0 where
  pub once :
      (n : ℕ)
      → times n held
          + times n s.encrypting
          + times n s.pending_requests
          + times n s.dropped
          + times_settled n s.settled
        ≡ tick (ltb n s.next_number)
  pub freed : (n : ℕ) → times_released n s.released ≡ times_held n s.settled
  pub slotless : All (λ r. r.is_hello ≡ true) s.dropped

settled-IsBalanced :
    (r : PendingRequest) (settlement : Settlement) (held : List PendingRequest) (s : Requests)
    → IsBalanced (r ∷ held) s
    → IsBalanced held (release_slot r (settle r settlement s))
unfolding settle release_slot times times_settled times_held times_released
settled-IsBalanced r settlement held s h = record {
  once = λ n. omega (arith, h.once n);
  freed = λ n. ground (arith, h.freed n);
  slotless = h.slotless;
}

finish_all-IsBalanced :
    (rs : List PendingRequest) (s : Requests) → IsBalanced rs s → IsBalanced [] (finish_all rs s)
unfolding finish_all settle release_slot
finish_all-IsBalanced [] s h = h
finish_all-IsBalanced (r ∷ rs) s h =
    finish_all-IsBalanced rs (release_slot r (settle r connection_lost s))
      (settled-IsBalanced r connection_lost rs s h)

-- The callback throws only for a Hello.
settle_pending-IsBalanced :
    (generation : ℕ) (request_id : String) (number : ℕ) (outcome : Option Settlement) (s : Requests)
    → ((r : PendingRequest) (rest : List PendingRequest)
        → take_out (has_pending_key generation request_id) s.pending_requests ≡ some (r, rest)
        → outcome ≡ none
        → r.is_hello ≡ true)
    → IsBalanced [] s
    → IsBalanced [] (settle_pending generation request_id number outcome s)
unfolding settle_pending times
settle_pending-IsBalanced generation request_id number outcome s hello h =
    let p = has_pending_key generation request_id in
    option_split (IsBalanced []) (take_out p s.pending_requests) (λ missing. h)
      (λ found there.
        let (r, rest) = found in
        let once : (n : ℕ)
            → tick (r.number == n)
                + times n s.encrypting
                + times n rest
                + times n s.dropped
                + times_settled n s.settled
              ≡ tick (ltb n s.next_number) =
          λ n.
            let taken =
              subst (IsTaken n s.pending_requests) there
                (take_out-IsTaken n p s.pending_requests) in
            omega (arith, h.once n, taken) in
        if_split (IsBalanced []) (not (r.number == number)) (λ other. h)
          (λ mine.
            option_split (IsBalanced []) outcome
              (λ threw. record {
                once = λ n. omega (arith, once n);
                freed = h.freed;
                slotless = (hello r rest there threw, h.slotless);
              })
              (λ settlement given.
                settled-IsBalanced r settlement [] (record s { pending_requests = rest })
                  (record {
                    once = λ n. omega (arith, once n);
                    freed = h.freed;
                    slotless = h.slotless;
                  }))))

send_encrypted-IsBalanced :
    (generation : ℕ) (request_id : String) (is_hello owned : Bool) (s : Requests)
    → IsBalanced [] s
    → IsBalanced [] (send_encrypted generation request_id is_hello owned s)
unfolding send_encrypted settle release_slot times
send_encrypted-IsBalanced generation request_id is_hello owned s h =
    if_split (IsBalanced []) (not owned)
      (λ lost. settled-IsBalanced _ not_open [] _ (record {
        once = λ n. ground (arith, h.once n, nat_beq_iff s.next_number n);
        freed = h.freed;
        slotless = h.slotless;
      }))
      (λ mine. record {
        once = λ n. ground (arith, h.once n, nat_beq_iff s.next_number n);
        freed = h.freed;
        slotless = h.slotless;
      })

send_request-IsBalanced :
    (r : PendingRequest) (found : Sending) (s : Requests)
    → IsBalanced (r ∷ []) s
    → IsBalanced [] (send_request r found s)
unfolding send_request settle release_slot times
send_request-IsBalanced r found s h =
    let registered : IsBalanced [] (record s { pending_requests = s.pending_requests ++ r ∷ [] }) =
      record {
        once = λ n. omega (arith, h.once n, times-append n s.pending_requests (r ∷ []));
        freed = h.freed;
        slotless = h.slotless;
      } in
    if_split (IsBalanced []) (not found.encrypted)
      (λ failed. settled-IsBalanced r encryption_failed [] s h)
      (λ whole.
        if_split (IsBalanced []) found.cancelled
          (λ given_up. settled-IsBalanced r cancelled_before_send [] s h)
          (λ wanted.
            if_split (IsBalanced []) (not found.owned)
              (λ changed. settled-IsBalanced r connection_changed [] s h)
              (λ mine.
                if_split (IsBalanced []) (has_pending r.generation r.request_id s.pending_requests)
                  (λ used. settled-IsBalanced r id_in_use [] s h)
                  (λ fresh.
                    if_split (IsBalanced []) found.sends (λ goes. registered)
                      (λ fails.
                        settle_pending-IsBalanced r.generation r.request_id r.number
                          (some send_failed) _ (λ r rest there threw. absurd (cc (threw)))
                          registered)))))

resume_sending-IsBalanced :
    (number : ℕ) (found : Sending) (s : Requests)
    → IsBalanced [] s
    → IsBalanced [] (resume_sending number found s)
unfolding resume_sending times
resume_sending-IsBalanced number found s h =
    let p : PendingRequest → Bool = λ r. r.number == number in
    option_split (IsBalanced []) (take_out p s.encrypting) (λ missing. h)
      (λ taken there.
        let (r, rest) = taken in
        send_request-IsBalanced r found (record s { encrypting = rest })
          (record {
            once = λ n.
                let left =
                  subst (IsTaken n s.encrypting) there (take_out-IsTaken n p s.encrypting) in
                omega (arith, h.once n, left);
            freed = h.freed;
            slotless = h.slotless;
          }))

thrown_hello :
    (is_hello is_ack : Bool)
    → (if is_hello && not is_ack then none else some resolved) ≡ none
    → is_hello ≡ true
thrown_hello is_hello is_ack h = ground (arith, h)

receive_response-IsBalanced :
    (generation : ℕ) (request_id : String) (is_ack : Bool) (s : Requests)
    → IsBalanced [] s
    → IsBalanced [] (receive_response generation request_id is_ack s)
unfolding receive_response
receive_response-IsBalanced generation request_id is_ack s h =
    option_split (IsBalanced [])
      (take_out (has_pending_key generation request_id) s.pending_requests) (λ missing. h)
      (λ found there.
        settle_pending-IsBalanced generation request_id found.0.number _ s
          (λ r rest again threw.
            let same : found.0 ≡ r = ap (λ o. (get_or o found).0) (sym there ∙ again) in
            ap (λ q. q.is_hello) (sym same) ∙ thrown_hello found.0.is_hello is_ack threw)
          h)

fail_pending-IsBalanced :
    (generation : Option ℕ) (s : Requests)
    → IsBalanced [] s
    → IsBalanced [] (fail_pending generation s)
unfolding fail_pending times
fail_pending-IsBalanced generation s h =
    finish_all-IsBalanced (filter (is_failing generation) s.pending_requests) _ (record {
      once =
          λ n. omega (arith, h.once n, times-filter n (is_failing generation) s.pending_requests);
      freed = h.freed;
      slotless = h.slotless;
    })

request_event-IsBalanced :
    (e : RequestEvent) (s : Requests) → IsBalanced [] s → IsBalanced [] (request_event e s)
unfolding request_event expire_request
request_event-IsBalanced (sent generation request_id is_hello owned) s h =
    send_encrypted-IsBalanced generation request_id is_hello owned s h
request_event-IsBalanced (resumed number found) s h = resume_sending-IsBalanced number found s h
request_event-IsBalanced (answered generation request_id is_ack) s h =
    receive_response-IsBalanced generation request_id is_ack s h
request_event-IsBalanced (expired is_hello generation request_id number) s h =
    if_split (IsBalanced []) is_hello (λ hello. h)
      (λ request.
        settle_pending-IsBalanced generation request_id number (some timed_out) s
          (λ r rest there threw. absurd (cc (threw))) h)
request_event-IsBalanced (lost generation) s h = fail_pending-IsBalanced generation s h

request_history-keeps :
    (es : List RequestEvent) (s : Requests) → IsBalanced [] s → IsBalanced [] (request_history es s)
unfolding request_history
request_history-keeps [] s h = h
request_history-keeps (e ∷ es) s h =
    request_history-keeps es (request_event e s) (request_event-IsBalanced e s h)

-- Whatever happens to a new client's requests, in any order (sends that end in any way, responses,
-- deadlines, losses of one generation or of all), each request so far either waits for its envelope, is
-- pending, has settled, or is a Hello whose acknowledgement did not parse, in one of these ways and
-- once; and its slot, which all but the Hello hold, has been released as often as it has settled.
pub request_history-IsBalanced :
    (es : List RequestEvent) → IsBalanced [] (request_history es no_requests)
unfolding no_requests times times_settled times_released times_held
request_history-IsBalanced es =
    request_history-keeps es no_requests
      (record { once = λ n. ground arith; freed = λ n. refl; slotless = tt })

finish_all-settled :
    (n : ℕ) (rs : List PendingRequest) (s : Requests)
    → times_settled n (finish_all rs s).settled ≡ times n rs + times_settled n s.settled
unfolding finish_all settle release_slot times times_settled
finish_all-settled n [] s = omega arith
finish_all-settled n (r ∷ rs) s =
    omega (arith, finish_all-settled n rs (release_slot r (settle r connection_lost s)))

finish_all-pending_requests :
    (rs : List PendingRequest) (s : Requests)
    → (finish_all rs s).pending_requests ≡ s.pending_requests
unfolding finish_all settle release_slot
finish_all-pending_requests [] s = refl
finish_all-pending_requests (r ∷ rs) s =
    finish_all-pending_requests rs (release_slot r (settle r connection_lost s))

-- The loss of one generation, or of all, leaves no request of it pending and settles each that was,
-- once; a pending request of another generation stays pending, in its order, and does not settle.
pub fail_pending-settles :
    (generation : Option ℕ) (s : Requests)
    → ((fail_pending generation s).pending_requests
        ≡ filter (λ r. not (is_failing generation r)) s.pending_requests)
      × ((n : ℕ)
          → times_settled n (fail_pending generation s).settled
            ≡ times n (filter (is_failing generation) s.pending_requests)
              + times_settled n s.settled)
unfolding fail_pending
fail_pending-settles generation s =
    let failing = filter (is_failing generation) s.pending_requests in
    (finish_all-pending_requests failing _, λ n. finish_all-settled n failing _)
