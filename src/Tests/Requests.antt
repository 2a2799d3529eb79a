-- ===== src/Tests/Requests.antt =====
-- The theorems on pending requests at concrete inputs.
use botster_web.Common.{ℕ, ◌+◌, ◌≡◌, refl, true, false, not, List, [], ◌∷◌, some, filter}
use botster_web.Common.{nat_eq}
use botster_web.Daemon.Pending.{
  Sending, RequestEvent, sent, resumed, answered, no_requests, request_history, is_failing,
  fail_pending, request_event, send_encrypted, resume_sending, send_request, receive_response,
  finish_all, settle, release_slot, settle_pending, take_out, has_pending, has_pending_key,
  Requests,
}
use botster_web.Daemon.Pending.Counting.{times, times_settled}
use botster_web.Daemon.Pending.Settled.{
  IsBalanced, request_history-IsBalanced, fail_pending-settles,
}

abbrev whole : Sending
whole = record { encrypted = true; cancelled = false; owned = true; sends = true }

abbrev unsent : Sending
unsent = record { encrypted = true; cancelled = false; owned = true; sends = false }

-- A Hello that is acknowledged, a request that is lost with its generation, one that cannot be sent,
-- one of a newer generation, and one that still waits for its envelope.
abbrev traffic : List RequestEvent
traffic =
    sent 1 "" true true
    ∷ resumed 0 whole
    ∷ answered 1 "" true
    ∷ sent 1 "7" false true
    ∷ sent 1 "8" false true
    ∷ sent 2 "7" false true
    ∷ resumed 3 whole
    ∷ resumed 1 whole
    ∷ resumed 2 unsent
    ∷ sent 2 "9" false true
    ∷ []

request_history-IsBalanced_example : IsBalanced [] (request_history traffic no_requests)
request_history-IsBalanced_example = request_history-IsBalanced traffic

abbrev busy : Requests
busy = request_history traffic no_requests

fail_pending-settles_example :
    ((fail_pending (some 1) busy).pending_requests
      ≡ filter (λ r. not (is_failing (some 1) r)) busy.pending_requests)
    × ((n : ℕ)
        → times_settled n (fail_pending (some 1) busy).settled
          ≡ times n (filter (is_failing (some 1)) busy.pending_requests)
            + times_settled n busy.settled)
fail_pending-settles_example = fail_pending-settles (some 1) busy

abbrev lost_busy : Requests
lost_busy = fail_pending (some 1) busy

-- The slots of the lost and the unsent ones are
-- released.
busy-released : lost_busy.released ≡ 1 ∷ 2 ∷ []
unfolding request_history request_event no_requests send_encrypted resume_sending send_request
    receive_response fail_pending finish_all settle release_slot settle_pending take_out has_pending
    has_pending_key is_failing filter
busy-released = refl
