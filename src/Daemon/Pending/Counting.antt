-- ===== src/Daemon/Pending/Counting.antt =====
-- Counting requests by their number, for src/botster/webrtcDaemonClient.ts.
use mathlib.Core.Path.{subst}
use botster_web.Common.{
  ℕ, ◌+◌, ◌≡◌, refl, Bool, not, Option, none, some, List, [], ◌∷◌, ◌++◌, ◌==◌, nat_eq, arith,
  filter, if_split, option_split, inl, inr, Bool-cases, ◌&&◌,
}
use botster_web.Daemon.Slots.Counting.{tick}
use botster_web.Daemon.Pending.{PendingRequest, Settlement, take_out}

unfoldable pub times : ℕ → List PendingRequest → ℕ
times n [] = 0
times n (r ∷ rs) = tick (r.number == n) + times n rs

unfoldable pub times_settled : ℕ → List (PendingRequest × Settlement) → ℕ
times_settled n [] = 0
times_settled n ((r, settlement) ∷ others) = tick (r.number == n) + times_settled n others

-- The settled requests with a number that held a slot.
unfoldable pub times_held : ℕ → List (PendingRequest × Settlement) → ℕ
times_held n [] = 0
times_held n ((r, settlement) ∷ others) =
    tick (not r.is_hello && r.number == n) + times_held n others

unfoldable pub times_released : ℕ → List ℕ → ℕ
times_released n [] = 0
times_released n (m ∷ others) = tick (m == n) + times_released n others

pub times-append :
    (n : ℕ) (rs others : List PendingRequest) → times n (rs ++ others) ≡ times n rs + times n others
unfolding times
times-append n [] others = omega arith
times-append n (r ∷ rs) others = omega (arith, times-append n rs others)

pub times-filter :
    (n : ℕ) (p : PendingRequest → Bool) (rs : List PendingRequest)
    → times n (filter p rs) + times n (filter (λ r. not (p r)) rs) ≡ times n rs
unfolding times filter
times-filter n p [] = omega arith
times-filter n p (r ∷ rs) = elim (Bool-cases (p r)) [
  | inl passes ↦ rw passes (omega (arith, times-filter n p rs))
  | inr fails ↦ rw fails (omega (arith, times-filter n p rs))
]

-- What is taken out and what is left is what there was.
abbrev pub IsTaken :
    ℕ → List PendingRequest → Option (PendingRequest × List PendingRequest) → Type 0
IsTaken n rs none = ℕ
IsTaken n rs (some (r, rest)) = times n rs ≡ tick (r.number == n) + times n rest

pub take_out-IsTaken :
    (n : ℕ) (p : PendingRequest → Bool) (rs : List PendingRequest) → IsTaken n rs (take_out p rs)
unfolding take_out times
take_out-IsTaken n p [] = 0
take_out-IsTaken n p (r ∷ rs) =
    let here : IsTaken n (r ∷ rs) (some (r, rs)) = refl in
    option_split (IsTaken n (r ∷ rs)) (take_out p rs)
      (λ none_there. if_split (IsTaken n (r ∷ rs)) (p r) (λ passes. here) (λ fails. 0))
      (λ found there.
        if_split (IsTaken n (r ∷ rs)) (p r) (λ passes. here)
          (λ fails.
            let taken = subst (IsTaken n rs) there (take_out-IsTaken n p rs) in
            omega (arith, taken)))
