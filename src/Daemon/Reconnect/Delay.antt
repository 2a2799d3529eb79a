-- ===== src/Daemon/Reconnect/Delay.antt =====
-- The backoff between connection attempts, in src/botster/webrtcDaemonClient.ts.
use botster_web.Common.{ℕ, zero, suc, ◌-◌, ◌*◌, ◌^◌, ◌≤◌, ◌≡◌, min, arith}
use native.Mathlib.Nat.{pow-succ'}
use botster_web.Daemon.Reconnect.{retry_delay, initial_delay_ms, max_delay_ms}

power-positive : (k : ℕ) → 1 ≤ 2 ^ k
power-positive zero = omega arith
power-positive (suc k) = omega (arith, power-positive k, pow-succ' 2 k)

last-suc : (n : ℕ) → suc n - 1 ≡ n
last-suc n = omega arith

-- The delay of each attempt is at least 250 and at most 8000 milliseconds, and the next one is twice as
-- long, up to 8000; the first is 250.
pub retry_delay-doubles :
    (n : ℕ)
    → (initial_delay_ms ≤ retry_delay n)
      × (retry_delay n ≤ max_delay_ms)
      × (retry_delay (suc (suc n)) ≡ min (2 * retry_delay (suc n)) max_delay_ms)
      × (retry_delay 1 ≡ initial_delay_ms)
unfolding retry_delay
retry_delay-doubles n = (
  omega (arith, power-positive (n - 1)),
  omega arith,
  rw (last-suc (suc n)) (rw (last-suc n) (omega (arith, pow-succ' 2 n))),
  omega arith,
)
