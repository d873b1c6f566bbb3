-- ===== src/Tests/Limits.antt =====
-- The rate limiter at concrete arrivals.
use nyet.Prelude.{ℕ, ◌≡◌, some, [], ◌∷◌, ◌≤◌, arith, ◌+◌, ◌*◌, none}
use nyet.RateLimit.{started, RateLimiter, rate_limit_allow}
use nyet.RateLimit.Flood.{Arrivals, run, run-bounded}
use nyet.RateLimit.Overflow.{rate_limit_allow-zero}

abbrev three_packets : Arrivals
three_packets = (9, 100) ∷ (10, 100) ∷ (8201, 107) ∷ []

run-bounded_example :
    (k : ℕ) × (r : RateLimiter) × (run (started 99) three_packets ≡ some (k, r))
    × (k ≤ 500 + 8 * 200)
run-bounded_example =
    run-bounded 99 three_packets
      (omega arith, omega arith, (omega arith, omega arith, (omega arith, omega arith, tt)))
      (omega arith) (omega arith)

rate_limit_allow-zero_example : rate_limit_allow (started 1700000000) 0 1700000000 ≡ none
rate_limit_allow-zero_example = rate_limit_allow-zero 1700000000 (omega arith) (omega arith)
