-- ===== src/RateLimit/Collision.antt =====
-- Two sources whose addresses share a slot of the limiter's table, taking turns: each packet of
-- one finds the other's address there, and gets a full bucket.
use nyet.Prelude.{
  ℕ, zero, suc, ◌%◌, ◌≤◌, ◌≡◌, ◌≢◌, refl, sym, ap, true, some, [], ◌∷◌, arith, ==_same, ==_other,
}
use nyet.Prelude.Int.{pos, ltb_ℤ, ◌-ℤ◌}
use nyet.RateLimit.{
  started, RateLimiter, rate_limit_allow, refill_source, refill_global, spend, rl_buckets,
}
use nyet.RateLimit.Flood.{Arrivals, run}

-- `n` tokens are left at `now`, and the slot of `src_ip` holds another address
abbrev pub Turn : ℕ → ℕ → ℕ → RateLimiter → Type 0
Turn n src_ip now r =
    (r.global_tokens ≡ pos n)
    × (r.global_last_refill ≡ now)
    × ((r.table (src_ip % rl_buckets)).ip ≢ src_ip)

-- `n` packets, from the two sources in turn
abbrev pub alternate : ℕ → ℕ → ℕ → ℕ → Arrivals
alternate zero a b now = []
alternate (suc n) a b now = (a, now) ∷ alternate n b a now

pos_tokens : (n : ℕ) → ltb_ℤ (pos 0) (pos (suc n)) ≡ true
pos_tokens n = ground arith

pred_tokens : (n : ℕ) → pos (suc n) -ℤ pos 1 ≡ pos n
unfolding ◌-ℤ◌
pred_tokens n = ground arith

rate_limit_allow-Turn :
    (r : RateLimiter) (n src_ip other now : ℕ)
    → src_ip % rl_buckets ≡ other % rl_buckets
    → src_ip ≢ other
    → Turn (suc n) src_ip now r
    → (r' : RateLimiter) × (rate_limit_allow r src_ip now ≡ some (true, r')) × Turn n other now r'
unfolding rate_limit_allow refill_global refill_source spend
rate_limit_allow-Turn r n src_ip other now slot ne (g, t, held) =
    rw
      (
        ==_same now r.global_last_refill (sym t),
        g,
        pos_tokens n,
        ==_other (r.table (src_ip % rl_buckets)).ip src_ip held,
      )
      (
        _,
        refl,
        (
          pred_tokens n,
          t,
          rw (sym slot, ==_same (src_ip % rl_buckets) (src_ip % rl_buckets) refl) ne,
        ),
      )

run-Turn :
    (r : RateLimiter) (n k src_ip other now : ℕ)
    → src_ip % rl_buckets ≡ other % rl_buckets
    → src_ip ≢ other
    → Turn n src_ip now r
    → k ≤ n
    → (r' : RateLimiter) × (run r (alternate k src_ip other now) ≡ some (k, r'))
unfolding run
run-Turn r n zero src_ip other now slot ne t h = (r, refl)
run-Turn r zero (suc k) src_ip other now slot ne t h = ground arith
run-Turn r (suc n) (suc k) src_ip other now slot ne t h =
    let (r', e, t') = rate_limit_allow-Turn r n src_ip other now slot ne t in
    let (r'', f) = run-Turn r' n k other src_ip now (sym slot) (λ q. ne (sym q)) t' (omega arith) in
    rw (e, f) (r'', ap (λ x. some (x, r'')) (omega arith))

-- Two sources other than 0.0.0.0 that share a slot and take turns within one second get all of the
-- global bucket's 500 tokens: no packet of either is held back by the per-source limit of 20.
pub run-collision :
    (a b now k : ℕ)
    → a % rl_buckets ≡ b % rl_buckets
    → a ≢ b
    → a ≢ 0
    → k ≤ 500
    → (r : RateLimiter) × (run (started now) (alternate k a b now) ≡ some (k, r))
run-collision a b now k slot ne a0 h =
    run-Turn (started now) 500 k a b now slot ne (refl, refl, λ e. a0 (sym e)) h
