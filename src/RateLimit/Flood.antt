-- ===== src/RateLimit/Flood.antt =====
-- What the limiter guarantees against a flood: over any run of calls with a clock that does not
-- step back, the packets let through fit the global budget, whatever their sources.
use nyet.Prelude.{
  ℕ, ◌+◌, ◌-◌, ◌*◌, ◌≤◌, ◌<◌, ◌≡◌, ◌≢◌, refl, inl, List, [], ◌∷◌, Option, some, arith,
  if◌then◌else◌,
}
use nyet.Prelude.Words.{u32_mod}
use nyet.RateLimit.{RateLimiter, rate_limit_allow, ◌>>=◌, started}
use nyet.RateLimit.Budget.{Sound, patience, rate_limit_allow-Paid}

-- the packets as they arrive: the source, and what `time` returned
abbrev pub Arrivals : Type 0
Arrivals = List (ℕ × ℕ)

-- how many of them pass
unfoldable pub run : RateLimiter → Arrivals → Option (ℕ × RateLimiter)
run r [] = some (0, r)
run r ((src_ip, now) ∷ rest) = do
  (b, r') ← rate_limit_allow r src_ip now
  (n, r'') ← run r' rest
  some ((if b then 1 else 0) + n, r'')

-- the clock does not step back, and no source is 0.0.0.0
abbrev pub InOrder : ℕ → Arrivals → Type 0
InOrder t [] = Unit
InOrder t ((src_ip, now) ∷ rest) = (src_ip ≢ 0) × (t ≤ now) × InOrder now rest

abbrev pub last_arrival : ℕ → Arrivals → ℕ
last_arrival t [] = t
last_arrival t ((src_ip, now) ∷ rest) = last_arrival now rest

last_arrival_le : (t : ℕ) (ps : Arrivals) → InOrder t ps → t ≤ last_arrival t ps
last_arrival_le t [] o = omega arith
last_arrival_le t ((src_ip, now) ∷ rest) (a, b, c) =
    let h : now ≤ last_arrival now rest = last_arrival_le now rest c in omega arith

run-Sound :
    (start t n : ℕ) (r : RateLimiter) (ps : Arrivals)
    → Sound start t n r
    → InOrder t ps
    → last_arrival t ps < start + patience
    → last_arrival t ps < u32_mod
    → (k : ℕ) × (r' : RateLimiter) × (run r ps ≡ some (k, r'))
      × (k ≤ n + (last_arrival t ps - t) * 200)
unfolding run
run-Sound start t n r [] s o a b = (0, r, refl, omega arith)
run-Sound start t n r ((src_ip, now) ∷ rest) s (ne, le, o) a b =
    let h : now ≤ last_arrival now rest = last_arrival_le now rest o in
    let ((p, r'), e, (m, s', c)) =
      rate_limit_allow-Paid start t now n src_ip r s ne le (omega arith) (omega arith) in
    let (k, r'', f, d) = run-Sound start now m r' rest s' o a b in
    rw (e, f) (_, _, refl, omega arith)

-- A run that starts with the limiter as `proxy_init` leaves it, with the clock not stepping back,
-- no source 0.0.0.0, and an end within 10,000,000 seconds, never overflows an `int`, and lets
-- through at most 500 packets and 200 more for each second: the global cap holds for any mix of
-- sources.
pub run-bounded :
    (start : ℕ) (ps : Arrivals)
    → InOrder start ps
    → last_arrival start ps < start + patience
    → last_arrival start ps < u32_mod
    → (k : ℕ) × (r' : RateLimiter) × (run (started start) ps ≡ some (k, r'))
      × (k ≤ 500 + (last_arrival start ps - start) * 200)
run-bounded start ps o a b =
    run-Sound start start 500 (started start) ps
      (refl, omega arith, refl, omega arith, λ i. inl refl) o a b
