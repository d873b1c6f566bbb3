-- ===== src/RateLimit.antt =====
-- src/nyet.c, `rate_limit_allow`: a global token bucket in front of one bucket for each slot of a
-- table indexed by the source address. The lock makes each call one step; `now` is the time as
-- `uint32_t`. An `int` operation that overflows shows as `none`.
pub mod Budget
pub mod Flood
pub mod Collision
pub mod Overflow
use nyet.Prelude.{ℕ, ◌%◌, Bool, true, false, not, Option, none, some, ◌==◌, if◌then◌else◌}
use nyet.Prelude.Int.{ℤ, pos, ltb_ℤ, ◌+ℤ◌, ◌-ℤ◌, ◌*ℤ◌}
use nyet.Prelude.Words.{sub32, as_int, checked_int}

abbrev pub rl_buckets : ℕ
rl_buckets = 8192

abbrev pub rl_max_tokens : ℕ
rl_max_tokens = 20

abbrev pub rl_refill_per_sec : ℕ
rl_refill_per_sec = 10

abbrev pub rl_global_max_tokens : ℕ
rl_global_max_tokens = 500

abbrev pub rl_global_refill_per_sec : ℕ
rl_global_refill_per_sec = 200

pub record RateLimitEntry : Type 0 where
  pub ip : ℕ
  pub tokens : ℤ
  pub last_refill : ℕ

-- the file's static variables
pub record RateLimiter : Type 0 where
  pub table : ℕ → RateLimitEntry
  pub global_tokens : ℤ
  pub global_last_refill : ℕ

infixl 5 ◌>>=◌
abbrev pub ◌>>=◌ {ℓ κ} : {A : Type ℓ} {B : Type κ} → Option A → (A → Option B) → Option B
none >>= f = none
some a >>= f = f a

-- (tokens + refill > max) ? max : tokens + refill, with refill = (int)(now - last) * rate
unfoldable pub refilled : ℕ → ℕ → ℤ → ℕ → ℕ → Option ℤ
unfolding ◌+ℤ◌ ◌*ℤ◌
refilled max rate tokens last now = do
  refill ← checked_int (as_int (sub32 now last) *ℤ pos rate)
  total ← checked_int (tokens +ℤ refill)
  some (if ltb_ℤ (pos max) total then pos max else total)

-- the bucket with its tokens, and the time of the last refill, brought up to `now`
unfoldable pub refill_global : RateLimiter → ℕ → Option RateLimiter
unfolding refilled
refill_global r now =
    if not (now == r.global_last_refill)
    then (do
      tokens ←
          refilled rl_global_max_tokens rl_global_refill_per_sec r.global_tokens
            r.global_last_refill now
      some (record r { global_tokens = tokens; global_last_refill = now }))
    else some r

unfoldable pub refill_source : RateLimitEntry → ℕ → ℕ → Option RateLimitEntry
unfolding refilled
refill_source e src_ip now =
    if not (e.ip == src_ip)
    then some (record { ip = src_ip; tokens = pos rl_max_tokens; last_refill = now })
    else if not (now == e.last_refill)
    then (do
      tokens ← refilled rl_max_tokens rl_refill_per_sec e.tokens e.last_refill now
      some (record e { tokens = tokens; last_refill = now }))
    else some e

abbrev pub write : (ℕ → RateLimitEntry) → ℕ → RateLimitEntry → ℕ → RateLimitEntry
write table i e j = if i == j then e else table j

-- the two decrements under `if (allow)`
unfoldable pub spend : RateLimiter → ℕ → RateLimitEntry → Bool × RateLimiter
unfolding ◌-ℤ◌
spend r idx e =
    if ltb_ℤ (pos 0) e.tokens
    then (
      true,
      record r {
        table = write r.table idx (record e { tokens = e.tokens -ℤ pos 1 });
        global_tokens = r.global_tokens -ℤ pos 1;
      },
    )
    else (false, record r { table = write r.table idx e })

-- whether the packet passes, and the static variables after the call
unfoldable pub rate_limit_allow : RateLimiter → ℕ → ℕ → Option (Bool × RateLimiter)
unfolding refill_global refill_source spend
rate_limit_allow r src_ip now = do
  g ← refill_global r now
  if not (ltb_ℤ (pos 0) g.global_tokens) then some (false, g) else (do
    e ← refill_source (g.table (src_ip % rl_buckets)) src_ip now
    some (spend g (src_ip % rl_buckets) e))

-- what `proxy_init` leaves in them at the time `now`
abbrev pub started : ℕ → RateLimiter
started now = record {
  table = λ _. record { ip = 0; tokens = pos 0; last_refill = 0 };
  global_tokens = pos rl_global_max_tokens;
  global_last_refill = now;
}
