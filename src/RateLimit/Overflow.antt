-- ===== src/RateLimit/Overflow.antt =====
-- The slot that the source 0.0.0.0 finds right after `proxy_init`.
use nyet.Prelude.{ℕ, ◌^◌, ◌≤◌, ◌<◌, ◌≡◌, none, arith, ==_same, ==_other, ◌*◌, refl}
use nyet.RateLimit.{
  rate_limit_allow, started, refilled, refill_global, refill_source, checked_int, pos,
}
use nyet.RateLimit.Budget.{pos-mul}
use nyet.Prelude.Words.{checked_int, as_int, sub32}
use nyet.Prelude.Int.{pos}

no_int : (a : ℕ) → 2 ^ 31 ≤ a → checked_int (pos a) ≡ none
no_int a h = ground arith

uptime : (now : ℕ) → now < 2 ^ 31 → as_int (sub32 now 0) ≡ pos now
uptime now h = ground arith

-- The first packet from 0.0.0.0 finds its own address in a zeroed slot, and the refill of the time
-- since 1970 leaves the range of `int`, at every time from 214,748,365 s to 2^31 s.
pub rate_limit_allow-zero :
    (now : ℕ) → 214748365 ≤ now → now < 2 ^ 31 → rate_limit_allow (started now) 0 now ≡ none
unfolding rate_limit_allow refill_global refill_source refilled
rate_limit_allow-zero now a b =
    rw
      (
        ==_same now now refl,
        ==_other now 0 (omega arith),
        uptime now b,
        pos-mul now 10,
        no_int (now * 10) (omega arith),
      )
      refl
