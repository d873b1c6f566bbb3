-- ===== src/RateLimit/Budget.antt =====
-- What the limiter guarantees: over any run of calls with a clock that does not step back, the
-- packets let through fit the global budget.
use native.Mathlib.Nat.{mul-le-mul_left}
use nyet.Prelude.{
  ℕ, ◌+◌, ◌*◌, ◌%◌, ◌≤◌, ◌<◌, ◌≡◌, refl, true, some, arith, ◌==◌, if◌then◌else◌, Bool-cases, ltb,
  ◌-◌, ◌^◌, ◌≢◌, ◌⊎◌, inl, inr, Bool, if_elim, subst,
}
use nyet.Prelude.Int.{ℤ, pos, ◌+ℤ◌, ◌*ℤ◌, ◌-ℤ◌, ltb_ℤ}
use nyet.Prelude.Words.{sub32, as_int, checked_int, u32_mod}
use nyet.RateLimit.{
  RateLimitEntry, RateLimiter, refilled, refill_global, refill_source, rate_limit_allow, spend,
  write, rl_buckets,
}

-- a bucket holds between 0 and `max` tokens
abbrev pub InBucket : ℕ → ℤ → ℕ → Type 0
InBucket max tokens n = (tokens ≡ pos n) × (n ≤ max)

-- seconds for which `(now - last) * rate + tokens` stays an `int`
abbrev pub patience : ℕ
patience = 10000000

gap-as_int :
    (last now : ℕ)
    → last ≤ now
    → now < last + patience
    → now < u32_mod
    → as_int (sub32 now last) ≡ pos (now - last)
gap-as_int last now a b c = ground arith

pub pos-mul : (a b : ℕ) → (pos a *ℤ pos b) ≡ pos (a * b)
unfolding ◌*ℤ◌
pos-mul a b = ground arith

pos-add : (a b : ℕ) → (pos a +ℤ pos b) ≡ pos (a + b)
unfolding ◌+ℤ◌
pos-add a b = ground arith

checked_int-pos : (a : ℕ) → a < 2 ^ 31 → checked_int (pos a) ≡ some (pos a)
checked_int-pos a h = ground arith

*_mono : (x a b : ℕ) → a ≤ b → x * a ≤ x * b
*_mono x a b h = mul-le-mul_left x h

abbrev capped : ℕ → ℕ → ℕ
capped max x = if ltb max x then max else x

capped_le : (max x : ℕ) → capped max x ≤ max
capped_le max x = ground arith

-- a refill after a short enough pause is defined, and is the capped sum
refilled_lem :
    (max rate n last now : ℕ)
    → n ≤ max
    → max ≤ 500
    → rate ≤ 200
    → last ≤ now
    → now < last + patience
    → now < u32_mod
    → refilled max rate (pos n) last now ≡ some (pos (capped max (n + (now - last) * rate)))
unfolding refilled
refilled_lem max rate n last now a b c d e f =
    let small : (now - last) * rate ≤ (now - last) * 200 = *_mono (now - last) rate 200 c in
    rw
      (
        gap-as_int last now d e f,
        pos-mul (now - last) rate,
        checked_int-pos ((now - last) * rate) (omega arith),
        pos-add n ((now - last) * rate),
        checked_int-pos (n + (now - last) * rate) (omega arith),
      )
      ground arith

-- a slot in use since `start`: its bucket holds between 0 and 20 tokens
abbrev pub InUse : ℕ → ℕ → RateLimitEntry → Type 0
InUse start t e =
    (n : ℕ) × (e.tokens ≡ pos n) × (n ≤ 20) × (start ≤ e.last_refill) × (e.last_refill ≤ t)

-- the static variables at the time `t`, with `n` tokens in the global bucket
abbrev pub Sound : ℕ → ℕ → ℕ → RateLimiter → Type 0
Sound start t n r =
    (r.global_tokens ≡ pos n)
    × (n ≤ 500)
    × (r.global_last_refill ≡ t)
    × (start ≤ t)
    × ((i : ℕ) → ((r.table i).ip ≡ 0) ⊎ InUse start t (r.table i))

-- a source that comes back to its slot
refill_old :
    (start t now src_ip : ℕ) (e : RateLimitEntry)
    → (e.ip == src_ip) ≡ true
    → InUse start t e
    → start ≤ now
    → t ≤ now
    → now < start + patience
    → now < u32_mod
    → (e' : RateLimitEntry) × (refill_source e src_ip now ≡ some e') × InUse start now e'
unfolding refill_source
refill_old start t now src_ip e same (n, p, q, u, v) a b c d =
    elim (Bool-cases (now == e.last_refill)) [
      | inl k ↦ rw (same, k) (e, refl, (n, p, q, u, omega arith))
      | inr k ↦
          rw
            (
              same,
              k,
              p,
              refilled_lem 20 10 n e.last_refill now q (omega arith) (omega arith) (omega arith)
                  (omega arith) d,
            )
            (_, refl, (_, refl, capped_le 20 (n + (now - e.last_refill) * 10), a, omega arith))
    ]

refill_source-InUse :
    (start t now src_ip : ℕ) (e : RateLimitEntry)
    → src_ip ≢ 0
    → (e.ip ≡ 0) ⊎ InUse start t e
    → start ≤ now
    → t ≤ now
    → now < start + patience
    → now < u32_mod
    → (e' : RateLimitEntry) × (refill_source e src_ip now ≡ some e') × InUse start now e'
unfolding refill_source
refill_source-InUse start t now src_ip e ne h a b c d = elim (Bool-cases (e.ip == src_ip)) [
  | inl k ↦ refill_old start t now src_ip e k (known h (ground arith)) a b c d
  | inr k ↦ rw k (_, refl, (20, refl, omega arith, a, omega arith))
]
  where
    known : (e.ip ≡ 0) ⊎ InUse start t e → e.ip ≢ 0 → InUse start t e
    known (inl z) k = ground arith
    known (inr u) k = u

later :
    (start t now : ℕ) (e : RateLimitEntry)
    → t ≤ now
    → (e.ip ≡ 0) ⊎ InUse start t e
    → (e.ip ≡ 0) ⊎ InUse start now e
later start t now e b (inl z) = inl z
later start t now e b (inr (m, x, y, l, h)) = inr (m, x, y, l, omega arith)

refill_global-Sound :
    (start t now n : ℕ) (r : RateLimiter)
    → Sound start t n r
    → t ≤ now
    → now < start + patience
    → now < u32_mod
    → (m : ℕ) × (g : RateLimiter) × (refill_global r now ≡ some g)
      × Sound start now m g
      × (m ≤ n + (now - t) * 200)
unfolding refill_global
refill_global-Sound start t now n r (p, q, u, v, w) b c d =
    elim (Bool-cases (now == r.global_last_refill)) [
      | inl k ↦ rw k (
        n,
        r,
        refl,
        (p, q, ground arith, omega arith, λ i. later start t now (r.table i) b (w i)),
        omega arith,
      )
      | inr k ↦
          rw (k, p, u, refilled_lem 500 200 n t now q (omega arith) (omega arith) b (omega arith) d)
            (
              _,
              _,
              refl,
              (
                refl,
                capped_le 500 (n + (now - t) * 200),
                refl,
                omega arith,
                λ i. later start t now (r.table i) b (w i),
              ),
              ground arith,
            )
    ]

-- the account after a call: what passed and what is left
abbrev pub Paid : ℕ → ℕ → ℕ → Bool × RateLimiter → Type 0
Paid start now budget (b, r) = (m : ℕ) × Sound start now m r × ((if b then 1 else 0) + m ≤ budget)

Paid-weaken :
    (start t a b : ℕ) (o : Bool × RateLimiter) → a ≤ b → Paid start t a o → Paid start t b o
Paid-weaken start t a b o h (m, s, k) = (m, s, omega arith)

pred_pos : (n : ℕ) → 0 < n → pos n -ℤ pos 1 ≡ pos (n - 1)
unfolding ◌-ℤ◌
pred_pos n h = ground arith

write-InUse :
    (start now idx : ℕ) (table : ℕ → RateLimitEntry) (e : RateLimitEntry)
    → ((i : ℕ) → ((table i).ip ≡ 0) ⊎ InUse start now (table i))
    → InUse start now e
    → (i : ℕ) → ((write table idx e i).ip ≡ 0) ⊎ InUse start now (write table idx e i)
write-InUse start now idx table e w u i =
    if_elim (λ x. (x.ip ≡ 0) ⊎ InUse start now x) (idx == i) e (table i) (λ _. inr u) (λ _. w i)

is_pos : (z : ℤ) (k : ℕ) → z ≡ pos k → ltb_ℤ (pos 0) z ≡ true → 0 < k
is_pos z k e h =
    let t : ltb_ℤ (pos 0) (pos k) ≡ true = subst (λ x. ltb_ℤ (pos 0) x ≡ true) e h in ground arith

spend-Paid :
    (start now n idx : ℕ) (r : RateLimiter) (e : RateLimitEntry)
    → Sound start now n r
    → 0 < n
    → InUse start now e
    → Paid start now n (spend r idx e)
unfolding spend
spend-Paid start now n idx r e (p, q, u, v, w) a (k, x, y, l, h) =
    elim (Bool-cases (ltb_ℤ (pos 0) e.tokens)) [
      | inl t ↦ rw t (
        n - 1,
        (
          rw p (pred_pos n a),
          omega arith,
          u,
          v,
          write-InUse start now idx r.table _ w
              (k - 1, rw x (pred_pos k (is_pos e.tokens k x t)), omega arith, l, h),
        ),
        omega arith,
      )
      | inr t ↦
          rw t (n, (p, q, u, v, write-InUse start now idx r.table e w (k, x, y, l, h)), omega arith)
    ]

-- one call is defined, keeps the static variables sound, and pays for what it lets through
pub rate_limit_allow-Paid :
    (start t now n src_ip : ℕ) (r : RateLimiter)
    → Sound start t n r
    → src_ip ≢ 0
    → t ≤ now
    → now < start + patience
    → now < u32_mod
    → (o : Bool × RateLimiter) × (rate_limit_allow r src_ip now ≡ some o)
      × Paid start now (n + (now - t) * 200) o
unfolding rate_limit_allow
rate_limit_allow-Paid start t now n src_ip r s ne b c d =
    let (m, g, e, (p, q, u, v, w), h) = refill_global-Sound start t now n r s b c d in
    elim (Bool-cases (ltb_ℤ (pos 0) g.global_tokens)) [
      | inl k ↦
          let (e', f, i) =
            refill_source-InUse start now now src_ip (g.table (src_ip % rl_buckets)) ne
              (w (src_ip % rl_buckets)) (omega arith) (omega arith) c d in
          rw (e, k, f)
            (
              _,
              refl,
              Paid-weaken start now m (n + (now - t) * 200) _ h (
                  spend-Paid start now m (src_ip % rl_buckets) g e' (p, q, u, v, w)
                    (is_pos g.global_tokens m p k) i),
            )
      | inr k ↦ rw (e, k) (_, refl, (m, (p, q, u, v, w), omega arith))
    ]
