-- ===== src/DnsCache/Invariant.antt =====
-- The invariant over the whole life of a verdict cache: whatever sequence of operations follows
-- `dns_cache_init`.
use nyet.Prelude.{ℕ, ◌≤◌, ◌<◌, ◌≡◌, some, [], arith, replicate, length-replicate, Bytes, subst, sym}
use nyet.Prelude.Words.{u64_mod}
use nyet.DnsCache.{Cache, Action, zeroed, init, lookup, insert, invalidate, clear, prune_expired}
use nyet.DnsCache.Insert.{insert-IsValid}
use nyet.DnsCache.Lookup.{lookup-IsValid}
use nyet.DnsCache.Removal.{invalidate-IsValid, prune_expired-IsValid, clear-IsValid, zeroed_table}
use nyet.DnsCache.Slots.{IsValid}

-- one call, at a clock value that fits its word
pub data Step : Cache → Cache → Type 0 where
  looks_up : (c : Cache) (d : Bytes) (now : ℕ) → now < u64_mod → Step c (lookup c d now).0
  inserts :
      (c : Cache) (d : Bytes) (a : Action) (ttl now : ℕ)
      → now < u64_mod
      → Step c (insert c d a ttl now).0
  invalidates : (c : Cache) (d : Bytes) → Step c (invalidate c d).0
  clears : (c : Cache) → Step c (clear c)
  prunes : (c : Cache) (now : ℕ) → Step c (prune_expired c now).0

-- the states that a cache of some accepted capacity passes through
pub data Reachable : Cache → Type 0 where
  made : {c : Cache} (capacity : ℕ) → capacity < u64_mod → init capacity ≡ some c → Reachable c
  after : {c c' : Cache} → Reachable c → Step c c' → Reachable c'

abbrev pub empty : ℕ → Cache
empty n = record {
  entries = replicate n zeroed;
  capacity = n;
  count = 0;
  hits = 0;
  misses = 0;
  evictions = 0;
  inserts = 0;
}

init-empty : (n : ℕ) (c : Cache) → init n ≡ some c → (c ≡ empty n) × (64 ≤ n)
unfolding init
init-empty n c h = ground arith

empty-IsValid : (n : ℕ) → n < u64_mod → 64 ≤ n → IsValid (empty n)
empty-IsValid n w h = record {
  width = length-replicate n zeroed;
  fits = w;
  occupied = omega arith;
  hashed = (zeroed_table n []).0;
  unique = λ q. omega (arith, zeroed_table n q);
  counted = omega (arith, zeroed_table n []);
}

init-IsValid : (n : ℕ) (c : Cache) → n < u64_mod → init n ≡ some c → IsValid c
init-IsValid n c w h =
    let (same, big) = init-empty n c h in subst IsValid (sym same) (empty-IsValid n w big)

Step-IsValid : {c c' : Cache} → Step c c' → IsValid c → IsValid c'
Step-IsValid (looks_up c d now w) v = lookup-IsValid c d now w v
Step-IsValid (inserts c d a ttl now w) v = insert-IsValid c d a ttl now w v
Step-IsValid (invalidates c d) v = invalidate-IsValid c d v
Step-IsValid (clears c) v = clear-IsValid c v
Step-IsValid (prunes c now) v = prune_expired-IsValid c now v

-- In every reachable state the table has its capacity, each domain has at most one valid entry,
-- under its own hash, and `count` is the number of valid entries.
pub Reachable-IsValid : {c : Cache} → Reachable c → IsValid c
Reachable-IsValid (made {c = c} n w h) = init-IsValid n c w h
Reachable-IsValid (after r s) = Step-IsValid s (Reachable-IsValid r)
