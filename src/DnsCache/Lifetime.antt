-- ===== src/DnsCache/Lifetime.antt =====
-- How long `dns_cache_lookup` trusts an entry: hits move its timestamp, and the clock wraps.
use nyet.Prelude.{
  ℕ, ◌+◌, ◌*◌, ◌/◌, ◌%◌, ◌^◌, ◌≤◌, ◌<◌, ◌≡◌, refl, ap, ap₂, ◌∙◌, false, Option, some, List, [], ◌∷◌,
  map, arith, length, Bytes,
}
use native.Mathlib.Nat.{div-mul-le_self}
use nyet.Prelude.Words.{u64_mod}
use nyet.DnsCache.{
  Entry, Cache, Action, max_domain_len, ns_per_second, expired, get_timestamp_ns, lookup,
}
use nyet.DnsCache.Lookup.{touched, lookup-read, lookup-touched, lookup-IsValid}
use nyet.DnsCache.Slots.{slot_of, IsValid}

-- the answers of successive lookups of one domain
unfoldable pub answers : Cache → Bytes → List ℕ → List (Option (Action × ℕ))
answers c d [] = []
answers c d (t ∷ ts) = (lookup c d t).1 ∷ answers (lookup c d t).0 d ts

-- each time follows the one before by at most `ttl` seconds, and no sum wraps
abbrev pub Frequent : ℕ → ℕ → List ℕ → Type 0
Frequent ttl last [] = Unit
Frequent ttl last (t ∷ ts) =
    (last ≤ t)
    × (t ≤ last + ttl * ns_per_second)
    × (t + ttl * ns_per_second < u64_mod)
    × Frequent ttl t ts

touched_fresh :
    (now : ℕ) (e : Entry)
    → e.timestamp_ns ≤ now
    → now ≤ e.timestamp_ns + e.ttl * ns_per_second
    → e.timestamp_ns + e.ttl * ns_per_second < u64_mod
    → (expired now e ≡ false) × (touched now (some e) ≡ some (record e { timestamp_ns = now }))
unfolding expired
touched_fresh now e p q r = ground arith

-- While the lookups of a domain come within the entry's ttl of one another, every one of them
-- is answered from the cache, whatever the time since the entry was stored.
pub answers-Frequent :
    (c : Cache) (d : Bytes) (e : Entry) (ts : List ℕ)
    → IsValid c
    → length d ≤ max_domain_len
    → slot_of d c.entries ≡ some e
    → e.timestamp_ns + e.ttl * ns_per_second < u64_mod
    → Frequent e.ttl e.timestamp_ns ts
    → answers c d ts ≡ map (λ _. some (e.action, e.ttl)) ts
unfolding answers
answers-Frequent c d e [] v l h small f = refl
answers-Frequent c d e (t ∷ ts) v l h small f =
    let (alive, moved) = touched_fresh t e f.0 f.1 small in
    let hit : (lookup c d t).1 ≡ some (e.action, e.ttl) = lookup-read c d t v l ∙ rw (h, alive) in
    let after : slot_of d (lookup c d t).0.entries ≡ some (record e { timestamp_ns = t }) =
      lookup-touched c d t v l ∙ ap (touched t) h ∙ moved in
    ap₂ ◌∷◌ hit (
      answers-Frequent (lookup c d t).0 d (record e { timestamp_ns = t }) ts
        (lookup-IsValid c d t (omega arith) v) l after f.2 f.3)

half_lt : (q f : ℕ) → 2 ≤ f → q * f < u64_mod → q < 2 ^ 63
half_lt q f h p = let twice : q * 2 ≤ q * f = grind arith in omega arith

clock_bounds :
    (freq ticks : ℕ)
    → 2 ≤ freq
    → (get_timestamp_ns freq ticks * freq < u64_mod) × (get_timestamp_ns freq ticks < 2 ^ 63)
unfolding get_timestamp_ns
clock_bounds freq ticks h =
    let wrapped = ticks * ns_per_second % u64_mod in
    let below : wrapped / freq * freq < u64_mod = omega (arith, div-mul-le_self wrapped freq) in
    (below, half_lt (wrapped / freq) freq h below)

lt_of_mul-lt : (a b f : ℕ) → a * f < b * f → a < b
lt_of_mul-lt a b f h = grind arith

-- With a counter of `freq` ticks a second the clock stays below 2 ^ 64 / freq, so an entry whose
-- ttl reaches that value never expires, at whatever counter value it is read.
pub expired_never :
    (freq stored ticks : ℕ) (e : Entry)
    → 2 ≤ freq
    → e.timestamp_ns ≡ get_timestamp_ns freq stored
    → e.ttl < 2 ^ 32
    → u64_mod ≤ e.ttl * ns_per_second * freq
    → expired (get_timestamp_ns freq ticks) e ≡ false
unfolding expired
expired_never freq stored ticks e f t w h =
    let now = clock_bounds freq ticks f in
    let start = clock_bounds freq stored f in
    let later : get_timestamp_ns freq ticks < e.ttl * ns_per_second =
      lt_of_mul-lt (get_timestamp_ns freq ticks) (e.ttl * ns_per_second) freq
        (omega (arith, now.0)) in
    ground (arith, later, start.1, t)
