-- ===== src/DnsCache/Slots.antt =====
-- The table of the verdict cache as a partial map from domains to entries, and its invariant.
use nyet.Prelude.{
  zero, inl, inr, ◌||◌, ◌==◌, get_elem?, set, Bool-cases, ℕ, ◌+◌, ◌≤◌, ◌<◌, ◌≡◌, ◌≢◌, refl, Bool,
  true, false, ◌&&◌, Option, none, some, List, [], ◌∷◌, arith, if◌then◌else◌, length, All, Bytes,
  bytes_eq, bytes_eq_iff, suc, subst, sym,
}
use nyet.Prelude.Words.{u64_mod}
use nyet.DnsCache.{Entry, Cache, Action, max_domain_len, fnv1a_hash, expired, matches}

abbrev pub holds : Bytes → Entry → Bool
holds d e = e.valid && bytes_eq e.domain d

-- the first valid entry under `d`
unfoldable pub slot_of : Bytes → List Entry → Option Entry
slot_of d [] = none
slot_of d (e ∷ es) = if holds d e then some e else slot_of d es

unfoldable pub occurrences : Bytes → List Entry → ℕ
occurrences d [] = 0
occurrences d (e ∷ es) = (if holds d e then 1 else 0) + occurrences d es

unfoldable pub live_count : List Entry → ℕ
live_count [] = 0
live_count (e ∷ es) = (if e.valid then 1 else 0) + live_count es

-- a valid entry carries the hash of its domain, the domain fits its array, and the time its word
abbrev pub IsHashed : Entry → Type 0
IsHashed e =
    e.valid ≡ true
    → (e.hash ≡ fnv1a_hash e.domain)
      × (length e.domain ≤ max_domain_len)
      × (e.timestamp_ns < u64_mod)

pub record IsValid (c : Cache) : Type 0 where
  pub width : length c.entries ≡ c.capacity
  pub fits : c.capacity < u64_mod
  pub occupied : 0 < c.capacity
  pub hashed : All IsHashed c.entries
  pub unique : (d : Bytes) → occurrences d c.entries ≤ 1
  pub counted : c.count ≡ live_count c.entries

-- what an entry answers at a time
abbrev pub read : ℕ → Option Entry → Option (Action × ℕ)
read now none = none
read now (some e) = if expired now e then none else some (e.action, e.ttl)

pub matches-holds : (d : Bytes) (e : Entry) → IsHashed e → matches (fnv1a_hash d) d e ≡ holds d e
unfolding matches
matches-holds d e h = ground (arith, bytes_eq_iff e.domain d, h)

pub live_count-le : (es : List Entry) → live_count es ≤ length es
unfolding live_count
live_count-le [] = omega arith
live_count-le (e ∷ es) = ground (arith, live_count-le es)

pub slot_of-none : (d : Bytes) (es : List Entry) → occurrences d es ≡ 0 → slot_of d es ≡ none
unfolding slot_of occurrences
slot_of-none d [] h = refl
slot_of-none d (e ∷ es) h = ground (arith, slot_of-none d es)

-- two domains that differ are not held by one entry
pub holds_ne : (d q : Bytes) (e : Entry) → q ≢ d → holds d e ≡ true → holds q e ≡ false
holds_ne d q e n h = ground (arith, bytes_eq_iff e.domain d, bytes_eq_iff e.domain q)

-- `p` holds of the entry at place `j` of a table whose first place is `i`
unfoldable pub test_at : (Entry → Bool) → ℕ → List Entry → ℕ → Bool
test_at p i [] j = false
test_at p i (e ∷ es) j = (i == j && p e) || test_at p (i + 1) es j

test_at_from :
    (p : Entry → Bool) (i : ℕ) (es : List Entry) (j : ℕ)
    → test_at p i es j ≡ true
    → (k : ℕ) × (j ≡ i + k) × (e : Entry) × (get_elem? es k ≡ some e) × (p e ≡ true)
unfolding test_at
test_at_from p i [] j h = cc
test_at_from p i (e ∷ es) j h = elim (Bool-cases (i == j && p e)) [
  | inl here ↦ (0, ground arith, e, refl, ground arith)
  | inr later ↦
      let (k, eq, x, at, ok) = test_at_from p (i + 1) es j (ground arith) in
      (suc k, omega arith, x, at, ok)
]

pub test_at-get_elem? :
    (p : Entry → Bool) (es : List Entry) (j : ℕ)
    → test_at p 0 es j ≡ true
    → (e : Entry) × (get_elem? es j ≡ some e) × (p e ≡ true)
test_at-get_elem? p es j h =
    let (k, eq, x, at, ok) = test_at_from p 0 es j h in
    let same : j ≡ k = omega arith in (x, subst (λ n. get_elem? es n ≡ some x) (sym same) at, ok)

module _ (v : Entry) (d : Bytes) where
  pub slot_of-set_self :
      (es : List Entry) (j : ℕ) (x : Entry)
      → get_elem? es j ≡ some x
      → holds d v ≡ true
      → occurrences d es ≡ 0
      → slot_of d (set es j v) ≡ some v
  unfolding slot_of occurrences
  slot_of-set_self [] j x g h o = cc
  slot_of-set_self (e ∷ es) zero x g h o = rw h
  slot_of-set_self (e ∷ es) (suc j) x g h o = ground (arith, slot_of-set_self es j x g h)

  pub slot_of-set_ne :
      (es : List Entry) (j : ℕ) (x : Entry)
      → get_elem? es j ≡ some x
      → holds d v ≡ false
      → holds d x ≡ false
      → slot_of d (set es j v) ≡ slot_of d es
  unfolding slot_of
  slot_of-set_ne [] j x g h o = cc
  slot_of-set_ne (e ∷ es) zero x g h o = ground arith
  slot_of-set_ne (e ∷ es) (suc j) x g h o = ground (arith, slot_of-set_ne es j x g h o)

  pub occurrences-set :
      (es : List Entry) (j : ℕ) (x : Entry)
      → get_elem? es j ≡ some x
      → occurrences d (set es j v) + (if holds d x then 1 else 0)
        ≡ occurrences d es + (if holds d v then 1 else 0)
  unfolding occurrences
  occurrences-set [] j x g = cc
  occurrences-set (e ∷ es) zero x g = ground arith
  occurrences-set (e ∷ es) (suc j) x g = omega (arith, occurrences-set es j x g)

pub live_count-set :
    (v : Entry) (es : List Entry) (j : ℕ) (x : Entry)
    → get_elem? es j ≡ some x
    → v.valid ≡ true
    → live_count (set es j v) + (if x.valid then 1 else 0) ≡ live_count es + 1
unfolding live_count
live_count-set v [] j x g t = cc
live_count-set v (e ∷ es) zero x g t = ground arith
live_count-set v (e ∷ es) (suc j) x g t = omega (arith, live_count-set v es j x g t)

pub IsHashed-set :
    (v : Entry) (es : List Entry) (j : ℕ) → IsHashed v → All IsHashed es → All IsHashed (set es j v)
IsHashed-set v [] j h hs = tt
IsHashed-set v (e ∷ es) zero h hs = (h, hs.1)
IsHashed-set v (e ∷ es) (suc j) h hs = (hs.0, IsHashed-set v es j h hs.1)

-- an entry at hand under a domain is the one that the domain names
pub slot_of_unique :
    (d : Bytes) (es : List Entry) (j : ℕ) (x : Entry)
    → get_elem? es j ≡ some x
    → holds d x ≡ true
    → occurrences d es ≤ 1
    → slot_of d es ≡ some x
unfolding slot_of occurrences
slot_of_unique d [] j x g h o = cc
slot_of_unique d (e ∷ es) zero x g h o = ground arith
slot_of_unique d (e ∷ es) (suc j) x g h o =
    ground (arith, slot_of_unique d es j x g h, occurs es j x g h)
  where
    occurs :
        (es : List Entry) (j : ℕ) (x : Entry)
        → get_elem? es j ≡ some x
        → holds d x ≡ true
        → 0 < occurrences d es
    occurs [] j x g h = cc
    occurs (y ∷ ys) zero x g h = ground arith
    occurs (y ∷ ys) (suc j) x g h = omega (arith, occurs ys j x g h)

-- what has expired stays expired
pub expired_mono : (now t : ℕ) (e : Entry) → now ≤ t → expired now e ≡ true → expired t e ≡ true
unfolding expired
expired_mono now t e l h = ground arith
