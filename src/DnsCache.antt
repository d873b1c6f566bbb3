-- ===== src/DnsCache.antt =====
-- src/dns_cache.c: the verdict cache, a flat table that every operation scans from the front.
-- The lock makes each operation one step; `now` is what `get_timestamp_ns` returns inside it.
-- Pointers are valid here, so the tests for NULL arguments have no counterpart.
pub mod Lifetime
pub mod Slots
pub mod Lookup
pub mod Sweep
pub mod Insert
pub mod Removal
pub mod Invariant
use nyet.Prelude.{
  ℕ, ◌+◌, ◌-◌, ◌*◌, ◌/◌, ◌%◌, ◌^◌, Bool, true, false, not, ◌&&◌, Option, none, some, List, [], ◌∷◌,
  map, ltb, ◌==◌, if◌then◌else◌, length, set, replicate, get_or, Bytes, bytes_eq, bit_and, bit_xor,
}
use nyet.Prelude.Words.{u32_mod, u64_mod, inc64, dec64}

-- MAX_DOMAIN_LEN
abbrev pub max_domain_len : ℕ
max_domain_len = 253

abbrev pub ns_per_second : ℕ
ns_per_second = 1000000000

pub data Action : Type 0 where
  action_none block allow redirect : Action

pub record Entry : Type 0 where
  pub timestamp_ns : ℕ
  pub hash : ℕ
  pub ttl : ℕ
  pub action : Action
  pub valid : Bool
  pub domain : Bytes

pub record Cache : Type 0 where
  pub entries : List Entry
  pub capacity : ℕ
  pub count : ℕ
  pub hits : ℕ
  pub misses : ℕ
  pub evictions : ℕ
  pub inserts : ℕ

-- the loop of `fnv1a_hash` from the running value `hash`
unfoldable pub fnv1a_from : ℕ → Bytes → ℕ
fnv1a_from hash [] = hash
fnv1a_from hash (b ∷ bs) = fnv1a_from (bit_xor hash b * 0x01000193 % u32_mod) bs

unfoldable pub fnv1a_hash : Bytes → ℕ
unfolding fnv1a_from
fnv1a_hash = fnv1a_from 0x811c9dc5

-- `get_timestamp_ns` at a counter of `ticks` and a frequency of `freq` ticks a second
unfoldable pub get_timestamp_ns : ℕ → ℕ → ℕ
get_timestamp_ns freq ticks = ticks * ns_per_second % u64_mod / freq

unfoldable pub is_power_of_2 : ℕ → Bool
is_power_of_2 n = ltb 0 n && bit_and n (n - 1) == 0

-- memset(entry, 0, sizeof(*entry))
abbrev pub zeroed : Entry
zeroed = record {
  timestamp_ns = 0;
  hash = 0;
  ttl = 0;
  action = action_none;
  valid = false;
  domain = [];
}

-- `none` for a refused capacity; memory is available
unfoldable pub init : ℕ → Option Cache
unfolding is_power_of_2
init capacity =
    if not (is_power_of_2 capacity)
    then none
    else if ltb capacity 64
    then none
    else some (record {
      entries = replicate capacity zeroed;
      capacity = capacity;
      count = 0;
      hits = 0;
      misses = 0;
      evictions = 0;
      inserts = 0;
    })

-- timestamp_ns + ttl * 1000000000 < now, in uint64_t
unfoldable pub expired : ℕ → Entry → Bool
expired now e = ltb ((e.timestamp_ns + e.ttl * ns_per_second) % u64_mod) now

unfoldable pub matches : ℕ → Bytes → Entry → Bool
matches hash domain e = e.valid && e.hash == hash && bytes_eq e.domain domain

-- the compare-and-swap of `timestamp_ns` on a hit
abbrev pub touch : ℕ → Entry → Entry
touch now e = if ltb e.timestamp_ns now then record e { timestamp_ns = now } else e

pub data Found : Type 0 where
  nothing stale : Found
  fresh : Action → ℕ → Found

-- the loop of `dns_cache_lookup`: the table after it, and how it ended
unfoldable pub lookup_scan : ℕ → Bytes → ℕ → List Entry → List Entry × Found
lookup_scan hash domain now [] = ([], nothing)
lookup_scan hash domain now (e ∷ es) =
    let (es', found) = lookup_scan hash domain now es in
    if matches hash domain e
    then (if expired now e then (e ∷ es, stale) else (touch now e ∷ es, fresh e.action e.ttl))
    else (e ∷ es', found)

abbrev pub conclude : Cache → List Entry × Found → Cache × Option (Action × ℕ)
conclude c (es, nothing) = (record c { entries = es; misses = inc64 c.misses }, none)
conclude c (es, stale) = (record c { entries = es; misses = inc64 c.misses }, none)
conclude c (es, fresh a t) = (record c { entries = es; hits = inc64 c.hits }, some (a, t))

unfoldable pub lookup : Cache → Bytes → ℕ → Cache × Option (Action × ℕ)
unfolding lookup_scan
lookup c domain now =
    if ltb max_domain_len (length domain)
    then (c, none)
    else conclude c (lookup_scan (fnv1a_hash domain) domain now c.entries)

-- the locals of `dns_cache_insert`, with the counter that the loop decrements
pub record Scan : Type 0 where
  pub empty_idx : Option ℕ
  pub lru_idx : ℕ
  pub oldest_time : ℕ
  pub count : ℕ

abbrev pub note_empty : ℕ → Scan → Scan
note_empty i s = record s { empty_idx = elim s.empty_idx [ none ↦ some i | some j ↦ some j ] }

abbrev pub note_live : ℕ → Entry → Scan → Scan
note_live i e s =
    if ltb e.timestamp_ns s.oldest_time
    then record s { oldest_time = e.timestamp_ns; lru_idx = i }
    else s

-- one round of the loop on a slot that does not end it: the slot, and the locals, after it
unfoldable pub visit : ℕ → ℕ → Entry → Scan → Entry × Scan
visit now i e s =
    if not e.valid
    then (e, note_empty i s)
    else if expired now e
    then (zeroed, note_empty i (record s { count = dec64 s.count }))
    else (e, note_live i e s)

-- the slot that the loop overwrites in place and returns from
unfoldable pub refreshable : ℕ → Bytes → ℕ → Entry → Bool
unfolding matches
refreshable hash domain now e = not (expired now e) && matches hash domain e

unfoldable pub insert_scan :
    ℕ → Bytes → Action → ℕ → ℕ → ℕ → List Entry → Scan → List Entry × Scan × Bool
insert_scan hash domain action ttl now i [] s = ([], s, false)
insert_scan hash domain action ttl now i (e ∷ es) s =
    let (e', s') = visit now i e s in
    let (es', last, found) = insert_scan hash domain action ttl now (i + 1) es s' in
    if refreshable hash domain now e
    then (record e { action = action; ttl = ttl; timestamp_ns = now } ∷ es, s, true)
    else (e' ∷ es', last, found)

abbrev pub entry_for : ℕ → Bytes → Action → ℕ → ℕ → Entry
entry_for hash domain action ttl now = record {
  timestamp_ns = now;
  hash = hash;
  ttl = ttl;
  action = action;
  valid = true;
  domain = domain;
}

-- what follows the loop, on the first free slot or on the oldest
abbrev pub store : Cache → Entry → List Entry × Scan × Bool → Cache
store c e (es, s, true) = record c { entries = es; count = s.count }
store c e (es, s, false) = elim s.empty_idx [
  | some i ↦ record c { entries = set es i e; count = inc64 s.count; inserts = inc64 c.inserts }
  | none ↦ record c {
    entries = set es s.lru_idx e;
    count = s.count;
    evictions = inc64 c.evictions;
    inserts = inc64 c.inserts;
  }
]

abbrev pub scan_start : Cache → Scan
scan_start c = record { empty_idx = none; lru_idx = 0; oldest_time = u64_mod - 1; count = c.count }

unfoldable pub insert : Cache → Bytes → Action → ℕ → ℕ → Cache × Bool
unfolding insert_scan visit refreshable
insert c domain action ttl now =
    if ttl == 0 then (c, false) else if ltb max_domain_len (length domain) then (c, false) else (
      store c (entry_for (fnv1a_hash domain) domain action ttl now)
          (insert_scan (fnv1a_hash domain) domain action ttl now 0 c.entries (scan_start c)),
      true,
    )

unfoldable pub invalidate_scan : ℕ → Bytes → List Entry → List Entry × Bool
invalidate_scan hash domain [] = ([], false)
invalidate_scan hash domain (e ∷ es) =
    let (es', found) = invalidate_scan hash domain es in
    if matches hash domain e then (zeroed ∷ es, true) else (e ∷ es', found)

unfoldable pub invalidate : Cache → Bytes → Cache × Bool
unfolding invalidate_scan
invalidate c domain =
    if ltb max_domain_len (length domain)
    then (c, false)
    else let (es, found) = invalidate_scan (fnv1a_hash domain) domain c.entries in
      (record c { entries = es; count = if found then dec64 c.count else c.count }, found)

unfoldable pub clear : Cache → Cache
clear c = record c { entries = replicate c.capacity zeroed; count = 0 }

-- the loop of `dns_cache_prune_expired`: the table, the counter, and `pruned`
unfoldable pub prune_scan : ℕ → List Entry → ℕ → List Entry × ℕ × ℕ
prune_scan now [] count = ([], count, 0)
prune_scan now (e ∷ es) count =
    let gone = e.valid && expired now e in
    let (es', count', pruned) = prune_scan now es (if gone then dec64 count else count) in
    ((if gone then zeroed else e) ∷ es', count', (if gone then pruned + 1 else pruned))

unfoldable pub prune_expired : Cache → ℕ → Cache × ℕ
unfolding prune_scan
prune_expired c now =
    let (es, count, pruned) = prune_scan now c.entries c.count in
    (record c { entries = es; count = count }, pruned)
