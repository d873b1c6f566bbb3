-- ===== src/AnswerCache.antt =====
-- src/answer_cache.c: the table of answers, probed in a window of eight slots from the place of the
-- hash. Each operation holds the lock throughout, so it is a function of the state; `now` is the clock.
pub mod Fresh
pub mod Stored
pub mod Upkeep
pub mod Invariant
pub mod Kept
pub mod Operations
pub mod Dropped
pub mod Pruned
pub mod Invalidated
use nyet.Prelude.Words.{u64_mod, inc64, dec64}
use nyet.Prelude.{
  ℕ, zero, suc, ◌+◌, ◌-◌, ◌*◌, ◌/◌, ◌%◌, ◌^◌, ◌≤◌, ◌<◌, ◌≡◌, refl, sym, ap, ap₂, subst, ◌∙◌, ◌≢◌,
  ◌↔◌, ◌⊎◌, inl, inr, Bool, true, false, not, ◌&&◌, ◌||◌, Option, none, some, List, [], ◌∷◌, ◌++◌,
  map, arith, ltb, leb, ◌==◌, if◌then◌else◌, if_elim, Bool-cases, Option-cases, Bytes, bytes_eq,
  bytes_eq_iff, bytes_eq_refl, ==_same, ==_other, length, length-append, All, take, drop,
  take_append_exact, drop_append_exact, set, get_elem?, get_or, bit_and, bit_xor,
}
use nyet.Packet.{Answer}

-- ANSWER_CACHE_MAX_DOMAIN_LEN
abbrev pub answer_cache_max_domain_len : ℕ
answer_cache_max_domain_len = 95

-- answer_cache_entry_t
pub record Slot : Type 0 where
  pub timestamp_ns : ℕ
  pub hash : ℕ
  pub qtype : ℕ
  pub valid : Bool
  pub domain : Bytes
  pub answer : Answer

pub record AnswerCache : Type 0 where
  pub entries : List Slot
  pub capacity : ℕ
  pub count : ℕ
  pub hits : ℕ
  pub misses : ℕ
  pub evictions : ℕ
  pub inserts : ℕ

-- memset(entry, 0, sizeof(*entry))
abbrev pub vacant : Slot
vacant = record {
  timestamp_ns = 0;
  hash = 0;
  qtype = 0;
  valid = false;
  domain = [];
  answer = record { records = []; record_bytes = 0; ttl_seconds = 0 };
}

unfoldable pub hash_from : ℕ → Bytes → ℕ
hash_from hash [] = hash
hash_from hash (b ∷ bs) = hash_from (bit_xor hash b * 0x100000001b3 % u64_mod) bs

unfoldable pub hash_key : Bytes → ℕ → ℕ
unfolding hash_from
hash_key domain qtype =
    bit_xor (hash_from 0xcbf29ce484222325 domain) qtype * 0x100000001b3 % u64_mod

unfoldable pub entry_expired : ℕ → Slot → Bool
entry_expired now s = ltb ((s.timestamp_ns + s.answer.ttl_seconds * 1000000000) % u64_mod) now

unfoldable pub is_match : Bytes → ℕ → Slot → Bool
unfolding hash_key
is_match domain qtype s =
    s.valid && s.hash == hash_key domain qtype && s.qtype == qtype && bytes_eq s.domain domain

-- The indices of `n` slots from `at` on. The capacity is a power of two, so `& (capacity - 1)` is the
-- remainder.
unfoldable pub window : ℕ → ℕ → ℕ → List ℕ
window zero at capacity = []
window (suc n) at capacity = at % capacity ∷ window n (at + 1) capacity

-- PROBE_WINDOW slots, or all of them
unfoldable pub probes : Bytes → ℕ → ℕ → List ℕ
unfolding window hash_key
probes domain qtype capacity =
    window (if ltb 8 capacity then 8 else capacity) (hash_key domain qtype % capacity) capacity

-- the loop of `answer_cache_lookup`, up to the slot that it acts on
unfoldable pub find_slot : Bytes → ℕ → List Slot → List ℕ → Option (ℕ × Slot)
unfolding is_match
find_slot domain qtype entries [] = none
find_slot domain qtype entries (i ∷ is) =
    let rest = find_slot domain qtype entries is in
    let s = get_or entries i vacant in if is_match domain qtype s then some (i, s) else rest

-- what it does with that slot: a stale one is dropped, a live one copied out and touched
abbrev pub take_slot : AnswerCache → ℕ → Option (ℕ × Slot) → AnswerCache × Option Answer
take_slot c now none = (record c { misses = inc64 c.misses }, none)
take_slot c now (some (i, s)) =
    if entry_expired now s
    then (
      record c {
        entries = set c.entries i (record s { valid = false });
        count = dec64 c.count;
        misses = inc64 c.misses;
      },
      none,
    )
    else (
      record c {
        entries =
            set c.entries i
              (record s { timestamp_ns = if ltb s.timestamp_ns now then now else s.timestamp_ns });
        hits = inc64 c.hits;
      },
      some s.answer,
    )

unfoldable pub answer_cache_lookup : AnswerCache → Bytes → ℕ → ℕ → AnswerCache × Option Answer
unfolding find_slot probes entry_expired
answer_cache_lookup c domain qtype now =
    if ltb answer_cache_max_domain_len (length domain)
    then (c, none)
    else take_slot c now (find_slot domain qtype c.entries (probes domain qtype c.capacity))

-- the locals of the loop of `answer_cache_insert`, with the table and its count
pub record Sweep : Type 0 where
  pub entries : List Slot
  pub count : ℕ
  pub target_idx : Option ℕ
  pub oldest_time : ℕ
  pub oldest_idx : ℕ

abbrev pub target_at : ℕ → Sweep → Sweep
target_at i s = record s { target_idx = elim s.target_idx [ none ↦ some i | some t ↦ some t ] }

abbrev pub vacate_at : ℕ → Sweep → Sweep
vacate_at i s = record s { entries = set s.entries i vacant; count = dec64 s.count }

abbrev pub older_at : ℕ → ℕ → Sweep → Sweep
older_at i t s = if ltb t s.oldest_time then record s { oldest_time = t; oldest_idx = i } else s

-- the loop, and the index of the slot that holds the key already, if one does
unfoldable pub insert_scan : Bytes → ℕ → ℕ → List ℕ → Sweep → Sweep × Option ℕ
unfolding is_match entry_expired
insert_scan domain qtype now [] s = (s, none)
insert_scan domain qtype now (i ∷ is) s =
    let slot = get_or s.entries i vacant in
    let empty = insert_scan domain qtype now is (target_at i s) in
    let stale = insert_scan domain qtype now is (target_at i (vacate_at i s)) in
    let older = insert_scan domain qtype now is (older_at i slot.timestamp_ns s) in
    if not slot.valid
    then empty
    else if entry_expired now slot
    then stale
    else if is_match domain qtype slot
    then (s, some i)
    else older

abbrev pub slot_for : Bytes → ℕ → ℕ → Answer → Slot
slot_for domain qtype now answer = record {
  timestamp_ns = now;
  hash = hash_key domain qtype;
  qtype = qtype;
  valid = true;
  domain = domain;
  answer = answer;
}

-- after the loop: overwrite the key's slot, fill the target, or evict the oldest
abbrev pub place : AnswerCache → Bytes → ℕ → ℕ → Answer → Sweep × Option ℕ → AnswerCache
place c domain qtype now answer (s, some i) = record c {
  entries =
      set s.entries i (record (get_or s.entries i vacant) { timestamp_ns = now; answer = answer });
  count = s.count;
}
place c domain qtype now answer (s, none) = elim s.target_idx [
  | some t ↦ record c {
    entries = set s.entries t (slot_for domain qtype now answer);
    count = inc64 s.count;
    inserts = inc64 c.inserts;
  }
  | none ↦ record c {
    entries = set s.entries s.oldest_idx (slot_for domain qtype now answer);
    count = s.count;
    evictions = inc64 c.evictions;
    inserts = inc64 c.inserts;
  }
]

abbrev pub first_sweep : AnswerCache → Bytes → ℕ → Sweep
first_sweep c domain qtype = record {
  entries = c.entries;
  count = c.count;
  target_idx = none;
  oldest_time = u64_mod - 1;
  oldest_idx = hash_key domain qtype % c.capacity;
}

unfoldable pub answer_cache_insert : AnswerCache → Bytes → ℕ → Answer → ℕ → AnswerCache × Bool
unfolding insert_scan probes hash_key
answer_cache_insert c domain qtype answer now =
    if answer.ttl_seconds == 0
    then (c, false)
    else if ltb answer_cache_max_domain_len (length domain)
    then (c, false)
    else if length answer.records == 0 || ltb 8 (length answer.records)
    then (c, false)
    else if answer.record_bytes == 0 || ltb 16 answer.record_bytes
    then (c, false)
    else (
      place c domain qtype now answer (
          insert_scan domain qtype now (probes domain qtype c.capacity)
            (first_sweep c domain qtype)),
      true,
    )
