-- ===== src/AnswerCache/Upkeep.antt =====
-- src/answer_cache.c: `answer_cache_init`, and the operations that take answers out of the table.
use nyet.Prelude.{
  ℕ, suc, Bool, true, false, not, ◌&&◌, ◌||◌, Option, none, some, List, [], ◌∷◌, ltb, if◌then◌else◌,
  Bytes, length, set, get_or, replicate,
}
use nyet.Prelude.Words.{dec64}
use nyet.DnsCache.{is_power_of_2}
use nyet.AnswerCache.{
  AnswerCache, Slot, vacant, entry_expired, is_match, probes, answer_cache_max_domain_len,
}

-- memory is available; `none` for a refused capacity
unfoldable pub answer_cache_init : ℕ → Option AnswerCache
unfolding is_power_of_2
answer_cache_init capacity =
    if not (is_power_of_2 capacity) || ltb capacity 64
    then none
    else some (record {
      entries = replicate capacity vacant;
      capacity = capacity;
      count = 0;
      hits = 0;
      misses = 0;
      evictions = 0;
      inserts = 0;
    })

-- The probe for one type: the first slot that has the key is zeroed; whether there was one.
unfoldable pub drop_key : Bytes → ℕ → List ℕ → AnswerCache → AnswerCache × Bool
unfolding is_match
drop_key domain qtype [] c = (c, false)
drop_key domain qtype (i ∷ is) c =
    let more = drop_key domain qtype is c in
    if is_match domain qtype (get_or c.entries i vacant)
    then (record c { entries = set c.entries i vacant; count = dec64 c.count }, true)
    else more

-- INVALIDATE_QTYPES: the types A and AAAA
unfoldable pub answer_cache_invalidate : AnswerCache → Bytes → AnswerCache × Bool
unfolding drop_key probes
answer_cache_invalidate c domain =
    if ltb answer_cache_max_domain_len (length domain)
    then (c, false)
    else let (c', a) = drop_key domain 1 (probes domain 1 c.capacity) c in
      let (c'', aaaa) = drop_key domain 28 (probes domain 28 c'.capacity) c' in (c'', a || aaaa)

abbrev pub answer_cache_clear : AnswerCache → AnswerCache
answer_cache_clear c = record c { entries = replicate c.capacity vacant; count = 0 }

-- the slots and the count from a slot on, and the number of those zeroed
unfoldable pub prune : ℕ → List Slot → ℕ → List Slot × ℕ × ℕ
unfolding entry_expired
prune now [] count = ([], count, 0)
prune now (s ∷ ss) count =
    let stale = prune now ss (dec64 count) in
    let other = prune now ss count in
    if s.valid && entry_expired now s
    then (vacant ∷ stale.0, stale.1, suc stale.2)
    else (s ∷ other.0, other.1, other.2)

unfoldable pub answer_cache_prune_expired : AnswerCache → ℕ → AnswerCache × ℕ
unfolding prune
answer_cache_prune_expired c now =
    let (entries, count, pruned) = prune now c.entries c.count in
    (record c { entries = entries; count = count }, pruned)
