-- ===== src/AnswerCache/Stored.antt =====
-- src/answer_cache.c: an answer that was stored is found until it expires.
use nyet.Prelude.{
  ℕ, zero, suc, ◌+◌, ◌*◌, ◌%◌, ◌≤◌, ◌<◌, ◌≡◌, refl, sym, ap, subst, ◌∙◌, ◌≢◌, inl, inr, Bool, true,
  false, ◌||◌, Option, none, some, List, [], ◌∷◌, arith, ltb, ◌==◌, if◌then◌else◌, Option-cases,
  Bytes, bytes_eq_refl, length, All, set, get_or,
}
use native.Mathlib.Nat.{mod-lt, mod-eq_of_lt}
use nyet.Prelude.Words.{u64_mod}
use nyet.Packet.{Answer}
use nyet.AnswerCache.{
  AnswerCache, Slot, Sweep, vacant, hash_key, entry_expired, is_match, probes, window, find_slot,
  take_slot, answer_cache_lookup, insert_scan, slot_for, place, first_sweep, answer_cache_insert,
  answer_cache_max_domain_len,
}
use nyet.AnswerCache.Fresh.{
  IsFirst, Among, Among-IsFirst, find_slot-set, chosen, Swept, insert_scan-Swept, Misses,
}

IsFirst-Among :
    (d : Bytes) (q : ℕ) (es : List Slot) (t : ℕ) (is : List ℕ) → IsFirst d q es t is → Among t is
IsFirst-Among d q es t [] f = f
IsFirst-Among d q es t (i ∷ is) (inl e) = inl e
IsFirst-Among d q es t (i ∷ is) (inr f) = inr (IsFirst-Among d q es t is f.1)

pub Among-below : (n t : ℕ) (is : List ℕ) → Among t is → All (λ i. i < n) is → t < n
Among-below n t [] m a = absurd m
Among-below n t (i ∷ is) (inl e) a = subst (λ x. x < n) e a.0
Among-below n t (i ∷ is) (inr m) a = Among-below n t is m a.1

window_below : (n at capacity : ℕ) → 0 < capacity → All (λ i. i < capacity) (window n at capacity)
unfolding window
window_below zero at capacity h = tt
window_below (suc n) at capacity h = (mod-lt at h, window_below n (at + 1) capacity h)

window_first : (n at capacity : ℕ) → 0 < n → Among (at % capacity) (window n at capacity)
unfolding window
window_first zero at capacity h = absurd (omega (arith, h))
window_first (suc n) at capacity h = inl refl

pub probes_below :
    (d : Bytes) (q capacity : ℕ) → 0 < capacity → All (λ i. i < capacity) (probes d q capacity)
unfolding probes
probes_below d q capacity h = window_below _ _ capacity h

-- the first slot probed is that of the hash
pub start-Among :
    (d : Bytes) (q capacity : ℕ)
    → 0 < capacity
    → Among (hash_key d q % capacity) (probes d q capacity)
unfolding probes
start-Among d q capacity h =
    let start = hash_key d q % capacity in
    let twice : start % capacity ≡ start = mod-eq_of_lt (mod-lt (hash_key d q) h) in
    let n = if ltb 8 capacity then 8 else capacity in
    subst (λ x. Among x (window n start capacity)) twice
      (window_first n start capacity (ground arith))

-- A table has stored an answer: it stands in the slot that a probe for its key comes to first.
pub record Stores (c : AnswerCache) (d : Bytes) (q now : ℕ) (a : Answer) : Type 0 where
  pub slot : Slot
  pub at : ℕ
  pub found : find_slot d q c.entries (probes d q c.capacity) ≡ some (at, slot)
  pub answers : slot.answer ≡ a
  pub stamped : slot.timestamp_ns ≡ now

pub placed_new :
    (c : AnswerCache) (d : Bytes) (q now : ℕ) (a : Answer) (r : Sweep × Option ℕ)
    → r.1 ≡ none
    → ((place c d q now a r).entries ≡ set r.0.entries (chosen r.0) (slot_for d q now a))
      × ((place c d q now a r).capacity ≡ c.capacity)
placed_new c d q now a (s, o) h = elim (Option-cases s.target_idx) [
  | inl e ↦ rw (h, e) (refl, refl)
  | inr (t, e) ↦ rw (h, e) (refl, refl)
]

abbrev pub refreshed : Slot → ℕ → Answer → Slot
refreshed s now a = record s { timestamp_ns = now; answer = a }

pub placed_again :
    (c : AnswerCache) (d : Bytes) (q now : ℕ) (a : Answer) (r : Sweep × Option ℕ) (i : ℕ)
    → r.1 ≡ some i
    → ((place c d q now a r).entries
        ≡ set r.0.entries i (refreshed (get_or r.0.entries i vacant) now a))
      × ((place c d q now a r).capacity ≡ c.capacity)
placed_again c d q now a (s, o) i h = rw h (refl, refl)

slot_for-is_match : (d : Bytes) (q now : ℕ) (a : Answer) → is_match d q (slot_for d q now a) ≡ true
unfolding is_match
slot_for-is_match d q now a = ground (arith, bytes_eq_refl d)

refreshed-is_match :
    (d : Bytes) (q now : ℕ) (a : Answer) (s : Slot)
    → is_match d q s ≡ true
    → is_match d q (refreshed s now a) ≡ true
unfolding is_match
refreshed-is_match d q now a s h = h

stored_again :
    (c : AnswerCache) (d : Bytes) (q now : ℕ) (a : Answer) (r : Sweep × Option ℕ) (i : ℕ)
    → length r.0.entries ≡ c.capacity
    → 0 < c.capacity
    → r.1 ≡ some i
    → IsFirst d q r.0.entries i (probes d q c.capacity)
    → is_match d q (get_or r.0.entries i vacant) ≡ true
    → Stores (place c d q now a r) d q now a
stored_again c d q now a r i w h e f m =
    let p = placed_again c d q now a r i e in
    let v = refreshed (get_or r.0.entries i vacant) now a in
    let below =
      Among-below c.capacity i _ (IsFirst-Among d q r.0.entries i _ f)
        (probes_below d q c.capacity h) in
    record {
      slot = v;
      at = i;
      found =
          rw (p.0, p.1)
            (find_slot-set d q r.0.entries i v (probes d q c.capacity) f (omega (arith, below, w))
              (refreshed-is_match d q now a (get_or r.0.entries i vacant) m));
      answers = refl;
      stamped = refl;
    }

stored_new :
    (c : AnswerCache) (d : Bytes) (q now : ℕ) (a : Answer) (r : Sweep × Option ℕ)
    → length r.0.entries ≡ c.capacity
    → 0 < c.capacity
    → r.1 ≡ none
    → Among (chosen r.0) (probes d q c.capacity)
    → All (Misses d q r.0.entries) (probes d q c.capacity)
    → Stores (place c d q now a r) d q now a
stored_new c d q now a r w h e k m =
    let p = placed_new c d q now a r e in
    let v = slot_for d q now a in
    let below = Among-below c.capacity (chosen r.0) _ k (probes_below d q c.capacity h) in
    record {
      slot = v;
      at = chosen r.0;
      found =
          rw (p.0, p.1)
            (find_slot-set d q r.0.entries (chosen r.0) v (probes d q c.capacity)
              (Among-IsFirst d q r.0.entries (chosen r.0) _ k m) (omega (arith, below, w))
              (slot_for-is_match d q now a));
      answers = refl;
      stamped = refl;
    }

Swept-Stores :
    (c : AnswerCache) (d : Bytes) (q now : ℕ) (a : Answer) (r : Sweep × Option ℕ)
    → length c.entries ≡ c.capacity
    → 0 < c.capacity
    → Swept d q (probes d q c.capacity) (first_sweep c d q) r
    → Stores (place c d q now a r) d q now a
Swept-Stores c d q now a r w h s = elim (Option-cases r.1) [
  | inl e ↦
      stored_new c d q now a r (s.width ∙ w) h e
        (elim s.chooses [
          | inl x ↦
              subst (λ y. Among y (probes d q c.capacity)) (sym x) (start-Among d q c.capacity h)
          | inr k ↦ k
        ])
        (s.misses e)
  | inr (i, e) ↦ stored_again c d q now a r i (s.width ∙ w) h e (s.first i e).0 (s.first i e).1
]

lives :
    (now t : ℕ) (a : Answer) (s : Slot)
    → s.answer ≡ a
    → s.timestamp_ns ≡ now
    → now + a.ttl_seconds * 1000000000 < u64_mod
    → t ≤ now + a.ttl_seconds * 1000000000
    → entry_expired t s ≡ false
unfolding entry_expired
lives now t a s e f w h = rw (e, f) (ground arith)

taken :
    (c : AnswerCache) (t : ℕ) (s : Slot) (i : ℕ) (a : Answer)
    → s.answer ≡ a
    → entry_expired t s ≡ false
    → (take_slot c t (some (i, s))).1 ≡ some a
taken c t s i a e f = rw f (ap some e)

pub short_lookup :
    (c : AnswerCache) (d : Bytes) (q t : ℕ)
    → length d ≤ answer_cache_max_domain_len
    → answer_cache_lookup c d q t ≡ take_slot c t (find_slot d q c.entries (probes d q c.capacity))
unfolding answer_cache_lookup
short_lookup c d q t l = ground arith

-- what a table that stores an answer says of it
Stores-lookup :
    (c : AnswerCache) (d : Bytes) (q now t : ℕ) (a : Answer)
    → Stores c d q now a
    → length d ≤ answer_cache_max_domain_len
    → now + a.ttl_seconds * 1000000000 < u64_mod
    → t ≤ now + a.ttl_seconds * 1000000000
    → (answer_cache_lookup c d q t).1 ≡ some a
Stores-lookup c d q now t a s l w h =
    ap (λ x. x.1) (short_lookup c d q t l)
    ∙ ap (λ x. (take_slot c t x).1) s.found
    ∙ taken c t s.slot s.at a s.answers (lives now t a s.slot s.answers s.stamped w h)

-- the guards of `answer_cache_insert`
abbrev pub IsStorable : Bytes → Answer → Type 0
IsStorable d a =
    (a.ttl_seconds ≢ 0)
    × (length d ≤ answer_cache_max_domain_len)
    × (0 < length a.records)
    × (length a.records ≤ 8)
    × (0 < a.record_bytes)
    × (a.record_bytes ≤ 16)

passes :
    (ttl len n width : ℕ) (refused stored : AnswerCache × Bool)
    → ttl ≢ 0
    → len ≤ 95
    → (0 < n) × (n ≤ 8)
    → (0 < width) × (width ≤ 16)
    → (if ttl == 0
        then refused
        else if ltb 95 len
        then refused
        else if n == 0 || ltb 8 n
        then refused
        else if width == 0 || ltb 16 width
        then refused
        else stored)
      ≡ stored
passes ttl len n width refused stored t l r w = ground arith

storable_insert :
    (c : AnswerCache) (d : Bytes) (q now : ℕ) (a : Answer)
    → IsStorable d a
    → answer_cache_insert c d q a now
      ≡ (place c d q now a (insert_scan d q now (probes d q c.capacity) (first_sweep c d q)), true)
unfolding answer_cache_insert
storable_insert c d q now a g =
    passes a.ttl_seconds (length d) (length a.records) a.record_bytes (c, false) _ g.0 g.1
      (g.2, g.3) (g.4, g.5)

-- In a table that is not empty, an answer within the limits of the table is stored, and until its ttl
-- is over a lookup for its domain and type at once after returns it, whatever the table held and
-- whether its slot was the key's own, free, stale or taken from the oldest.
pub answer_cache_insert-lookup :
    (c : AnswerCache) (d : Bytes) (q now t : ℕ) (a : Answer)
    → length c.entries ≡ c.capacity
    → 0 < c.capacity
    → IsStorable d a
    → now + a.ttl_seconds * 1000000000 < u64_mod
    → t ≤ now + a.ttl_seconds * 1000000000
    → ((answer_cache_insert c d q a now).1 ≡ true)
      × ((answer_cache_lookup (answer_cache_insert c d q a now).0 d q t).1 ≡ some a)
answer_cache_insert-lookup c d q now t a e h g w b =
    let i = storable_insert c d q now a g in
    let stored =
      Swept-Stores c d q now a _ e h
        (insert_scan-Swept d q now (probes d q c.capacity) (first_sweep c d q)) in
    (
      ap (λ x. x.1) i,
      ap (λ x. (answer_cache_lookup x.0 d q t).1) i ∙ Stores-lookup _ d q now t a stored g.1 w b,
    )
