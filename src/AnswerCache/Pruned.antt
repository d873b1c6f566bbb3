-- ===== src/AnswerCache/Pruned.antt =====
-- Clearing, pruning and the start of the table, and all that its operations reach.
use nyet.Prelude.{
  ℕ, zero, suc, ◌+◌, ◌<◌, ◌≡◌, refl, sym, ap, subst, ◌∙◌, ◌⊎◌, inl, inr, true, false, not, ◌&&◌,
  ◌||◌, Option, none, some, List, [], ◌∷◌, arith, ltb, if◌then◌else◌, if_elim, Bool-cases, Bytes,
  length, get_or, replicate, length-replicate,
}
use nyet.Prelude.Words.{u64_mod, dec64}
use nyet.Packet.{Answer}
use nyet.DnsCache.{is_power_of_2}
use nyet.AnswerCache.{
  AnswerCache, Slot, vacant, entry_expired, is_match, answer_cache_lookup, answer_cache_insert,
}
use nyet.AnswerCache.Upkeep.{
  answer_cache_init, answer_cache_invalidate, answer_cache_clear, prune, answer_cache_prune_expired,
}
use nyet.AnswerCache.Invariant.{live, HasKey, IsMap, is_match-vacant, live-le, dec64_lem, bit}
use nyet.AnswerCache.Operations.{IsValid}
use nyet.AnswerCache.Dropped.{insert-IsValid, lookup-IsValid, invalidate-IsValid}

replicate-vacant : (n i : ℕ) → get_or (replicate n vacant) i vacant ≡ vacant
replicate-vacant zero i = refl
replicate-vacant (suc n) zero = refl
replicate-vacant (suc n) (suc i) = replicate-vacant n i

replicate-live : (n : ℕ) → live (replicate n vacant) ≡ 0
unfolding live
replicate-live zero = refl
replicate-live (suc n) = omega (arith, replicate-live n)

vacant_key : (d : Bytes) (q n i : ℕ) → HasKey d q (replicate n vacant) i → ⊥
vacant_key d q n i h =
    let k : is_match d q (get_or (replicate n vacant) i vacant) ≡ false =
      ap (is_match d q) (replicate-vacant n i) ∙ is_match-vacant d q in
    ground (arith, h, k)

vacant-IsMap : (n : ℕ) → IsMap (replicate n vacant) n 0
vacant-IsMap n = record {
  width = length-replicate n vacant;
  located = λ d q i h. absurd (vacant_key d q n i h);
  unique = λ d q i j h k. absurd (vacant_key d q n i h);
  counted = sym (replicate-live n);
}

clear-IsValid : (c : AnswerCache) → IsValid c → IsValid (answer_cache_clear c)
clear-IsValid c v = (vacant-IsMap c.capacity, v.1, v.2)

-- the slots after a pruning: each is as before or vacant
prune-slot :
    (now : ℕ) (es : List Slot) (count i : ℕ)
    → (get_or (prune now es count).0 i vacant ≡ get_or es i vacant)
      ⊎ (get_or (prune now es count).0 i vacant ≡ vacant)
unfolding prune
prune-slot now [] count i = inl refl
prune-slot now (s ∷ ss) count zero = elim (Bool-cases (s.valid && entry_expired now s)) [
  | inl e ↦ rw e (inr refl)
  | inr e ↦ rw e (inl refl)
]
prune-slot now (s ∷ ss) count (suc i) = elim (Bool-cases (s.valid && entry_expired now s)) [
  | inl e ↦ rw e (prune-slot now ss (dec64 count) i)
  | inr e ↦ rw e (prune-slot now ss count i)
]

prune-key :
    (d : Bytes) (q now : ℕ) (es : List Slot) (count i : ℕ)
    → HasKey d q (prune now es count).0 i
    → HasKey d q es i
prune-key d q now es count i h = elim (prune-slot now es count i) [
  | inl e ↦ ap (is_match d q) (sym e) ∙ h
  | inr e ↦
      let k : is_match d q (get_or (prune now es count).0 i vacant) ≡ false =
        ap (is_match d q) e ∙ is_match-vacant d q in
      absurd (ground (arith, h, k))
]

prune-length : (now : ℕ) (es : List Slot) (count : ℕ) → length (prune now es count).0 ≡ length es
unfolding prune
prune-length now [] count = refl
prune-length now (s ∷ ss) count = elim (Bool-cases (s.valid && entry_expired now s)) [
  | inl e ↦ rw e (ap suc (prune-length now ss (dec64 count)))
  | inr e ↦ rw e (ap suc (prune-length now ss count))
]

-- the count stays that of the live slots, of those before too
prune-count :
    (now : ℕ) (es : List Slot) (count before : ℕ)
    → count ≡ before + live es
    → count < u64_mod
    → (prune now es count).1 ≡ before + live (prune now es count).0
unfolding prune live
prune-count now [] count before c w = c
prune-count now (s ∷ ss) count before c w = elim (Bool-cases (s.valid && entry_expired now s)) [
  | inl e ↦
      let one : s.valid ≡ true = ground (arith, e) in
      let b : count ≡ before + (1 + live ss) =
        c ∙ ap (λ v. before + ((if v then 1 else 0) + live ss)) one in
      let less : dec64 count ≡ before + live ss =
        dec64_lem count (before + live ss) count w (omega arith) (omega (arith, b)) in
      rw e (prune-count now ss (dec64 count) before less (omega (arith, less, b, w)) ∙ omega arith)
  | inr e ↦ rw e (prune-count now ss count (before + bit s.valid) (c ∙ omega arith) w ∙ omega arith)
]

prune_expired-IsValid :
    (c : AnswerCache) (now : ℕ) → IsValid c → IsValid (answer_cache_prune_expired c now).0
unfolding answer_cache_prune_expired
prune_expired-IsValid c now v =
    let small : c.count < u64_mod = omega (arith, v.0.counted, live-le c.entries, v.0.width, v.2) in
    (
      record {
        width = prune-length now c.entries c.count ∙ v.0.width;
        located = λ d q i h. v.0.located d q i (prune-key d q now c.entries c.count i h);
        unique = λ d q i j h k.
            v.0.unique d q i j (prune-key d q now c.entries c.count i h)
              (prune-key d q now c.entries c.count j k);
        counted =
            prune-count now c.entries c.count 0 (v.0.counted ∙ omega arith) small ∙ omega arith;
      },
      v.1,
      v.2,
    )

abbrev pub empty : ℕ → AnswerCache
empty capacity = record {
  entries = replicate capacity vacant;
  capacity = capacity;
  count = 0;
  hits = 0;
  misses = 0;
  evictions = 0;
  inserts = 0;
}

some_cache : (a b : AnswerCache) → ◌≡◌ {A = Option AnswerCache} (some a) (some b) → a ≡ b
some_cache a b e = cc

init-IsValid :
    (capacity : ℕ) (c : AnswerCache)
    → capacity < u64_mod
    → answer_cache_init capacity ≡ some c
    → IsValid c
unfolding answer_cache_init
init-IsValid capacity c w h =
    if_elim (λ (o : Option AnswerCache). o ≡ some c → IsValid c)
      (not (is_power_of_2 capacity) || ltb capacity 64) none (some (empty capacity))
      (λ _ e. absurd (ground (arith, e)))
      (λ t e.
        subst IsValid (some_cache (empty capacity) c e)
          (vacant-IsMap capacity, ground (arith, t), w))
      h

-- what the operations reach from the start, at any clocks
pub data Reached : AnswerCache → Type 0 where
  starts :
      (capacity : ℕ) (c : AnswerCache)
      → capacity < u64_mod
      → answer_cache_init capacity ≡ some c
      → Reached c
  looks :
      {c : AnswerCache} (d : Bytes) (q now : ℕ)
      → Reached c
      → Reached (answer_cache_lookup c d q now).0
  inserts :
      {c : AnswerCache} (d : Bytes) (q : ℕ) (a : Answer) (now : ℕ)
      → Reached c
      → Reached (answer_cache_insert c d q a now).0
  invalidates : {c : AnswerCache} (d : Bytes) → Reached c → Reached (answer_cache_invalidate c d).0
  clears : {c : AnswerCache} → Reached c → Reached (answer_cache_clear c)
  prunes : {c : AnswerCache} (now : ℕ) → Reached c → Reached (answer_cache_prune_expired c now).0

pub Reached-IsValid : {c : AnswerCache} → Reached c → IsValid c
Reached-IsValid (starts capacity c w h) = init-IsValid capacity c w h
Reached-IsValid (looks {c} d q now r) = lookup-IsValid c d q now (Reached-IsValid r)
Reached-IsValid (inserts {c} d q a now r) = insert-IsValid c d q now a (Reached-IsValid r)
Reached-IsValid (invalidates {c} d r) = invalidate-IsValid c d (Reached-IsValid r)
Reached-IsValid (clears {c} r) = clear-IsValid c (Reached-IsValid r)
Reached-IsValid (prunes {c} now r) = prune_expired-IsValid c now (Reached-IsValid r)
