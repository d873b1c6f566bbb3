-- ===== src/AnswerCache/Operations.antt =====
-- Every operation of the table of answers keeps it a map.
use nyet.Prelude.{
  ℕ, ◌+◌, ◌<◌, ◌≡◌, refl, sym, ap, subst, ◌∙◌, ◌⊎◌, inl, inr, true, Option, none, some, List, [],
  ◌∷◌, arith, Option-cases, Bytes, bytes_eq_iff, length, All, set, get_or, length-set,
}
use nyet.Prelude.Words.{u64_mod, inc64}
use nyet.Packet.{Answer}
use nyet.AnswerCache.{
  AnswerCache, Slot, Sweep, vacant, is_match, probes, slot_for, place, first_sweep,
}
use nyet.AnswerCache.Fresh.{Among, Misses, Swept, chosen, get_or-set_self, get_or-set_ne, same_or}
use nyet.AnswerCache.Stored.{Among-below, probes_below, start-Among, refreshed, placed_new}
use nyet.AnswerCache.Invariant.{
  live, HasKey, IsMap, bit, live-set, live-le, kept-IsMap, inc64_lem, equal,
}
use nyet.AnswerCache.Kept.{IsLive, IsFree, Scanned}

abbrev pub IsValid : AnswerCache → Type 0
IsValid c = IsMap c.entries c.capacity c.count × (0 < c.capacity) × (c.capacity < u64_mod)

All-Among : (P : ℕ → Type 0) (is : List ℕ) (i : ℕ) → All P is → Among i is → P i
All-Among P [] i a m = absurd m
All-Among P (x ∷ xs) i a (inl e) = subst P e a.0
All-Among P (x ∷ xs) i a (inr m) = All-Among P xs i a.1 m

slot_for-key :
    (d' d : Bytes) (q' q now : ℕ) (a : Answer)
    → is_match d' q' (slot_for d q now a) ≡ true
    → (d ≡ d') × (q ≡ q')
unfolding is_match
slot_for-key d' d q' q now a h = ground (arith, h, bytes_eq_iff d d')

module _ (d : Bytes) (q : ℕ) (es : List Slot) (capacity count t now : ℕ) (a : Answer)
    (m : IsMap es capacity count) (among : Among t (probes d q capacity)) (below : t < capacity)
    (misses : All (Misses d q es) (probes d q capacity)) where
  -- the keys after the write of a new slot
  keys :
      (d' : Bytes) (q' j : ℕ)
      → HasKey d' q' (set es t (slot_for d q now a)) j
      → ((t ≡ j) × (d ≡ d') × (q ≡ q')) ⊎ HasKey d' q' es j
  keys d' q' j h = elim (same_or t j) [
    | inl e ↦
        let here = subst (λ x. HasKey d' q' (set es t (slot_for d q now a)) x) (sym e) h in
        let own : is_match d' q' (slot_for d q now a) ≡ true =
          subst (λ x. is_match d' q' x ≡ true)
            (get_or-set_self es t (slot_for d q now a) (omega (arith, below, m.width))) here in
        let key = slot_for-key d' d q' q now a own in inl (e, key.0, key.1)
    | inr n ↦
        inr (subst (λ x. is_match d' q' x ≡ true) (get_or-set_ne es t j (slot_for d q now a) n) h)
  ]

  -- the key was nowhere
  absent : (j : ℕ) → HasKey d q es j → ⊥
  absent j h =
      let no_match = All-Among (Misses d q es) (probes d q capacity) j misses (m.located d q j h) in
      ground (arith, h, no_match)

  absent_key : (d' : Bytes) (q' j : ℕ) → d ≡ d' → q ≡ q' → HasKey d' q' es j → ⊥
  absent_key d' q' j e f h =
      absent j (subst (λ x. HasKey x q es j) (sym e) (subst (λ x. HasKey d' x es j) (sym f) h))

  new_unique :
      (d' : Bytes) (q' i j : ℕ)
      → HasKey d' q' (set es t (slot_for d q now a)) i
      → HasKey d' q' (set es t (slot_for d q now a)) j
      → i ≡ j
  new_unique d' q' i j h k = elim (keys d' q' i h) [
    | inl (e, ed, eq) ↦ elim (keys d' q' j k) [
      | inl (f, fd, fq) ↦ sym e ∙ f
      | inr o ↦ absurd (absent_key d' q' j ed eq o)
    ]
    | inr o ↦ elim (keys d' q' j k) [
      | inl (f, fd, fq) ↦ absurd (absent_key d' q' i fd fq o)
      | inr o' ↦ m.unique d' q' i j o o'
    ]
  ]

  new-located :
      (d' : Bytes) (q' j : ℕ)
      → HasKey d' q' (set es t (slot_for d q now a)) j
      → Among j (probes d' q' capacity)
  new-located d' q' j h = elim (keys d' q' j h) [
    | inl (e, ed, eq) ↦
        subst (λ x. Among x (probes d' q' capacity)) e
          (subst (λ x. Among t (probes x q' capacity)) ed
            (subst (λ x. Among t (probes d x capacity)) eq among))
    | inr o ↦ m.located d' q' j o
  ]

  new-IsMap :
      (count' : ℕ)
      → count' ≡ live (set es t (slot_for d q now a))
      → IsMap (set es t (slot_for d q now a)) capacity count'
  new-IsMap count' c = record {
    width = length-set es t (slot_for d q now a) ∙ m.width;
    located = new-located;
    unique = new_unique;
    counted = c;
  }

-- the write into a slot that was free, or live
stored_free :
    (es : List Slot) (t count capacity : ℕ) (v : Slot)
    → t < length es
    → IsFree es t
    → v.valid ≡ true
    → count ≡ live es
    → length es < u64_mod
    → inc64 count ≡ live (set es t v)
stored_free es t count capacity v h f l c w =
    let one : live es + 1 ≡ live (set es t v) + 0 =
      ap (λ b. live es + bit b) (sym l)
      ∙ sym (live-set es t v h)
      ∙ ap (λ b. live (set es t v) + bit b) f in
    inc64_lem count (live (set es t v)) (length es) w
      (omega (arith, live-le (set es t v), length-set es t v)) (omega (arith, one, c))

chosen-none : (s : Sweep) → s.target_idx ≡ none → chosen s ≡ s.oldest_idx
chosen-none s e = rw e refl

chosen-some : (s : Sweep) (t : ℕ) → s.target_idx ≡ some t → chosen s ≡ t
chosen-some s t e = rw e refl

Scanned-count :
    (c : AnswerCache) (d : Bytes) (q now : ℕ) (a : Answer) (r : Sweep × Option ℕ)
    → c.capacity < u64_mod
    → chosen r.0 < c.capacity
    → Scanned c.capacity (probes d q c.capacity) (first_sweep c d q) r
    → r.1 ≡ none
    → Among (chosen r.0) (probes d q c.capacity)
    → (place c d q now a r).count ≡ live (set r.0.entries (chosen r.0) (slot_for d q now a))
Scanned-count c d q now a (s, o) w b p e among = elim (Option-cases s.target_idx) [
  | inl n ↦
      let full =
        All-Among (IsLive s.entries) (probes d q c.capacity) (chosen s) (p.full e n) among in
      let l = subst (IsLive s.entries) (chosen-none s n) full in
      rw (e, n) (p.swept.table.counted ∙ equal s.entries s.oldest_idx (slot_for d q now a) l refl)
  | inr (t, n) ↦
      let below = subst (λ x. x < c.capacity) (chosen-some s t n) b in
      rw (e, n)
        (stored_free s.entries t s.count c.capacity (slot_for d q now a)
          (omega (arith, below, p.swept.table.width)) (p.swept.free t n) refl p.swept.table.counted
          (omega (arith, p.swept.table.width, w)))
]

pub new_place-IsMap :
    (c : AnswerCache) (d : Bytes) (q now : ℕ) (a : Answer) (r : Sweep × Option ℕ)
    → c.capacity < u64_mod
    → 0 < c.capacity
    → Scanned c.capacity (probes d q c.capacity) (first_sweep c d q) r
    → Swept d q (probes d q c.capacity) (first_sweep c d q) r
    → r.1 ≡ none
    → IsMap (place c d q now a r).entries c.capacity (place c d q now a r).count
new_place-IsMap c d q now a r w h p s e =
    let among : Among (chosen r.0) (probes d q c.capacity) = elim s.chooses [
      | inl x ↦ subst (λ y. Among y (probes d q c.capacity)) (sym x) (start-Among d q c.capacity h)
      | inr k ↦ k
    ] in
    let below = Among-below c.capacity (chosen r.0) _ among (probes_below d q c.capacity h) in
    rw (placed_new c d q now a r e).0 (
      new-IsMap d q r.0.entries c.capacity r.0.count (chosen r.0) now a p.swept.table among below
        (s.misses e) _ (Scanned-count c d q now a r w below p e among))

refreshed-key :
    (d : Bytes) (q now : ℕ) (a : Answer) (s : Slot)
    → is_match d q (refreshed s now a) ≡ is_match d q s
unfolding is_match
refreshed-key d q now a s = refl

pub again_place-IsMap :
    (c : AnswerCache) (d : Bytes) (q now : ℕ) (a : Answer) (r : Sweep × Option ℕ) (i : ℕ)
    → Scanned c.capacity (probes d q c.capacity) (first_sweep c d q) r
    → r.1 ≡ some i
    → IsMap (place c d q now a r).entries c.capacity (place c d q now a r).count
again_place-IsMap c d q now a (s, o) i p e =
    let slot = get_or s.entries i vacant in
    rw e (
      kept-IsMap s.entries c.capacity s.count i (refreshed slot now a) (p.hit i e) (p.hit i e)
        (λ d' q'. refreshed-key d' q' now a slot) p.swept.table)
