-- ===== src/AnswerCache/Dropped.antt =====
-- The removal of a key from the table of answers keeps the table sound.
use nyet.Prelude.{
  ℕ, ◌≡◌, refl, sym, ap, subst, ◌∙◌, inl, inr, Bool, false, ◌||◌, Option, none, some, List, [], ◌∷◌,
  arith, ltb, ◌==◌, if◌then◌else◌, if_elim, Option-cases, Bytes, length, get_or,
}
use nyet.Packet.{Answer}
use nyet.AnswerCache.{
  AnswerCache, Slot, Sweep, vacant, entry_expired, is_match, probes, find_slot, take_slot,
  answer_cache_lookup, insert_scan, place, first_sweep, answer_cache_insert,
  answer_cache_max_domain_len,
}
use nyet.AnswerCache.Upkeep.{drop_key, answer_cache_invalidate}
use nyet.AnswerCache.Fresh.{insert_scan-Swept}
use nyet.AnswerCache.Invariant.{HasKey, IsMap, vacated-IsMap, kept-IsMap, dropped-IsMap}
use nyet.AnswerCache.Kept.{IsLive, insert_scan-Scanned, none_some}
use nyet.AnswerCache.Operations.{IsValid, new_place-IsMap, again_place-IsMap}

place-capacity :
    (c : AnswerCache) (d : Bytes) (q now : ℕ) (a : Answer) (r : Sweep × Option ℕ)
    → (place c d q now a r).capacity ≡ c.capacity
place-capacity c d q now a (s, some i) = refl
place-capacity c d q now a (s, none) = elim (Option-cases s.target_idx) [
  | inl e ↦ rw e refl
  | inr (t, e) ↦ rw e refl
]

place-IsValid :
    (c : AnswerCache) (d : Bytes) (q now : ℕ) (a : Answer)
    → IsValid c
    → IsValid (place c d q now a (insert_scan d q now (probes d q c.capacity) (first_sweep c d q)))
place-IsValid c d q now a v =
    let is = probes d q c.capacity in
    let r = insert_scan d q now is (first_sweep c d q) in
    let p =
      insert_scan-Scanned d q now c.capacity is (first_sweep c d q) v.2
        (record { table = v.0; free = λ t e. none_some none t refl e }) in
    let s = insert_scan-Swept d q now is (first_sweep c d q) in
    let m : IsMap (place c d q now a r).entries c.capacity (place c d q now a r).count =
      elim (Option-cases r.1) [
        | inl e ↦ new_place-IsMap c d q now a r v.2 v.1 p s e
        | inr (i, e) ↦ again_place-IsMap c d q now a r i p e
      ] in
    rw (place-capacity c d q now a r) (m, v.1, v.2)

pub insert-IsValid :
    (c : AnswerCache) (d : Bytes) (q now : ℕ) (a : Answer)
    → IsValid c
    → IsValid (answer_cache_insert c d q a now).0
unfolding answer_cache_insert
insert-IsValid c d q now a v =
    let p = place-IsValid c d q now a v in
    if_elim (λ (x : AnswerCache × Bool). IsValid x.0) (a.ttl_seconds == 0) _ _ (λ _. v)
      (λ _.
        if_elim (λ (x : AnswerCache × Bool). IsValid x.0)
          (ltb answer_cache_max_domain_len (length d)) _ _ (λ _. v)
          (λ _.
            if_elim (λ (x : AnswerCache × Bool). IsValid x.0)
              (length a.records == 0 || ltb 8 (length a.records)) _ _ (λ _. v)
              (λ _.
                if_elim (λ (x : AnswerCache × Bool). IsValid x.0)
                  (a.record_bytes == 0 || ltb 16 a.record_bytes) _ _ (λ _. v) (λ _. p))))

is_match-IsLive : (d : Bytes) (q i : ℕ) (es : List Slot) → HasKey d q es i → IsLive es i
unfolding is_match
is_match-IsLive d q i es h = ground (arith, h)

some_pair :
    (x i : ℕ) (g s : Slot)
    → ◌≡◌ {A = Option (ℕ × Slot)} (some (x, g)) (some (i, s))
    → (x ≡ i) × (g ≡ s)
some_pair x i g s e = (cc, cc)

-- what the search finds has the key, in its place
find_slot-found :
    (d : Bytes) (q : ℕ) (es : List Slot) (is : List ℕ) (i : ℕ) (s : Slot)
    → find_slot d q es is ≡ some (i, s)
    → HasKey d q es i × (get_or es i vacant ≡ s)
unfolding find_slot
find_slot-found d q es [] i s h = absurd (ground (arith, h))
find_slot-found d q es (x ∷ is) i s h =
    if_elim
      (λ (o : Option (ℕ × Slot)). o ≡ some (i, s) → HasKey d q es i × (get_or es i vacant ≡ s))
      (is_match d q (get_or es x vacant)) (some (x, get_or es x vacant)) (find_slot d q es is)
      (λ m e.
        let p = some_pair x i (get_or es x vacant) s e in
        (subst (HasKey d q es) p.0 m, subst (λ y. get_or es y vacant ≡ s) p.0 p.1))
      (λ _ e. find_slot-found d q es is i s e) h

dropped_slot : (d : Bytes) (q : ℕ) (s : Slot) → is_match d q (record s { valid = false }) ≡ false
unfolding is_match
dropped_slot d q s = refl

touched_slot :
    (d : Bytes) (q t : ℕ) (s : Slot) → is_match d q (record s { timestamp_ns = t }) ≡ is_match d q s
unfolding is_match
touched_slot d q t s = refl

take_slot-IsValid :
    (c : AnswerCache) (d : Bytes) (q now i : ℕ) (s : Slot)
    → HasKey d q c.entries i
    → get_or c.entries i vacant ≡ s
    → IsValid c
    → IsValid (take_slot c now (some (i, s))).0
take_slot-IsValid c d q now i s k g v =
    let l : IsLive c.entries i = is_match-IsLive d q i c.entries k in
    let t = if ltb s.timestamp_ns now then now else s.timestamp_ns in
    if_elim (λ (x : AnswerCache × Option Answer). IsValid x.0) (entry_expired now s) _ _
      (λ _. (
        dropped-IsMap c.entries c.capacity c.count i (record s { valid = false }) v.2 l refl
            (λ d' q'. dropped_slot d' q' s) v.0,
        v.1,
        v.2,
      ))
      (λ _. (
        kept-IsMap c.entries c.capacity c.count i (record s { timestamp_ns = t }) l
            (ap Slot.valid (sym g) ∙ l)
            (λ d' q'. touched_slot d' q' t s ∙ ap (is_match d' q') (sym g)) v.0,
        v.1,
        v.2,
      ))

pub lookup-IsValid :
    (c : AnswerCache) (d : Bytes) (q now : ℕ)
    → IsValid c
    → IsValid (answer_cache_lookup c d q now).0
unfolding answer_cache_lookup
lookup-IsValid c d q now v =
    let found = find_slot d q c.entries (probes d q c.capacity) in
    if_elim (λ (x : AnswerCache × Option Answer). IsValid x.0)
      (ltb answer_cache_max_domain_len (length d)) _ _ (λ _. v)
      (λ _. elim (Option-cases found) [
        | inl e ↦ rw e v
        | inr ((i, s), e) ↦
            let f = find_slot-found d q c.entries (probes d q c.capacity) i s e in
            rw e (take_slot-IsValid c d q now i s f.0 f.1 v)
      ])

pub drop_key-IsValid :
    (c : AnswerCache) (d : Bytes) (q : ℕ) (is : List ℕ) → IsValid c → IsValid (drop_key d q is c).0
unfolding drop_key
drop_key-IsValid c d q [] v = v
drop_key-IsValid c d q (i ∷ is) v =
    if_elim (λ (x : AnswerCache × Bool). IsValid x.0) (is_match d q (get_or c.entries i vacant)) _ _
      (λ m. (
        vacated-IsMap c.entries c.capacity c.count i v.2 (is_match-IsLive d q i c.entries m) v.0,
        v.1,
        v.2,
      ))
      (λ _. drop_key-IsValid c d q is v)

pub invalidate-IsValid :
    (c : AnswerCache) (d : Bytes) → IsValid c → IsValid (answer_cache_invalidate c d).0
unfolding answer_cache_invalidate
invalidate-IsValid c d v =
    let c' = (drop_key d 1 (probes d 1 c.capacity) c).0 in
    if_elim (λ (x : AnswerCache × Bool). IsValid x.0) (ltb answer_cache_max_domain_len (length d)) _
      _ (λ _. v)
      (λ _.
        drop_key-IsValid c' d 28 (probes d 28 c'.capacity)
          (drop_key-IsValid c d 1 (probes d 1 c.capacity) v))
