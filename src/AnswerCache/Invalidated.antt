-- ===== src/AnswerCache/Invalidated.antt =====
-- After an invalidation the table has no answer for the domain.
use nyet.Prelude.{
  ℕ, ◌≤◌, ◌≡◌, refl, ap, subst, ◌∙◌, ◌≢◌, inl, inr, Bool, none, List, [], ◌∷◌, arith, if_elim,
  Bool-cases, Bytes, length, set, get_or,
}
use nyet.AnswerCache.{
  AnswerCache, vacant, is_match, answer_cache_max_domain_len, find_slot, probes, Slot,
  answer_cache_lookup, take_slot,
}
use nyet.AnswerCache.Upkeep.{drop_key, answer_cache_invalidate}
use nyet.AnswerCache.Fresh.{Among, Misses, get_or-set_ne, get_or-vacant, same_or}
use nyet.AnswerCache.Invariant.{HasKey, HasKey-set, is_match-vacant}
use nyet.AnswerCache.Operations.{IsValid}
use nyet.AnswerCache.Stored.{short_lookup}
use nyet.AnswerCache.Dropped.{drop_key-IsValid}

drop_key-key :
    (c : AnswerCache) (d d' : Bytes) (q q' : ℕ) (is : List ℕ) (j : ℕ)
    → HasKey d' q' (drop_key d q is c).0.entries j
    → HasKey d' q' c.entries j
unfolding drop_key
drop_key-key c d d' q q' [] j h = h
drop_key-key c d d' q q' (i ∷ is) j h =
    if_elim (λ (x : AnswerCache × Bool). HasKey d' q' x.0.entries j → HasKey d' q' c.entries j)
      (is_match d q (get_or c.entries i vacant)) _ _
      (λ m k.
        HasKey-set d' q' c.entries i j vacant
          (λ v. absurd (ground (arith, v, is_match-vacant d' q'))) k)
      (λ _ k. drop_key-key c d d' q q' is j k) h

drop_key-gone :
    (c : AnswerCache) (d : Bytes) (q : ℕ) (is : List ℕ) (j : ℕ)
    → IsValid c
    → Among j is
    → Misses d q (drop_key d q is c).0.entries j
unfolding drop_key
drop_key-gone c d q [] j v a = absurd a
drop_key-gone c d q (i ∷ is) j v a =
    if_elim (λ (x : AnswerCache × Bool). Misses d q x.0.entries j)
      (is_match d q (get_or c.entries i vacant)) _ _
      (λ m. elim (same_or i j) [
        | inl e ↦
            subst (Misses d q (set c.entries i vacant)) e
              (ap (is_match d q) (get_or-vacant c.entries i) ∙ is_match-vacant d q)
        | inr n ↦ rw (get_or-set_ne c.entries i j vacant n) (alone m n)
      ])
      (λ m. elim a [
        | inl e ↦ missed (λ k. drop_key-key c d d q q is i k) e m
        | inr b ↦ drop_key-gone c d q is j v b
      ])
  where
    alone : HasKey d q c.entries i → i ≢ j → Misses d q c.entries j
    alone m n = elim (Bool-cases (is_match d q (get_or c.entries j vacant))) [
      | inl k ↦ absurd (n (v.0.unique d q i j m k))
      | inr k ↦ k
    ]

    missed :
        (HasKey d q (drop_key d q is c).0.entries i → HasKey d q c.entries i)
        → i ≡ j
        → Misses d q c.entries i
        → Misses d q (drop_key d q is c).0.entries j
    missed f e m =
        elim (Bool-cases (is_match d q (get_or (drop_key d q is c).0.entries i vacant))) [
          | inl k ↦ absurd (ground (arith, f k, m))
          | inr k ↦ subst (Misses d q (drop_key d q is c).0.entries) e k
        ]

drop_key-other :
    (c : AnswerCache) (d : Bytes) (q : ℕ) (is : List ℕ) (j : ℕ)
    → Misses d q c.entries j
    → get_or (drop_key d q is c).0.entries j vacant ≡ get_or c.entries j vacant
unfolding drop_key
drop_key-other c d q [] j n = refl
drop_key-other c d q (i ∷ is) j n =
    if_elim (λ (x : AnswerCache × Bool). get_or x.0.entries j vacant ≡ get_or c.entries j vacant)
      (is_match d q (get_or c.entries i vacant)) _ _
      (λ m.
        get_or-set_ne c.entries i j vacant
          (λ e. absurd (ground (arith, n, subst (HasKey d q c.entries) e m))))
      (λ _. drop_key-other c d q is j n)

drop_key-capacity :
    (c : AnswerCache) (d : Bytes) (q : ℕ) (is : List ℕ)
    → (drop_key d q is c).0.capacity ≡ c.capacity
unfolding drop_key
drop_key-capacity c d q [] = refl
drop_key-capacity c d q (i ∷ is) =
    if_elim (λ (x : AnswerCache × Bool). x.0.capacity ≡ c.capacity)
      (is_match d q (get_or c.entries i vacant)) _ _ (λ _. refl) (λ _. drop_key-capacity c d q is)

find_slot-none :
    (d : Bytes) (q : ℕ) (es : List Slot) (is : List ℕ)
    → ((j : ℕ) → Among j is → Misses d q es j)
    → find_slot d q es is ≡ none
unfolding find_slot
find_slot-none d q es [] m = refl
find_slot-none d q es (i ∷ is) m =
    rw (m i (inl refl)) (find_slot-none d q es is (λ j a. m j (inr a)))

-- a key that is gone from a window stays gone
Misses-drop :
    (c : AnswerCache) (d d' : Bytes) (q q' : ℕ) (is : List ℕ) (j : ℕ)
    → Misses d' q' c.entries j
    → Misses d' q' (drop_key d q is c).0.entries j
Misses-drop c d d' q q' is j m =
    elim (Bool-cases (is_match d' q' (get_or (drop_key d q is c).0.entries j vacant))) [
      | inl k ↦ absurd (ground (arith, m, drop_key-key c d d' q q' is j k))
      | inr k ↦ k
    ]

missed_lookup :
    (c : AnswerCache) (d : Bytes) (q now : ℕ)
    → length d ≤ answer_cache_max_domain_len
    → ((j : ℕ) → Among j (probes d q c.capacity) → Misses d q c.entries j)
    → (answer_cache_lookup c d q now).1 ≡ none
missed_lookup c d q now l m =
    ap (λ x. x.1) (short_lookup c d q now l)
    ∙ ap (λ x. (take_slot c now x).1) (find_slot-none d q c.entries (probes d q c.capacity) m)

module _ (c : AnswerCache) (d : Bytes) where
  after_a : AnswerCache
  after_a = (drop_key d 1 (probes d 1 c.capacity) c).0

  after_both : AnswerCache
  unfolding after_a
  after_both = (drop_key d 28 (probes d 28 after_a.capacity) after_a).0

  invalidated :
      length d ≤ answer_cache_max_domain_len → (answer_cache_invalidate c d).0 ≡ after_both
  unfolding after_a after_both answer_cache_invalidate
  invalidated l = ground arith

-- In a table that is a partial map with its window and count, after the invalidation of a domain that fits the table a
-- lookup of the domain finds no answer of type A or AAAA, at any time, and the slots that held
-- neither are as before.
pub answer_cache_invalidate-lookup :
    (c : AnswerCache) (d : Bytes) (now : ℕ)
    → IsValid c
    → length d ≤ answer_cache_max_domain_len
    → ((answer_cache_lookup (answer_cache_invalidate c d).0 d 1 now).1 ≡ none)
      × ((answer_cache_lookup (answer_cache_invalidate c d).0 d 28 now).1 ≡ none)
      × ((j : ℕ)
          → Misses d 1 c.entries j
          → Misses d 28 c.entries j
          → get_or (answer_cache_invalidate c d).0.entries j vacant ≡ get_or c.entries j vacant)
unfolding after_a after_both
answer_cache_invalidate-lookup c d now v l =
    let is = probes d 1 c.capacity in
    let b = after_a c d in
    let js = probes d 28 b.capacity in
    let w = drop_key-IsValid c d 1 is v in
    let same : (drop_key d 28 js b).0.capacity ≡ c.capacity =
      drop_key-capacity b d 28 js ∙ drop_key-capacity c d 1 is in
    rw (invalidated c d l) (
      missed_lookup (after_both c d) d 1 now l (λ j a.
          Misses-drop b d d 28 1 js j
            (drop_key-gone c d 1 is j v (subst (λ x. Among j (probes d 1 x)) same a))),
      missed_lookup (after_both c d) d 28 now l (λ j a.
          drop_key-gone b d 28 js j w
            (subst (λ x. Among j (probes d 28 x)) (drop_key-capacity b d 28 js) a)),
      λ j m n.
          drop_key-other b d 28 js j (Misses-drop c d d 1 28 is j n) ∙ drop_key-other c d 1 is j m,
    )
