-- ===== src/AnswerCache/Fresh.antt =====
-- src/answer_cache.c: the loop of `answer_cache_insert`, on any table and any window.
use nyet.Prelude.{
  ℕ, zero, suc, ◌<◌, ◌≡◌, refl, sym, ap, subst, ◌∙◌, ◌≢◌, ◌⊎◌, inl, inr, true, false, not, Option,
  none, some, List, [], ◌∷◌, arith, ltb, ◌==◌, if_elim, Bool-cases, Option-cases, Bytes, length,
  All, set, get_or, length-set,
}
use nyet.AnswerCache.{
  Slot, Sweep, vacant, entry_expired, is_match, find_slot, target_at, vacate_at, older_at,
  insert_scan,
}

pub get_or-set_self :
    (xs : List Slot) (i : ℕ) (v : Slot) → i < length xs → get_or (set xs i v) i vacant ≡ v
get_or-set_self [] i v h = absurd (omega (arith, h))
get_or-set_self (x ∷ xs) zero v h = refl
get_or-set_self (x ∷ xs) (suc i) v h = get_or-set_self xs i v (omega (arith, h))

pub get_or-set_ne :
    (xs : List Slot) (i j : ℕ) (v : Slot)
    → i ≢ j
    → get_or (set xs i v) j vacant ≡ get_or xs j vacant
get_or-set_ne [] i j v n = refl
get_or-set_ne (x ∷ xs) zero zero v n = absurd (n refl)
get_or-set_ne (x ∷ xs) zero (suc j) v n = refl
get_or-set_ne (x ∷ xs) (suc i) zero v n = refl
get_or-set_ne (x ∷ xs) (suc i) (suc j) v n = get_or-set_ne xs i j v (λ e. n (ap suc e))

-- the key is not at an index
abbrev pub Misses : Bytes → ℕ → List Slot → ℕ → Type 0
Misses d q es j = is_match d q (get_or es j vacant) ≡ false

-- an index is among those probed, and none before it has the key
abbrev pub IsFirst : Bytes → ℕ → List Slot → ℕ → List ℕ → Type 0
IsFirst d q es t [] = ⊥
IsFirst d q es t (i ∷ is) = (i ≡ t) ⊎ (Misses d q es i × IsFirst d q es t is)

abbrev pub Among : ℕ → List ℕ → Type 0
Among t [] = ⊥
Among t (i ∷ is) = (i ≡ t) ⊎ Among t is

pub Among-IsFirst :
    (d : Bytes) (q : ℕ) (es : List Slot) (t : ℕ) (is : List ℕ)
    → Among t is
    → All (Misses d q es) is
    → IsFirst d q es t is
Among-IsFirst d q es t [] m a = m
Among-IsFirst d q es t (i ∷ is) (inl e) a = inl e
Among-IsFirst d q es t (i ∷ is) (inr m) a = inr (a.0, Among-IsFirst d q es t is m a.1)

pub same_or : (t i : ℕ) → (t ≡ i) ⊎ (t ≢ i)
same_or t i = elim (Bool-cases (t == i)) [
  | inl e ↦ inl (ground (arith, e))
  | inr e ↦ inr (λ p. ground (arith, e, p))
]

pub find_slot-set :
    (d : Bytes) (q : ℕ) (es : List Slot) (t : ℕ) (v : Slot) (is : List ℕ)
    → IsFirst d q es t is
    → t < length es
    → is_match d q v ≡ true
    → find_slot d q (set es t v) is ≡ some (t, v)
unfolding find_slot
find_slot-set d q es t v [] f h m = absurd f
find_slot-set d q es t v (i ∷ is) (inl e) h m =
    subst (λ x. find_slot d q (set es t v) (x ∷ is) ≡ some (t, v)) (sym e)
      (rw (get_or-set_self es t v h, m) refl)
find_slot-set d q es t v (i ∷ is) (inr f) h m = elim (same_or t i) [
  | inl e ↦
      subst (λ x. find_slot d q (set es t v) (x ∷ is) ≡ some (t, v)) e
        (rw (get_or-set_self es t v h, m) refl)
  | inr n ↦ rw (get_or-set_ne es t i v n, f.0) (find_slot-set d q es t v is f.1 h m)
]

-- the slot that the insertion fills when the key is not found
abbrev pub chosen : Sweep → ℕ
chosen s = elim s.target_idx [ none ↦ s.oldest_idx | some t ↦ t ]

-- What the loop has done to a sweep `s`, with the result `r`.
pub record Swept (d : Bytes) (q : ℕ) (is : List ℕ) (s : Sweep) (r : Sweep × Option ℕ) : Type 0 where
  pub width : length r.0.entries ≡ length s.entries
  pub keeps : (j : ℕ) → Misses d q s.entries j → Misses d q r.0.entries j
  pub misses : r.1 ≡ none → All (Misses d q r.0.entries) is
  pub first :
      (i : ℕ)
      → r.1 ≡ some i
      → IsFirst d q r.0.entries i is × (is_match d q (get_or r.0.entries i vacant) ≡ true)
  pub chooses : (chosen r.0 ≡ chosen s) ⊎ Among (chosen r.0) is

-- a round that goes on from a sweep `s'` with the key not at `i`
goes_on :
    (d : Bytes) (q i : ℕ) (is : List ℕ) (s s' : Sweep) (r : Sweep × Option ℕ)
    → length s'.entries ≡ length s.entries
    → ((j : ℕ) → Misses d q s.entries j → Misses d q s'.entries j)
    → Misses d q s'.entries i
    → (chosen s' ≡ chosen s) ⊎ (i ≡ chosen s')
    → Swept d q is s' r
    → Swept d q (i ∷ is) s r
goes_on d q i is s s' r w k m c p = record {
  width = p.width ∙ w;
  keeps = λ j h. p.keeps j (k j h);
  misses = λ e. (p.keeps i m, p.misses e);
  first = λ j e. (inr (p.keeps i m, (p.first j e).0), (p.first j e).1);
  chooses = elim p.chooses [
    | inl e ↦ elim c [ inl f ↦ inl (e ∙ f) | inr f ↦ inr (inl (f ∙ sym e)) ]
    | inr a ↦ inr (inr a)
  ];
}

chosen-target_at :
    (i : ℕ) (s : Sweep) → (chosen (target_at i s) ≡ chosen s) ⊎ (i ≡ chosen (target_at i s))
chosen-target_at i s = elim (Option-cases s.target_idx) [
  | inl e ↦ inr (rw e refl)
  | inr (t, e) ↦ inl (rw e refl)
]

chosen-older_at :
    (i t : ℕ) (s : Sweep) → (chosen (older_at i t s) ≡ chosen s) ⊎ (i ≡ chosen (older_at i t s))
chosen-older_at i t s = elim (Bool-cases (ltb t s.oldest_time)) [
  | inl b ↦ elim (Option-cases s.target_idx) [
    | inl e ↦ inr (rw (b, e) refl)
    | inr (k, e) ↦ inl (rw (b, e) refl)
  ]
  | inr b ↦ inl (rw b refl)
]

pub older_at-entries : (i t : ℕ) (s : Sweep) → (older_at i t s).entries ≡ s.entries
older_at-entries i t s = elim (Bool-cases (ltb t s.oldest_time)) [
  | inl b ↦ rw b refl
  | inr b ↦ rw b refl
]

pub get_or-vacant : (es : List Slot) (i : ℕ) → get_or (set es i vacant) i vacant ≡ vacant
get_or-vacant [] i = refl
get_or-vacant (x ∷ xs) zero = refl
get_or-vacant (x ∷ xs) (suc i) = get_or-vacant xs i

vacated : (d : Bytes) (q i : ℕ) (es : List Slot) → Misses d q (set es i vacant) i
unfolding is_match
vacated d q i es = rw (get_or-vacant es i) refl

is_match-invalid : (d : Bytes) (q : ℕ) (s : Slot) → not s.valid ≡ true → is_match d q s ≡ false
unfolding is_match
is_match-invalid d q s h = ground (arith, h)

vacate-Misses :
    (d : Bytes) (q i j : ℕ) (es : List Slot) → Misses d q es j → Misses d q (set es i vacant) j
vacate-Misses d q i j es h = elim (same_or i j) [
  | inl e ↦ subst (Misses d q (set es i vacant)) e (vacated d q i es)
  | inr n ↦ rw (get_or-set_ne es i j vacant n) h
]

nothing-Swept : (d : Bytes) (q : ℕ) (s : Sweep) → Swept d q [] s (s, none)
nothing-Swept d q s = record {
  width = refl;
  keeps = λ j h. h;
  misses = λ e. tt;
  first = λ j e. absurd (ground (arith, e));
  chooses = inl refl;
}

found-Swept :
    (d : Bytes) (q i : ℕ) (is : List ℕ) (s : Sweep)
    → is_match d q (get_or s.entries i vacant) ≡ true
    → Swept d q (i ∷ is) s (s, some i)
found-Swept d q i is s m = record {
  width = refl;
  keeps = λ j h. h;
  misses = λ e. absurd (ground (arith, e));
  first = λ j e.
      let same : i ≡ j = ground (arith, e) in
      (inl same, subst (λ x. is_match d q (get_or s.entries x vacant) ≡ true) same m);
  chooses = inl refl;
}

-- The loop of the insertion, whatever the table and the window.
pub insert_scan-Swept :
    (d : Bytes) (q now : ℕ) (is : List ℕ) (s : Sweep) → Swept d q is s (insert_scan d q now is s)
unfolding insert_scan
insert_scan-Swept d q now [] s = nothing-Swept d q s
insert_scan-Swept d q now (i ∷ is) s =
    let slot = get_or s.entries i vacant in
    let o = older_at i slot.timestamp_ns s in
    let same = older_at-entries i slot.timestamp_ns s in
    if_elim (Swept d q (i ∷ is) s) (not slot.valid) _ _
      (λ v.
        goes_on d q i is s (target_at i s) _ refl (λ j h. h) (is_match-invalid d q slot v)
          (chosen-target_at i s) (insert_scan-Swept d q now is (target_at i s)))
      (λ _.
        if_elim (Swept d q (i ∷ is) s) (entry_expired now slot) _ _
          (λ _.
            goes_on d q i is s (target_at i (vacate_at i s)) _ (length-set s.entries i vacant)
              (λ j h. vacate-Misses d q i j s.entries h) (vacated d q i s.entries)
              (chosen-target_at i (vacate_at i s))
              (insert_scan-Swept d q now is (target_at i (vacate_at i s))))
          (λ _.
            if_elim (Swept d q (i ∷ is) s) (is_match d q slot) _ _ (λ m. found-Swept d q i is s m)
              (λ m.
                goes_on d q i is s o _ (ap length same)
                  (λ j h. subst (λ x. Misses d q x j) (sym same) h)
                  (subst (λ x. Misses d q x i) (sym same) m) (chosen-older_at i slot.timestamp_ns s)
                  (insert_scan-Swept d q now is o))))
