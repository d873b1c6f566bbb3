-- ===== src/AnswerCache/Kept.antt =====
-- The loop of the insertion keeps the map, and finds a slot that is free or a window that is full.
use nyet.Prelude.{
  ℕ, ◌<◌, ◌≡◌, refl, sym, ap, subst, ◌∙◌, inl, inr, true, false, not, Option, none, some, List, [],
  ◌∷◌, arith, ltb, if_elim, Bool-cases, Option-cases, Bytes, All, set, get_or,
}
use nyet.Prelude.Words.{u64_mod}
use nyet.AnswerCache.{
  Slot, Sweep, vacant, entry_expired, is_match, target_at, vacate_at, older_at, insert_scan,
}
use nyet.AnswerCache.Fresh.{get_or-set_ne, get_or-vacant, same_or}
use nyet.AnswerCache.Invariant.{IsMap, vacated-IsMap}

abbrev pub IsLive : List Slot → ℕ → Type 0
IsLive es i = (get_or es i vacant).valid ≡ true

abbrev pub IsFree : List Slot → ℕ → Type 0
IsFree es i = (get_or es i vacant).valid ≡ false

-- what a sweep has found so far, and what the loop adds to it
pub record IsSwept (capacity : ℕ) (s : Sweep) : Type 0 where
  pub table : IsMap s.entries capacity s.count
  pub free : (t : ℕ) → s.target_idx ≡ some t → IsFree s.entries t

pub record Scanned (capacity : ℕ) (is : List ℕ) (s : Sweep) (r : Sweep × Option ℕ) : Type 0 where
  pub swept : IsSwept capacity r.0
  pub target : (t : ℕ) → s.target_idx ≡ some t → r.0.target_idx ≡ some t
  pub still : r.0.target_idx ≡ none → r.0.entries ≡ s.entries
  pub full : r.1 ≡ none → r.0.target_idx ≡ none → All (IsLive r.0.entries) is
  pub hit : (i : ℕ) → r.1 ≡ some i → IsLive r.0.entries i

pub none_some : {A : Type 0} (o : Option ℕ) (t : ℕ) → o ≡ none → o ≡ some t → A
none_some o t a b = absurd (ground (arith, a, b))

-- a round that has a target after it
goes_on-target :
    (capacity i t : ℕ) (is : List ℕ) (s s' : Sweep) (r : Sweep × Option ℕ)
    → s'.target_idx ≡ some t
    → ((u : ℕ) → s.target_idx ≡ some u → s'.target_idx ≡ some u)
    → Scanned capacity is s' r
    → Scanned capacity (i ∷ is) s r
goes_on-target capacity i t is s s' r e k p = record {
  swept = p.swept;
  target = λ u h. p.target u (k u h);
  still = λ n. none_some r.0.target_idx t n (p.target t e);
  full = λ h n. none_some r.0.target_idx t n (p.target t e);
  hit = p.hit;
}

-- a round that passes a live slot
goes_on-live :
    (capacity i : ℕ) (is : List ℕ) (s s' : Sweep) (r : Sweep × Option ℕ)
    → s'.entries ≡ s.entries
    → s'.target_idx ≡ s.target_idx
    → IsLive s.entries i
    → Scanned capacity is s' r
    → Scanned capacity (i ∷ is) s r
goes_on-live capacity i is s s' r e f l p = record {
  swept = p.swept;
  target = λ t h. p.target t (f ∙ h);
  still = λ n. p.still n ∙ e;
  full = λ h n. (subst (λ x. IsLive x i) (sym (p.still n ∙ e)) l, p.full h n);
  hit = p.hit;
}

IsFree-vacate : (es : List Slot) (i t : ℕ) → IsFree es t → IsFree (set es i vacant) t
IsFree-vacate es i t f = elim (same_or i t) [
  | inl e ↦ subst (IsFree (set es i vacant)) e (ap Slot.valid (get_or-vacant es i))
  | inr n ↦ rw (get_or-set_ne es i t vacant n) f
]

target_at-some : (i : ℕ) (s : Sweep) → (t : ℕ) × ((target_at i s).target_idx ≡ some t)
target_at-some i s = elim (Option-cases s.target_idx) [
  | inl e ↦ (i, rw e refl)
  | inr (t, e) ↦ (t, rw e refl)
]

target_at-target :
    (i u : ℕ) (s : Sweep) → s.target_idx ≡ some u → (target_at i s).target_idx ≡ some u
target_at-target i u s e = rw e refl

target_at-IsSwept :
    (capacity i : ℕ) (s : Sweep)
    → IsFree s.entries i
    → IsSwept capacity s
    → IsSwept capacity (target_at i s)
target_at-IsSwept capacity i s f p = record {
  table = p.table;
  free = λ t e. elim (Option-cases s.target_idx) [
    | inl n ↦ subst (IsFree s.entries) (ground (arith, n, e)) f
    | inr (u, n) ↦ p.free t (ground (arith, n, e))
  ];
}

vacate_at-IsSwept :
    (capacity i : ℕ) (s : Sweep)
    → capacity < u64_mod
    → IsLive s.entries i
    → IsSwept capacity s
    → IsSwept capacity (vacate_at i s)
vacate_at-IsSwept capacity i s w l p = record {
  table = vacated-IsMap s.entries capacity s.count i w l p.table;
  free = λ t e. IsFree-vacate s.entries i t (p.free t e);
}

older_at-same :
    (i t : ℕ) (s : Sweep)
    → ((older_at i t s).entries ≡ s.entries)
      × ((older_at i t s).target_idx ≡ s.target_idx)
      × ((older_at i t s).count ≡ s.count)
older_at-same i t s = elim (Bool-cases (ltb t s.oldest_time)) [
  | inl b ↦ rw b (refl, refl, refl)
  | inr b ↦ rw b (refl, refl, refl)
]

older_at-IsSwept :
    (capacity i t : ℕ) (s : Sweep) → IsSwept capacity s → IsSwept capacity (older_at i t s)
older_at-IsSwept capacity i t s p =
    if_elim (IsSwept capacity) (ltb t s.oldest_time) (record s { oldest_time = t; oldest_idx = i })
      s (λ _. record { table = p.table; free = p.free }) (λ _. p)

pub insert_scan-Scanned :
    (d : Bytes) (q now capacity : ℕ) (is : List ℕ) (s : Sweep)
    → capacity < u64_mod
    → IsSwept capacity s
    → Scanned capacity is s (insert_scan d q now is s)
unfolding insert_scan
insert_scan-Scanned d q now capacity [] s w p = record {
  swept = p;
  target = λ t e. e;
  still = λ e. refl;
  full = λ e n. tt;
  hit = λ i e. absurd (ground (arith, e));
}
insert_scan-Scanned d q now capacity (i ∷ is) s w p =
    let slot = get_or s.entries i vacant in
    let o = older_at i slot.timestamp_ns s in
    let same = older_at-same i slot.timestamp_ns s in
    if_elim (Scanned capacity (i ∷ is) s) (not slot.valid) _ _
      (λ v.
        let free : slot.valid ≡ false = ground (arith, v) in
        let (t, e) = target_at-some i s in
        goes_on-target capacity i t is s (target_at i s) _ e (λ u h. target_at-target i u s h)
          (insert_scan-Scanned d q now capacity is (target_at i s) w
            (target_at-IsSwept capacity i s free p)))
      (λ v.
        let l : slot.valid ≡ true = ground (arith, v) in
        if_elim (Scanned capacity (i ∷ is) s) (entry_expired now slot) _ _
          (λ _.
            let s' = vacate_at i s in
            let (t, e) = target_at-some i s' in
            goes_on-target capacity i t is s (target_at i s') _ e (λ u h. target_at-target i u s' h)
              (insert_scan-Scanned d q now capacity is (target_at i s') w (
                target_at-IsSwept capacity i s' (ap Slot.valid (get_or-vacant s.entries i))
                  (vacate_at-IsSwept capacity i s w l p))))
          (λ _.
            if_elim (Scanned capacity (i ∷ is) s) (is_match d q slot) _ _
              (λ m. record {
                swept = p;
                target = λ t e. e;
                still = λ e. refl;
                full = λ e n. absurd (ground (arith, e));
                hit = λ j e. subst (IsLive s.entries) (ground (arith, e)) l;
              })
              (λ m. goes_on-live capacity i is s o _ same.0 same.1 l (
                insert_scan-Scanned d q now capacity is o w
                  (older_at-IsSwept capacity i slot.timestamp_ns s p)))))
