-- ===== src/Labels/Search.antt =====
-- `find_child`: the binary search over a sorted array and the linear scan over any other find the
-- same child.
use nyet.Prelude.{
  ℕ, zero, suc, ◌+◌, ◌-◌, ◌/◌, ◌≤◌, ◌<◌, ◌≡◌, refl, sym, ap, subst, ◌∙◌, ◌≢◌, ◌⊎◌, inl, inr, Bool,
  true, false, ◌&&◌, Option, none, some, List, [], ◌∷◌, arith, ltb, ◌==◌, if_elim, Bool-cases,
  Bytes, bytes_eq, bytes_eq_iff, ==_same, length, get_elem?, get_or,
}
use nyet.Labels.{Sign, less, same, greater, label_compare, search, scan, find_child, narrow}
use nyet.Labels.Order.{lex, label_compare-lex, lex-same, lex_refl, lex-less_asymm}

-- the labels ascend strictly
abbrev pub Ascending : List Bytes → Type 0
Ascending xs =
    (i j : ℕ) (x y : Bytes)
    → i < j
    → get_elem? xs i ≡ some x
    → get_elem? xs j ≡ some y
    → lex x y ≡ less

-- what a search of the places from `lo` below `hi` may answer
abbrev pub Answer : List Bytes → Bytes → ℕ → ℕ → Option ℕ → Type 0
Answer xs l lo hi none = (k : ℕ) → lo ≤ k → k < hi → get_elem? xs k ≢ some l
Answer xs l lo hi (some k) = get_elem? xs k ≡ some l

narrow_elim {ℓ} :
    (P : Option ℕ → Type ℓ) (s : Sign) (mid : ℕ) (left right : Option ℕ)
    → (s ≡ same → P (some mid))
    → (s ≡ less → P right)
    → (s ≡ greater → P left)
    → P (narrow s mid left right)
narrow_elim P less mid left right a b c = b refl
narrow_elim P same mid left right a b c = a refl
narrow_elim P greater mid left right a b c = c refl

get_or-get {ℓ} :
    {A : Type ℓ} (xs : List A) (i : ℕ) (d : A)
    → i < length xs
    → get_elem? xs i ≡ some (get_or xs i d)
get_or-get [] i d h = ground arith
get_or-get (x ∷ xs) zero d h = refl
get_or-get (x ∷ xs) (suc i) d h = get_or-get xs i d (omega arith)

-- a place on the wrong side of the candidate does not hold the label
below :
    (xs : List Bytes) (l c : Bytes) (mid k : ℕ)
    → Ascending xs
    → get_elem? xs mid ≡ some c
    → lex c l ≡ less
    → k ≤ mid
    → get_elem? xs k ≢ some l
below xs l c mid k asc at lt le e = elim (Bool-cases (ltb k mid)) [
  | inl b ↦
      let w : lex l c ≡ less = asc k mid l c (ground arith) e at in
      ground (arith, lex-less_asymm c l lt)
  | inr b ↦
      let same_place : k ≡ mid = ground arith in
      let u : get_elem? xs k ≡ some c = subst (λ z. get_elem? xs z ≡ some c) (sym same_place) at in
      ground (arith, lex_refl l)
]

above :
    (xs : List Bytes) (l c : Bytes) (mid k : ℕ)
    → Ascending xs
    → get_elem? xs mid ≡ some c
    → lex c l ≡ greater
    → mid ≤ k
    → get_elem? xs k ≢ some l
above xs l c mid k asc at gt le e = elim (Bool-cases (ltb mid k)) [
  | inl b ↦ let w : lex c l ≡ less = asc mid k c l (ground arith) at e in ground arith
  | inr b ↦
      let same_place : k ≡ mid = ground arith in
      let u : get_elem? xs k ≡ some c = subst (λ z. get_elem? xs z ≡ some c) (sym same_place) at in
      ground (arith, lex_refl l)
]

half : (lo hi : ℕ) → lo < hi → (lo ≤ lo + (hi - lo) / 2) × (lo + (hi - lo) / 2 < hi)
half lo hi h = omega arith

module _ (xs : List Bytes) (l : Bytes) (asc : Ascending xs) where
  widen_left :
      (lo mid hi : ℕ) (c : Bytes) (r : Option ℕ)
      → get_elem? xs mid ≡ some c
      → lex c l ≡ greater
      → Answer xs l lo mid r
      → Answer xs l lo hi r
  widen_left lo mid hi c none at gt h = λ k a b. elim (Bool-cases (ltb k mid)) [
    | inl t ↦ h k a (ground arith)
    | inr t ↦ above xs l c mid k asc at gt (ground arith)
  ]
  widen_left lo mid hi c (some k) at gt h = h

  widen_right :
      (lo mid hi : ℕ) (c : Bytes) (r : Option ℕ)
      → get_elem? xs mid ≡ some c
      → lex c l ≡ less
      → Answer xs l (mid + 1) hi r
      → Answer xs l lo hi r
  widen_right lo mid hi c none at lt h = λ k a b. elim (Bool-cases (ltb mid k)) [
    | inl t ↦ h k (ground arith) b
    | inr t ↦ below xs l c mid k asc at lt (ground arith)
  ]
  widen_right lo mid hi c (some k) at lt h = h

  -- enough fuel: one for each place
  pub search-Answer :
      (fuel lo hi : ℕ)
      → hi ≤ length xs
      → hi ≤ lo + fuel
      → Answer xs l lo hi (search fuel xs l lo hi)
  unfolding search
  search-Answer zero lo hi b f = λ k p q. ground arith
  search-Answer (suc fuel) lo hi b f =
      if_elim (Answer xs l lo hi) (ltb lo hi) _ _
        (λ t.
          let (p, q) = half lo hi (ground arith) in
          let at = get_or-get xs (lo + (hi - lo) / 2) [] (omega arith) in
          let order = label_compare-lex (get_or xs (lo + (hi - lo) / 2) []) l in
          narrow_elim (Answer xs l lo hi) (label_compare (get_or xs (lo + (hi - lo) / 2) []) l) _ _
            _ (λ e. at ∙ ap some (lex-same _ l (sym order ∙ e)))
            (λ e.
              widen_right lo (lo + (hi - lo) / 2) hi _ _ at (sym order ∙ e)
                (search-Answer fuel (lo + (hi - lo) / 2 + 1) hi b (omega arith)))
            (λ e.
              widen_left lo (lo + (hi - lo) / 2) hi _ _ at (sym order ∙ e)
                (search-Answer fuel lo (lo + (hi - lo) / 2) (omega arith) (omega arith))))
        (λ t k p q. ground arith)

same_bytes : (x l : Bytes) → (length x == length l && bytes_eq x l) ≡ bytes_eq x l
same_bytes x l = elim (Bool-cases (bytes_eq x l)) [
  | inl e ↦ rw (e, ==_same (length x) (length l) (ap length ((bytes_eq_iff x l).0 e))) refl
  | inr e ↦
      rw e (elim (Bool-cases (length x == length l)) [ inl f ↦ rw f refl | inr f ↦ rw f refl ])
]

plus_zero : (k : ℕ) → some (0 + k) ≡ some k
plus_zero k = ap some (omega arith)

shift : (i k : ℕ) → some (i + 1 + k) ≡ some (i + suc k)
shift i k = ap some (omega arith)

absent :
    (x l : Bytes) (xs : List Bytes)
    → bytes_eq x l ≡ false
    → Answer xs l 0 (length xs) none
    → Answer (x ∷ xs) l 0 (suc (length xs)) none
absent x l xs n h zero a b e = ground (arith, bytes_eq_iff x l)
absent x l xs n h (suc k) a b e = h k (omega arith) (omega arith) e

scan-Answer :
    (xs : List Bytes) (l : Bytes) (i : ℕ)
    → ((scan xs l i ≡ none) × Answer xs l 0 (length xs) none)
      ⊎ ((k : ℕ) × (scan xs l i ≡ some (i + k)) × (get_elem? xs k ≡ some l))
unfolding scan
scan-Answer [] l i = inl (refl, λ k a b. ground arith)
scan-Answer (x ∷ xs) l i = elim (Bool-cases (bytes_eq x l)) [
  | inl e ↦
      inr (0, rw (same_bytes x l, e) (ap some (omega arith)), ap some ((bytes_eq_iff x l).0 e))
  | inr e ↦ elim (scan-Answer xs l (i + 1)) [
    | inl (f, h) ↦ inl (rw (same_bytes x l, e) f, absent x l xs e h)
    | inr (k, f, h) ↦ inr (suc k, rw (same_bytes x l, e) (f ∙ shift i k), h)
  ]
]

-- The child that is found carries the label, and if none is found no child does: by the binary
-- search where the labels ascend, by the linear scan in any case.
pub find_child-Answer :
    (sorted : Bool) (xs : List Bytes) (l : Bytes)
    → (sorted ≡ true → Ascending xs)
    → Answer xs l 0 (length xs) (find_child sorted xs l)
unfolding find_child
find_child-Answer true xs l asc =
    search-Answer xs l (asc refl) (length xs) 0 (length xs) (omega arith) (omega arith)
find_child-Answer false xs l asc = elim (scan-Answer xs l 0) [
  | inl (e, h) ↦ rw e h
  | inr (k, e, h) ↦ rw (e ∙ plus_zero k) h
]
