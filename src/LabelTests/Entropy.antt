-- ===== src/LabelTests/Entropy.antt =====
-- src/nyet.c, `is_suspicious_label`: the entropy of a label, in units of 2^-20 bit.
use nyet.Prelude.{
  ℕ, zero, suc, ◌+◌, ◌-◌, ◌*◌, ◌/◌, ◌%◌, ◌≤◌, ◌<◌, ◌≡◌, refl, sym, subst, ◌∙◌, ◌↔◌, Bool, true,
  false, ◌&&◌, List, [], ◌∷◌, arith, ltb, leb, if◌then◌else◌, Bytes, length, get_or,
}
use native.Mathlib.Nat.{mul-le-mul_left, div-le_of_le-mul, div-lt_iff_lt-mul, add-mul}
use nyet.Prelude.Words.{u64_mod}
use nyet.LabelTests.{l_log2, tally, count, sum_f_log2, is_suspicious_label}

unfoldable total : List (ℕ × ℕ) → ℕ
total [] = 0
total ((p, f) ∷ counts) = f + total counts

total-tally : (counts : List (ℕ × ℕ)) (c : ℕ) → total (tally counts c) ≡ suc (total counts)
unfolding tally total
total-tally [] c = refl
total-tally ((p, f) ∷ counts) c = ground (arith, total-tally counts c)

total-count :
    (counts : List (ℕ × ℕ)) (cs : Bytes) → total (count counts cs) ≡ total counts + length cs
unfolding count
total-count counts [] = omega arith
total-count counts (c ∷ cs) = omega (arith, total-count (tally counts c) cs, total-tally counts c)

total-label : (label : Bytes) → total (count [] label) ≡ length label
unfolding total
total-label label = omega (arith, total-count [] label)

-- whether a table never falls, from a value before it on
unfoldable rises : ℕ → List ℕ → Bool
rises v [] = true
rises v (x ∷ xs) = leb v x && rises x xs

rises-first : (v k : ℕ) (xs : List ℕ) → rises v xs ≡ true → k < length xs → v ≤ get_or xs k 0
unfolding rises
rises-first v k [] h l = absurd (omega (arith, l))
rises-first v zero (x ∷ xs) h l = ground arith
rises-first v (suc k) (x ∷ xs) h l =
    let tail : rises x xs ≡ true = ground arith in
    ground (arith, rises-first x k xs tail (omega (arith, l)))

rises_le :
    (v j k : ℕ) (xs : List ℕ)
    → rises v xs ≡ true
    → j ≤ k
    → k < length xs
    → get_or xs j 0 ≤ get_or xs k 0
unfolding rises
rises_le v j k [] h m l = absurd (omega (arith, l))
rises_le v zero zero (x ∷ xs) h m l = omega arith
rises_le v zero (suc k) (x ∷ xs) h m l = rises-first x k xs (ground arith) (omega (arith, l))
rises_le v (suc j) zero (x ∷ xs) h m l = absurd (omega (arith, m))
rises_le v (suc j) (suc k) (x ∷ xs) h m l =
    rises_le x j k xs (ground arith) (omega (arith, m)) (omega (arith, l))

l_log2-rises : rises 0 l_log2 ≡ true
unfolding rises
l_log2-rises = refl

log_le : (j k : ℕ) → j ≤ k → k < 64 → get_or l_log2 j 0 ≤ get_or l_log2 k 0
log_le j k m l = rises_le 0 j k l_log2 l_log2-rises m l

-- the sum is at most that of equal terms
sum_f_log2_le :
    (n : ℕ) (counts : List (ℕ × ℕ))
    → n < 64
    → total counts ≤ n
    → sum_f_log2 counts ≤ total counts * get_or l_log2 n 0
unfolding sum_f_log2 total
sum_f_log2_le n [] b h = omega arith
sum_f_log2_le n ((p, f) ∷ counts) b h =
    let log = get_or l_log2 n 0 in
    let here = mul-le-mul_left f (log_le f n (omega (arith, h)) b) in
    let rest = sum_f_log2_le n counts b (omega (arith, h)) in
    subst (λ x. f * get_or l_log2 f 0 + sum_f_log2 counts ≤ x) (sym (add-mul f (total counts) log))
      (omega (arith, here, rest))

-- the threshold, without the division
threshold :
    (n s log : ℕ)
    → 0 < n
    → log < u64_mod
    → 3670016 ≤ log
    → s ≤ n * log
    → (ltb 3670016 ((log + u64_mod - s / n) % u64_mod) ≡ true) ↔ (s < (log - 3670016) * n)
threshold n s log h w k b =
    let q : s / n ≤ log = div-le_of_le-mul n b in
    let d = div-lt_iff_lt-mul {k = n} {x = s} {y = log - 3670016} h in
    (λ e. d.0 (ground (arith, q)), λ e. ground (arith, q, d.1 e))

log_bounds :
    (n : ℕ) → 12 ≤ n → n < 64 → (3759105 ≤ get_or l_log2 n 0) × (get_or l_log2 n 0 ≤ 6267632)
log_bounds n h l = (log_le 12 n h l, log_le n 63 (omega arith) (omega arith))

judged :
    (n : ℕ) (b : Bool)
    → 12 ≤ n
    → n < 63
    → (if ltb n 12 then false else if leb 63 n then true else b) ≡ b
judged n b h l = ground arith

-- For a label of 12 to 62 bytes, the subtraction that gives the entropy does not wrap, and the label
-- is suspicious exactly when the sum of the terms f * log2 f is below what an entropy of 3.5 bits
-- leaves: the rounding of the division makes no difference.
pub is_suspicious_label-entropy :
    (label : Bytes)
    → 12 ≤ length label
    → length label < 63
    → (sum_f_log2 (count [] label) / length label ≤ get_or l_log2 (length label) 0)
      × ((is_suspicious_label label ≡ true) ↔ (
          sum_f_log2 (count [] label) < (get_or l_log2 (length label) 0 - 3670016) * length label))
unfolding is_suspicious_label
is_suspicious_label-entropy label h l =
    let n = length label in
    let log = log_bounds n h (omega (arith, l)) in
    let same : total (count [] label) ≡ n = total-label label in
    let b =
      subst (λ x. sum_f_log2 (count [] label) ≤ x * get_or l_log2 n 0) same
        (sum_f_log2_le n (count [] label) (omega (arith, l)) (omega (arith, same))) in
    let t =
      threshold n (sum_f_log2 (count [] label)) (get_or l_log2 n 0) (omega (arith, h))
        (omega (arith, log.1)) (omega (arith, log.0)) b in
    (div-le_of_le-mul n b, (λ e. t.0 (sym (judged n _ h l) ∙ e), λ e. judged n _ h l ∙ t.1 e))
