-- ===== src/Labels/Order.antt =====
-- The order of labels: `label_compare` is the lexicographic order of the bytes.
use nyet.Prelude.{
  ℕ, suc, ◌≡◌, refl, ap, ◌∙◌, Bool, true, false, [], ◌∷◌, arith, ◌==◌, if◌then◌else◌, Bytes, length,
}
use nyet.Labels.{Sign, less, same, greater, byte_sign, memcmp, min_len, by_length, label_compare}

-- the lexicographic order, a prefix first
unfoldable pub lex : Bytes → Bytes → Sign
lex [] [] = same
lex [] (y ∷ ys) = less
lex (x ∷ xs) [] = greater
lex (x ∷ xs) (y ∷ ys) = let rest = lex xs ys in if x == y then rest else byte_sign x y

min_len-suc : (a b : ℕ) → min_len (suc a) (suc b) ≡ suc (min_len a b)
min_len-suc a b = ground arith

by_length-suc : (a b : ℕ) (s : Sign) → by_length (suc a) (suc b) s ≡ by_length a b s
by_length-suc a b less = refl
by_length-suc a b greater = refl
by_length-suc a b same = ground arith

by_length-byte_sign :
    (a b x y : ℕ) → (x == y) ≡ false → by_length a b (byte_sign x y) ≡ byte_sign x y
by_length-byte_sign a b x y h = ground arith

label_compare_step :
    (x y : ℕ) (xs ys : Bytes)
    → label_compare (x ∷ xs) (y ∷ ys) ≡ (if x == y then label_compare xs ys else byte_sign x y)
unfolding label_compare memcmp
label_compare_step x y xs ys =
    let a = length xs in
    let b = length ys in
    ap (λ k. by_length (suc a) (suc b) (memcmp (x ∷ xs) (y ∷ ys) k)) (min_len-suc a b)
    ∙ by_length-suc a b (memcmp (x ∷ xs) (y ∷ ys) (suc (min_len a b)))
    ∙ last_step a b (x == y) refl
  where
    last_step :
        (a b : ℕ) (t : Bool)
        → (x == y) ≡ t
        → by_length a b (if t then memcmp xs ys (min_len a b) else byte_sign x y)
          ≡ (if t then by_length a b (memcmp xs ys (min_len a b)) else byte_sign x y)
    last_step a b true h = refl
    last_step a b false h = by_length-byte_sign a b x y h

-- `label_compare` with lengths and `memcmp` is that order
pub label_compare-lex : (a b : Bytes) → label_compare a b ≡ lex a b
unfolding label_compare lex memcmp
label_compare-lex [] [] = refl
label_compare-lex [] (y ∷ ys) = ground arith
label_compare-lex (x ∷ xs) [] = ground arith
label_compare-lex (x ∷ xs) (y ∷ ys) =
    label_compare_step x y xs ys ∙ rw (label_compare-lex xs ys) refl

pub lex-same : (a b : Bytes) → lex a b ≡ same → a ≡ b
unfolding lex
lex-same [] [] h = refl
lex-same [] (y ∷ ys) h = ground arith
lex-same (x ∷ xs) [] h = ground arith
lex-same (x ∷ xs) (y ∷ ys) h = ground (arith, lex-same xs ys)

pub lex_refl : (a : Bytes) → lex a a ≡ same
unfolding lex
lex_refl [] = refl
lex_refl (x ∷ xs) = ground (arith, lex_refl xs)

pub lex-less_asymm : (a b : Bytes) → lex a b ≡ less → lex b a ≡ greater
unfolding lex
lex-less_asymm [] [] h = ground arith
lex-less_asymm [] (y ∷ ys) h = refl
lex-less_asymm (x ∷ xs) [] h = ground arith
lex-less_asymm (x ∷ xs) (y ∷ ys) h = ground (arith, lex-less_asymm xs ys)

pub lex-greater_asymm : (a b : Bytes) → lex a b ≡ greater → lex b a ≡ less
unfolding lex
lex-greater_asymm [] [] h = ground arith
lex-greater_asymm [] (y ∷ ys) h = ground arith
lex-greater_asymm (x ∷ xs) [] h = refl
lex-greater_asymm (x ∷ xs) (y ∷ ys) h = ground (arith, lex-greater_asymm xs ys)

pub lex-less_trans : (a b c : Bytes) → lex a b ≡ less → lex b c ≡ less → lex a c ≡ less
unfolding lex
lex-less_trans [] [] [] g h = g
lex-less_trans [] (y ∷ ys) [] g h = ground arith
lex-less_trans [] b (z ∷ zs) g h = refl
lex-less_trans (x ∷ xs) [] c g h = ground arith
lex-less_trans (x ∷ xs) (y ∷ ys) [] g h = ground arith
lex-less_trans (x ∷ xs) (y ∷ ys) (z ∷ zs) g h =
    ground (arith, lex-less_trans xs ys zs, lex-same xs ys, lex-same ys zs)
