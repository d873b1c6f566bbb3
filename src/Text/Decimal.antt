-- ===== src/Text/Decimal.antt =====
-- A printed number is read back.
use native.Mathlib.Nat.{mul_assoc}
use nyet.Prelude.{
  ℕ, zero, suc, ◌+◌, ◌*◌, ◌/◌, ◌%◌, ◌<◌, ◌≡◌, refl, ap, ◌∙◌, inl, inr, true, false, [], ◌∷◌, ◌++◌,
  arith, ltb, if◌then◌else◌, Bool-cases, Bytes, length, All, ◌≤◌,
}
use nyet.Prelude.Words.{u32_mod, u64_mod}
use nyet.Codes.{isdigit}
use nyet.Text.{digits, value, atoi_u32}

unfoldable pow10 : ℕ → ℕ
pow10 zero = 1
pow10 (suc k) = 10 * pow10 k

-- what the digits of `n` multiply a number by that they continue
unfoldable shift : ℕ → ℕ → ℕ
shift zero n = 1
shift (suc k) n = let more = shift k (n / 10) in if ltb n 10 then 10 else 10 * more

value-digit :
    (acc d : ℕ) (out : Bytes) → d < 10 → value acc ((b'0' + d) ∷ out) ≡ value (acc * 10 + d) out
unfolding value
value-digit acc d out h = ground (arith, h)

moved : (acc s n : ℕ) → (acc * s + n / 10) * 10 + n % 10 ≡ acc * (10 * s) + n
moved acc s n =
    let a : (acc * s) * 10 ≡ acc * (10 * s) =
      mul_assoc acc s 10 ∙ ap (λ x. acc * x) (omega arith) in
    omega (arith, a)

value-digits :
    (k n acc : ℕ) (out : Bytes)
    → n < pow10 k
    → value acc (digits k n out) ≡ value (acc * shift k n + n) out
unfolding digits shift pow10
value-digits zero n acc out h = ap (λ x. value x out) (omega arith)
value-digits (suc k) n acc out h = elim (Bool-cases (ltb n 10)) [
  | inl e ↦ rw e (value-digit acc n out (ground (arith, e)))
  | inr e ↦ rw e (
      value-digits k (n / 10) acc ((b'0' + n % 10) ∷ out) (omega (arith, h))
      ∙ value-digit (acc * shift k (n / 10) + n / 10) (n % 10) out (omega arith)
      ∙ ap (λ x. value x out) (moved acc (shift k (n / 10)) n))
]

value-decimal : (n : ℕ) (out : Bytes) → n < u64_mod → value 0 (digits 20 n out) ≡ value n out
value-decimal n out h =
    value-digits 20 n 0 out (unfold pow10 in omega (arith, h)) ∙ ap (λ x. value x out) (omega arith)

-- the end of a number
abbrev pub Stops : Bytes → Type 0
Stops [] = Unit
Stops (c ∷ cs) = isdigit c ≡ false

value-Stops : (n : ℕ) (out : Bytes) → Stops out → value n out ≡ n
unfolding value
value-Stops n [] h = refl
value-Stops n (c ∷ cs) h = rw h refl

-- a digit comes first
abbrev StartsWithDigit : Bytes → Type 0
StartsWithDigit [] = ⊥
StartsWithDigit (c ∷ cs) = isdigit c ≡ true

digits-StartsWithDigit : (k n : ℕ) (out : Bytes) → StartsWithDigit (digits (suc k) n out)
unfolding digits
digits-StartsWithDigit zero n out = ground arith
digits-StartsWithDigit (suc k) n out = elim (Bool-cases (ltb n 10)) [
  | inl e ↦ rw e (ground (arith, e))
  | inr e ↦ rw e (digits-StartsWithDigit k (n / 10) ((b'0' + n % 10) ∷ out))
]

atoi_u32-value : (s : Bytes) → StartsWithDigit s → atoi_u32 s ≡ value 0 s % u32_mod
unfolding atoi_u32
atoi_u32-value [] h = absurd h
atoi_u32-value (c ∷ cs) h = ground (arith, h)

-- A number of 32 bits that is printed, and then followed by no digit, is read back.
pub atoi_u32-digits :
    (n : ℕ) (out : Bytes) → n < u32_mod → Stops out → atoi_u32 (digits 20 n out) ≡ n
atoi_u32-digits n out h s =
    atoi_u32-value (digits 20 n out) (digits-StartsWithDigit 19 n out)
    ∙ ap (λ x. x % u32_mod) (value-decimal n out (omega (arith, h)) ∙ value-Stops n out s)
    ∙ omega (arith, h)

pub digits-append : (k n : ℕ) (xs out : Bytes) → digits k n (xs ++ out) ≡ digits k n xs ++ out
unfolding digits
digits-append zero n xs out = refl
digits-append (suc k) n xs out = elim (Bool-cases (ltb n 10)) [
  | inl e ↦ rw e refl
  | inr e ↦ rw e (digits-append k (n / 10) ((b'0' + n % 10) ∷ xs) out)
]

pub All-digits :
    (k n : ℕ) (out : Bytes)
    → All (λ c. isdigit c ≡ true) out
    → All (λ c. isdigit c ≡ true) (digits k n out)
unfolding digits
All-digits zero n out a = a
All-digits (suc k) n out a = elim (Bool-cases (ltb n 10)) [
  | inl e ↦ rw e (ground (arith, e), a)
  | inr e ↦ rw e (All-digits k (n / 10) ((b'0' + n % 10) ∷ out) (ground arith, a))
]

pub length-digits : (k n : ℕ) (out : Bytes) → 0 < length (digits (suc k) n out)
unfolding digits
length-digits zero n out = ground arith
length-digits (suc k) n out = elim (Bool-cases (ltb n 10)) [
  | inl e ↦ rw e (omega arith)
  | inr e ↦ rw e (length-digits k (n / 10) ((b'0' + n % 10) ∷ out))
]

pub length-digits_le : (k n : ℕ) (out : Bytes) → length (digits k n out) ≤ k + length out
unfolding digits
length-digits_le zero n out = omega arith
length-digits_le (suc k) n out = elim (Bool-cases (ltb n 10)) [
  | inl e ↦ rw e (omega arith)
  | inr e ↦ rw e (omega (arith, length-digits_le k (n / 10) ((b'0' + n % 10) ∷ out)))
]
