-- ===== src/LogField/Safe.antt =====
-- A sanitized field stays in its buffer and in its column.
use nyet.Prelude.{
  ℕ, ◌+◌, ◌/◌, ◌%◌, ◌≤◌, ◌<◌, ◌≡◌, refl, Bool, true, false, [], ◌∷◌, arith, leb, ◌==◌,
  if◌then◌else◌, Bytes, length, All,
}
use nyet.LogField.{isprint, hex_digit, sanitize, sanitize_log_field}

sanitize-length : (n w : ℕ) (cs : Bytes) → w < n → w + length (sanitize n w cs) < n
unfolding sanitize
sanitize-length n w [] h = omega arith
sanitize-length n w (c ∷ cs) h = ground (
  arith,
  sanitize-length n (w + 1) cs,
  sanitize-length n (w + 2) cs,
  sanitize-length n (w + 4) cs,
)

abbrev pub IsPrintable : ℕ → Type 0
IsPrintable c = (32 ≤ c) × (c ≤ 126)

hex_digit-IsPrintable : (d : ℕ) → d < 16 → IsPrintable (hex_digit d)
hex_digit-IsPrintable d h = ground arith

choose :
    (b : Bool) (xs ys : Bytes)
    → (b ≡ true → All IsPrintable xs)
    → (b ≡ false → All IsPrintable ys)
    → All IsPrintable (if b then xs else ys)
choose true xs ys f g = f refl
choose false xs ys f g = g refl

isprint-IsPrintable : (c : ℕ) → isprint c ≡ true → IsPrintable c
isprint-IsPrintable c h = ground arith

-- a two byte escape
escape :
    (n w k : ℕ) (xs : Bytes)
    → IsPrintable k
    → All IsPrintable xs
    → All IsPrintable (if leb n w then [] else 92 ∷ k ∷ xs)
escape n w k xs p a =
    choose (leb n w) [] (92 ∷ k ∷ xs) (λ _. tt) (λ _. ((omega arith, omega arith), (p, a)))

-- a byte in hexadecimal
hexadecimal :
    (n w c : ℕ) (xs : Bytes)
    → c < 256
    → All IsPrintable xs
    → All IsPrintable
        (if leb n w then [] else 92 ∷ 120 ∷ hex_digit (c / 16) ∷ hex_digit (c % 16) ∷ xs)
hexadecimal n w c xs h a =
    choose (leb n w) [] (92 ∷ 120 ∷ hex_digit (c / 16) ∷ hex_digit (c % 16) ∷ xs) (λ _. tt)
      (λ _. (
        (omega arith, omega arith),
        (
          (omega arith, omega arith),
          (
            hex_digit-IsPrintable (c / 16) (omega arith),
            (hex_digit-IsPrintable (c % 16) (omega arith), a),
          ),
        ),
      ))

sanitize-IsPrintable :
    (n w : ℕ) (cs : Bytes) → All (λ c. c < 256) cs → All IsPrintable (sanitize n w cs)
unfolding sanitize
sanitize-IsPrintable n w [] a = tt
sanitize-IsPrintable n w (c ∷ cs) a =
    let two = sanitize-IsPrintable n (w + 2) cs a.1 in
    let one = sanitize-IsPrintable n (w + 1) cs a.1 in
    let four = sanitize-IsPrintable n (w + 4) cs a.1 in
    let nl = escape n (w + 2) 110 (sanitize n (w + 2) cs) (omega arith, omega arith) two in
    let cr = escape n (w + 2) 114 (sanitize n (w + 2) cs) (omega arith, omega arith) two in
    let tab = escape n (w + 2) 116 (sanitize n (w + 2) cs) (omega arith, omega arith) two in
    let hex = hexadecimal n (w + 4) c (sanitize n (w + 4) cs) a.0 four in
    choose (leb n (w + 1)) _ _ (λ _. tt)
      (λ _.
        choose (c == 10) _ _ (λ _. nl)
          (λ _.
            choose (c == 13) _ _ (λ _. cr)
              (λ _.
                choose (c == 9) _ _ (λ _. tab)
                  (λ _. choose (isprint c) _ _ (λ p. (isprint-IsPrintable c p, one)) (λ _. hex)))))

sanitize-same :
    (n w : ℕ) (cs : Bytes) → All IsPrintable cs → w + length cs < n → sanitize n w cs ≡ cs
unfolding sanitize
sanitize-same n w [] a h = refl
sanitize-same n w (c ∷ cs) a h = ground (arith, a.0, sanitize-same n (w + 1) cs a.1)

-- For a buffer that is not empty, a sanitized field fits it with its terminator, and every byte of
-- it is printable, so that it holds no tab and no line break; a field that is printable already and
-- fits is unchanged.
pub sanitize_log_field-safe :
    (field : Bytes) (out_size : ℕ)
    → 0 < out_size
    → All (λ c. c < 256) field
    → (length (sanitize_log_field field out_size) < out_size)
      × All IsPrintable (sanitize_log_field field out_size)
      × (All IsPrintable field
          → length field < out_size
          → sanitize_log_field field out_size ≡ field)
unfolding sanitize_log_field
sanitize_log_field-safe field out_size h a = (
  omega (arith, sanitize-length out_size 0 field h),
  sanitize-IsPrintable out_size 0 field a,
  λ p f. sanitize-same out_size 0 field p (omega arith),
)
