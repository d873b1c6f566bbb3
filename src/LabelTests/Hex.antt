-- ===== src/LabelTests/Hex.antt =====
-- The thresholds of `is_hex_telemetry` are nine tenths of the length.
use nyet.Prelude.{
  ℕ, zero, suc, ◌+◌, ◌*◌, ◌/◌, ◌<◌, ◌≡◌, refl, ap, ◌∙◌, ◌↔◌, Bool, true, ◌&&◌, List, [], ◌∷◌, arith,
  ltb, ◌==◌, Bytes, length, get_or,
}
use nyet.LabelTests.{hex_thresholds, hex_digits, is_hex_telemetry}

-- whether a table from index i on holds nine tenths of each index
unfoldable are_nine_tenths : ℕ → List ℕ → Bool
are_nine_tenths i [] = true
are_nine_tenths i (t ∷ ts) = (t == 9 * i / 10) && are_nine_tenths (suc i) ts

hex_thresholds-checked : are_nine_tenths 0 hex_thresholds ≡ true
unfolding are_nine_tenths
hex_thresholds-checked = refl

get_or-nine_tenths :
    (i k : ℕ) (ts : List ℕ)
    → are_nine_tenths i ts ≡ true
    → k < length ts
    → get_or ts k 0 ≡ 9 * (i + k) / 10
unfolding are_nine_tenths
get_or-nine_tenths i k [] h l = absurd (omega (arith, l))
get_or-nine_tenths i zero (t ∷ ts) h l = ground arith
get_or-nine_tenths i (suc k) (t ∷ ts) h l =
    let tail : are_nine_tenths (suc i) ts ≡ true = ground arith in
    get_or-nine_tenths (suc i) k ts tail (omega (arith, l)) ∙ ap (λ x. 9 * x / 10) (omega arith)

threshold : (n : ℕ) → n < 256 → get_or hex_thresholds n 0 ≡ 9 * n / 10
threshold n h =
    get_or-nine_tenths 0 n hex_thresholds hex_thresholds-checked h
    ∙ ap (λ x. 9 * x / 10) (omega arith)

over :
    (n k t : ℕ)
    → (n < 256 → t ≡ 9 * n / 10)
    → ((ltb 30 n && ltb n 256 && ltb t k) ≡ true) ↔ ((30 < n) × (n < 256) × (9 * n < 10 * k))
over n k t h = (
  λ e. let short : n < 256 = ground arith in (ground arith, short, ground (arith, h short)),
  λ e. ground (arith, h e.1, e),
)

-- A label is taken for telemetry exactly when it has from 31 to 255 bytes and more than nine tenths
-- of them are hexadecimal digits.
pub is_hex_telemetry-share :
    (label : Bytes)
    → (is_hex_telemetry label ≡ true)
      ↔ ((30 < length label) × (length label < 256) × (9 * length label < 10 * hex_digits label))
unfolding is_hex_telemetry
is_hex_telemetry-share label =
    over (length label) (hex_digits label) (get_or hex_thresholds (length label) 0)
      (threshold (length label))
