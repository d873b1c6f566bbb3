-- ===== src/LabelTests.antt =====
-- src/nyet.c, `is_hex_telemetry` and `is_suspicious_label`: the tests on one label that need no
-- list. Bytes are those before the terminator.
pub mod Hex
pub mod Entropy
use nyet.Prelude.Words.{u64_mod}
use nyet.Prelude.{
  ℕ, zero, suc, ◌+◌, ◌-◌, ◌*◌, ◌/◌, ◌%◌, ◌^◌, ◌≤◌, ◌<◌, ◌≡◌, refl, sym, ap, ap₂, subst, ◌∙◌, ◌≢◌,
  ◌↔◌, ◌⊎◌, inl, inr, Bool, true, false, not, ◌&&◌, ◌||◌, Option, none, some, List, [], ◌∷◌, ◌++◌,
  map, arith, ltb, leb, ◌==◌, if◌then◌else◌, if_elim, Bool-cases, Option-cases, Bytes, bytes_eq,
  bytes_eq_iff, bytes_eq_refl, ==_same, ==_other, length, length-append, All, take, drop,
  take_append_exact, drop_append_exact, set, get_elem?, get_or,
}

-- HEX_THRESHOLDS
abbrev pub hex_thresholds : List ℕ
hex_thresholds =
    0 ∷ 0 ∷ 1 ∷ 2 ∷ 3 ∷ 4 ∷ 5 ∷ 6 ∷ 7 ∷ 8 ∷ 9 ∷ 9 ∷ 10 ∷ 11 ∷ 12 ∷ 13 ∷ 14 ∷ 15 ∷ 16 ∷ 17 ∷ 18 ∷ 18
    ∷ 19 ∷ 20 ∷ 21 ∷ 22 ∷ 23 ∷ 24 ∷ 25 ∷ 26 ∷ 27 ∷ 27 ∷ 28 ∷ 29 ∷ 30 ∷ 31 ∷ 32 ∷ 33 ∷ 34 ∷ 35 ∷ 36
    ∷ 36 ∷ 37 ∷ 38 ∷ 39 ∷ 40 ∷ 41 ∷ 42 ∷ 43 ∷ 44 ∷ 45 ∷ 45 ∷ 46 ∷ 47 ∷ 48 ∷ 49 ∷ 50 ∷ 51 ∷ 52 ∷ 53
    ∷ 54 ∷ 54 ∷ 55 ∷ 56 ∷ 57 ∷ 58 ∷ 59 ∷ 60 ∷ 61 ∷ 62 ∷ 63 ∷ 63 ∷ 64 ∷ 65 ∷ 66 ∷ 67 ∷ 68 ∷ 69 ∷ 70
    ∷ 71 ∷ 72 ∷ 72 ∷ 73 ∷ 74 ∷ 75 ∷ 76 ∷ 77 ∷ 78 ∷ 79 ∷ 80 ∷ 81 ∷ 81 ∷ 82 ∷ 83 ∷ 84 ∷ 85 ∷ 86 ∷ 87
    ∷ 88 ∷ 89 ∷ 90 ∷ 90 ∷ 91 ∷ 92 ∷ 93 ∷ 94 ∷ 95 ∷ 96 ∷ 97 ∷ 98 ∷ 99 ∷ 99 ∷ 100 ∷ 101 ∷ 102 ∷ 103
    ∷ 104 ∷ 105 ∷ 106 ∷ 107 ∷ 108 ∷ 108 ∷ 109 ∷ 110 ∷ 111 ∷ 112 ∷ 113 ∷ 114 ∷ 115 ∷ 116 ∷ 117 ∷ 117
    ∷ 118 ∷ 119 ∷ 120 ∷ 121 ∷ 122 ∷ 123 ∷ 124 ∷ 125 ∷ 126 ∷ 126 ∷ 127 ∷ 128 ∷ 129 ∷ 130 ∷ 131 ∷ 132
    ∷ 133 ∷ 134 ∷ 135 ∷ 135 ∷ 136 ∷ 137 ∷ 138 ∷ 139 ∷ 140 ∷ 141 ∷ 142 ∷ 143 ∷ 144 ∷ 144 ∷ 145 ∷ 146
    ∷ 147 ∷ 148 ∷ 149 ∷ 150 ∷ 151 ∷ 152 ∷ 153 ∷ 153 ∷ 154 ∷ 155 ∷ 156 ∷ 157 ∷ 158 ∷ 159 ∷ 160 ∷ 161
    ∷ 162 ∷ 162 ∷ 163 ∷ 164 ∷ 165 ∷ 166 ∷ 167 ∷ 168 ∷ 169 ∷ 170 ∷ 171 ∷ 171 ∷ 172 ∷ 173 ∷ 174 ∷ 175
    ∷ 176 ∷ 177 ∷ 178 ∷ 179 ∷ 180 ∷ 180 ∷ 181 ∷ 182 ∷ 183 ∷ 184 ∷ 185 ∷ 186 ∷ 187 ∷ 188 ∷ 189 ∷ 189
    ∷ 190 ∷ 191 ∷ 192 ∷ 193 ∷ 194 ∷ 195 ∷ 196 ∷ 197 ∷ 198 ∷ 198 ∷ 199 ∷ 200 ∷ 201 ∷ 202 ∷ 203 ∷ 204
    ∷ 205 ∷ 206 ∷ 207 ∷ 207 ∷ 208 ∷ 209 ∷ 210 ∷ 211 ∷ 212 ∷ 213 ∷ 214 ∷ 215 ∷ 216 ∷ 216 ∷ 217 ∷ 218
    ∷ 219 ∷ 220 ∷ 221 ∷ 222 ∷ 223 ∷ 224 ∷ 225 ∷ 225 ∷ 226 ∷ 227 ∷ 228 ∷ 229 ∷ []

-- isxdigit
abbrev pub isxdigit : ℕ → Bool
isxdigit c = (leb 48 c && leb c 57) || (leb 65 c && leb c 70) || (leb 97 c && leb c 102)

unfoldable pub hex_digits : Bytes → ℕ
hex_digits [] = 0
hex_digits (c ∷ cs) = if isxdigit c then suc (hex_digits cs) else hex_digits cs

unfoldable pub is_hex_telemetry : Bytes → Bool
is_hex_telemetry label =
    ltb 30 (length label)
    && ltb (length label) 256
    && ltb (get_or hex_thresholds (length label) 0) (hex_digits label)

-- L_LOG2
abbrev pub l_log2 : List ℕ
l_log2 =
    0 ∷ 0 ∷ 1048576 ∷ 1661953 ∷ 2097152 ∷ 2434718 ∷ 2710529 ∷ 2943724 ∷ 3145728 ∷ 3323907 ∷ 3483294
    ∷ 3627476 ∷ 3759105 ∷ 3880192 ∷ 3992300 ∷ 4096671 ∷ 4194304 ∷ 4286015 ∷ 4372483 ∷ 4454274
    ∷ 4531870 ∷ 4605678 ∷ 4676052 ∷ 4743298 ∷ 4807681 ∷ 4869436 ∷ 4928768 ∷ 4985860 ∷ 5040876
    ∷ 5093962 ∷ 5145247 ∷ 5194851 ∷ 5242880 ∷ 5289430 ∷ 5334591 ∷ 5378443 ∷ 5421059 ∷ 5462507
    ∷ 5502850 ∷ 5542145 ∷ 5580446 ∷ 5617800 ∷ 5654254 ∷ 5689850 ∷ 5724628 ∷ 5758625 ∷ 5791874
    ∷ 5824408 ∷ 5856257 ∷ 5887449 ∷ 5918012 ∷ 5947969 ∷ 5977344 ∷ 6006159 ∷ 6034436 ∷ 6062195
    ∷ 6089452 ∷ 6116228 ∷ 6142538 ∷ 6168398 ∷ 6193823 ∷ 6218828 ∷ 6243427 ∷ 6267632 ∷ []

-- The bytes of `present` in order, each with its count in `freq`: one more byte.
unfoldable pub tally : List (ℕ × ℕ) → ℕ → List (ℕ × ℕ)
tally [] c = (c, 1) ∷ []
tally ((p, f) ∷ counts) c = if p == c then (p, suc f) ∷ counts else (p, f) ∷ tally counts c

unfoldable pub count : List (ℕ × ℕ) → Bytes → List (ℕ × ℕ)
count counts [] = counts
count counts (c ∷ cs) = count (tally counts c) cs

-- the accumulator; it stays far below 2^64 for labels below 63 bytes
unfoldable pub sum_f_log2 : List (ℕ × ℕ) → ℕ
sum_f_log2 [] = 0
sum_f_log2 ((p, f) ∷ counts) = f * get_or l_log2 f 0 + sum_f_log2 counts

-- in units of 2^-20 bit, the subtraction wrapping at 64 bits
abbrev pub entropy_scaled : ℕ → ℕ → ℕ
entropy_scaled len sum = (get_or l_log2 len 0 + u64_mod - sum / len) % u64_mod

unfoldable pub is_suspicious_label : Bytes → Bool
is_suspicious_label label =
    if ltb (length label) 12
    then false
    else if leb 63 (length label)
    then true
    else ltb 3670016 (entropy_scaled (length label) (sum_f_log2 (count [] label)))
