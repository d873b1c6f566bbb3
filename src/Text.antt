-- ===== src/Text.antt =====
-- What the program takes from the C library for text: printf's decimals, atoi and atoll, strtok_s and
-- fgets. A string is the list of its bytes; a file is the list of the bytes that are left of it.
pub mod Decimal
pub mod Tokens
use nyet.Prelude.Words.{u32_mod}
use nyet.Prelude.{
  ℕ, zero, suc, ◌+◌, ◌-◌, ◌*◌, ◌/◌, ◌%◌, ◌^◌, ◌≤◌, ◌<◌, ◌≡◌, refl, sym, ap, ap₂, subst, ◌∙◌, ◌≢◌,
  ◌↔◌, ◌⊎◌, inl, inr, Bool, true, false, not, ◌&&◌, ◌||◌, Option, none, some, List, [], ◌∷◌, ◌++◌,
  map, arith, ltb, leb, ◌==◌, if◌then◌else◌, if_elim, Bool-cases, Option-cases, Bytes, bytes_eq,
  bytes_eq_iff, bytes_eq_refl, ==_same, ==_other, length, length-append, All, take, drop,
  take_append_exact, drop_append_exact, set, get_elem?, get_or,
}
use nyet.Codes.{isdigit}

-- the digits of a number below 10 ^ k before `out`, for `k` of fuel
unfoldable pub digits : ℕ → ℕ → Bytes → Bytes
digits zero n out = out
digits (suc k) n out =
    let more = digits k (n / 10) ((b'0' + n % 10) ∷ out) in
    if ltb n 10 then (b'0' + n) ∷ out else more

-- %u, %lld and %zu of a number that is not negative; 20 digits hold every word of 64 bits
unfoldable pub decimal : ℕ → Bytes
unfolding digits
decimal n = digits 20 n []

-- the number that the digits at the start of a text continue
unfoldable pub value : ℕ → Bytes → ℕ
value n [] = n
value n (c ∷ cs) = let more = value (n * 10 + (c - b'0')) cs in if isdigit c then more else n

abbrev pub isspace : ℕ → Bool
isspace c = c == 32 || (leb 9 c && leb c 13)

-- (uint32_t)atoll(s) and (uint32_t)atoi(s), where the number fits the signed type
unfoldable pub atoi_u32 : Bytes → ℕ
unfolding value
atoi_u32 [] = 0
atoi_u32 (c ∷ cs) =
    let more = atoi_u32 cs in
    if isspace c
    then more
    else if c == b'-'
    then (u32_mod - value 0 cs % u32_mod) % u32_mod
    else if c == b'+'
    then value 0 cs % u32_mod
    else value 0 (c ∷ cs) % u32_mod

-- up to the first delimiter, and what follows it
unfoldable pub until : (ℕ → Bool) → Bytes → Bytes × Bytes
until is_delimiter [] = ([], [])
until is_delimiter (c ∷ cs) =
    let more = until is_delimiter cs in if is_delimiter c then ([], cs) else (c ∷ more.0, more.1)

-- strtok_s: the next token, past the delimiters before it, and the text that is left
unfoldable pub token : (ℕ → Bool) → Bytes → Option Bytes × Bytes
unfolding until
token is_delimiter [] = (none, [])
token is_delimiter (c ∷ cs) =
    let more = token is_delimiter cs in
    let here = until is_delimiter (c ∷ cs) in if is_delimiter c then more else (some here.0, here.1)

-- fgets: a line with its line feed, or `n` bytes of it, and what is left
unfoldable pub fgets : ℕ → Bytes → Bytes × Bytes
fgets zero file = ([], file)
fgets (suc n) [] = ([], [])
fgets (suc n) (c ∷ cs) =
    let more = fgets n cs in if c == b'\n' then (c ∷ [], cs) else (c ∷ more.0, more.1)
