-- ===== src/PiQuery.antt =====
-- src/nyet.c, the parts of the question to the Pi that are not calls of WinHTTP: the escapes of
-- `query_pi_gravity` and the reading of its response (`json_array_nonempty`).
pub mod Encoding
use nyet.Prelude.{
  ℕ, zero, suc, ◌+◌, ◌-◌, ◌*◌, ◌/◌, ◌%◌, ◌^◌, ◌≤◌, ◌<◌, ◌≡◌, refl, sym, ap, ap₂, subst, ◌∙◌, ◌≢◌,
  ◌↔◌, ◌⊎◌, inl, inr, Bool, true, false, not, ◌&&◌, ◌||◌, Option, none, some, List, [], ◌∷◌, ◌++◌,
  map, arith, ltb, leb, ◌==◌, if◌then◌else◌, if_elim, Bool-cases, Option-cases, Bytes, bytes_eq,
  bytes_eq_iff, bytes_eq_refl, ==_same, ==_other, length, length-append, All, take, drop,
  take_append_exact, drop_append_exact, set, get_elem?, get_or,
}
use nyet.LogField.{hex_digit}

-- / ? # % \ and what is not a printable byte of ASCII
abbrev pub is_escaped : ℕ → Bool
is_escaped c = c == b'/' || c == b'?' || c == b'#' || c == b'%' || c == 92 || ltb c 32 || ltb 126 c

-- sizeof(encoded_domain), MAX_DOMAIN_LEN * 3
abbrev pub encoded_size : ℕ
encoded_size = 768

-- the loop, with `enc_len` bytes in place: the bytes it adds
unfoldable pub encode : ℕ → Bytes → Bytes
encode enc_len [] = []
encode enc_len (c ∷ cs) =
    let three = encode (enc_len + 3) cs in
    let one = encode (enc_len + 1) cs in
    if leb encoded_size (enc_len + 4)
    then []
    else if is_escaped c
    then b'%' ∷ hex_digit (c / 16) ∷ hex_digit (c % 16) ∷ three
    else c ∷ one

unfoldable pub encoded_domain : Bytes → Bytes
unfolding encode
encoded_domain domain = encode 0 domain

-- the text past a prefix
unfoldable pub past : Bytes → Bytes → Option Bytes
past [] text = some text
past (n ∷ needle) [] = none
past (n ∷ needle) (c ∷ text) = let more = past needle text in if n == c then more else none

-- strstr, and the text past what it finds
unfoldable pub after_needle : Bytes → Bytes → Option Bytes
unfolding past
after_needle needle [] = past needle []
after_needle needle (c ∷ text) =
    let more = after_needle needle text in
    elim (past needle (c ∷ text)) [ none ↦ more | some rest ↦ some rest ]

unfoldable pub skip_spaces : Bytes → Bytes
skip_spaces [] = []
skip_spaces (c ∷ text) = let more = skip_spaces text in if c == b' ' then more else c ∷ text

-- past the bracket: the end of the string is not a closing bracket
abbrev pub has_element : Bytes → Bool
has_element [] = true
has_element (c ∷ text) = not (c == b']')

abbrev pub opens_nonempty : Bytes → Bool
opens_nonempty [] = false
opens_nonempty (c ∷ text) = c == b'[' && has_element (skip_spaces text)

abbrev pub found_nonempty : Option Bytes → Bool
found_nonempty none = false
found_nonempty (some rest) = opens_nonempty (skip_spaces rest)

unfoldable pub json_array_nonempty : Bytes → Bytes → Bool
unfolding after_needle skip_spaces
json_array_nonempty json key = found_nonempty (after_needle (b'"' ∷ (key ++ b'"' ∷ b':' ∷ [])) json)

-- "domains" and "gravity"
abbrev pub domains_key : Bytes
domains_key = b'd' ∷ b'o' ∷ b'm' ∷ b'a' ∷ b'i' ∷ b'n' ∷ b's' ∷ []

abbrev pub gravity_key : Bytes
gravity_key = b'g' ∷ b'r' ∷ b'a' ∷ b'v' ∷ b'i' ∷ b't' ∷ b'y' ∷ []

-- whether the response lists the domain
unfoldable pub is_listed : Bytes → Bool
unfolding json_array_nonempty
is_listed response =
    json_array_nonempty response domains_key || json_array_nonempty response gravity_key
