-- ===== src/LogField.antt =====
-- src/nyet.c, `sanitize_log_field`: a field of a tab-separated log line, from bytes that came over
-- the wire. `isprint` is that of the "C" locale.
pub mod Safe
use nyet.Prelude.{
  ℕ, zero, suc, ◌+◌, ◌-◌, ◌*◌, ◌/◌, ◌%◌, ◌^◌, ◌≤◌, ◌<◌, ◌≡◌, refl, sym, ap, ap₂, subst, ◌∙◌, ◌≢◌,
  ◌↔◌, ◌⊎◌, inl, inr, Bool, true, false, not, ◌&&◌, ◌||◌, Option, none, some, List, [], ◌∷◌, ◌++◌,
  map, arith, ltb, leb, ◌==◌, if◌then◌else◌, if_elim, Bool-cases, Option-cases, Bytes, bytes_eq,
  bytes_eq_iff, bytes_eq_refl, ==_same, ==_other, length, length-append, All, take, drop,
  take_append_exact, drop_append_exact, set, get_elem?, get_or,
}

abbrev pub isprint : ℕ → Bool
isprint c = leb 32 c && leb c 126

-- a digit of %02X
abbrev pub hex_digit : ℕ → ℕ
hex_digit d = if ltb d 10 then 48 + d else 55 + d

-- The loop, with `written` bytes of `out_size` in place: the bytes it adds. A backslash is 92.
unfoldable pub sanitize : ℕ → ℕ → Bytes → Bytes
sanitize out_size written [] = []
sanitize out_size written (c ∷ cs) =
    let two = sanitize out_size (written + 2) cs in
    let one = sanitize out_size (written + 1) cs in
    let four = sanitize out_size (written + 4) cs in
    if leb out_size (written + 1)
    then []
    else if c == 10
    then (if leb out_size (written + 2) then [] else 92 ∷ 110 ∷ two)
    else if c == 13
    then (if leb out_size (written + 2) then [] else 92 ∷ 114 ∷ two)
    else if c == 9
    then (if leb out_size (written + 2) then [] else 92 ∷ 116 ∷ two)
    else if isprint c
    then c ∷ one
    else if leb out_size (written + 4)
    then []
    else 92 ∷ 120 ∷ hex_digit (c / 16) ∷ hex_digit (c % 16) ∷ four

unfoldable pub sanitize_log_field : Bytes → ℕ → Bytes
unfolding sanitize
sanitize_log_field field out_size = sanitize out_size 0 field
