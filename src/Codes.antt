-- ===== src/Codes.antt =====
-- src/nyet.c: the one-letter codes of a line of the blocklist, and the test that tells its ttl column
-- from its note.
pub mod RoundTrip
use nyet.Prelude.{
  ℕ, zero, suc, ◌+◌, ◌-◌, ◌*◌, ◌/◌, ◌%◌, ◌^◌, ◌≤◌, ◌<◌, ◌≡◌, refl, sym, ap, ap₂, subst, ◌∙◌, ◌≢◌,
  ◌↔◌, ◌⊎◌, inl, inr, Bool, true, false, not, ◌&&◌, ◌||◌, Option, none, some, List, [], ◌∷◌, ◌++◌,
  map, arith, ltb, leb, ◌==◌, if◌then◌else◌, if_elim, Bool-cases, Option-cases, Bytes, bytes_eq,
  bytes_eq_iff, bytes_eq_refl, ==_same, ==_other, length, length-append, All, take, drop,
  take_append_exact, drop_append_exact, set, get_elem?, get_or,
}
use nyet.RadixTree.{RadixStatus, allowed, blocked, review}

pub data EntrySource : Type 0 where
  source_manual source_static source_heuristic source_pi_gravity : EntrySource

-- 'B' and 'A'
abbrev pub parse_status : ℕ → RadixStatus
parse_status c = if c == 66 then blocked else if c == 65 then allowed else review

abbrev pub status_to_char : RadixStatus → ℕ
status_to_char blocked = 66
status_to_char allowed = 65
status_to_char review = 82

-- 'S', 'H' and 'G'
abbrev pub parse_source : ℕ → EntrySource
parse_source c =
    if c == 83
    then source_static
    else if c == 72
    then source_heuristic
    else if c == 71
    then source_pi_gravity
    else source_manual

abbrev pub source_to_char : EntrySource → ℕ
source_to_char source_static = 83
source_to_char source_heuristic = 72
source_to_char source_pi_gravity = 71
source_to_char source_manual = 77

-- isdigit of the "C" locale
abbrev pub isdigit : ℕ → Bool
isdigit c = leb 48 c && leb c 57

unfoldable pub digits_only : Bytes → Bool
digits_only [] = true
digits_only (c ∷ cs) = isdigit c && digits_only cs

-- a null pointer is none
unfoldable pub is_all_digits : Option Bytes → Bool
unfolding digits_only
is_all_digits none = false
is_all_digits (some []) = false
is_all_digits (some (c ∷ cs)) = digits_only (c ∷ cs)
