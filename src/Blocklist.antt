-- ===== src/Blocklist.antt =====
-- src/nyet.c: `load_blocklist`, which reads a file of tab-separated lines into a tree that is being built,
-- and the lines that `append_learned_entry` and `flag_for_review` add to files. The file's bytes are
-- given; `now` is the time since DNS_EPOCH.
pub mod Learned
pub mod Lines
pub mod Reload
use nyet.Prelude.{
  ℕ, zero, suc, ◌+◌, ◌-◌, ◌*◌, ◌/◌, ◌%◌, ◌^◌, ◌≤◌, ◌<◌, ◌≡◌, refl, sym, ap, ap₂, subst, ◌∙◌, ◌≢◌,
  ◌↔◌, ◌⊎◌, inl, inr, Bool, true, false, not, ◌&&◌, ◌||◌, Option, none, some, List, [], ◌∷◌, ◌++◌,
  map, arith, ltb, leb, ◌==◌, if◌then◌else◌, if_elim, Bool-cases, Option-cases, Bytes, bytes_eq,
  bytes_eq_iff, bytes_eq_refl, ==_same, ==_other, length, length-append, All, take, drop,
  take_append_exact, drop_append_exact, set, get_elem?, get_or,
}
use nyet.LogField.{sanitize_log_field}
use nyet.RadixTree.{Node, RadixEntry, RadixStatus, Memory, radix_insert}
use nyet.Codes.{
  EntrySource, source_static, source_heuristic, source_manual, source_pi_gravity, parse_status,
  status_to_char, parse_source, source_to_char, is_all_digits,
}
use nyet.Text.{decimal, digits, atoi_u32, token, fgets}

abbrev pub is_tab : ℕ → Bool
is_tab c = c == b'\t'

abbrev pub is_line_end : ℕ → Bool
is_line_end c = c == b'\r' || c == b'\n'

-- the value of an enumerator
abbrev pub source_value : EntrySource → ℕ
source_value source_static = 0
source_value source_heuristic = 1
source_value source_manual = 2
source_value source_pi_gravity = 3

-- the first byte of a token, which is not empty
abbrev pub first_byte : Bytes → ℕ
first_byte [] = 0
first_byte (c ∷ cs) = c

-- ttl_s and note_s, from the next token and the text after it
unfoldable pub ttl_and_note : Option Bytes × Bytes → Option Bytes × Option Bytes
unfolding is_all_digits token
ttl_and_note (none, rest) = (none, none)
ttl_and_note (some field, rest) =
    let note_rest = (token is_line_end rest).0 in
    if is_all_digits (some field) then (some field, note_rest) else (
      none,
      elim note_rest [ some note ↦ some (take 511 (field ++ b'\t' ∷ note)) | none ↦ some field ],
    )

abbrev pub or_else {ℓ} : {A : Type ℓ} → Option Bytes → (Bytes → A) → A → A
or_else none f a = a
or_else (some s) f a = f s

abbrev pub non_empty : Option Bytes → Option Bytes
non_empty none = none
non_empty (some []) = none
non_empty (some (c ∷ cs)) = some (c ∷ cs)

-- the columns that the loop has taken from a line: ttl_s and note_s last
unfoldable pub read_entry :
    ℕ
    → Bytes
    → Option Bytes
    → Option Bytes
    → Option Bytes
    → Option Bytes × Option Bytes
    → RadixEntry
unfolding atoi_u32
read_entry now status_s source_s last_s hits_s (ttl_s, note_s) = record {
  status = parse_status (first_byte status_s);
  ttl = or_else ttl_s atoi_u32 0;
  hit_count = or_else hits_s atoi_u32 0;
  last_seen = or_else last_s atoi_u32 now;
  source = source_value (or_else source_s (λ s. parse_source (first_byte s)) source_static);
  ml_score = 0;
  note = non_empty note_s;
}

abbrev pub row :
    ℕ
    → Option Bytes
    → Option Bytes
    → Option Bytes
    → Option Bytes
    → Option Bytes
    → Option Bytes × Option Bytes
    → Option (Bytes × RadixEntry)
row now (some status_s) (some domain_s) source_s last_s hits_s rest =
    some (domain_s, read_entry now status_s source_s last_s hits_s rest)
row now status_s domain_s source_s last_s hits_s rest = none

-- a line's domain and entry; first_seen is read and dropped
unfoldable pub parse_line : ℕ → Bytes → Option (Bytes × RadixEntry)
unfolding token ttl_and_note read_entry
parse_line now line =
    let status = token is_tab line in
    let domain = token is_tab status.1 in
    let source = token is_tab domain.1 in
    let first = token is_tab source.1 in
    let last = token is_tab first.1 in
    let hits = token is_tab last.1 in
    row now status.0 domain.0 source.0 last.0 hits.0 (ttl_and_note (token is_tab hits.1))

abbrev pub is_skipped : Bytes → Bool
is_skipped [] = false
is_skipped (c ∷ cs) = c == b'#' || c == b'\n' || c == b'\r'

-- the rest of a line that was cut
unfoldable pub skip_line : Bytes → Bytes
skip_line [] = []
skip_line (c ∷ cs) = let more = skip_line cs in if c == b'\n' then cs else more

unfoldable pub ends_line : Bytes → Bool
ends_line [] = false
ends_line (c ∷ []) = c == b'\n'
ends_line (c ∷ d ∷ cs) = ends_line (d ∷ cs)

-- the size of `line`, less the terminator
abbrev pub line_size : ℕ
line_size = 1023

-- whether a line fills the buffer without its end
abbrev pub is_cut : Bytes → Bool
is_cut line = length line == line_size && not (ends_line line)

-- The tree and the count; `memory` gives the outcomes of the allocations of each insertion.
abbrev pub add_row : (ℕ → Memory) → Option (Bytes × RadixEntry) → Option Node × ℕ → Option Node × ℕ
add_row memory none s = s
add_row memory (some (domain, entry)) (builder, loaded) =
    ((radix_insert builder domain entry (memory loaded)).1, loaded + 1)

-- The loop, on fuel: a round takes a byte at least.
unfoldable pub load_lines : ℕ → ℕ → (ℕ → Memory) → Bytes → Option Node × ℕ → Option Node × ℕ
unfolding fgets parse_line skip_line ends_line
load_lines zero now memory file s = s
load_lines (suc fuel) now memory [] s = s
load_lines (suc fuel) now memory (c ∷ cs) s =
    let (line, rest) = fgets line_size (c ∷ cs) in
    load_lines fuel now memory
      (if is_skipped line then rest else if is_cut line then skip_line rest else rest)
      (if is_skipped line
        then s
        else if is_cut line
        then s
        else add_row memory (parse_line now line) s)

-- `none` for a file that cannot be opened
unfoldable pub load_blocklist : Option Node → Option Bytes → ℕ → (ℕ → Memory) → Option Node × ℕ
unfolding load_lines
load_blocklist builder none now memory = (builder, 0)
load_blocklist builder (some file) now memory =
    load_lines (suc (length file)) now memory file (builder, 0)

abbrev pub max_domain_len : ℕ
max_domain_len = 256

-- "pi_gravity_confirmed"
abbrev pub pi_gravity_confirmed : Bytes
pi_gravity_confirmed =
    b'p' ∷ b'i' ∷ b'_' ∷ b'g' ∷ b'r' ∷ b'a' ∷ b'v' ∷ b'i' ∷ b't' ∷ b'y' ∷ b'_' ∷ b'c' ∷ b'o' ∷ b'n'
    ∷ b'f' ∷ b'i' ∷ b'r' ∷ b'm' ∷ b'e' ∷ b'd' ∷ []

-- the line of `append_learned_entry`
unfoldable pub learned_line : RadixStatus → EntrySource → ℕ → ℕ → ℕ → ℕ → Bytes → Bytes
unfolding digits sanitize_log_field
learned_line status source first_seen last_seen hit_count ttl domain =
    status_to_char status
    ∷ b'\t'
    ∷ (sanitize_log_field domain max_domain_len
        ++ b'\t'
          ∷ source_to_char source
          ∷ b'\t'
          ∷ digits 20 first_seen (
              b'\t'
              ∷ digits 20 last_seen (
                  b'\t'
                  ∷ digits 20 hit_count
                      (b'\t' ∷ digits 20 ttl (b'\t' ∷ (pi_gravity_confirmed ++ b'\n' ∷ []))))))

-- "heuristic"
abbrev pub heuristic : Bytes
heuristic = b'h' ∷ b'e' ∷ b'u' ∷ b'r' ∷ b'i' ∷ b's' ∷ b't' ∷ b'i' ∷ b'c' ∷ []

-- the line of `flag_for_review`
unfoldable pub review_line : ℕ → Bytes → Bytes → Bytes
unfolding digits sanitize_log_field
review_line now domain reason =
    b'R'
    ∷ b'E'
    ∷ b'V'
    ∷ b'I'
    ∷ b'E'
    ∷ b'W'
    ∷ b'\t'
    ∷ (sanitize_log_field domain max_domain_len
        ++ b'\t'
          ∷ (heuristic
              ++ b'\t'
                ∷ digits 20 now
                    (b'\t' ∷ digits 20 now (b'\t' ∷ b'1' ∷ b'\t' ∷ (reason ++ b'\n' ∷ [])))))
