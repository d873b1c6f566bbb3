-- ===== src/Blocklist/Reload.antt =====
-- The learned list as a file: what the proxy has added is what the next start loads.
use mathlib.Core.List.{append-nil}
use nyet.Prelude.{
  ℕ, zero, suc, ◌<◌, ◌≡◌, refl, sym, ap, ◌∙◌, Option, some, List, [], ◌∷◌, ◌++◌, arith, Bytes,
  length, length-append, All,
}
use nyet.RadixTree.{Node, Memory}
use nyet.Text.Tokens.{fgets-append}
use nyet.Blocklist.{line_size, add_row, load_lines, load_blocklist, learned_line, parse_line}
use nyet.Blocklist.Lines.{
  Learned, line_of, entry_for, file_of, IsLearned, insert_all, body, line-body, body-Lacks,
  length-body, not_cut, not_skipped,
}
use nyet.Blocklist.Learned.{parse_line-learned_line}

-- a round of the loop on a learned line
load_lines-line :
    (fuel now : ℕ) (memory : ℕ → Memory) (r : Learned) (rest : Bytes) (s : Option Node × ℕ)
    → IsLearned r
    → load_lines (suc fuel) now memory (line_of r ++ rest) s
      ≡ load_lines fuel now memory rest (add_row memory (some (r.domain, entry_for r)) s)
unfolding load_lines
load_lines-line fuel now memory r rest s i =
    let cut = fgets-append line_size (body r) rest (body-Lacks r i) (length-body r i) in
    let whole : parse_line now (body r ++ b'\n' ∷ []) ≡ some (r.domain, entry_for r) =
      ap (parse_line now) (sym (line-body r []) ∙ append-nil (line_of r))
      ∙ parse_line-learned_line now r.status r.source r.first_seen r.last_seen r.hit_count r.ttl
          r.domain i.named i.short i.printable i.fits in
    rw (line-body r rest, cut, not_skipped r.status, not_cut r, whole) refl

length-line_of : (r : Learned) → 0 < length (line_of r)
unfolding learned_line
length-line_of r = omega arith

load_lines-learned :
    (fuel now : ℕ) (memory : ℕ → Memory) (rs : List Learned) (s : Option Node × ℕ)
    → All IsLearned rs
    → length (file_of rs) < fuel
    → load_lines fuel now memory (file_of rs) s ≡ insert_all memory rs s
unfolding file_of insert_all
load_lines-learned zero now memory rs s a h = absurd (omega (arith, h))
load_lines-learned (suc fuel) now memory [] s a h = unfold load_lines in refl
load_lines-learned (suc fuel) now memory (r ∷ rs) s a h =
    load_lines-line fuel now memory r (file_of rs) s a.0
    ∙ load_lines-learned fuel now memory rs (add_row memory (some (r.domain, entry_for r)) s) a.1
        (omega (arith, h, length-append (line_of r) (file_of rs), length-line_of r))

-- A file of lines that were added to the learned list, for printable domains of 1 to 255 bytes and
-- numbers that fit their columns, loads as one insertion for each line in order, and the count of
-- the lines.
pub load_blocklist-learned :
    (builder : Option Node) (now : ℕ) (memory : ℕ → Memory) (rs : List Learned)
    → All IsLearned rs
    → load_blocklist builder (some (file_of rs)) now memory ≡ insert_all memory rs (builder, 0)
unfolding load_blocklist
load_blocklist-learned builder now memory rs a =
    load_lines-learned (suc (length (file_of rs))) now memory rs (builder, 0) a (omega arith)
