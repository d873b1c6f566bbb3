-- ===== src/Blocklist/Lines.antt =====
-- The lines of `append_learned_entry`, byte by byte.
use mathlib.Core.List.{append_assoc}
use nyet.Prelude.{
  ℕ, ◌+◌, ◌≤◌, ◌<◌, ◌≡◌, refl, sym, ap, subst, ◌∙◌, Bool, true, false, not, ◌&&◌, Option, some,
  List, [], ◌∷◌, ◌++◌, arith, ◌==◌, Bytes, length, length-append, All, All-append, All-map,
}
use nyet.RadixTree.{allowed, blocked, review, Node, RadixEntry, RadixStatus, Memory}
use nyet.Codes.{
  source_static, source_heuristic, source_manual, source_pi_gravity, EntrySource, status_to_char,
  source_to_char, isdigit,
}
use nyet.LogField.{sanitize_log_field}
use nyet.LogField.Safe.{IsPrintable, sanitize_log_field-safe}
use nyet.Text.{digits}
use nyet.Text.Tokens.{Lacks}
use nyet.Blocklist.{
  is_skipped, is_cut, line_size, add_row, learned_line, pi_gravity_confirmed, max_domain_len,
  ends_line,
}
use nyet.Blocklist.Learned.{FitsColumns, learned_entry}
use nyet.Text.Decimal.{digits-append, length-digits_le, All-digits}

-- an entry that `append_learned_entry` was called with
pub record Learned : Type 0 where
  pub status : RadixStatus
  pub source : EntrySource
  pub first_seen : ℕ
  pub last_seen : ℕ
  pub hit_count : ℕ
  pub ttl : ℕ
  pub domain : Bytes

abbrev pub line_of : Learned → Bytes
line_of r = learned_line r.status r.source r.first_seen r.last_seen r.hit_count r.ttl r.domain

abbrev pub entry_for : Learned → RadixEntry
entry_for r = learned_entry r.status r.source r.last_seen r.hit_count r.ttl

-- the file that they leave
unfoldable pub file_of : List Learned → Bytes
file_of [] = []
file_of (r ∷ rs) = line_of r ++ file_of rs

pub record IsLearned (r : Learned) : Type 0 where
  pub named : 0 < length r.domain
  pub short : length r.domain < 256
  pub printable : All IsPrintable r.domain
  pub fits : FitsColumns r.last_seen r.hit_count r.ttl

-- the tree with an insertion for each of them
unfoldable pub insert_all : (ℕ → Memory) → List Learned → Option Node × ℕ → Option Node × ℕ
insert_all memory [] s = s
insert_all memory (r ∷ rs) s =
    insert_all memory rs (add_row memory (some (r.domain, entry_for r)) s)

-- a number, a tab and what follows
abbrev num : ℕ → Bytes → Bytes
num n rest = digits 20 n (b'\t' ∷ rest)

num-append : (n : ℕ) (xs out : Bytes) → num n xs ++ out ≡ num n (xs ++ out)
num-append n xs out = sym (digits-append 20 n (b'\t' ∷ xs) out)

abbrev numbers : Learned → Bytes → Bytes
numbers r rest = num r.first_seen (num r.last_seen (num r.hit_count (num r.ttl rest)))

numbers-append : (r : Learned) (xs out : Bytes) → numbers r xs ++ out ≡ numbers r (xs ++ out)
numbers-append r xs out =
    num-append r.first_seen _ out
    ∙ ap (num r.first_seen) (
        num-append r.last_seen _ out
        ∙ ap (num r.last_seen)
            (num-append r.hit_count _ out ∙ ap (num r.hit_count) (num-append r.ttl xs out)))

-- a line without its line feed
abbrev pub body : Learned → Bytes
body r =
    status_to_char r.status
    ∷ b'\t'
    ∷ (sanitize_log_field r.domain max_domain_len
        ++ b'\t' ∷ source_to_char r.source ∷ b'\t' ∷ numbers r pi_gravity_confirmed)

pub line-body : (r : Learned) (rest : Bytes) → line_of r ++ rest ≡ body r ++ b'\n' ∷ rest
unfolding learned_line
line-body r rest =
    ap (λ x. status_to_char r.status ∷ b'\t' ∷ x)
      (append_assoc (sanitize_log_field r.domain max_domain_len) _ rest
        ∙ ap
            (λ x.
              sanitize_log_field r.domain max_domain_len
              ++ b'\t' ∷ source_to_char r.source ∷ b'\t' ∷ x)
            (numbers-append r (pi_gravity_confirmed ++ b'\n' ∷ []) rest
              ∙ sym (numbers-append r pi_gravity_confirmed (b'\n' ∷ rest)))
        ∙ sym (append_assoc (sanitize_log_field r.domain max_domain_len) _ (b'\n' ∷ rest)))

abbrev is_feed : ℕ → Bool
is_feed c = c == b'\n'

digit-feed : (c : ℕ) → isdigit c ≡ true → is_feed c ≡ false
digit-feed c h = ground (arith, h)

printable-feed : (c : ℕ) → IsPrintable c → is_feed c ≡ false
printable-feed c h = ground (arith, h)

num-Lacks : (n : ℕ) (xs : Bytes) → Lacks is_feed xs → Lacks is_feed (num n xs)
num-Lacks n xs a = subst (Lacks is_feed) (sym (digits-append 20 n [] (b'\t' ∷ xs))) (
    All-append (λ c. is_feed c ≡ false) (digits 20 n []) (b'\t' ∷ xs)
      (All-map (λ c. isdigit c ≡ true) (λ c. is_feed c ≡ false) digit-feed (digits 20 n [])
        (All-digits 20 n [] tt))
      (refl, a))

numbers-Lacks : (r : Learned) (xs : Bytes) → Lacks is_feed xs → Lacks is_feed (numbers r xs)
numbers-Lacks r xs a =
    num-Lacks r.first_seen _
      (num-Lacks r.last_seen _ (num-Lacks r.hit_count _ (num-Lacks r.ttl xs a)))

status_to_char-feed : (s : RadixStatus) → is_feed (status_to_char s) ≡ false
status_to_char-feed allowed = refl
status_to_char-feed blocked = refl
status_to_char-feed review = refl

source_to_char-feed : (s : EntrySource) → is_feed (source_to_char s) ≡ false
source_to_char-feed source_static = refl
source_to_char-feed source_heuristic = refl
source_to_char-feed source_manual = refl
source_to_char-feed source_pi_gravity = refl

confirmed-Lacks : Lacks is_feed pi_gravity_confirmed
confirmed-Lacks =
    All-map IsPrintable (λ c. is_feed c ≡ false) printable-feed pi_gravity_confirmed (omega arith)

same_domain : (r : Learned) → IsLearned r → sanitize_log_field r.domain max_domain_len ≡ r.domain
same_domain r i =
    (sanitize_log_field-safe r.domain max_domain_len (omega arith)
        (All-map IsPrintable (λ c. c < 256) (λ c q. omega (arith, q.1)) r.domain i.printable)).2
      i.printable i.short

pub body-Lacks : (r : Learned) → IsLearned r → Lacks is_feed (body r)
body-Lacks r i = (
  status_to_char-feed r.status,
  (
    refl,
    subst
        (λ x.
          Lacks is_feed
            (x ++ b'\t' ∷ source_to_char r.source ∷ b'\t' ∷ numbers r pi_gravity_confirmed))
        (sym (same_domain r i))
        (All-append (λ c. is_feed c ≡ false) r.domain _
          (All-map IsPrintable (λ c. is_feed c ≡ false) printable-feed r.domain i.printable)
          (
            refl,
            (
              source_to_char-feed r.source,
              (refl, numbers-Lacks r pi_gravity_confirmed confirmed-Lacks),
            ),
          )),
  ),
)

length-num : (n : ℕ) (xs : Bytes) → length (num n xs) ≤ 21 + length xs
length-num n xs = omega (arith, length-digits_le 20 n (b'\t' ∷ xs))

pub length-body : (r : Learned) → IsLearned r → length (body r) < line_size
length-body r i =
    let same : length (sanitize_log_field r.domain max_domain_len) ≡ length r.domain =
      ap length (same_domain r i) in
    let rest = numbers r pi_gravity_confirmed in
    let a =
      length-append (sanitize_log_field r.domain max_domain_len)
        (b'\t' ∷ source_to_char r.source ∷ b'\t' ∷ rest) in
    let n1 = length-num r.ttl pi_gravity_confirmed in
    let n2 = length-num r.hit_count (num r.ttl pi_gravity_confirmed) in
    let n3 = length-num r.last_seen (num r.hit_count (num r.ttl pi_gravity_confirmed)) in
    let n4 =
      length-num r.first_seen
        (num r.last_seen (num r.hit_count (num r.ttl pi_gravity_confirmed))) in
    omega (arith, same, a, n1, n2, n3, n4, i.short)

ends_line-feed : (xs : Bytes) → ends_line (xs ++ b'\n' ∷ []) ≡ true
unfolding ends_line
ends_line-feed [] = refl
ends_line-feed (x ∷ []) = refl
ends_line-feed (x ∷ y ∷ xs) = ends_line-feed (y ∷ xs)

and_false : (b : Bool) → b && not true ≡ false
and_false true = refl
and_false false = refl

pub not_cut : (r : Learned) → is_cut (body r ++ b'\n' ∷ []) ≡ false
not_cut r = rw (ends_line-feed (body r)) (and_false (length (body r ++ b'\n' ∷ []) == line_size))

pub not_skipped : (s : RadixStatus) (xs : Bytes) → is_skipped (status_to_char s ∷ xs) ≡ false
not_skipped allowed xs = refl
not_skipped blocked xs = refl
not_skipped review xs = refl
