-- ===== src/LogLine/Lines.antt =====
-- The lines of the query log as a script reads them back.
use mathlib.Core.List.{append_assoc}
use nyet.Prelude.{
  ℕ, zero, suc, ◌≤◌, ◌<◌, ◌≡◌, refl, sym, ap, subst, ◌∙◌, ◌≢◌, true, List, [], ◌∷◌, ◌++◌, arith,
  ◌==◌, if◌then◌else◌, Bytes, ==_other, length, All, take, All-map, All-append,
}
use nyet.Text.{decimal, digits}
use nyet.Codes.{isdigit}
use nyet.Verdict.{MatchSource, match_hash_exact, match_hash_suffix, match_heuristic, match_none}
use nyet.LogLine.{
  QueryResult, result_blocked, result_allowed, result_review, result_forwarded, result_cached,
  result_error, LogEntry, log_text, safe_ip, safe_domain, reason_text, result_char, source_char,
  log_entry,
}
use nyet.LogField.Safe.{IsPrintable, sanitize_log_field-safe}
use nyet.Text.Decimal.{All-digits}

abbrev pub push : ℕ → List Bytes → List Bytes
push c [] = (c ∷ []) ∷ []
push c (x ∷ xs) = (c ∷ x) ∷ xs

-- the first line, cut at its tabs, and what follows it
unfoldable pub read_line : Bytes → List Bytes × Bytes
read_line [] = ([] ∷ [], [])
read_line (c ∷ cs) =
    let more = read_line cs in
    if c == b'\n'
    then ([] ∷ [], cs)
    else if c == b'\t'
    then ([] ∷ more.0, more.1)
    else (push c more.0, more.1)

abbrev IsCellByte : ℕ → Type 0
IsCellByte c = (c ≢ b'\n') × (c ≢ b'\t')

-- the eight columns of an entry
abbrev pub columns : LogEntry → List Bytes
columns e =
    decimal e.epoch
    ∷ safe_ip e
    ∷ safe_domain e
    ∷ decimal e.qtype
    ∷ (result_char e.result ∷ [])
    ∷ (source_char e.source ∷ [])
    ∷ reason_text e.reason
    ∷ decimal e.latency_us
    ∷ []

-- cells with tabs between them, and a text after the last
unfoldable join_then : Bytes → List Bytes → Bytes → Bytes
join_then x [] z = x ++ z
join_then x (y ∷ ys) z = x ++ b'\t' ∷ join_then y ys z

join_then-append :
    (x : Bytes) (ys : List Bytes) (z rest : Bytes)
    → join_then x ys z ++ rest ≡ join_then x ys (z ++ rest)
unfolding join_then
join_then-append x [] z rest = append_assoc x z rest
join_then-append x (y ∷ ys) z rest =
    append_assoc x (b'\t' ∷ join_then y ys z) rest
    ∙ ap (λ t. x ++ b'\t' ∷ t) (join_then-append y ys z rest)

read_line-last :
    (x rest : Bytes) → All IsCellByte x → read_line (x ++ b'\n' ∷ rest) ≡ (x ∷ [], rest)
unfolding read_line
read_line-last [] rest a = refl
read_line-last (c ∷ x) rest (b, a) =
    rw (==_other c b'\n' b.0, ==_other c b'\t' b.1, read_line-last x rest a) refl

read_line-cell :
    (x t : Bytes)
    → All IsCellByte x
    → read_line (x ++ b'\t' ∷ t) ≡ (x ∷ (read_line t).0, (read_line t).1)
unfolding read_line
read_line-cell [] t a = refl
read_line-cell (c ∷ x) t (b, a) =
    rw (==_other c b'\n' b.0, ==_other c b'\t' b.1, read_line-cell x t a) refl

read_line-join_then :
    (x : Bytes) (ys : List Bytes) (rest : Bytes)
    → All (All IsCellByte) (x ∷ ys)
    → read_line (join_then x ys (b'\n' ∷ rest)) ≡ (x ∷ ys, rest)
unfolding join_then
read_line-join_then x [] rest (a, b) = read_line-last x rest a
read_line-join_then x (y ∷ ys) rest (a, b) =
    read_line-cell x (join_then y ys (b'\n' ∷ rest)) a
    ∙ ap (λ (r : List Bytes × Bytes). (x ∷ r.0, r.1)) (read_line-join_then y ys rest b)

log_text-columns :
    (e : LogEntry)
    → log_text e
      ≡ join_then
          (decimal e.epoch)
          (safe_ip e
            ∷ safe_domain e
            ∷ decimal e.qtype
            ∷ (result_char e.result ∷ [])
            ∷ (source_char e.source ∷ [])
            ∷ reason_text e.reason
            ∷ decimal e.latency_us
            ∷ [])
          (b'\n' ∷ [])
unfolding log_text join_then
log_text-columns e = refl

IsPrintable-cell : (xs : Bytes) → All IsPrintable xs → All IsCellByte xs
IsPrintable-cell xs a =
    All-map IsPrintable IsCellByte
      (λ c p. ((λ e. ground (arith, p, e)), (λ e. ground (arith, p, e)))) xs a

isdigit-cell : (xs : Bytes) → All (λ c. isdigit c ≡ true) xs → All IsCellByte xs
isdigit-cell xs a =
    All-map (λ c. isdigit c ≡ true) IsCellByte
      (λ c p. ((λ e. ground (arith, p, e)), (λ e. ground (arith, p, e)))) xs a

decimal-cell : (n : ℕ) → All IsCellByte (decimal n)
unfolding decimal
decimal-cell n = isdigit-cell (digits 20 n []) (All-digits 20 n [] tt)

result_char-cell : (r : QueryResult) → All IsCellByte (result_char r ∷ [])
result_char-cell result_blocked = IsPrintable-cell (b'B' ∷ []) ((ground arith, ground arith), tt)
result_char-cell result_allowed = IsPrintable-cell (b'A' ∷ []) ((ground arith, ground arith), tt)
result_char-cell result_review = IsPrintable-cell (b'R' ∷ []) ((ground arith, ground arith), tt)
result_char-cell result_forwarded = IsPrintable-cell (b'F' ∷ []) ((ground arith, ground arith), tt)
result_char-cell result_cached = IsPrintable-cell (b'C' ∷ []) ((ground arith, ground arith), tt)
result_char-cell result_error = IsPrintable-cell (b'E' ∷ []) ((ground arith, ground arith), tt)

source_char-cell : (r : MatchSource) → All IsCellByte (source_char r ∷ [])
source_char-cell match_hash_exact = IsPrintable-cell (b'e' ∷ []) ((ground arith, ground arith), tt)
source_char-cell match_hash_suffix = IsPrintable-cell (b's' ∷ []) ((ground arith, ground arith), tt)
source_char-cell match_heuristic = IsPrintable-cell (b'h' ∷ []) ((ground arith, ground arith), tt)
source_char-cell match_none = IsPrintable-cell (b'n' ∷ []) ((ground arith, ground arith), tt)

-- the bytes of the C strings, and a reason that is printable
abbrev pub HasText : LogEntry → Type 0
HasText e =
    All (λ c. c < 256) e.client_ip
    × All (λ c. c < 256) e.domain
    × All IsPrintable (reason_text e.reason)

columns-cells : (e : LogEntry) → HasText e → All (All IsCellByte) (columns e)
columns-cells e (ip, domain, reason) = (
  decimal-cell e.epoch,
  (
    IsPrintable-cell (safe_ip e) (sanitize_log_field-safe e.client_ip 44 (ground arith) ip).1,
    (
      IsPrintable-cell (safe_domain e)
          (sanitize_log_field-safe e.domain 256 (ground arith) domain).1,
      (
        decimal-cell e.qtype,
        (
          result_char-cell e.result,
          (
            source_char-cell e.source,
            (IsPrintable-cell (reason_text e.reason) reason, (decimal-cell e.latency_us, tt)),
          ),
        ),
      ),
    ),
  ),
)

take_whole : (n : ℕ) (xs : Bytes) → length xs ≤ n → take n xs ≡ xs
take_whole zero [] h = refl
take_whole zero (x ∷ xs) h = absurd (ground (arith, h))
take_whole (suc n) [] h = refl
take_whole (suc n) (x ∷ xs) h = ap (λ t. x ∷ t) (take_whole n xs (ground (arith, h)))

All-take_end :
    (P : ℕ → Type 0) (n : ℕ) (xs : Bytes) (y : ℕ)
    → All P xs
    → n < length (xs ++ y ∷ [])
    → All P (take n (xs ++ y ∷ []))
All-take_end P zero xs y a h = tt
All-take_end P (suc n) [] y a h = absurd (ground (arith, h))
All-take_end P (suc n) (x ∷ xs) y (b, a) h = (b, All-take_end P n xs y a (ground (arith, h)))

join_then-one_line :
    (x : Bytes) (ys : List Bytes)
    → All (All IsCellByte) (x ∷ ys)
    → All (λ c. c ≢ b'\n') (join_then x ys [])
unfolding join_then
join_then-one_line x [] (a, b) =
    All-append (λ c. c ≢ b'\n') x [] (All-map IsCellByte (λ c. c ≢ b'\n') (λ c p. p.0) x a) tt
join_then-one_line x (y ∷ ys) (a, b) =
    All-append (λ c. c ≢ b'\n') x (b'\t' ∷ join_then y ys [])
      (All-map IsCellByte (λ c. c ≢ b'\n') (λ c p. p.0) x a)
      ((λ e. ground (arith, e)), join_then-one_line y ys b)

-- For fields that are C strings and a printable reason: an entry whose text has at most 511 bytes is
-- read back from the log as one line with its eight columns, whatever follows it; an entry whose text is
-- longer is logged without a line break, so that the next entry continues its line.
pub log_entry-read :
    (e : LogEntry)
    → HasText e
    → (length (log_text e) ≤ 511
        → (rest : Bytes) → read_line (log_entry e ++ rest) ≡ (columns e, rest))
      × (511 < length (log_text e) → All (λ c. c ≢ b'\n') (log_entry e))
unfolding log_entry
log_entry-read e h = (whole, cut)
  where
    ys : List Bytes
    ys =
        safe_ip e
        ∷ safe_domain e
        ∷ decimal e.qtype
        ∷ (result_char e.result ∷ [])
        ∷ (source_char e.source ∷ [])
        ∷ reason_text e.reason
        ∷ decimal e.latency_us
        ∷ []

    whole :
        length (log_text e) ≤ 511
        → (rest : Bytes) → read_line (log_entry e ++ rest) ≡ (columns e, rest)
    whole fits rest =
        ap (λ t. read_line (t ++ rest)) (take_whole 511 (log_text e) fits ∙ log_text-columns e)
        ∙ ap read_line (join_then-append (decimal e.epoch) ys (b'\n' ∷ []) rest)
        ∙ read_line-join_then (decimal e.epoch) ys rest (columns-cells e h)

    text : log_text e ≡ join_then (decimal e.epoch) ys [] ++ b'\n' ∷ []
    text = log_text-columns e ∙ sym (join_then-append (decimal e.epoch) ys [] (b'\n' ∷ []))

    cut : 511 < length (log_text e) → All (λ c. c ≢ b'\n') (log_entry e)
    cut long =
        subst (λ t. All (λ c. c ≢ b'\n') (take 511 t)) (sym text)
          (All-take_end (λ c. c ≢ b'\n') 511 (join_then (decimal e.epoch) ys []) b'\n'
            (join_then-one_line (decimal e.epoch) ys (columns-cells e h))
            (subst (λ t. 511 < length t) text long))
