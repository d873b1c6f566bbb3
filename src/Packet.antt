-- ===== src/Packet.antt =====
-- src/nyet.c: DNS packets as lists of bytes (`parse_query`, `create_blocked_response`,
-- `skip_dns_name`, `parse_answer_records`, `create_cached_answer_response`). A pointer into a packet
-- is the list of the bytes from it to the limit, so that a read past the limit has no form here.
pub mod Query
pub mod Names
pub mod Answers
pub mod Replies
use nyet.Prelude.{
  ℕ, zero, suc, ◌+◌, ◌-◌, ◌*◌, ◌/◌, ◌%◌, ◌^◌, ◌≤◌, ◌<◌, ◌≡◌, refl, sym, ap, ap₂, subst, ◌∙◌, ◌≢◌,
  ◌↔◌, ◌⊎◌, inl, inr, Bool, true, false, not, ◌&&◌, ◌||◌, Option, none, some, List, [], ◌∷◌, ◌++◌,
  map, arith, ltb, leb, ◌==◌, if◌then◌else◌, if_elim, Bool-cases, Option-cases, Bytes, bytes_eq,
  bytes_eq_iff, bytes_eq_refl, ==_same, ==_other, length, All, take, drop, set, get_elem?, get_or,
}

-- LOWER
abbrev pub lower_byte : ℕ → ℕ
lower_byte c = if leb 65 c && leb c 90 then c + 32 else c

abbrev pub is_valid : ℕ → Bool
is_valid c = (leb 97 c && leb c 122) || (leb 48 c && leb c 57) || (c == 45)

-- the inner loop of `parse_query`, over the bytes of a label
unfoldable pub lower_label : Bytes → Option Bytes
lower_label [] = some []
lower_label (c ∷ cs) =
    if not (is_valid (lower_byte c))
    then none
    else elim (lower_label cs) [ none ↦ none | some ds ↦ some (lower_byte c ∷ ds) ]

-- what stands before the label that is written next
abbrev pub with_dot : Bytes → Bytes
with_dot [] = []
with_dot (c ∷ cs) = (c ∷ cs) ++ (46 ∷ [])

-- The outer loop of `parse_query`, on fuel: the name, and the bytes at which it stops. `out` is
-- what is written, so that `end - dst` is `max_len - 1 - length out`.
unfoldable pub read_labels : ℕ → ℕ → Bytes → Bytes → Option (Bytes × Bytes)
unfolding lower_label
read_labels zero max_len p out = none
read_labels (suc fuel) max_len [] out = some (out, [])
read_labels (suc fuel) max_len (len ∷ p) out =
    if len == 0
    then some (out, len ∷ p)
    else if leb (length p) len
    then none
    else if leb (max_len - 1 - length out) len
    then none
    else elim (lower_label (take len p)) [
      | none ↦ none
      | some label ↦ read_labels fuel max_len (drop len p) (with_dot out ++ label)
    ]

-- two bytes in network order
abbrev pub word16 : ℕ → ℕ → ℕ
word16 hi lo = hi * 256 + lo

abbrev pub qtype_after : Bytes × Bytes → Option (Bytes × ℕ)
qtype_after (domain, z ∷ hi ∷ lo ∷ rest) = some (domain, word16 hi lo)
qtype_after (domain, z ∷ hi ∷ []) = none
qtype_after (domain, z ∷ []) = none
qtype_after (domain, []) = none

-- the domain and the query type; each round of the loop takes a byte, so the size is fuel enough
unfoldable pub parse_query : Bytes → ℕ → Option (Bytes × ℕ)
unfolding read_labels
parse_query packet max_len =
    if ltb (length packet) 12
    then none
    else elim (read_labels (suc (length packet)) max_len (drop 12 packet) []) [
      | none ↦ none
      | some r ↦ qtype_after r
    ]

abbrev pub set2 : Bytes → ℕ → ℕ → ℕ → Bytes
set2 bs i a b = set (set bs i a) (i + 1) b

abbrev pub be32 : ℕ → Bytes
be32 n = n / 2 ^ 24 % 256 ∷ n / 2 ^ 16 % 256 ∷ n / 2 ^ 8 % 256 ∷ n % 256 ∷ []

abbrev pub be16 : ℕ → Bytes
be16 n = n / 2 ^ 8 % 256 ∷ n % 256 ∷ []

abbrev pub default_block_ttl_seconds : ℕ
default_block_ttl_seconds = 60

-- BLOCKED_ANSWER with a ttl
abbrev pub blocked_answer : Bytes → Bytes
blocked_answer ttl = 0xc0 ∷ 0x0c ∷ 0 ∷ 1 ∷ 0 ∷ 1 ∷ (ttl ++ (0 ∷ 4 ∷ 0 ∷ 0 ∷ 0 ∷ 0 ∷ []))

unfoldable pub create_blocked_response : Bytes → ℕ → Bytes
create_blocked_response request ttl_seconds =
    set2 (set2 request 2 0x81 0x80) 6 0 1
    ++ blocked_answer
        (if ttl_seconds == default_block_ttl_seconds then 0 ∷ 0 ∷ 0 ∷ 60 ∷ [] else be32 ttl_seconds)

-- on fuel; a byte with both top bits set starts a pointer of two bytes
unfoldable pub skip_dns_name : ℕ → Bytes → Option Bytes
skip_dns_name zero p = none
skip_dns_name (suc fuel) [] = none
skip_dns_name (suc fuel) (len ∷ p) =
    let on = skip_dns_name fuel (drop len p) in
    if leb 192 len then elim p [ [] ↦ none | b ∷ bs ↦ some bs ] else if len == 0 then some p else on

-- answer_cache_answer_t; `records` are the `num_records` that are in use
pub record Answer : Type 0 where
  pub records : List Bytes
  pub record_bytes : ℕ
  pub ttl_seconds : ℕ

unfoldable pub skip_questions : ℕ → Bytes → Option Bytes
unfolding skip_dns_name
skip_questions zero p = some p
skip_questions (suc n) p = elim (skip_dns_name (suc (length p)) p) [
  | none ↦ none
  | some q ↦ if ltb (length q) 4 then none else skip_questions n (drop 4 q)
]

abbrev pub answer_cache_max_records : ℕ
answer_cache_max_records = 8

abbrev pub get : Bytes → ℕ → ℕ
get bs i = get_or bs i 0

abbrev pub word32 : Bytes → ℕ → ℕ
word32 bs i = ((get bs i * 256 + get bs (i + 1)) * 256 + get bs (i + 2)) * 256 + get bs (i + 3)

-- The loop over the answers: the records found, in order, and the least ttl. `room` is what is left
-- of ANSWER_CACHE_MAX_RECORDS.
unfoldable pub read_answers : ℕ → ℕ → ℕ → ℕ → Bytes → ℕ → List Bytes × ℕ
unfolding skip_dns_name
read_answers zero room qtype expected p min_ttl = ([], min_ttl)
read_answers (suc n) zero qtype expected p min_ttl = ([], min_ttl)
read_answers (suc n) (suc room) qtype expected p min_ttl = elim (skip_dns_name (suc (length p)) p) [
  | none ↦ ([], min_ttl)
  | some q ↦
      let rdlength = word16 (get q 8) (get q 9) in
      let data_at = drop 10 q in
      let rttl = word32 q 4 in
      let skipped = read_answers n (suc room) qtype expected (drop rdlength data_at) min_ttl in
      let (found, ttl) =
        read_answers n room qtype expected (drop rdlength data_at)
          (if ltb rttl min_ttl then rttl else min_ttl) in
      if ltb (length q) 10 || ltb (length data_at) rdlength
      then ([], min_ttl)
      else if word16 (get q 0) (get q 1) == qtype
          && word16 (get q 2) (get q 3) == 1
          && rdlength == expected
      then (take expected data_at ∷ found, ttl)
      else skipped
]

abbrev pub uint32_max : ℕ
uint32_max = 2 ^ 32 - 1

abbrev pub expected_bytes : ℕ → ℕ
expected_bytes qtype = if qtype == 28 then 16 else 4

abbrev pub conclude : ℕ → List Bytes × ℕ → Option Answer
conclude expected ([], min_ttl) = none
conclude expected (r ∷ rs, min_ttl) =
    if min_ttl == 0 || min_ttl == uint32_max
    then none
    else some (record { records = r ∷ rs; record_bytes = expected; ttl_seconds = min_ttl })

unfoldable pub parse_answer_records : Bytes → ℕ → Option Answer
unfolding skip_questions read_answers
parse_answer_records reply qtype =
    if ltb (length reply) 12
    then none
    else if not (get reply 3 % 16 == 0)
    then none
    else if word16 (get reply 6) (get reply 7) == 0
    then none
    else elim (skip_questions (word16 (get reply 4) (get reply 5)) (drop 12 reply)) [
      | none ↦ none
      | some p ↦ conclude (expected_bytes qtype) (
          read_answers (word16 (get reply 6) (get reply 7)) answer_cache_max_records qtype
            (expected_bytes qtype) p uint32_max)
    ]

-- the loop that appends the records
unfoldable pub write_records : ℕ → Answer → List Bytes → Bytes
write_records qtype answer [] = []
write_records qtype answer (r ∷ rs) =
    0xc0
    ∷ 0x0c
    ∷ (be16 qtype
        ++ (0
            ∷ 1
            ∷ (be32 answer.ttl_seconds
                ++ (be16 answer.record_bytes ++ (r ++ write_records qtype answer rs)))))

-- `none` for 0: it does not fit
unfoldable pub create_cached_answer_response : Bytes → ℕ → ℕ → Answer → Option Bytes
unfolding write_records
create_cached_answer_response request out_capacity qtype answer =
    if ltb out_capacity (length request + length answer.records * (12 + answer.record_bytes))
    then none
    else some (
        set2 (set2 request 2 0x81 0x80) 6 (length answer.records / 2 ^ 8 % 256)
          (length answer.records % 256)
        ++ write_records qtype answer answer.records)
