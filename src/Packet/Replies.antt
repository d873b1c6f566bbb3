-- ===== src/Packet/Replies.antt =====
-- Whole replies: what `parse_answer_records` reads from the packets that
-- `create_cached_answer_response` and `create_blocked_response` make out of a query.
use nyet.Prelude.{
  ℕ, suc, ◌+◌, ◌-◌, ◌*◌, ◌/◌, ◌%◌, ◌^◌, ◌≤◌, ◌<◌, ◌≡◌, refl, sym, ap, ◌∙◌, ◌≢◌, inl, inr, true,
  some, List, [], ◌∷◌, ◌++◌, arith, ◌==◌, if◌then◌else◌, Bool-cases, Bytes, ==_other, length,
  length-append, All, drop,
}
use nyet.Packet.{
  Answer, skip_dns_name, skip_questions, read_answers, write_records, parse_answer_records,
  create_cached_answer_response, create_blocked_response, word16, expected_bytes, uint32_max,
  conclude, be32, get, answer_cache_max_records,
}
use nyet.Packet.Query.{encode, append_assoc, labels-length}
use nyet.Packet.Names.{IsShort, skip-encode, word16-be16}
use nyet.Packet.Answers.{IsSendable, least, write_read, not_below}

-- a query of one question: the bytes of the header that vary, the name, and its type and class
pub record Query : Type 0 where
  pub id1 : ℕ
  pub id0 : ℕ
  pub flags1 : ℕ
  pub flags0 : ℕ
  pub ancount1 : ℕ
  pub ancount0 : ℕ
  pub nscount1 : ℕ
  pub nscount0 : ℕ
  pub arcount1 : ℕ
  pub arcount0 : ℕ
  pub name : List Bytes
  pub type1 : ℕ
  pub type0 : ℕ
  pub class1 : ℕ
  pub class0 : ℕ

-- the question and what follows it
abbrev pub question : Query → Bytes → Bytes
question q rest = encode q.name ++ (q.type1 ∷ q.type0 ∷ q.class1 ∷ q.class0 ∷ rest)

-- the packet, with `rest` after the question
abbrev pub packet : Query → Bytes → Bytes
packet q rest =
    q.id1
    ∷ q.id0
    ∷ q.flags1
    ∷ q.flags0
    ∷ 0
    ∷ 1
    ∷ q.ancount1
    ∷ q.ancount0
    ∷ q.nscount1
    ∷ q.nscount0
    ∷ q.arcount1
    ∷ q.arcount0
    ∷ question q rest

-- the same as a reply with `n1 n0` answers
abbrev pub reply : Query → ℕ → ℕ → Bytes → Bytes
reply q n1 n0 rest =
    q.id1
    ∷ q.id0
    ∷ 0x81
    ∷ 0x80
    ∷ 0
    ∷ 1
    ∷ n1
    ∷ n0
    ∷ q.nscount1
    ∷ q.nscount0
    ∷ q.arcount1
    ∷ q.arcount0
    ∷ question q rest

skip_one :
    (p t : Bytes)
    → skip_dns_name (suc (length p)) p ≡ some t
    → 4 ≤ length t
    → skip_questions 1 p ≡ some (drop 4 t)
unfolding skip_questions
skip_one p t h f = ground arith

skip_question :
    (q : Query) (rest : Bytes) → All IsShort q.name → skip_questions 1 (question q rest) ≡ some rest
skip_question q rest a =
    skip_one (question q rest) (q.type1 ∷ q.type0 ∷ q.class1 ∷ q.class0 ∷ rest)
      (skip-encode (suc (length (question q rest))) q.name
        (q.type1 ∷ q.type0 ∷ q.class1 ∷ q.class0 ∷ rest) a
        (omega (
          arith,
          labels-length q.name,
          length-append (encode q.name) (q.type1 ∷ q.type0 ∷ q.class1 ∷ q.class0 ∷ rest),
        )))
      (omega arith)

parse_steps :
    (bs p : Bytes) (qtype : ℕ)
    → 12 ≤ length bs
    → get bs 3 % 16 ≡ 0
    → word16 (get bs 6) (get bs 7) ≢ 0
    → skip_questions (word16 (get bs 4) (get bs 5)) (drop 12 bs) ≡ some p
    → parse_answer_records bs qtype
      ≡ conclude (expected_bytes qtype) (
          read_answers
            (word16 (get bs 6) (get bs 7))
            answer_cache_max_records
            qtype
            (expected_bytes qtype)
            p
            uint32_max)
unfolding parse_answer_records
parse_steps bs p qtype a b c d = ground arith

parse_reply :
    (q : Query) (n1 n0 qtype : ℕ) (rest : Bytes)
    → All IsShort q.name
    → word16 n1 n0 ≢ 0
    → parse_answer_records (reply q n1 n0 rest) qtype
      ≡ conclude
          (expected_bytes qtype)
          (read_answers (word16 n1 n0) 8 qtype (expected_bytes qtype) rest uint32_max)
parse_reply q n1 n0 qtype rest a n =
    parse_steps (reply q n1 n0 rest) rest qtype (omega arith) refl n (skip_question q rest a)

-- an answer read back
conclude_of :
    (rb ttl : ℕ) (rs : List Bytes)
    → 0 < length rs
    → 0 < ttl
    → ttl < 2 ^ 32 - 1
    → conclude rb (rs, least uint32_max ttl rs)
      ≡ some (record { records = rs; record_bytes = rb; ttl_seconds = ttl })
conclude_of rb ttl [] a b c = ground arith
conclude_of rb ttl (r ∷ rs) a b c =
    rw (==_other ttl 0 (omega arith), ==_other ttl uint32_max (omega arith)) refl

join : (q : Query) (n1 n0 : ℕ) (rest : Bytes) → reply q n1 n0 [] ++ rest ≡ reply q n1 n0 rest
join q n1 n0 rest =
    ap
      (λ t.
        q.id1 ∷ q.id0 ∷ 0x81 ∷ 0x80 ∷ 0 ∷ 1 ∷ n1 ∷ n0 ∷ q.nscount1 ∷ q.nscount0 ∷ q.arcount1
        ∷ q.arcount0 ∷ t)
      (append_assoc (encode q.name) (q.type1 ∷ q.type0 ∷ q.class1 ∷ q.class0 ∷ []) rest)

width : (qtype : ℕ) (answer : Answer) → IsSendable qtype answer → answer.record_bytes < 2 ^ 16
width qtype answer s = ground (arith, s.bytes)

-- When the reply fits the buffer, the packet made from a cached answer of 1 to 8 records and a
-- query with nothing after its question is read back as that answer.
pub create_cached_answer_response-parse :
    (q : Query) (capacity qtype : ℕ) (answer : Answer)
    → All IsShort q.name
    → IsSendable qtype answer
    → length (packet q []) + length answer.records * (12 + answer.record_bytes) ≤ capacity
    → (out : Bytes) × (create_cached_answer_response (packet q []) capacity qtype answer ≡ some out)
      × (parse_answer_records out qtype ≡ some answer)
unfolding create_cached_answer_response
create_cached_answer_response-parse q capacity qtype answer a s fits =
    let n = length answer.records in
    let count : word16 (n / 2 ^ 8 % 256) (n % 256) ≡ n = word16-be16 n (omega (arith, s.at_most)) in
    rw (not_below capacity (length (packet q []) + n * (12 + answer.record_bytes)) fits) (
      _,
      refl,
      ap (λ t. parse_answer_records t qtype)
            (join q (n / 2 ^ 8 % 256) (n % 256) (write_records qtype answer answer.records))
          ∙ parse_reply q (n / 2 ^ 8 % 256) (n % 256) qtype
              (write_records qtype answer answer.records) a
              (λ z. omega (arith, count, s.some_record, z))
          ∙ rw (count, sym s.bytes)
              (ap (conclude answer.record_bytes) (
                  write_read qtype answer answer.records 8 uint32_max s.kind (width qtype answer s)
                    (omega (arith, s.bounded)) (omega (arith, s.bounded)) s.widths s.at_most)
                ∙ conclude_of answer.record_bytes answer.ttl_seconds answer.records s.some_record
                    s.positive s.bounded),
    )

-- the answer of a blocked domain
abbrev pub sinkhole : ℕ → Answer
sinkhole ttl = record { records = (0 ∷ 0 ∷ 0 ∷ 0 ∷ []) ∷ []; record_bytes = 4; ttl_seconds = ttl }

sixty : (ttl : ℕ) → (ttl == 60) ≡ true → 60 ≡ ttl
sixty ttl h = ground arith

ttl_bytes : (ttl : ℕ) → (if ttl == 60 then 0 ∷ 0 ∷ 0 ∷ 60 ∷ [] else be32 ttl) ≡ be32 ttl
ttl_bytes ttl = elim (Bool-cases (ttl == 60)) [
  | inl h ↦ rw h (ap be32 (sixty ttl h))
  | inr h ↦ rw h refl
]

-- The packet made for a blocked domain out of a query with nothing after its question is read back
-- as one address record 0.0.0.0 with the entry's ttl.
pub create_blocked_response-parse :
    (q : Query) (ttl : ℕ)
    → All IsShort q.name
    → 0 < ttl
    → ttl < 2 ^ 32 - 1
    → parse_answer_records (create_blocked_response (packet q []) ttl) 1 ≡ some (sinkhole ttl)
unfolding create_blocked_response write_records
create_blocked_response-parse q ttl a p b = rw (ttl_bytes ttl) (
    ap (λ t. parse_answer_records t 1)
      (join q 0 1 (write_records 1 (sinkhole ttl) (sinkhole ttl).records))
    ∙ parse_reply q 0 1 1 (write_records 1 (sinkhole ttl) (sinkhole ttl).records) a (omega arith)
    ∙ ap (conclude 4) (
        write_read 1 (sinkhole ttl) (sinkhole ttl).records 8 uint32_max (omega arith) (omega arith)
          (omega arith) (omega arith) (refl, tt) (omega arith))
    ∙ conclude_of 4 ttl (sinkhole ttl).records (omega arith) p b)

-- an EDNS record without options, as a resolver appends it to its query
abbrev pub opt : ℕ → ℕ → Bytes
opt size1 size0 = 0 ∷ 0 ∷ 41 ∷ size1 ∷ size0 ∷ 0 ∷ 0 ∷ 0 ∷ 0 ∷ 0 ∷ 0 ∷ []
