-- ===== src/Packet/Answers.antt =====
-- The responses that the proxy makes, read back by its own parser of answers.
use nyet.Prelude.{
  ℕ, zero, suc, ◌+◌, ◌-◌, ◌*◌, ◌^◌, ◌≤◌, ◌<◌, ◌≡◌, refl, sym, ap, subst, ◌∙◌, false, List, [], ◌∷◌,
  ◌++◌, arith, ltb, if◌then◌else◌, Bytes, ==_same, length, length-append, All, take_append_exact,
  drop_append_exact,
}
use nyet.Packet.{skip_dns_name, read_answers, word16, Answer, write_records, expected_bytes}
use nyet.Packet.Names.{word16-be16, word32-be32}

pub not_below : (a b : ℕ) → b ≤ a → ltb a b ≡ false
not_below a b h = ground arith

-- one answer of the wanted kind
abbrev taken_first : ℕ → ℕ → ℕ → Bytes → Bytes → ℕ → List Bytes × ℕ
taken_first n room qtype r rest m =
    let (found, ttl) = read_answers n room qtype (length r) rest m in (r ∷ found, ttl)

taken :
    (n room q1 q0 t3 t2 t1 t0 l1 l0 m : ℕ) (r rest : Bytes)
    → word16 l1 l0 ≡ length r
    → read_answers
        (suc n)
        (suc room)
        (word16 q1 q0)
        (length r)
        (192 ∷ 12 ∷ q1 ∷ q0 ∷ 0 ∷ 1 ∷ t3 ∷ t2 ∷ t1 ∷ t0 ∷ l1 ∷ l0 ∷ (r ++ rest))
        m
      ≡ taken_first n room (word16 q1 q0) r rest (
          if ltb (((t3 * 256 + t2) * 256 + t1) * 256 + t0) m
          then ((t3 * 256 + t2) * 256 + t1) * 256 + t0
          else m)
unfolding read_answers skip_dns_name
taken n room q1 q0 t3 t2 t1 t0 l1 l0 m r rest b =
    rw
      (
        b,
        not_below (suc (suc (suc (suc (suc (suc (suc (suc (suc (suc (length (r ++ rest))))))))))))
            10 (omega arith),
        not_below (length (r ++ rest)) (length r) (omega (arith, length-append r rest)),
        ==_same (word16 q1 q0) (word16 q1 q0) refl,
        ==_same (length r) (length r) refl,
        take_append_exact r rest,
        drop_append_exact r rest,
      )
      refl

abbrev with_record : Bytes → List Bytes × ℕ → List Bytes × ℕ
with_record r (found, ttl) = (r ∷ found, ttl)

taken_as :
    (n room qtype expected q1 q0 t3 t2 t1 t0 l1 l0 m w : ℕ) (r rest : Bytes)
    → word16 q1 q0 ≡ qtype
    → length r ≡ expected
    → word16 l1 l0 ≡ expected
    → (if ltb (((t3 * 256 + t2) * 256 + t1) * 256 + t0) m
        then ((t3 * 256 + t2) * 256 + t1) * 256 + t0
        else m)
      ≡ w
    → read_answers
        (suc n)
        (suc room)
        qtype
        expected
        (192 ∷ 12 ∷ q1 ∷ q0 ∷ 0 ∷ 1 ∷ t3 ∷ t2 ∷ t1 ∷ t0 ∷ l1 ∷ l0 ∷ (r ++ rest))
        m
      ≡ with_record r (read_answers n room qtype expected rest w)
taken_as n room qtype expected q1 q0 t3 t2 t1 t0 l1 l0 m w r rest a c b d =
    subst
      (λ q.
        read_answers (suc n) (suc room) q expected
          (192 ∷ 12 ∷ q1 ∷ q0 ∷ 0 ∷ 1 ∷ t3 ∷ t2 ∷ t1 ∷ t0 ∷ l1 ∷ l0 ∷ (r ++ rest)) m
        ≡ with_record r (read_answers n room q expected rest w))
      a
      (subst
        (λ e.
          read_answers (suc n) (suc room) (word16 q1 q0) e
            (192 ∷ 12 ∷ q1 ∷ q0 ∷ 0 ∷ 1 ∷ t3 ∷ t2 ∷ t1 ∷ t0 ∷ l1 ∷ l0 ∷ (r ++ rest)) m
          ≡ with_record r (read_answers n room (word16 q1 q0) e rest w))
        c
        (taken n room q1 q0 t3 t2 t1 t0 l1 l0 m r rest (b ∙ sym c)
          ∙ ap (λ t. with_record r (read_answers n room (word16 q1 q0) (length r) rest t)) d))

-- the least ttl once records of one ttl are read
abbrev pub least : ℕ → ℕ → List Bytes → ℕ
least m ttl [] = m
least m ttl (r ∷ rs) = ttl

least_same : (ttl : ℕ) (rs : List Bytes) → least ttl ttl rs ≡ ttl
least_same ttl [] = refl
least_same ttl (r ∷ rs) = refl

least_of : (ttl m : ℕ) (w : ℕ) → w ≡ ttl → ttl ≤ m → (if ltb w m then w else m) ≡ ttl
least_of ttl m w e h = ground arith

-- an answer that fits the wire format
pub record IsSendable (qtype : ℕ) (answer : Answer) : Type 0 where
  pub kind : qtype < 2 ^ 16
  pub bytes : answer.record_bytes ≡ expected_bytes qtype
  pub some_record : 0 < length answer.records
  pub at_most : length answer.records ≤ 8
  pub widths : All (λ r. length r ≡ answer.record_bytes) answer.records
  pub positive : 0 < answer.ttl_seconds
  pub bounded : answer.ttl_seconds < 2 ^ 32 - 1

pub write_read :
    (qtype : ℕ) (answer : Answer) (rs : List Bytes) (room m : ℕ)
    → qtype < 2 ^ 16
    → answer.record_bytes < 2 ^ 16
    → answer.ttl_seconds < 2 ^ 32
    → answer.ttl_seconds ≤ m
    → All (λ r. length r ≡ answer.record_bytes) rs
    → length rs ≤ room
    → read_answers (length rs) room qtype answer.record_bytes (write_records qtype answer rs) m
      ≡ (rs, least m answer.ttl_seconds rs)
unfolding write_records read_answers
write_read qtype answer [] room m a b c d e f = refl
write_read qtype answer (r ∷ rs) zero m a b c d e f = ground arith
write_read qtype answer (r ∷ rs) (suc room) m a b c d e f =
    taken_as (length rs) room qtype answer.record_bytes _ _ _ _ _ _ _ _ m answer.ttl_seconds r
      (write_records qtype answer rs) (word16-be16 qtype a) e.0 (word16-be16 answer.record_bytes b)
      (least_of answer.ttl_seconds m _ (word32-be32 answer.ttl_seconds c) d)
    ∙ ap (with_record r) (
        write_read qtype answer rs room answer.ttl_seconds a b c (omega arith) e.1 (omega arith)
        ∙ ap (λ t. (rs, t)) (least_same answer.ttl_seconds rs))
