-- ===== src/Packet/Query.antt =====
-- `parse_query`: what it accepts fits the buffer and has only valid bytes, and it reads back a name
-- from its form in a packet.
use nyet.Prelude.{
  ℕ, zero, suc, ◌+◌, ◌-◌, ◌*◌, ◌≤◌, ◌<◌, ◌≡◌, refl, sym, ap, ◌∙◌, ◌≢◌, ◌⊎◌, inl, inr, true, ◌||◌,
  some, List, [], ◌∷◌, ◌++◌, map, arith, ◌==◌, Bool-cases, Option-cases, Bytes, length,
  length-append, All, take, drop, take_append_exact, drop_append_exact, All-append,
}
use nyet.Packet.{lower_byte, is_valid, lower_label, with_dot, read_labels, qtype_after, parse_query}

-- a byte of a domain
abbrev pub IsDomainByte : ℕ → Type 0
IsDomainByte c = (is_valid c || (c == 46)) ≡ true

lower_label-cases :
    (c : ℕ) (cs ds : Bytes)
    → lower_label (c ∷ cs) ≡ some ds
    → (is_valid (lower_byte c) ≡ true)
      × ((es : Bytes) × (lower_label cs ≡ some es) × (ds ≡ lower_byte c ∷ es))
unfolding lower_label
lower_label-cases c cs ds h = elim (Bool-cases (is_valid (lower_byte c))) [
  | inr v ↦ ground (arith, h, v)
  | inl v ↦ elim (Option-cases (lower_label cs)) [
    | inl n ↦ ground (arith, h, v, n)
    | inr (es, e) ↦ (v, (es, e, ground (arith, h, v, e)))
  ]
]

lower_label-nil : (ds : Bytes) → lower_label [] ≡ some ds → ds ≡ []
unfolding lower_label
lower_label-nil ds h = ground arith

valid-IsDomainByte : (c : ℕ) → is_valid c ≡ true → IsDomainByte c
valid-IsDomainByte c h = rw h refl

lower_label-bytes :
    (bs ds : Bytes) → lower_label bs ≡ some ds → (length ds ≡ length bs) × All IsDomainByte ds
lower_label-bytes [] ds h = rw (lower_label-nil ds h) (refl, tt)
lower_label-bytes (c ∷ cs) ds h =
    let (v, (es, e, same)) = lower_label-cases c cs ds h in
    let (n, a) = lower_label-bytes cs es e in
    rw same (ap suc n, (valid-IsDomainByte (lower_byte c) v, a))

length-take_le : (n : ℕ) (bs : Bytes) → length (take n bs) ≤ n
length-take_le zero bs = omega arith
length-take_le (suc n) [] = omega arith
length-take_le (suc n) (b ∷ bs) = ground (arith, length-take_le n bs)

length-with_dot : (out : Bytes) → length (with_dot out) ≤ suc (length out)
length-with_dot [] = omega arith
length-with_dot (c ∷ cs) = ground (arith, length-append (c ∷ cs) (46 ∷ []))

with_dot-bytes : (out : Bytes) → All IsDomainByte out → All IsDomainByte (with_dot out)
with_dot-bytes [] a = tt
with_dot-bytes (c ∷ cs) a = All-append IsDomainByte (c ∷ cs) (46 ∷ []) a (refl, tt)

-- one round of the loop that goes on
abbrev Round : ℕ → ℕ → ℕ → Bytes → Bytes → Bytes × Bytes → Type 0
Round fuel max_len len p out r =
    ((r.0 ≡ out) × (len ≡ 0) × (r.1 ≡ len ∷ p))
    ⊎ ((label : Bytes) × (lower_label (take len p) ≡ some label)
        × (len < max_len - 1 - length out)
        × (len < length p)
        × (read_labels fuel max_len (drop len p) (with_dot out ++ label) ≡ some r))

round :
    (fuel max_len len : ℕ) (p out : Bytes) (r : Bytes × Bytes)
    → read_labels (suc fuel) max_len (len ∷ p) out ≡ some r
    → Round fuel max_len len p out r
unfolding read_labels
round fuel max_len len p out r h = elim (Option-cases (lower_label (take len p))) [
  | inl n ↦ ground (arith, h, n)
  | inr (label, e) ↦ ground (arith, h, e)
]

end_of_packet :
    (fuel max_len : ℕ) (out : Bytes) (r : Bytes × Bytes)
    → read_labels (suc fuel) max_len [] out ≡ some r
    → r.0 ≡ out
unfolding read_labels
end_of_packet fuel max_len out r h = ground arith

read_labels-fits :
    (fuel max_len : ℕ) (p out : Bytes) (r : Bytes × Bytes)
    → read_labels fuel max_len p out ≡ some r
    → length out < max_len
    → All IsDomainByte out
    → (length r.0 < max_len) × All IsDomainByte r.0
unfolding read_labels
read_labels-fits zero max_len p out r h a b = ground arith
read_labels-fits (suc fuel) max_len [] out r h a b = rw (end_of_packet fuel max_len out r h) (a, b)
read_labels-fits (suc fuel) max_len (len ∷ p) out r h a b =
    elim (round fuel max_len len p out r h) [
      | inl (e, z, f) ↦ rw e (a, b)
      | inr (label, e, x, y, f) ↦
          let (n, c) = lower_label-bytes (take len p) label e in
          read_labels-fits fuel max_len (drop len p) (with_dot out ++ label) r f
            (omega (
              arith,
              length-append (with_dot out) label,
              length-with_dot out,
              n,
              length-take_le len p,
            ))
            (All-append IsDomainByte (with_dot out) label (with_dot-bytes out b) c)
    ]

qtype_after-domain : (r : Bytes × Bytes) (d : Bytes) (q : ℕ) → qtype_after r ≡ some (d, q) → d ≡ r.0
qtype_after-domain (d', []) d q h = ground arith
qtype_after-domain (d', z ∷ []) d q h = ground arith
qtype_after-domain (d', z ∷ hi ∷ []) d q h = ground arith
qtype_after-domain (d', z ∷ hi ∷ lo ∷ rest) d q h = ground arith

parse_query-cases :
    (packet : Bytes) (max_len : ℕ) (d : Bytes) (q : ℕ)
    → parse_query packet max_len ≡ some (d, q)
    → (r : Bytes × Bytes) × (read_labels (suc (length packet)) max_len (drop 12 packet) [] ≡ some r)
      × (qtype_after r ≡ some (d, q))
unfolding parse_query
parse_query-cases packet max_len d q h =
    elim (Option-cases (read_labels (suc (length packet)) max_len (drop 12 packet) [])) [
      | inl n ↦ ground (arith, h, n)
      | inr (r, e) ↦ (r, e, ground (arith, h, e))
    ]

-- For every packet and a buffer that is not empty, a domain that is parsed out of it fits the
-- buffer with its terminator, and has only lower-case letters, digits, hyphens and dots.
pub parse_query-fits :
    (packet : Bytes) (max_len : ℕ) (d : Bytes) (q : ℕ)
    → 0 < max_len
    → parse_query packet max_len ≡ some (d, q)
    → (length d < max_len) × All IsDomainByte d
parse_query-fits packet max_len d q pos_len h =
    let (r, e, f) = parse_query-cases packet max_len d q h in
    rw (qtype_after-domain r d q f)
      (read_labels-fits (suc (length packet)) max_len (drop 12 packet) [] r e pos_len tt)

-- the form of a name in a packet
unfoldable pub encode : List Bytes → Bytes
encode [] = 0 ∷ []
encode (l ∷ ls) = length l ∷ (l ++ encode ls)

-- the domain that its labels make, after what is written
abbrev pub written : Bytes → List Bytes → Bytes
written out [] = out
written out (l ∷ ls) = written (with_dot out ++ map lower_byte l) ls

-- a label of bytes that the parser takes
abbrev pub IsLabel : Bytes → Type 0
IsLabel l = (0 < length l) × All (λ c. is_valid (lower_byte c) ≡ true) l

lower_label-valid :
    (l : Bytes)
    → All (λ c. is_valid (lower_byte c) ≡ true) l
    → lower_label l ≡ some (map lower_byte l)
unfolding lower_label
lower_label-valid [] a = refl
lower_label-valid (c ∷ cs) a = rw (a.0, lower_label-valid cs a.1) refl

map-length : (l : Bytes) → length (map lower_byte l) ≡ length l
map-length [] = refl
map-length (c ∷ cs) = ap suc (map-length cs)

with_dot_le : (out : Bytes) → length out ≤ length (with_dot out)
with_dot_le [] = omega arith
with_dot_le (c ∷ cs) = omega (arith, length-append (c ∷ cs) (46 ∷ []))

with_dot_room : (out : Bytes) → (length out ≡ 0) ⊎ (length (with_dot out) ≡ suc (length out))
with_dot_room [] = inl refl
with_dot_room (c ∷ cs) = inr (omega (arith, length-append (c ∷ cs) (46 ∷ [])))

pub append_assoc : (a b c : Bytes) → (a ++ b) ++ c ≡ a ++ (b ++ c)
append_assoc [] b c = refl
append_assoc (x ∷ a) b c = ap (λ t. x ∷ t) (append_assoc a b c)

next_round :
    (fuel max_len len : ℕ) (p out label : Bytes)
    → len ≢ 0
    → len < length p
    → len < max_len - 1 - length out
    → lower_label (take len p) ≡ some label
    → read_labels (suc fuel) max_len (len ∷ p) out
      ≡ read_labels fuel max_len (drop len p) (with_dot out ++ label)
unfolding read_labels
next_round fuel max_len len p out label a b c d = ground arith

written_le : (out : Bytes) (ls : List Bytes) → length out ≤ length (written out ls)
written_le out [] = omega arith
written_le out (l ∷ ls) = omega (
  arith,
  written_le (with_dot out ++ map lower_byte l) ls,
  length-append (with_dot out) (map lower_byte l),
  with_dot_le out,
)

encode-length : (ls : List Bytes) → 0 < length (encode ls)
unfolding encode
encode-length [] = omega arith
encode-length (l ∷ ls) = omega arith

read_labels-encode :
    (fuel max_len : ℕ) (ls : List Bytes) (tail out : Bytes)
    → All IsLabel ls
    → length (written out ls) + 1 < max_len
    → length ls < fuel
    → read_labels fuel max_len (encode ls ++ tail) out ≡ some (written out ls, 0 ∷ tail)
unfolding read_labels encode
read_labels-encode zero max_len ls tail out a b c = ground arith
read_labels-encode (suc fuel) max_len [] tail out a b c = refl
read_labels-encode (suc fuel) max_len (l ∷ ls) tail out a b c =
    let rest = encode ls ++ tail in
    let grown = written_le (with_dot out ++ map lower_byte l) ls in
    let size = length-append (with_dot out) (map lower_byte l) in
    let same_size = map-length l in
    ap (λ t. read_labels (suc fuel) max_len (length l ∷ t) out) (append_assoc l (encode ls) tail)
    ∙ next_round fuel max_len (length l) (l ++ rest) out (map lower_byte l) (omega (arith, a.0.0))
        (omega (arith, length-append l rest, length-append (encode ls) tail, encode-length ls))
        (omega (arith, b, grown, size, same_size, with_dot_room out))
        (ap lower_label (take_append_exact l rest) ∙ lower_label-valid l a.0.1)
    ∙ ap (λ t. read_labels fuel max_len t (with_dot out ++ map lower_byte l))
        (drop_append_exact l rest)
    ∙ read_labels-encode fuel max_len ls tail (with_dot out ++ map lower_byte l) a.1 b (omega arith)

pub labels-length : (ls : List Bytes) → length ls < length (encode ls)
unfolding encode
labels-length [] = omega arith
labels-length (l ∷ ls) = omega (arith, labels-length ls, length-append l (encode ls))

drop_header : (header rest : Bytes) → length header ≡ 12 → drop 12 (header ++ rest) ≡ rest
drop_header header rest h =
    ap (λ n. drop n (header ++ rest)) (sym h) ∙ drop_append_exact header rest

parse_query-read :
    (packet : Bytes) (max_len : ℕ) (r : Bytes × Bytes)
    → 12 ≤ length packet
    → read_labels (suc (length packet)) max_len (drop 12 packet) [] ≡ some r
    → parse_query packet max_len ≡ qtype_after r
unfolding parse_query
parse_query-read packet max_len r h e = ground arith

-- A packet of a 12-byte header, a name of labels that are not empty and of valid bytes, and the two
-- bytes of a type, with any bytes after them, parses to the labels in lower case, joined by dots,
-- and the type, if that domain leaves two bytes of the buffer free.
pub parse_query-encode :
    (header tail : Bytes) (ls : List Bytes) (max_len hi lo : ℕ)
    → length header ≡ 12
    → All IsLabel ls
    → length (written [] ls) + 1 < max_len
    → parse_query (header ++ (encode ls ++ (hi ∷ lo ∷ tail))) max_len
      ≡ some (written [] ls, hi * 256 + lo)
parse_query-encode header tail ls max_len hi lo h a b =
    let rest = encode ls ++ (hi ∷ lo ∷ tail) in
    parse_query-read (header ++ rest) max_len (written [] ls, 0 ∷ hi ∷ lo ∷ tail)
      (omega (arith, length-append header rest, h))
      (ap (λ t. read_labels (suc (length (header ++ rest))) max_len t [])
          (drop_header header rest h)
        ∙ read_labels-encode (suc (length (header ++ rest))) max_len ls (hi ∷ lo ∷ tail) [] a b (
            omega (
              arith,
              labels-length ls,
              length-append header rest,
              length-append (encode ls) (hi ∷ lo ∷ tail),
            )))
