-- ===== src/Labels.antt =====
-- src/radix_tree.c: the labels of a domain (`split_domain_rtl`), their order (`label_compare`), and
-- the search for one in a node's array (`find_child`). A label is the bytes of a pointer and a length.
pub mod Order
pub mod Search
pub mod Split
use nyet.Prelude.{
  ℕ, zero, suc, ◌+◌, ◌-◌, ◌*◌, ◌/◌, ◌%◌, ◌^◌, ◌≤◌, ◌<◌, ◌≡◌, refl, sym, ap, ap₂, subst, ◌∙◌, ◌≢◌,
  ◌↔◌, ◌⊎◌, inl, inr, Bool, true, false, not, ◌&&◌, ◌||◌, Option, none, some, List, [], ◌∷◌, ◌++◌,
  map, arith, ltb, leb, ◌==◌, if◌then◌else◌, if_elim, Bool-cases, Option-cases, Bytes, bytes_eq,
  bytes_eq_iff, bytes_eq_refl, ==_same, ==_other, length, All, get_elem?, get_or,
}

-- the sign of an `int` that a comparison returns
pub data Sign : Type 0 where
  less same greater : Sign

abbrev pub byte_sign : ℕ → ℕ → Sign
byte_sign a b = if ltb a b then less else if ltb b a then greater else same

-- memcmp(a, b, n), where both have n bytes
unfoldable pub memcmp : Bytes → Bytes → ℕ → Sign
memcmp a b zero = same
memcmp [] b (suc n) = same
memcmp (x ∷ xs) [] (suc n) = same
memcmp (x ∷ xs) (y ∷ ys) (suc n) =
    let rest = memcmp xs ys n in if x == y then rest else byte_sign x y

abbrev pub min_len : ℕ → ℕ → ℕ
min_len a b = if ltb a b then a else b

abbrev pub by_length : ℕ → ℕ → Sign → Sign
by_length a b less = less
by_length a b greater = greater
by_length a b same = if ltb a b then less else if ltb b a then greater else same

unfoldable pub label_compare : Bytes → Bytes → Sign
unfolding memcmp
label_compare a b = by_length (length a) (length b) (memcmp a b (min_len (length a) (length b)))

-- what a comparison with the candidate at `mid` leads to
abbrev pub narrow : Sign → ℕ → Option ℕ → Option ℕ → Option ℕ
narrow same mid left right = some mid
narrow less mid left right = right
narrow greater mid left right = left

-- the binary search of `find_child` for `label` between `lo` and `hi`, on fuel
unfoldable pub search : ℕ → List Bytes → Bytes → ℕ → ℕ → Option ℕ
unfolding label_compare
search zero labels label lo hi = none
search (suc fuel) labels label lo hi =
    let mid = lo + (hi - lo) / 2 in
    let left = search fuel labels label lo mid in
    let right = search fuel labels label (mid + 1) hi in
    if ltb lo hi then narrow (label_compare (get_or labels mid []) label) mid left right else none

-- the linear scan of `find_child` from the index `i`
unfoldable pub scan : List Bytes → Bytes → ℕ → Option ℕ
scan [] label i = none
scan (x ∷ xs) label i =
    let rest = scan xs label (i + 1) in
    if length x == length label && bytes_eq x label then some i else rest

-- the index of the child, from the labels of the array and the flag `children_sorted`
unfoldable pub find_child : Bool → List Bytes → Bytes → Option ℕ
unfolding search scan
find_child sorted labels label =
    if sorted then search (length labels) labels label 0 (length labels) else scan labels label 0

abbrev pub dot : ℕ
dot = 46

abbrev pub lower : ℕ → ℕ
lower c = if leb 65 c && leb c 90 then c + 32 else c

-- a label that ends, empty ones left out; `skip` and `next` are the labels to its left
abbrev pub close : Bytes → List Bytes → List Bytes → List Bytes
close [] skip next = skip
close (c ∷ cs) skip next = (c ∷ cs) ∷ next

-- The loop of `split_domain_rtl`, over the buffer read from its end: `room` labels more, and the
-- bytes of the label that is being read.
unfoldable pub walk : ℕ → Bytes → Bytes → List Bytes
walk zero label rest = []
walk (suc room) label [] = close label [] []
walk (suc room) label (c ∷ cs) =
    let on = walk (suc room) (c ∷ label) cs in
    let next = walk room [] cs in
    let skip = walk (suc room) [] cs in if c == dot then close label skip next else on

abbrev pub reversed : Bytes → Bytes → Bytes
reversed [] done = done
reversed (b ∷ bs) done = reversed bs (b ∷ done)

-- `none` for -1; the labels from the right, in lower case
unfoldable pub split_domain_rtl : Bytes → Option (List Bytes)
unfolding walk
split_domain_rtl [] = none
split_domain_rtl (c ∷ cs) =
    if leb 512 (length (c ∷ cs))
    then none
    else some (walk 128 [] (reversed (map lower (c ∷ cs)) []))
