-- ===== src/RadixTree.antt =====
-- src/radix_tree.c: the tree of domains by labels from the right, its insertion with the rollback
-- on failed allocations, its publication and its lookup. Each operation is one step, under the
-- lock; `Memory` tells of the allocations in order whether each succeeds.
pub mod Siblings
pub mod Shape
pub mod Entries
pub mod Insert
pub mod Publish
pub mod Lookup
pub mod Bump
pub mod Histories
pub mod Covers
pub mod First
pub mod Failure
use nyet.Prelude.{
  ℕ, zero, suc, ◌+◌, ◌-◌, ◌*◌, ◌/◌, ◌%◌, ◌^◌, ◌≤◌, ◌<◌, ◌≡◌, refl, sym, ap, ap₂, subst, ◌∙◌, ◌≢◌,
  ◌↔◌, ◌⊎◌, inl, inr, Bool, true, false, not, ◌&&◌, ◌||◌, Option, none, some, List, [], ◌∷◌, ◌++◌,
  map, arith, ltb, leb, ◌==◌, if◌then◌else◌, if_elim, Bool-cases, Option-cases, Bytes, bytes_eq,
  bytes_eq_iff, bytes_eq_refl, ==_same, ==_other, length, All, get_elem?, get_or,
}
use nyet.Prelude.Words.{u32_mod}
use nyet.Labels.{Sign, label_compare, less, find_child, split_domain_rtl}

pub data RadixStatus : Type 0 where
  blocked allowed review : RadixStatus

-- `ml_score` is the float's word, which is only copied.
pub record RadixEntry : Type 0 where
  pub status : RadixStatus
  pub ttl : ℕ
  pub hit_count : ℕ
  pub last_seen : ℕ
  pub source : ℕ
  pub ml_score : ℕ
  pub note : Option Bytes

mutual
  -- label, entry, children, children_capacity, children_sorted
  pub data Node : Type 0 where
    node : Bytes → Option RadixEntry → Children → ℕ → Bool → Node

  -- the array of children
  pub data Children : Type 0 where
    end : Children
    child : Node → Children → Children

abbrev pub label_of : Node → Bytes
label_of (node l e cs cap s) = l

abbrev pub entry_of : Node → Option RadixEntry
entry_of (node l e cs cap s) = e

abbrev pub children_of : Node → Children
children_of (node l e cs cap s) = cs

abbrev pub capacity_of : Node → ℕ
capacity_of (node l e cs cap s) = cap

abbrev pub is_sorted : Node → Bool
is_sorted (node l e cs cap s) = s

abbrev pub labels : Children → List Bytes
labels end = []
labels (child n cs) = label_of n ∷ labels cs

abbrev pub child_at : Children → ℕ → Option Node
child_at end i = none
child_at (child n cs) zero = some n
child_at (child n cs) (suc i) = child_at cs i

abbrev pub set_child : Children → ℕ → Node → Children
set_child end i c = end
set_child (child n cs) zero c = child c cs
set_child (child n cs) (suc i) c = child n (set_child cs i c)

abbrev pub last_child : Children → Node → Children
last_child end c = child c end
last_child (child n cs) c = child n (last_child cs c)

-- the outcomes of the allocations to come; past the end they succeed
abbrev pub Memory : Type 0
Memory = List Bool

abbrev pub alloc : Memory → Bool × Memory
alloc [] = (true, [])
alloc (ok ∷ rest) = (ok, rest)

abbrev pub fresh : Bytes → Node
fresh label = node label none end 0 true

-- calloc, then the copy of the label
unfoldable pub node_create : Bytes → Memory → Option Node × Memory
node_create label m =
    let (made, m') = alloc m in
    let (copied, m'') = alloc m' in
    if not made then (none, m') else if not copied then (none, m'') else (some (fresh label), m'')

-- the growth of the array in `append_child`: whether there is room, and the capacity
unfoldable pub reserve : ℕ → ℕ → Memory → Bool × ℕ × Memory
reserve count capacity m =
    let (ok, m') = alloc m in
    if count == capacity
    then (if not ok
        then (false, capacity, m')
        else (true, (if capacity == 0 then 4 else capacity * 2), m'))
    else (true, capacity, m)

abbrev pub copy_note : Option Bytes → Memory → Bool × Memory
copy_note none m = (true, m)
copy_note (some note) m = alloc m

-- the end of `insert_path`, at the node of the last label
unfoldable pub put_entry : Node → RadixEntry → Memory → Bool × Node
put_entry (node l old cs cap s) e m =
    let (copied, m') = copy_note e.note m in
    let (made, m'') = alloc m' in
    if not copied
    then (false, node l old cs cap s)
    else if not made
    then (false, node l none cs cap s)
    else (true, node l (some e) cs cap s)

abbrev pub replace : Node → ℕ → Bool × Node → Bool × Node
replace (node l e cs cap s) k (ok, c) = (ok, node l e (set_child cs k c) cap s)

-- A first new child, with the rest of the path below it, is kept or dropped again.
abbrev pub attach : Node → ℕ → Bool × Node → Bool × Node
attach (node l e cs cap s) capacity (true, c) = (true, node l e (last_child cs c) capacity false)
attach (node l e cs cap s) capacity (false, c) = (false, node l e cs capacity false)

-- whether the entry is in place, and the tree after it
unfoldable pub insert_path : Node → List Bytes → RadixEntry → Memory → Bool × Node
unfolding find_child node_create reserve put_entry
insert_path n [] e m = put_entry n e m
insert_path n (l ∷ ls) e m = elim (find_child (is_sorted n) (labels (children_of n)) l) [
  | some k ↦ elim (child_at (children_of n) k) [
    | some c ↦ replace n k (insert_path c ls e m)
    | none ↦ (false, n)
  ]
  | none ↦
      let (made, m') = node_create l m in
      let (room, capacity, m'') = reserve (length (labels (children_of n))) (capacity_of n) m' in
      elim made [
        | none ↦ (false, n)
        | some c ↦
            let below = insert_path c ls e m'' in
            if not room then (false, n) else attach n capacity below
      ]
]

pub data Code : Type 0 where
  inserted out_of_memory bad_argument no_root : Code

abbrev pub code : Bool → Code
code true = inserted
code false = out_of_memory

-- on the root of a builder
unfoldable pub radix_insert : Option Node → Bytes → RadixEntry → Memory → Code × Option Node
unfolding insert_path
radix_insert none domain e m = (bad_argument, none)
radix_insert (some root) domain e m = elim (split_domain_rtl domain) [
  | none ↦ (bad_argument, some root)
  | some [] ↦ (bad_argument, some root)
  | some (l ∷ ls) ↦ let (ok, root') = insert_path root (l ∷ ls) e m in (code ok, some root')
]

-- qsort with `node_ptr_compare`; the labels of an array differ, so any sort gives this order
unfoldable pub insert_in_order : Node → Children → Children
unfolding label_compare
insert_in_order n end = child n end
insert_in_order n (child c cs) =
    let rest = insert_in_order n cs in
    elim (label_compare (label_of c) (label_of n)) [
      | less ↦ child c rest
      | _ ↦ child n (child c cs)
    ]

unfoldable mutual
  unfolding insert_in_order

  -- the children are done before they are ordered, which their labels do not feel
  pub sort_children_recursive : Node → Node
  sort_children_recursive (node l e cs cap s) = node l e (sort_children cs) cap true

  pub sort_children : Children → Children
  sort_children end = end
  sort_children (child c cs) = insert_in_order (sort_children_recursive c) (sort_children cs)

-- `radix_publish` and `radix_tree_swap`: the new root, and the builder's
unfoldable pub radix_publish : Option Node → Option Node → Option Node × Option Node
unfolding sort_children_recursive
radix_publish tree none = (none, none)
radix_publish tree (some root) = (some (sort_children_recursive root), none)

-- on the published tree
unfoldable pub radix_tree_insert_live :
    Option Node → Bytes → RadixEntry → Memory → Code × Option Node
unfolding radix_insert
radix_tree_insert_live tree domain e m = elim (split_domain_rtl domain) [
  | none ↦ (bad_argument, tree)
  | some [] ↦ (bad_argument, tree)
  | some (l ∷ ls) ↦ elim tree [
    | none ↦ (no_root, none)
    | some root ↦ let (ok, root') = insert_path root (l ∷ ls) e m in (code ok, some root')
  ]
]

-- the locals of `radix_lookup`, with the number of labels above the matched node
pub record Best : Type 0 where
  pub allow_found : Bool
  pub block_found : Bool
  pub review_found : Bool
  pub matched : Option (ℕ × RadixEntry)

abbrev pub nothing_yet : Best
nothing_yet = record {
  allow_found = false;
  block_found = false;
  review_found = false;
  matched = none;
}

-- the `switch` on the status of an entry at a depth
abbrev pub weigh : ℕ → RadixEntry → RadixStatus → Best → Best
weigh i e allowed b = record b { allow_found = true; matched = some (i, e) }
weigh i e blocked b =
    if not b.allow_found then record b { block_found = true; matched = some (i, e) } else b
weigh i e review b =
    if not b.allow_found && not b.block_found
    then record b { review_found = true; matched = some (i, e) }
    else b

abbrev pub visit : ℕ → Option RadixEntry → Best → Best
visit i none b = b
visit i (some e) b = weigh i e e.status b

-- the loop of `radix_lookup` below a node at the depth `i`
unfoldable pub descend : Node → List Bytes → ℕ → Best → Best
unfolding find_child
descend n [] i b = b
descend n (l ∷ ls) i b = elim (find_child (is_sorted n) (labels (children_of n)) l) [
  | none ↦ b
  | some k ↦ elim (child_at (children_of n) k) [
    | none ↦ b
    | some c ↦ descend c ls (suc i) (visit (suc i) (entry_of c) b)
  ]
]

-- InterlockedIncrement on `hit_count`, InterlockedExchange on `last_seen`
abbrev pub bump : ℕ → RadixEntry → RadixEntry
bump now e = record e { hit_count = (e.hit_count + 1) % u32_mod; last_seen = now }

-- the bump of the entry `depth` labels down
unfoldable pub bump_at : Node → List Bytes → ℕ → ℕ → Node
unfolding find_child
bump_at (node l e cs cap s) ls zero now =
    node l (elim e [ none ↦ none | some x ↦ some (bump now x) ]) cs cap s
bump_at n [] (suc depth) now = n
bump_at n (l ∷ ls) (suc depth) now = elim (find_child (is_sorted n) (labels (children_of n)) l) [
  | none ↦ n
  | some k ↦ elim (child_at (children_of n) k) [
    | none ↦ n
    | some c ↦ (replace n k (true, bump_at c ls depth now)).1
  ]
]

-- The entry handed back, `none` for `matched = false`, and the tree; `now` is the time since
-- RADIX_EPOCH in its 32 bits.
unfoldable pub radix_lookup : Option Node → Bytes → ℕ → Option RadixEntry × Option Node
unfolding descend bump_at
radix_lookup none domain now = (none, none)
radix_lookup (some root) domain now = elim (split_domain_rtl domain) [
  | none ↦ (none, some root)
  | some ls ↦ elim (descend root ls 0 nothing_yet).matched [
    | none ↦ (none, some root)
    | some (depth, e) ↦ (some (bump now e), some (bump_at root ls depth now))
  ]
]
