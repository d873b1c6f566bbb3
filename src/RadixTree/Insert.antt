-- ===== src/RadixTree/Insert.antt =====
-- `insert_path`: what each outcome leaves in the tree.
use nyet.Prelude.{
  ℕ, zero, suc, ◌≤◌, ◌<◌, ◌≡◌, refl, sym, ap, subst, ◌∙◌, ◌≢◌, ◌⊎◌, inl, inr, Bool, true, false,
  not, Option, none, some, List, [], ◌∷◌, arith, if◌then◌else◌, if_elim, Bool-cases, Option-cases,
  Bytes, bytes_eq_iff, length,
}
use nyet.Labels.{find_child}
use nyet.RadixTree.{
  Node, Children, RadixEntry, Memory, node, end, child, label_of, labels, child_at, set_child,
  last_child, children_of, capacity_of, fresh, is_sorted, node_create, reserve, put_entry, replace,
  attach, insert_path, copy_note, alloc,
}
use nyet.RadixTree.Siblings.{
  child_named, named, named-last, named-set, child_named-last, child_named-set, set_child-labels,
  child_named-none,
}
use nyet.RadixTree.Shape.{IsTree, IsForest, find, absent, present}
use nyet.RadixTree.Entries.{entry_at, same_path, fresh-entry, entry_at-child, same_path_iff}

-- the tree after an insertion at a path: sound, and changed at that path at most
pub record Inserted (n : Node) (ls : List Bytes) (e : RadixEntry) (r : Bool × Node) : Type 0 where
  pub tree : IsTree r.1
  pub keeps_label : label_of r.1 ≡ label_of n
  pub value : Option RadixEntry
  pub entries : (q : List Bytes) → entry_at r.1 q ≡ (if same_path ls q then value else entry_at n q)
  pub success : r.0 ≡ true → value ≡ some e
  pub failure : r.0 ≡ false → (value ≡ none) ⊎ (value ≡ entry_at n ls)

pub same_entry :
    (n : Node) (ls q : List Bytes)
    → entry_at n q ≡ (if same_path ls q then entry_at n ls else entry_at n q)
same_entry n ls q = elim (Bool-cases (same_path ls q)) [
  | inl h ↦ rw h (ap (entry_at n) (sym ((same_path_iff ls q).0 h)))
  | inr h ↦ rw h refl
]

-- an insertion that changes nothing
unchanged : (n : Node) (ls : List Bytes) (e : RadixEntry) → IsTree n → Inserted n ls e (false, n)
unchanged n ls e t = record {
  tree = t;
  keeps_label = refl;
  value = entry_at n ls;
  entries = λ q. same_entry n ls q;
  success = λ h. ground arith;
  failure = λ h. inr refl;
}

put-Inserted :
    (n : Node) (e : RadixEntry) (m : Memory) → IsTree n → Inserted n [] e (put_entry n e m)
unfolding put_entry entry_at same_path IsTree
put-Inserted (node l old cs cap s) e m t =
    if_elim (Inserted (node l old cs cap s) [] e) (not (copy_note e.note m).0) _ _
      (λ _. unchanged (node l old cs cap s) [] e t)
      (λ _.
        if_elim (Inserted (node l old cs cap s) [] e) (not (alloc (copy_note e.note m).1).0) _ _
          (λ _. record {
            tree = t;
            keeps_label = refl;
            value = none;
            entries = at none;
            success = λ h. ground arith;
            failure = λ h. inl refl;
          })
          (λ _. record {
            tree = t;
            keeps_label = refl;
            value = some e;
            entries = at (some e);
            success = λ h. refl;
            failure = λ h. ground arith;
          }))
  where
    at :
        (v : Option RadixEntry) (q : List Bytes)
        → entry_at (node l v cs cap s) q
          ≡ (if same_path [] q then v else entry_at (node l old cs cap s) q)
    at v [] = refl
    at v (x ∷ xs) = refl

set-IsForest :
    (cs : Children) (k : ℕ) (c : Node) → IsForest cs → IsTree c → IsForest (set_child cs k c)
unfolding IsForest
set-IsForest end k c f t = tt
set-IsForest (child n cs) zero c f t = (t, f.1)
set-IsForest (child n cs) (suc k) c f t = (f.0, set-IsForest cs k c f.1 t)

last-IsForest : (cs : Children) (c : Node) → IsForest cs → IsTree c → IsForest (last_child cs c)
unfolding IsForest
last-IsForest end c f t = (t, tt)
last-IsForest (child n cs) c f t = (f.0, last-IsForest cs c f.1 t)

last-length :
    (cs : Children) (c : Node) → length (labels (last_child cs c)) ≡ suc (length (labels cs))
last-length end c = refl
last-length (child n cs) c = ap suc (last-length cs c)

-- another node in the place of a child
pub replace-IsTree :
    (n c c' : Node) (k : ℕ) (ok : Bool)
    → IsTree n
    → child_at (children_of n) k ≡ some c
    → label_of c' ≡ label_of c
    → IsTree c'
    → IsTree (replace n k (ok, c')).1 × (label_of (replace n k (ok, c')).1 ≡ label_of n)
unfolding IsTree
replace-IsTree (node l0 e0 cs cap s) c c' k ok (d, asc, fits, f) at same t = (
  (
    (λ q. rw (named-set q cs k c c' at same) (d q)),
    rw (set_child-labels cs k c c' at same) asc,
    rw (set_child-labels cs k c c' at same) fits,
    set-IsForest cs k c' f t,
  ),
  refl,
)

pub replace-entry_at :
    (n c c' : Node) (k : ℕ) (ok : Bool) (l : Bytes) (ls : List Bytes) (value : Option RadixEntry)
    → IsTree n
    → child_at (children_of n) k ≡ some c
    → label_of c ≡ l
    → child_named l (children_of n) ≡ some c
    → label_of c' ≡ label_of c
    → ((q : List Bytes) → entry_at c' q ≡ (if same_path ls q then value else entry_at c q))
    → (q : List Bytes)
    → entry_at (replace n k (ok, c')).1 q ≡ (if same_path (l ∷ ls) q then value else entry_at n q)
unfolding IsTree entry_at
replace-entry_at (node l0 e0 cs cap s) c c' k ok l ls value (d, asc, fits, f) at same here keeps
      at_c =
    entry_at-child (node l0 e0 cs cap s) (node l0 e0 (set_child cs k c') cap s) c' l (entry_at c)
      value ls refl (λ q. child_named-set q cs k c c' (d (label_of c)) at keeps ∙ rw same refl) at_c
      (λ qs. rw here refl)

-- one level up from a child that was there
replace-Inserted :
    (n c : Node) (k : ℕ) (l : Bytes) (ls : List Bytes) (e : RadixEntry) (r : Bool × Node)
    → IsTree n
    → child_at (children_of n) k ≡ some c
    → label_of c ≡ l
    → child_named l (children_of n) ≡ some c
    → Inserted c ls e r
    → Inserted n (l ∷ ls) e (replace n k r)
unfolding entry_at
replace-Inserted (node l0 e0 cs cap s) c k l ls e (ok, c') t at same here i = record {
  tree = (replace-IsTree (node l0 e0 cs cap s) c c' k ok t at i.keeps_label i.tree).0;
  keeps_label = refl;
  value = i.value;
  entries =
      replace-entry_at (node l0 e0 cs cap s) c c' k ok l ls i.value t at same here i.keeps_label
        i.entries;
  success = i.success;
  failure = λ h. rw here (i.failure h);
}

reserve-room :
    (count capacity : ℕ) (m : Memory)
    → count ≤ capacity
    → (reserve count capacity m).0 ≡ true
    → count < (reserve count capacity m).1
unfolding reserve
reserve-room count capacity m h r = ground arith

entry_at_array :
    (l : Bytes) (e : Option RadixEntry) (cs : Children) (cap cap' : ℕ) (s s' : Bool)
    (q : List Bytes)
    → entry_at (node l e cs cap' s') q ≡ entry_at (node l e cs cap s) q
unfolding entry_at
entry_at_array l e cs cap cap' s s' [] = refl
entry_at_array l e cs cap cap' s s' (x ∷ xs) = refl

-- one level up from a child that was missing
attach-Inserted :
    (n : Node) (capacity : ℕ) (l : Bytes) (ls : List Bytes) (e : RadixEntry) (r : Bool × Node)
    → IsTree n
    → named l (children_of n) ≡ 0
    → length (labels (children_of n)) < capacity
    → Inserted (fresh l) ls e r
    → Inserted n (l ∷ ls) e (attach n capacity r)
unfolding IsTree entry_at
attach-Inserted (node l0 e0 cs cap s) capacity l ls e (true, c) (d, asc, fits, f) none_yet room i =
    record {
      tree = (
        (λ q. ground (arith, named-last q cs c, d q, i.keeps_label, bytes_eq_iff l q)),
        (λ h. ground arith),
        rw (last-length cs c) room,
        last-IsForest cs c f i.tree,
      );
      keeps_label = refl;
      value = i.value;
      entries =
          entry_at-child (node l0 e0 cs cap s) (node l0 e0 (last_child cs c) capacity false) c l
            (λ _. none) i.value ls refl
            (λ q. child_named-last q cs c (rw i.keeps_label none_yet) ∙ rw i.keeps_label refl)
            (λ qs.
              i.entries qs ∙ ap (λ t. if same_path ls qs then i.value else t) (fresh-entry l qs))
            (λ qs. rw (child_named-none l cs none_yet) refl);
      success = i.success;
      failure = λ h. ground arith;
    }
attach-Inserted (node l0 e0 cs cap s) capacity l ls e (false, c) (d, asc, fits, f) none_yet room i =
    record {
      tree = (d, (λ h. ground arith), omega arith, f);
      keeps_label = refl;
      value = entry_at (node l0 e0 cs cap s) (l ∷ ls);
      entries = λ q.
          entry_at_array l0 e0 cs cap capacity s false q
          ∙ same_entry (node l0 e0 cs cap s) (l ∷ ls) q;
      success = λ h. ground arith;
      failure = λ h. inr refl;
    }

pub fresh-IsTree : (l : Bytes) → IsTree (fresh l)
unfolding IsTree named
fresh-IsTree l = ((λ q. omega arith), (λ h i j x y a b c. ground arith), omega arith, tt)

pub node_create-fresh :
    (l : Bytes) (m : Memory) (c : Node) → (node_create l m).0 ≡ some c → c ≡ fresh l
unfolding node_create
node_create-fresh l m c h = ground arith

module _ (n : Node) (l : Bytes) (ls : List Bytes) (e : RadixEntry) (m : Memory) where
  abbrev here : Option ℕ
  here = find_child (is_sorted n) (labels (children_of n)) l

  abbrev room : Bool × ℕ × Memory
  room = reserve (length (labels (children_of n))) (capacity_of n) (node_create l m).1

  pub insert_path-present :
      (k : ℕ) (c : Node)
      → here ≡ some k
      → child_at (children_of n) k ≡ some c
      → insert_path n (l ∷ ls) e m ≡ replace n k (insert_path c ls e m)
  unfolding insert_path
  insert_path-present k c h at = ground arith

  insert_path-unmade :
      here ≡ none → (node_create l m).0 ≡ none → insert_path n (l ∷ ls) e m ≡ (false, n)
  unfolding insert_path
  insert_path-unmade h made = ground arith

  insert_path-full :
      (c : Node)
      → here ≡ none
      → (node_create l m).0 ≡ some c
      → room.0 ≡ false
      → insert_path n (l ∷ ls) e m ≡ (false, n)
  unfolding insert_path
  insert_path-full c h made r = ground arith

  insert_path-new :
      (c : Node)
      → here ≡ none
      → (node_create l m).0 ≡ some c
      → room.0 ≡ true
      → insert_path n (l ∷ ls) e m ≡ attach n room.1 (insert_path c ls e room.2)
  unfolding insert_path
  insert_path-new c h made r = ground arith

fits : (n : Node) → IsTree n → length (labels (children_of n)) ≤ capacity_of n
unfolding IsTree
fits (node l e cs cap s) t = t.2

other_path : (ls q : List Bytes) → ls ≢ q → same_path ls q ≡ false
other_path ls q n = elim (Bool-cases (same_path ls q)) [
  | inr h ↦ h
  | inl h ↦ ground (arith, same_path_iff ls q)
]

-- Every insertion into a sound tree leaves a sound tree that differs at the path at most; it holds
-- the new entry if it succeeded, and otherwise the old one or none.
pub insert_path-Inserted :
    (n : Node) (ls : List Bytes) (e : RadixEntry) (m : Memory)
    → IsTree n
    → Inserted n ls e (insert_path n ls e m)
unfolding insert_path
insert_path-Inserted n [] e m t = put-Inserted n e m t
insert_path-Inserted n (l ∷ ls) e m t = elim (find n l t) [
  | present k c h at same named u ↦ rw (insert_path-present n l ls e m k c h at) (
      replace-Inserted n c k l ls e (insert_path c ls e m) t at same named
        (insert_path-Inserted c ls e m u))
  | absent h z ↦ elim (Option-cases (node_create l m).0) [
    | inl made ↦ rw (insert_path-unmade n l ls e m h made) (unchanged n (l ∷ ls) e t)
    | inr (c, made) ↦ elim (Bool-cases (room n l ls e m).0) [
      | inr full ↦ rw (insert_path-full n l ls e m c h made full) (unchanged n (l ∷ ls) e t)
      | inl r ↦
          let new = node_create-fresh l m c made in
          let u : IsTree c = subst IsTree (sym new) (fresh-IsTree l) in
          let i : Inserted (fresh l) ls e (insert_path c ls e (room n l ls e m).2) =
            subst (λ x. Inserted x ls e (insert_path c ls e (room n l ls e m).2)) new
              (insert_path-Inserted c ls e (room n l ls e m).2 u) in
          rw (insert_path-new n l ls e m c h made r) (
            attach-Inserted n (room n l ls e m).1 l ls e (insert_path c ls e (room n l ls e m).2) t
              z
              (reserve-room (length (labels (children_of n))) (capacity_of n) (node_create l m).1
                (fits n t) r)
              i)
    ]
  ]
]

-- In a sound tree, an insertion that succeeds puts the entry at its path and leaves every other
-- path's entry; one that fails leaves every other path's entry too.
pub insert_path-entry_at :
    (n : Node) (ls q : List Bytes) (e : RadixEntry) (m : Memory)
    → IsTree n
    → ((insert_path n ls e m).0 ≡ true → entry_at (insert_path n ls e m).1 ls ≡ some e)
      × (ls ≢ q → entry_at (insert_path n ls e m).1 q ≡ entry_at n q)
insert_path-entry_at n ls q e m t =
    let i = insert_path-Inserted n ls e m t in
    (
      λ ok. i.entries ls ∙ rw ((same_path_iff ls ls).1 refl) (i.success ok),
      λ other. i.entries q ∙ rw (other_path ls q other) refl,
    )
