-- ===== src/RadixTree/Publish.antt =====
-- `sort_children_recursive`, which `radix_publish` and `radix_tree_swap` run on the builder's tree:
-- it orders every array and changes nothing that a path finds.
use nyet.Prelude.{
  zero, suc, ◌≡◌, refl, sym, ap, subst, ◌∙◌, ◌≢◌, ◌⊎◌, inl, inr, Option, none, some, List, [], ◌∷◌,
  arith, Bool-cases, Option-cases, Bytes, bytes_eq, bytes_eq_iff, bytes_eq_refl, length, All,
  All-get_elem?,
}
use nyet.Labels.{less, same, greater, Sign, label_compare}
use nyet.Labels.Search.{Ascending}
use nyet.Labels.Order.{lex, label_compare-lex, lex-same, lex-greater_asymm, lex-less_trans}
use nyet.RadixTree.{
  Node, Children, node, end, child, label_of, labels, children_of, entry_of, insert_in_order,
  sort_children_recursive, sort_children,
}
use nyet.RadixTree.Siblings.{child_named, named, Distinct}
use nyet.RadixTree.Shape.{IsTree, IsForest}
use nyet.RadixTree.Entries.{entry_at}

-- each label is below all that follow it
abbrev pub Sorted : List Bytes → Type 0
Sorted [] = Unit
Sorted (x ∷ xs) = All (λ y. lex x y ≡ less) xs × Sorted xs

pub Sorted-Ascending : (xs : List Bytes) → Sorted xs → Ascending xs
Sorted-Ascending [] s i j x y lt a b = ground arith
Sorted-Ascending (z ∷ zs) s zero zero x y lt a b = ground arith
Sorted-Ascending (z ∷ zs) s zero (suc j) x y lt a b =
    subst (λ t. lex t y ≡ less) (cc) (All-get_elem? (λ t. lex z t ≡ less) zs j y s.0 b)
Sorted-Ascending (z ∷ zs) s (suc i) zero x y lt a b = ground arith
Sorted-Ascending (z ∷ zs) s (suc i) (suc j) x y lt a b =
    Sorted-Ascending zs s.1 i j x y (omega arith) a b

All-trans :
    (x y : Bytes) (zs : List Bytes)
    → lex x y ≡ less
    → All (λ z. lex y z ≡ less) zs
    → All (λ z. lex x z ≡ less) zs
All-trans x y [] h a = tt
All-trans x y (z ∷ zs) h a = (lex-less_trans x y z h a.0, All-trans x y zs h a.1)

-- the two places that the head of the array can have after an insertion
abbrev After : Node → Node → Children → Type 0
After n c cs =
    ((insert_in_order n (child c cs) ≡ child c (insert_in_order n cs))
      × (lex (label_of c) (label_of n) ≡ less))
    ⊎ ((insert_in_order n (child c cs) ≡ child n (child c cs))
        × (label_of c ≢ label_of n → lex (label_of n) (label_of c) ≡ less))

after : (n c : Node) (cs : Children) → After n c cs
unfolding insert_in_order
after n c cs = go (label_compare (label_of c) (label_of n)) refl
  where
    go : (s : Sign) → label_compare (label_of c) (label_of n) ≡ s → After n c cs
    go less h = inl (ground arith, sym (label_compare-lex (label_of c) (label_of n)) ∙ h)
    go same h = inr (
      ground arith,
      λ d. ground (
        arith,
        d (
            lex-same (label_of c) (label_of n)
              (sym (label_compare-lex (label_of c) (label_of n)) ∙ h)),
      ),
    )
    go greater h = inr (
      ground arith,
      λ d.
          lex-greater_asymm (label_of c) (label_of n)
            (sym (label_compare-lex (label_of c) (label_of n)) ∙ h),
    )

in_order-named :
    (q : Bytes) (n : Node) (cs : Children) → named q (insert_in_order n cs) ≡ named q (child n cs)
unfolding insert_in_order named
in_order-named q n end = refl
in_order-named q n (child c cs) = ground (arith, in_order-named q n cs)

in_order-length :
    (n : Node) (cs : Children) → length (labels (insert_in_order n cs)) ≡ suc (length (labels cs))
unfolding insert_in_order
in_order-length n end = refl
in_order-length n (child c cs) = ground (arith, in_order-length n cs)

in_order-child_named :
    (q : Bytes) (n : Node) (cs : Children)
    → named (label_of n) cs ≡ 0
    → child_named q (insert_in_order n cs) ≡ child_named q (child n cs)
unfolding insert_in_order child_named named
in_order-child_named q n end z = refl
in_order-child_named q n (child c cs) z = ground (
  arith,
  in_order-child_named q n cs,
  bytes_eq_iff (label_of n) q,
  bytes_eq_iff (label_of c) q,
  bytes_eq_iff (label_of c) (label_of n),
)

in_order-All :
    (P : Bytes → Type 0) (n : Node) (cs : Children)
    → P (label_of n)
    → All P (labels cs)
    → All P (labels (insert_in_order n cs))
unfolding insert_in_order
in_order-All P n end p a = (p, tt)
in_order-All P n (child c cs) p a = elim (after n c cs) [
  | inl (e, h) ↦ rw e (a.0, in_order-All P n cs p a.1)
  | inr (e, h) ↦ rw e (p, a)
]

in_order-IsForest :
    (n : Node) (cs : Children) → IsTree n → IsForest cs → IsForest (insert_in_order n cs)
unfolding insert_in_order IsForest
in_order-IsForest n end t f = (t, tt)
in_order-IsForest n (child c cs) t f = elim (after n c cs) [
  | inl (e, h) ↦ rw e (f.0, in_order-IsForest n cs t f.1)
  | inr (e, h) ↦ rw e (t, f)
]

differ :
    (c n : Node) (cs : Children) → named (label_of n) (child c cs) ≡ 0 → label_of c ≢ label_of n
unfolding named
differ c n cs z e = ground (arith, bytes_eq_iff (label_of c) (label_of n))

in_order-Sorted :
    (n : Node) (cs : Children)
    → named (label_of n) cs ≡ 0
    → Sorted (labels cs)
    → Sorted (labels (insert_in_order n cs))
unfolding insert_in_order named
in_order-Sorted n end z s = (tt, tt)
in_order-Sorted n (child c cs) z s = elim (after n c cs) [
  | inl (e, h) ↦ rw e (
    in_order-All (λ y. lex (label_of c) y ≡ less) n cs h s.0,
    in_order-Sorted n cs (omega (arith, z)) s.1,
  )
  | inr (e, h) ↦
      let first = h (differ c n cs z) in
      rw e ((first, All-trans (label_of n) (label_of c) (labels cs) first s.0), s)
]

sorted-label : (n : Node) → label_of (sort_children_recursive n) ≡ label_of n
unfolding sort_children_recursive
sorted-label (node l e cs cap s) = refl

tail-Distinct :
    (c : Node) (cs : Children) → Distinct (child c cs) → Distinct cs × (named (label_of c) cs ≡ 0)
unfolding named
tail-Distinct c cs d =
    ((λ l. omega (arith, d l)), ground (arith, d (label_of c), bytes_eq_refl (label_of c)))

sort_children-named : (q : Bytes) (cs : Children) → named q (sort_children cs) ≡ named q cs
unfolding sort_children_recursive named
sort_children-named q end = refl
sort_children-named q (child c cs) =
    in_order-named q (sort_children_recursive c) (sort_children cs)
    ∙ rw (sorted-label c, sort_children-named q cs) refl

sort_children-length : (cs : Children) → length (labels (sort_children cs)) ≡ length (labels cs)
unfolding sort_children_recursive
sort_children-length end = refl
sort_children-length (child c cs) =
    in_order-length (sort_children_recursive c) (sort_children cs)
    ∙ ap suc (sort_children-length cs)

absent_below :
    (c : Node) (cs : Children)
    → Distinct (child c cs)
    → named (label_of (sort_children_recursive c)) (sort_children cs) ≡ 0
absent_below c cs d =
    rw (sorted-label c, sort_children-named (label_of c) cs) (tail-Distinct c cs d).1

sort_children-Sorted : (cs : Children) → Distinct cs → Sorted (labels (sort_children cs))
unfolding sort_children_recursive
sort_children-Sorted end d = tt
sort_children-Sorted (child c cs) d =
    in_order-Sorted (sort_children_recursive c) (sort_children cs) (absent_below c cs d)
      (sort_children-Sorted cs (tail-Distinct c cs d).0)

mutual
  unfolding sort_children_recursive IsTree

  pub sorted-IsTree : (n : Node) → IsTree n → IsTree (sort_children_recursive n)
  sorted-IsTree (node l e cs cap s) (d, asc, fits, f) = (
    (λ q. rw (sort_children-named q cs) (d q)),
    (λ h. Sorted-Ascending _ (sort_children-Sorted cs d)),
    rw (sort_children-length cs) fits,
    sorted-IsForest cs f,
  )

  sorted-IsForest : (cs : Children) → IsForest cs → IsForest (sort_children cs)
  sorted-IsForest end f = tt
  sorted-IsForest (child c cs) f =
      in_order-IsForest (sort_children_recursive c) (sort_children cs) (sorted-IsTree c f.0)
        (sorted-IsForest cs f.1)

abbrev sorted_option : Option Node → Option Node
sorted_option none = none
sorted_option (some c) = some (sort_children_recursive c)

sort_children-child_named :
    (q : Bytes) (cs : Children)
    → Distinct cs
    → child_named q (sort_children cs) ≡ sorted_option (child_named q cs)
unfolding sort_children_recursive child_named
sort_children-child_named q end d = refl
sort_children-child_named q (child c cs) d =
    in_order-child_named q (sort_children_recursive c) (sort_children cs) (absent_below c cs d)
    ∙ rw (sorted-label c, sort_children-child_named q cs (tail-Distinct c cs d).0)
        (elim (Bool-cases (bytes_eq (label_of c) q)) [ inl e ↦ rw e refl | inr e ↦ rw e refl ])

named-IsTree :
    (q : Bytes) (cs : Children) (c : Node) → IsForest cs → child_named q cs ≡ some c → IsTree c
unfolding child_named IsTree
named-IsTree q end c f h = ground arith
named-IsTree q (child n cs) c f h = elim (Bool-cases (bytes_eq (label_of n) q)) [
  | inl e ↦ subst IsTree (ground (arith, h, e)) f.0
  | inr e ↦ named-IsTree q cs c f.1 (ground (arith, h, e))
]

sorted-child_named :
    (q : Bytes) (n : Node)
    → IsTree n
    → child_named q (children_of (sort_children_recursive n))
      ≡ sorted_option (child_named q (children_of n))
unfolding sort_children_recursive IsTree
sorted-child_named q (node l e cs cap s) t = sort_children-child_named q cs t.0

below-IsTree :
    (n : Node) (q : Bytes) (c : Node) → IsTree n → child_named q (children_of n) ≡ some c → IsTree c
unfolding IsTree
below-IsTree (node l e cs cap s) q c t h = named-IsTree q cs c t.3 h

sorted-entry : (n : Node) → entry_of (sort_children_recursive n) ≡ entry_of n
unfolding sort_children_recursive
sorted-entry (node l e cs cap s) = refl

-- Publishing a sound tree leaves a sound tree with the same entry on every path.
pub sorted-entry_at :
    (n : Node) (q : List Bytes)
    → IsTree n
    → IsTree (sort_children_recursive n) × (entry_at (sort_children_recursive n) q ≡ entry_at n q)
unfolding entry_at
sorted-entry_at n [] t = (sorted-IsTree n t, sorted-entry n)
sorted-entry_at n (l ∷ ls) t = (
  sorted-IsTree n t,
  rw (sorted-child_named l n t) (elim (Option-cases (child_named l (children_of n))) [
    | inl h ↦ rw h refl
    | inr (c, h) ↦ rw h (sorted-entry_at c ls (below-IsTree n l c t h)).1
  ]),
)
