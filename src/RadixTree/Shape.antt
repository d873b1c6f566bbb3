-- ===== src/RadixTree/Shape.antt =====
-- The invariant of the tree: siblings differ, an array that says so is sorted, and it fits its
-- capacity; and what `find_child` answers under it.
use nyet.Prelude.{
  ℕ, zero, suc, ◌≤◌, ◌≡◌, refl, subst, true, Option, none, some, arith, Bytes, length,
}
use nyet.Labels.{find_child}
use nyet.Labels.Search.{Ascending, Answer, find_child-Answer}
use nyet.RadixTree.{
  Node, Children, node, end, child, label_of, labels, child_at, children_of, is_sorted,
}
use nyet.RadixTree.Siblings.{
  child_named, named, Distinct, child_at-label, child_named-at, absent-named,
}

unfoldable mutual
  pub IsTree : Node → Type 0
  IsTree (node l e cs cap s) =
      Distinct cs × (s ≡ true → Ascending (labels cs)) × (length (labels cs) ≤ cap) × IsForest cs

  pub IsForest : Children → Type 0
  IsForest end = Unit
  IsForest (child n cs) = IsTree n × IsForest cs

-- what a search among the children of a node comes to
pub data Search (n : Node) (l : Bytes) : Type 0 where
  absent :
      find_child (is_sorted n) (labels (children_of n)) l ≡ none
      → named l (children_of n) ≡ 0
      → Search n l
  present :
      (k : ℕ) (c : Node)
      → find_child (is_sorted n) (labels (children_of n)) l ≡ some k
      → child_at (children_of n) k ≡ some c
      → label_of c ≡ l
      → child_named l (children_of n) ≡ some c
      → IsTree c
      → Search n l

forest-child : (cs : Children) (k : ℕ) (c : Node) → IsForest cs → child_at cs k ≡ some c → IsTree c
unfolding IsTree
forest-child end k c f h = ground arith
forest-child (child n cs) zero c f h = subst IsTree (cc) f.0
forest-child (child n cs) (suc k) c f h = forest-child cs k c f.1 h

pub find : (n : Node) (l : Bytes) → IsTree n → Search n l
unfolding IsTree
find (node l0 e cs cap s) l (d, asc, fits, f) = go (find_child s (labels cs) l) refl
  where
    go : (r : Option ℕ) → find_child s (labels cs) l ≡ r → Search (node l0 e cs cap s) l
    go none h = absent h (
        absent-named l cs (λ k a.
          (subst (Answer (labels cs) l 0 (length (labels cs))) h
              (find_child-Answer s (labels cs) l asc))
            k (omega arith) a))
    go (some k) h =
        let (c, at, same) = child_at-label cs k l (
          subst (Answer (labels cs) l 0 (length (labels cs))) h
            (find_child-Answer s (labels cs) l asc)) in
        present k c h at same (child_named-at l cs k c (d l) at same) (forest-child cs k c f at)
