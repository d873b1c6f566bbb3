-- ===== src/RadixTree/Bump.antt =====
-- The count of hits that `radix_lookup` leaves in the tree.
use nyet.Prelude.{
  ℕ, zero, suc, ◌≤◌, ◌≡◌, refl, ◌∙◌, true, Option, none, some, List, [], ◌∷◌, arith, if◌then◌else◌,
  Bytes, length, take,
}
use nyet.RadixTree.{
  Node, RadixEntry, bump, bump_at, children_of, child_at, label_of, labels, is_sorted, node,
  find_child, replace,
}
use nyet.RadixTree.Shape.{IsTree, find, absent, present}
use nyet.RadixTree.Entries.{entry_at, same_path}
use nyet.RadixTree.Insert.{replace-IsTree, replace-entry_at, same_entry}
use nyet.RadixTree.Lookup.{entry_at-absent, entry_at-present}
use nyet.Labels.{find_child}

abbrev pub bump_option : ℕ → Option RadixEntry → Option RadixEntry
bump_option now none = none
bump_option now (some e) = some (bump now e)

-- the same tree but for the hit at one path
pub record Bumped (n : Node) (p : List Bytes) (now : ℕ) (r : Node) : Type 0 where
  pub tree : IsTree r
  pub keeps_label : label_of r ≡ label_of n
  pub entries :
      (q : List Bytes)
      → entry_at r q ≡ (if same_path p q then bump_option now (entry_at n p) else entry_at n q)

here-Bumped :
    (n : Node) (ls : List Bytes) (now : ℕ) → IsTree n → Bumped n [] now (bump_at n ls 0 now)
unfolding bump_at IsTree entry_at same_path
here-Bumped (node l e cs cap s) ls now t = record { tree = t; keeps_label = refl; entries = at e }
  where
    at :
        (e : Option RadixEntry) (q : List Bytes)
        → entry_at (bump_at (node l e cs cap s) ls 0 now) q ≡ (
            if same_path [] q
            then bump_option now (entry_at (node l e cs cap s) [])
            else entry_at (node l e cs cap s) q)
    at none [] = refl
    at (some x) [] = refl
    at none (y ∷ ys) = refl
    at (some x) (y ∷ ys) = refl

module _ (n : Node) (l : Bytes) (ls : List Bytes) (depth now : ℕ) where
  bump_at-absent :
      find_child (is_sorted n) (labels (children_of n)) l ≡ none
      → bump_at n (l ∷ ls) (suc depth) now ≡ n
  unfolding bump_at
  bump_at-absent h = ground arith

  bump_at-present :
      (k : ℕ) (c : Node)
      → find_child (is_sorted n) (labels (children_of n)) l ≡ some k
      → child_at (children_of n) k ≡ some c
      → bump_at n (l ∷ ls) (suc depth) now ≡ (replace n k (true, bump_at c ls depth now)).1
  unfolding bump_at
  bump_at-present k c h at = ground arith

-- A bump on a sound tree leaves a sound tree, in which the entry that far down the path has one
-- hit more and every other entry is as before.
pub bump_at-Bumped :
    (n : Node) (ls : List Bytes) (depth now : ℕ)
    → depth ≤ length ls
    → IsTree n
    → Bumped n (take depth ls) now (bump_at n ls depth now)
bump_at-Bumped n ls zero now b t = here-Bumped n ls now t
bump_at-Bumped n [] (suc depth) now b t = ground arith
bump_at-Bumped n (l ∷ ls) (suc depth) now b t = elim (find n l t) [
  | absent h z ↦ rw (bump_at-absent n l ls depth now h) (record {
    tree = t;
    keeps_label = refl;
    entries =
        λ q. same_entry n (l ∷ take depth ls) q ∙ rw (entry_at-absent n l z (take depth ls)) refl;
  })
  | present k c h at same known u ↦
      let i = bump_at-Bumped c ls depth now (omega arith) u in
      rw (bump_at-present n l ls depth now k c h at) (record {
        tree = (replace-IsTree n c (bump_at c ls depth now) k true t at i.keeps_label i.tree).0;
        keeps_label =
            (replace-IsTree n c (bump_at c ls depth now) k true t at i.keeps_label i.tree).1;
        entries = λ q. rw (entry_at-present n c l known (take depth ls)) (
            replace-entry_at n c (bump_at c ls depth now) k true l (take depth ls)
              (bump_option now (entry_at c (take depth ls))) t at same known i.keeps_label i.entries
              q);
      })
]
