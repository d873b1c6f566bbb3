-- ===== src/RadixTree/Entries.antt =====
-- The tree as a map from paths of labels to entries.
use nyet.Prelude.{
  ◌≡◌, refl, sym, ap, ◌∙◌, ◌↔◌, inl, inr, Bool, true, false, ◌&&◌, Option, none, some, List, [],
  ◌∷◌, arith, if◌then◌else◌, Bool-cases, Bytes, bytes_eq, bytes_eq_iff,
}
use nyet.RadixTree.{Node, RadixEntry, children_of, entry_of, fresh}
use nyet.RadixTree.Siblings.{child_named}

abbrev pub at_child : Option Node → (Node → Option RadixEntry) → Option RadixEntry
at_child none f = none
at_child (some c) f = f c

-- the entry at the end of a path
unfoldable pub entry_at : Node → List Bytes → Option RadixEntry
entry_at n [] = entry_of n
entry_at n (l ∷ ls) = at_child (child_named l (children_of n)) (λ c. entry_at c ls)

unfoldable pub same_path : List Bytes → List Bytes → Bool
same_path [] [] = true
same_path [] (y ∷ ys) = false
same_path (x ∷ xs) [] = false
same_path (x ∷ xs) (y ∷ ys) = bytes_eq x y && same_path xs ys

pub same_path_iff : (xs ys : List Bytes) → (same_path xs ys ≡ true) ↔ (xs ≡ ys)
unfolding same_path
same_path_iff [] [] = (λ h. refl, λ h. refl)
same_path_iff [] (y ∷ ys) = ground arith
same_path_iff (x ∷ xs) [] = ground arith
same_path_iff (x ∷ xs) (y ∷ ys) = ground (arith, bytes_eq_iff x y, same_path_iff xs ys)

pub fresh-entry : (l : Bytes) (q : List Bytes) → entry_at (fresh l) q ≡ none
unfolding entry_at child_named
fresh-entry l [] = refl
fresh-entry l (x ∷ xs) = refl

-- a tree whose root differs from another's in what one child holds
pub entry_at-child :
    (n n' c' : Node) (l : Bytes) (old : List Bytes → Option RadixEntry) (value : Option RadixEntry)
    (ls : List Bytes)
    → entry_of n' ≡ entry_of n
    → ((q : Bytes)
        → child_named q (children_of n')
          ≡ (if bytes_eq l q then some c' else child_named q (children_of n)))
    → ((qs : List Bytes) → entry_at c' qs ≡ (if same_path ls qs then value else old qs))
    → ((qs : List Bytes) → entry_at n (l ∷ qs) ≡ old qs)
    → (q : List Bytes) → entry_at n' q ≡ (if same_path (l ∷ ls) q then value else entry_at n q)
unfolding entry_at same_path
entry_at-child n n' c' l old value ls a b c d [] = a
entry_at-child n n' c' l old value ls a b c d (q ∷ qs) = elim (Bool-cases (bytes_eq l q)) [
  | inl e ↦
      rw (b q, e)
        (c qs
          ∙ ap (λ t. if same_path ls qs then value else t)
              (sym (d qs) ∙ ap (λ t. entry_at n (t ∷ qs)) ((bytes_eq_iff l q).0 e)))
  | inr e ↦ rw (b q, e) refl
]
