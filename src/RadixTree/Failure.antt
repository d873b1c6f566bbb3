-- ===== src/RadixTree/Failure.antt =====
-- The insertion whose last allocation fails.
use nyet.Prelude.{
  ℕ, ◌≡◌, refl, sym, ◌∙◌, Bool, false, none, some, List, [], ◌∷◌, arith, Bytes, bytes_eq_refl,
}
use nyet.RadixTree.{
  Node, RadixEntry, Memory, node, put_entry, insert_path, replace, children_of, child_at, label_of,
}
use nyet.RadixTree.Siblings.{child_named-set}
use nyet.RadixTree.Shape.{IsTree, find, absent, present}
use nyet.RadixTree.Entries.{entry_at}
use nyet.RadixTree.Insert.{insert_path-present, insert_path-Inserted}
use nyet.RadixTree.Lookup.{entry_at-present, entry_at-absent}

put-lost :
    (n : Node) (e : RadixEntry) (m : Memory)
    → e.note ≡ none
    → ((put_entry n e (false ∷ m)).0 ≡ false) × (entry_at (put_entry n e (false ∷ m)).1 [] ≡ none)
unfolding put_entry entry_at
put-lost (node l old cs cap s) e m h = rw h (refl, refl)

replaced :
    (n c : Node) (k : ℕ) (l : Bytes) (ls : List Bytes) (r : Bool × Node)
    → IsTree n
    → child_at (children_of n) k ≡ some c
    → label_of c ≡ l
    → label_of r.1 ≡ label_of c
    → ((replace n k r).0 ≡ r.0) × (entry_at (replace n k r).1 (l ∷ ls) ≡ entry_at r.1 ls)
unfolding entry_at IsTree
replaced (node l0 e0 cs cap s) c k l ls (ok, c') t at same keeps =
    (refl, rw (child_named-set l cs k c c' (t.0 (label_of c)) at keeps, same, bytes_eq_refl l) refl)

-- On a sound tree, when the path already has an entry and the new one has no note, an insertion
-- whose allocation fails reports so and leaves no entry at all on the path.
pub insert_path-lost :
    (n : Node) (ls : List Bytes) (old e : RadixEntry) (m : Memory)
    → IsTree n
    → entry_at n ls ≡ some old
    → e.note ≡ none
    → ((insert_path n ls e (false ∷ m)).0 ≡ false)
      × (entry_at (insert_path n ls e (false ∷ m)).1 ls ≡ none)
unfolding insert_path
insert_path-lost n [] old e m t h g = put-lost n e m g
insert_path-lost n (l ∷ ls) old e m t h g = elim (find n l t) [
  | absent f z ↦ ground (arith, entry_at-absent n l z ls)
  | present k c f at same known u ↦
      let i = insert_path-lost c ls old e m u (sym (entry_at-present n c l known ls) ∙ h) g in
      let keeps = (insert_path-Inserted c ls e (false ∷ m) u).keeps_label in
      let (a, b) = replaced n c k l ls (insert_path c ls e (false ∷ m)) t at same keeps in
      rw (insert_path-present n l ls e (false ∷ m) k c f at) (a ∙ i.0, b ∙ i.1)
]
