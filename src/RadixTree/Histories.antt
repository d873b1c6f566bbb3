-- ===== src/RadixTree/Histories.antt =====
-- Whole histories of a builder and of the published tree: insertions with any allocations failing,
-- publications, live insertions and lookups, in any order.
use nyet.Prelude.{
  ℕ, suc, ◌+◌, ◌-◌, ◌≤◌, ◌≡◌, refl, sym, ap, subst, ◌∙◌, ◌⊎◌, inl, inr, Option, none, some, List,
  [], ◌∷◌, arith, Bool-cases, Option-cases, Bytes, length, All, take,
}
use nyet.Labels.{split_domain_rtl}
use nyet.RadixTree.{
  Node, RadixEntry, RadixStatus, Memory, node_create, insert_path, radix_insert, radix_publish,
  radix_tree_insert_live, radix_lookup, descend, nothing_yet, bump_at, allowed, blocked, review,
}
use nyet.RadixTree.Shape.{IsTree}
use nyet.RadixTree.Entries.{entry_at, same_path, same_path_iff}
use nyet.RadixTree.Insert.{insert_path-Inserted, node_create-fresh, fresh-IsTree}
use nyet.RadixTree.Publish.{sorted-IsTree}
use nyet.RadixTree.Lookup.{Trail, trail, verdict, deepest, step_on, descend-verdict}
use nyet.RadixTree.Bump.{bump_at-Bumped, bump_option}

-- a place on the trail is a prefix that has the entry
abbrev Placed : (List Bytes → Option RadixEntry) → List Bytes → ℕ → ℕ × RadixEntry → Type 0
Placed f ls i x = (i ≤ x.0) × (x.0 ≤ i + length ls) × (f (take (x.0 - i) ls) ≡ some x.1)

step_on-All :
    (P : ℕ × RadixEntry → Type 0) (i : ℕ) (o : Option RadixEntry) (es : Trail)
    → ((e : RadixEntry) → o ≡ some e → P (i, e))
    → All P es
    → All P (step_on i o es)
step_on-All P i none es h a = a
step_on-All P i (some e) es h a = (h e refl, a)

All-imp :
    (P Q : ℕ × RadixEntry → Type 0) (es : Trail)
    → ((x : ℕ × RadixEntry) → P x → Q x)
    → All P es
    → All Q es
All-imp P Q [] h a = tt
All-imp P Q (x ∷ es) h a = (h x a.0, All-imp P Q es h a.1)

next : (i d : ℕ) → suc i ≤ d → d - i ≡ suc (d - suc i)
next i d a = omega arith

one : (i : ℕ) → suc i - i ≡ 1
one i = omega arith

trail-Placed :
    (f : List Bytes → Option RadixEntry) (ls : List Bytes) (i : ℕ)
    → All (Placed f ls i) (trail f ls i)
unfolding trail
trail-Placed f [] i = tt
trail-Placed f (l ∷ ls) i =
    step_on-All (Placed f (l ∷ ls) i) (suc i) (f (l ∷ [])) _
      (λ e h. (omega arith, omega arith, rw (one i) h))
      (All-imp (Placed (λ p. f (l ∷ p)) ls (suc i)) (Placed f (l ∷ ls) i) _ deeper
        (trail-Placed (λ p. f (l ∷ p)) ls (suc i)))
  where
    deeper : (x : ℕ × RadixEntry) → Placed (λ p. f (l ∷ p)) ls (suc i) x → Placed f (l ∷ ls) i x
    deeper (d, e) (a, b, c) = (omega arith, omega arith, rw (next i d a) c)

deepest-All :
    (P : ℕ × RadixEntry → Type 0) (s : RadixStatus) (es : Trail) (x : ℕ × RadixEntry)
    → All P es
    → deepest s es ≡ some x
    → P x
unfolding deepest
deepest-All P s [] x a h = ground arith
deepest-All P s ((i, e) ∷ es) x a h = elim (Option-cases (deepest s es)) [
  | inr (y, k) ↦ deepest-All P s es x a.1 (ground (arith, h, k))
  | inl k ↦ subst P (ground (arith, h, k)) a.0
]

verdict-All :
    (P : ℕ × RadixEntry → Type 0) (es : Trail) (x : ℕ × RadixEntry)
    → All P es
    → verdict es ≡ some x
    → P x
unfolding verdict
verdict-All P es x a h = elim (Option-cases (deepest allowed es)) [
  | inr (y, k) ↦ deepest-All P allowed es x a (ground (arith, h, k))
  | inl k ↦ elim (Option-cases (deepest blocked es)) [
    | inr (y, m) ↦ deepest-All P blocked es x a (ground (arith, h, k, m))
    | inl m ↦ deepest-All P review es x a (ground (arith, h, k, m))
  ]
]

from_zero : (d : ℕ) → d - 0 ≡ d
from_zero d = omega arith

-- what a lookup settled on stands at that depth of the path
pub descend-Placed :
    (n : Node) (ls : List Bytes) (d : ℕ) (e : RadixEntry)
    → IsTree n
    → (descend n ls 0 nothing_yet).matched ≡ some (d, e)
    → (d ≤ length ls) × (entry_at n (take d ls) ≡ some e)
descend-Placed n ls d e t h =
    let (a, b, c) =
      verdict-All (Placed (entry_at n) ls 0) (trail (entry_at n) ls 0) (d, e)
        (trail-Placed (entry_at n) ls 0) (sym (descend-verdict n ls t) ∙ h) in
    (omega arith, rw (sym (from_zero d)) c)

abbrev pub status_of : Option RadixEntry → Option RadixStatus
status_of none = none
status_of (some e) = some e.status

status-bump : (now : ℕ) (o : Option RadixEntry) → status_of (bump_option now o) ≡ status_of o
status-bump now none = refl
status-bump now (some e) = refl

bump-status :
    (n : Node) (ls : List Bytes) (d now : ℕ) (q : List Bytes)
    → d ≤ length ls
    → IsTree n
    → status_of (entry_at (bump_at n ls d now) q) ≡ status_of (entry_at n q)
bump-status n ls d now q b t =
    let i = bump_at-Bumped n ls d now b t in
    ap status_of (i.entries q) ∙ elim (Bool-cases (same_path (take d ls) q)) [
      | inl h ↦ rw h (
          status-bump now (entry_at n (take d ls))
          ∙ ap (λ p. status_of (entry_at n p)) ((same_path_iff (take d ls) q).0 h))
      | inr h ↦ rw h refl
    ]

-- sound, if there is a tree at all
abbrev pub IsTree? : Option Node → Type 0
IsTree? none = Unit
IsTree? (some n) = IsTree n

-- what a lookup leaves
abbrev pub Looked : Node → Option Node → Type 0
Looked root none = ⊥
Looked root (some n) =
    IsTree n × ((q : List Bytes) → status_of (entry_at n q) ≡ status_of (entry_at root q))

module _ (root : Node) (domain : Bytes) (now : ℕ) where
  after-refused :
      split_domain_rtl domain ≡ none → (radix_lookup (some root) domain now).1 ≡ some root
  unfolding radix_lookup
  after-refused h = ground arith

  after-unmatched :
      (ls : List Bytes)
      → split_domain_rtl domain ≡ some ls
      → (descend root ls 0 nothing_yet).matched ≡ none
      → (radix_lookup (some root) domain now).1 ≡ some root
  unfolding radix_lookup
  after-unmatched ls h k = ground arith

  after-matched :
      (ls : List Bytes) (d : ℕ) (e : RadixEntry)
      → split_domain_rtl domain ≡ some ls
      → (descend root ls 0 nothing_yet).matched ≡ some (d, e)
      → (radix_lookup (some root) domain now).1 ≡ some (bump_at root ls d now)
  unfolding radix_lookup
  after-matched ls d e h k = ground arith

  -- A lookup on a sound tree leaves a sound tree with the same status on every path.
  pub radix_lookup-tree : IsTree root → Looked root (radix_lookup (some root) domain now).1
  radix_lookup-tree t = elim (Option-cases (split_domain_rtl domain)) [
    | inl h ↦ subst (Looked root) (sym (after-refused h)) (t, λ q. refl)
    | inr (ls, h) ↦ elim (Option-cases (descend root ls 0 nothing_yet).matched) [
      | inl k ↦ subst (Looked root) (sym (after-unmatched ls h k)) (t, λ q. refl)
      | inr ((d, e), k) ↦
          let b = (descend-Placed root ls d e t k).0 in
          subst (Looked root) (sym (after-matched ls d e h k))
            ((bump_at-Bumped root ls d now b t).tree, λ q. bump-status root ls d now q b t)
    ]
  ]

-- the tree under construction and the published one
pub record Trees : Type 0 where
  pub builder : Option Node
  pub live : Option Node

pub data Step : Trees → Trees → Type 0 where
  begins : (t : Trees) (m : Memory) → Step t (record t { builder = (node_create [] m).0 })
  inserts :
      (t : Trees) (d : Bytes) (e : RadixEntry) (m : Memory)
      → Step t (record t { builder = (radix_insert t.builder d e m).1 })
  publishes :
      (t : Trees)
      → Step t (record {
        builder = (radix_publish t.live t.builder).1;
        live = (radix_publish t.live t.builder).0;
      })
  inserts_live :
      (t : Trees) (d : Bytes) (e : RadixEntry) (m : Memory)
      → Step t (record t { live = (radix_tree_insert_live t.live d e m).1 })
  looks_up :
      (t : Trees) (d : Bytes) (now : ℕ) → Step t (record t { live = (radix_lookup t.live d now).1 })

pub data Reachable : Trees → Type 0 where
  start : Reachable (record { builder = none; live = none })
  after : {t t' : Trees} → Reachable t → Step t t' → Reachable t'

abbrev pub AreTrees : Trees → Type 0
AreTrees t = IsTree? t.builder × IsTree? t.live

Looked-IsTree : (root : Node) (o : Option Node) → Looked root o → IsTree? o
Looked-IsTree root none l = tt
Looked-IsTree root (some n) l = l.0

-- an insertion of a domain leaves the tree alone or inserts at a path of labels
abbrev Tried : Node → Bytes → RadixEntry → Memory → Option Node → Type 0
Tried root d e m r =
    (r ≡ some root)
    ⊎ ((l : Bytes) × (ls : List Bytes) × (split_domain_rtl d ≡ some (l ∷ ls))
        × (r ≡ some (insert_path root (l ∷ ls) e m).1))

radix_insert-Tried :
    (root : Node) (d : Bytes) (e : RadixEntry) (m : Memory)
    → Tried root d e m (radix_insert (some root) d e m).1
unfolding radix_insert
radix_insert-Tried root d e m = go (split_domain_rtl d) refl
  where
    go :
        (s : Option (List Bytes))
        → split_domain_rtl d ≡ s
        → Tried root d e m (radix_insert (some root) d e m).1
    go none h = inl (ground arith)
    go (some []) h = inl (ground arith)
    go (some (l ∷ ls)) h = inr (l, ls, h, ground arith)

live-Tried :
    (root : Node) (d : Bytes) (e : RadixEntry) (m : Memory)
    → Tried root d e m (radix_tree_insert_live (some root) d e m).1
unfolding radix_tree_insert_live
live-Tried root d e m = go (split_domain_rtl d) refl
  where
    go :
        (s : Option (List Bytes))
        → split_domain_rtl d ≡ s
        → Tried root d e m (radix_tree_insert_live (some root) d e m).1
    go none h = inl (ground arith)
    go (some []) h = inl (ground arith)
    go (some (l ∷ ls)) h = inr (l, ls, h, ground arith)

Tried-IsTree :
    (root : Node) (d : Bytes) (e : RadixEntry) (m : Memory) (r : Option Node)
    → IsTree root
    → Tried root d e m r
    → IsTree? r
Tried-IsTree root d e m r t (inl h) = subst IsTree? (sym h) t
Tried-IsTree root d e m r t (inr (l, ls, s, h)) =
    subst IsTree? (sym h) (insert_path-Inserted root (l ∷ ls) e m t).tree

insert-IsTree? :
    (o : Option Node) (d : Bytes) (e : RadixEntry) (m : Memory)
    → IsTree? o
    → IsTree? (radix_insert o d e m).1
unfolding radix_insert
insert-IsTree? none d e m t = tt
insert-IsTree? (some root) d e m t = Tried-IsTree root d e m _ t (radix_insert-Tried root d e m)

no_live : (d : Bytes) (e : RadixEntry) (m : Memory) → (radix_tree_insert_live none d e m).1 ≡ none
unfolding radix_tree_insert_live
no_live d e m = go (split_domain_rtl d) refl
  where
    go :
        (s : Option (List Bytes))
        → split_domain_rtl d ≡ s
        → (radix_tree_insert_live none d e m).1 ≡ none
    go none h = ground arith
    go (some []) h = ground arith
    go (some (l ∷ ls)) h = ground arith

live-IsTree? :
    (o : Option Node) (d : Bytes) (e : RadixEntry) (m : Memory)
    → IsTree? o
    → IsTree? (radix_tree_insert_live o d e m).1
live-IsTree? none d e m t = subst IsTree? (sym (no_live d e m)) tt
live-IsTree? (some root) d e m t = Tried-IsTree root d e m _ t (live-Tried root d e m)

made-IsTree? : (m : Memory) → IsTree? (node_create [] m).0
made-IsTree? m = go (node_create [] m).0 refl
  where
    go : (o : Option Node) → (node_create [] m).0 ≡ o → IsTree? o
    go none h = tt
    go (some c) h = subst IsTree (sym (node_create-fresh [] m c h)) (fresh-IsTree [])

publish-IsTree? :
    (live builder : Option Node)
    → IsTree? builder
    → IsTree? (radix_publish live builder).0 × IsTree? (radix_publish live builder).1
unfolding radix_publish
publish-IsTree? live none t = (tt, tt)
publish-IsTree? live (some root) t = (sorted-IsTree root t, tt)

lookup-IsTree? :
    (o : Option Node) (d : Bytes) (now : ℕ) → IsTree? o → IsTree? (radix_lookup o d now).1
unfolding radix_lookup
lookup-IsTree? none d now t = tt
lookup-IsTree? (some root) d now t =
    Looked-IsTree root (radix_lookup (some root) d now).1 (radix_lookup-tree root d now t)

Step-AreTrees : {t t' : Trees} → Step t t' → AreTrees t → AreTrees t'
Step-AreTrees (begins t m) (a, b) = (made-IsTree? m, b)
Step-AreTrees (inserts t d e m) (a, b) = (insert-IsTree? t.builder d e m a, b)
Step-AreTrees (publishes t) (a, b) =
    ((publish-IsTree? t.live t.builder a).1, (publish-IsTree? t.live t.builder a).0)
Step-AreTrees (inserts_live t d e m) (a, b) = (a, live-IsTree? t.live d e m b)
Step-AreTrees (looks_up t d now) (a, b) = (a, lookup-IsTree? t.live d now b)

-- In every reachable state both trees are sound: siblings differ, every array marked as sorted is
-- sorted, and none holds more children than its capacity, whichever allocations failed on the way.
pub Reachable-AreTrees : {t : Trees} → Reachable t → AreTrees t
Reachable-AreTrees start = (tt, tt)
Reachable-AreTrees (after r s) = Step-AreTrees s (Reachable-AreTrees r)
