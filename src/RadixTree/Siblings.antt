-- ===== src/RadixTree/Siblings.antt =====
-- The children of a node as a map from labels.
use nyet.Prelude.{
  ℕ, zero, suc, ◌+◌, ◌≤◌, ◌<◌, ◌≡◌, refl, ap, ◌≢◌, Option, none, some, ◌∷◌, arith, if◌then◌else◌,
  Bytes, bytes_eq, bytes_eq_iff, length, get_elem?,
}
use nyet.RadixTree.{Node, Children, end, child, label_of, labels, child_at, set_child, last_child}

-- the first child of a label
unfoldable pub child_named : Bytes → Children → Option Node
child_named l end = none
child_named l (child n cs) =
    let rest = child_named l cs in if bytes_eq (label_of n) l then some n else rest

-- how many children have the label
unfoldable pub named : Bytes → Children → ℕ
named l end = 0
named l (child n cs) = (if bytes_eq (label_of n) l then 1 else 0) + named l cs

abbrev pub Distinct : Children → Type 0
Distinct cs = (l : Bytes) → named l cs ≤ 1

pub child_at-label :
    (cs : Children) (k : ℕ) (l : Bytes)
    → get_elem? (labels cs) k ≡ some l
    → (c : Node) × (child_at cs k ≡ some c) × (label_of c ≡ l)
child_at-label end k l h = ground arith
child_at-label (child n cs) zero l h = (n, refl, ground arith)
child_at-label (child n cs) (suc k) l h = child_at-label cs k l h

pub child_named-none : (l : Bytes) (cs : Children) → named l cs ≡ 0 → child_named l cs ≡ none
unfolding child_named named
child_named-none l end h = refl
child_named-none l (child n cs) h = ground (arith, child_named-none l cs)

named-pos :
    (l : Bytes) (cs : Children) (k : ℕ) (c : Node)
    → child_at cs k ≡ some c
    → label_of c ≡ l
    → 0 < named l cs
unfolding named
named-pos l end k c h e = ground arith
named-pos l (child n cs) zero c h e = ground (arith, bytes_eq_iff (label_of n) l)
named-pos l (child n cs) (suc k) c h e = ground (arith, named-pos l cs k c h e)

pub child_named-at :
    (l : Bytes) (cs : Children) (k : ℕ) (c : Node)
    → named l cs ≤ 1
    → child_at cs k ≡ some c
    → label_of c ≡ l
    → child_named l cs ≡ some c
unfolding child_named named
child_named-at l end k c d h e = ground arith
child_named-at l (child n cs) zero c d h e = ground (arith, bytes_eq_iff (label_of n) l)
child_named-at l (child n cs) (suc k) c d h e =
    ground (arith, child_named-at l cs k c, named-pos l cs k c h e)

pub absent-named :
    (l : Bytes) (cs : Children)
    → ((k : ℕ) → k < length (labels cs) → get_elem? (labels cs) k ≢ some l)
    → named l cs ≡ 0
unfolding named
absent-named l end h = refl
absent-named l (child n cs) h =
    ground
      (arith, bytes_eq_iff (label_of n) l, h 0, absent-named l cs (λ k a. h (suc k) (omega arith)))

pub set_child-labels :
    (cs : Children) (k : ℕ) (c c' : Node)
    → child_at cs k ≡ some c
    → label_of c' ≡ label_of c
    → labels (set_child cs k c') ≡ labels cs
set_child-labels end k c c' h e = ground arith
set_child-labels (child n cs) zero c c' h e = ground arith
set_child-labels (child n cs) (suc k) c c' h e =
    ap (λ t. label_of n ∷ t) (set_child-labels cs k c c' h e)

pub child_named-set :
    (q : Bytes) (cs : Children) (k : ℕ) (c c' : Node)
    → named (label_of c) cs ≤ 1
    → child_at cs k ≡ some c
    → label_of c' ≡ label_of c
    → child_named q (set_child cs k c')
      ≡ (if bytes_eq (label_of c) q then some c' else child_named q cs)
unfolding child_named named
child_named-set q end k c c' d h e = ground arith
child_named-set q (child n cs) zero c c' d h e = ground (arith, bytes_eq_iff (label_of n) q)
child_named-set q (child n cs) (suc k) c c' d h e = ground (
  arith,
  child_named-set q cs k c c',
  named-pos (label_of c) cs k c h refl,
  bytes_eq_iff (label_of n) q,
  bytes_eq_iff (label_of c) q,
  bytes_eq_iff (label_of n) (label_of c),
)

pub child_named-last :
    (q : Bytes) (cs : Children) (c : Node)
    → named (label_of c) cs ≡ 0
    → child_named q (last_child cs c)
      ≡ (if bytes_eq (label_of c) q then some c else child_named q cs)
unfolding child_named named
child_named-last q end c z = refl
child_named-last q (child n cs) c z = ground (
  arith,
  child_named-last q cs c,
  bytes_eq_iff (label_of n) q,
  bytes_eq_iff (label_of c) q,
  bytes_eq_iff (label_of n) (label_of c),
)

pub named-last :
    (q : Bytes) (cs : Children) (c : Node)
    → named q (last_child cs c) ≡ named q cs + (if bytes_eq (label_of c) q then 1 else 0)
unfolding named
named-last q end c = ground arith
named-last q (child n cs) c = ground (arith, named-last q cs c)

pub named-set :
    (q : Bytes) (cs : Children) (k : ℕ) (c c' : Node)
    → child_at cs k ≡ some c
    → label_of c' ≡ label_of c
    → named q (set_child cs k c') ≡ named q cs
unfolding named
named-set q end k c c' h e = ground arith
named-set q (child n cs) zero c c' h e = ground arith
named-set q (child n cs) (suc k) c c' h e = ground (arith, named-set q cs k c c')
