-- ===== src/RadixTree/Lookup.antt =====
-- `radix_lookup` against the tree as a map: which entry on the way to a domain decides.
use nyet.Prelude.{
  ℕ, suc, ◌≡◌, refl, sym, ap, ap₂, ◌∙◌, inl, inr, Bool, true, false, Option, none, some, List, [],
  ◌∷◌, arith, if◌then◌else◌, Option-cases, Bytes,
}
use nyet.Labels.{find_child, split_domain_rtl}
use nyet.RadixTree.{
  Node, RadixEntry, RadixStatus, allowed, blocked, review, Best, nothing_yet, weigh, visit, descend,
  children_of, labels, child_at, is_sorted, entry_of, bump, radix_lookup,
}
use nyet.RadixTree.Siblings.{child_named, named, child_named-none}
use nyet.RadixTree.Shape.{IsTree, find, absent, present}
use nyet.RadixTree.Entries.{entry_at}

abbrev pub Trail : Type 0
Trail = List (ℕ × RadixEntry)

abbrev pub step_on : ℕ → Option RadixEntry → Trail → Trail
step_on i none rest = rest
step_on i (some e) rest = (i, e) ∷ rest

-- the entries that a map has on the nonempty prefixes of a path, with their lengths past `i`
unfoldable pub trail : (List Bytes → Option RadixEntry) → List Bytes → ℕ → Trail
trail f [] i = []
trail f (l ∷ ls) i = step_on (suc i) (f (l ∷ [])) (trail (λ p. f (l ∷ p)) ls (suc i))

abbrev pub is_status : RadixStatus → RadixStatus → Bool
is_status allowed allowed = true
is_status blocked blocked = true
is_status review review = true
is_status allowed blocked = false
is_status allowed review = false
is_status blocked allowed = false
is_status blocked review = false
is_status review allowed = false
is_status review blocked = false

abbrev pub or_else : Option (ℕ × RadixEntry) → Option (ℕ × RadixEntry) → Option (ℕ × RadixEntry)
or_else none b = b
or_else (some a) b = some a

-- the deepest entry of a status
unfoldable pub deepest : RadixStatus → Trail → Option (ℕ × RadixEntry)
deepest s [] = none
deepest s ((i, e) ∷ es) =
    let rest = deepest s es in or_else rest (if is_status e.status s then some (i, e) else none)

-- an allowed entry anywhere on the path wins, then a blocked one, then one under review
unfoldable pub verdict : Trail → Option (ℕ × RadixEntry)
unfolding deepest
verdict es = or_else (deepest allowed es) (or_else (deepest blocked es) (deepest review es))

unfoldable weigh_all : Trail → Best → Best
weigh_all [] b = b
weigh_all ((i, e) ∷ es) b = weigh_all es (weigh i e e.status b)

trail-cong :
    (f g : List Bytes → Option RadixEntry) (ls : List Bytes) (i : ℕ)
    → ((p : List Bytes) → f p ≡ g p)
    → trail f ls i ≡ trail g ls i
unfolding trail
trail-cong f g [] i h = refl
trail-cong f g (l ∷ ls) i h =
    ap₂ (step_on (suc i)) (h (l ∷ []))
      (trail-cong (λ p. f (l ∷ p)) (λ p. g (l ∷ p)) ls (suc i) (λ p. h (l ∷ p)))

trail-none :
    (f : List Bytes → Option RadixEntry) (ls : List Bytes) (i : ℕ)
    → ((p : List Bytes) → f p ≡ none)
    → trail f ls i ≡ []
unfolding trail
trail-none f [] i h = refl
trail-none f (l ∷ ls) i h =
    rw (h (l ∷ []), trail-none (λ p. f (l ∷ p)) ls (suc i) (λ p. h (l ∷ p))) refl

step-weigh :
    (i : ℕ) (e : Option RadixEntry) (es : Trail) (b : Best)
    → weigh_all (step_on i e es) b ≡ weigh_all es (visit i e b)
unfolding weigh_all
step-weigh i none es b = refl
step-weigh i (some e) es b = refl

descend-absent :
    (n : Node) (l : Bytes) (ls : List Bytes) (i : ℕ) (b : Best)
    → find_child (is_sorted n) (labels (children_of n)) l ≡ none
    → descend n (l ∷ ls) i b ≡ b
unfolding descend
descend-absent n l ls i b h = ground arith

descend-present :
    (n c : Node) (k : ℕ) (l : Bytes) (ls : List Bytes) (i : ℕ) (b : Best)
    → find_child (is_sorted n) (labels (children_of n)) l ≡ some k
    → child_at (children_of n) k ≡ some c
    → descend n (l ∷ ls) i b ≡ descend c ls (suc i) (visit (suc i) (entry_of c) b)
unfolding descend
descend-present n c k l ls i b h at = ground arith

pub entry_at-absent :
    (n : Node) (l : Bytes)
    → named l (children_of n) ≡ 0
    → (p : List Bytes) → entry_at n (l ∷ p) ≡ none
unfolding entry_at
entry_at-absent n l z p = rw (child_named-none l (children_of n) z) refl

pub entry_at-present :
    (n c : Node) (l : Bytes)
    → child_named l (children_of n) ≡ some c
    → (p : List Bytes) → entry_at n (l ∷ p) ≡ entry_at c p
unfolding entry_at
entry_at-present n c l h p = rw h refl

trail-absent :
    (n : Node) (l : Bytes) (ls : List Bytes) (i : ℕ)
    → named l (children_of n) ≡ 0
    → trail (entry_at n) (l ∷ ls) i ≡ []
unfolding trail
trail-absent n l ls i z =
    rw
      (
        entry_at-absent n l z [],
        trail-none (λ p. entry_at n (l ∷ p)) ls (suc i) (entry_at-absent n l z),
      )
      refl

trail-present :
    (n c : Node) (l : Bytes) (ls : List Bytes) (i : ℕ)
    → child_named l (children_of n) ≡ some c
    → trail (entry_at n) (l ∷ ls) i ≡ step_on (suc i) (entry_of c) (trail (entry_at c) ls (suc i))
unfolding trail entry_at
trail-present n c l ls i h =
    ap₂ (step_on (suc i)) (entry_at-present n c l h [])
      (trail-cong (λ p. entry_at n (l ∷ p)) (entry_at c) ls (suc i) (entry_at-present n c l h))

-- the loop weighs the entries of the map on the prefixes
descend-trail :
    (n : Node) (ls : List Bytes) (i : ℕ) (b : Best)
    → IsTree n
    → descend n ls i b ≡ weigh_all (trail (entry_at n) ls i) b
unfolding descend trail weigh_all
descend-trail n [] i b t = refl
descend-trail n (l ∷ ls) i b t = elim (find n l t) [
  | absent h z ↦
      descend-absent n l ls i b h ∙ ap (λ x. weigh_all x b) (sym (trail-absent n l ls i z))
  | present k c h at same known u ↦
      descend-present n c k l ls i b h at
      ∙ descend-trail c ls (suc i) (visit (suc i) (entry_of c) b) u
      ∙ sym (step-weigh (suc i) (entry_of c) (trail (entry_at c) ls (suc i)) b)
      ∙ ap (λ x. weigh_all x b) (sym (trail-present n c l ls i known))
]

-- what the weighing of more entries makes of the locals
abbrev after_more : Trail → Best → Option (ℕ × RadixEntry)
after_more es b = or_else (deepest allowed es) (
    if b.allow_found
    then b.matched
    else or_else (deepest blocked es)
        (if b.block_found then b.matched else or_else (deepest review es) b.matched))

weigh_all-verdict : (es : Trail) (b : Best) → (weigh_all es b).matched ≡ after_more es b
unfolding weigh_all deepest
weigh_all-verdict [] b = ground arith
weigh_all-verdict ((i, e) ∷ es) b = by_status (weigh_all-verdict es) e.status
  where
    by_status :
        ((x : Best) → (weigh_all es x).matched ≡ after_more es x)
        → (s : RadixStatus)
        → (weigh_all es (weigh i e s b)).matched
          ≡ or_else
              (or_else (deepest allowed es) (if is_status s allowed then some (i, e) else none))
              (if b.allow_found
                then b.matched
                else or_else
                    (or_else
                      (deepest blocked es)
                      (if is_status s blocked then some (i, e) else none))
                    (if b.block_found
                      then b.matched
                      else or_else
                          (or_else
                            (deepest review es)
                            (if is_status s review then some (i, e) else none))
                          b.matched))
    by_status ih allowed = ih (weigh i e allowed b) ∙ ground arith
    by_status ih blocked = ih (weigh i e blocked b) ∙ ground arith
    by_status ih review = ih (weigh i e review b) ∙ ground arith

-- In a sound tree, the loop of a lookup settles on the deepest allowed entry among those that the
-- tree has on the domain and its parents, else on the deepest blocked one, else on the deepest
-- under review, whichever of the two searches each node takes.
pub descend-verdict :
    (n : Node) (ls : List Bytes)
    → IsTree n
    → (descend n ls 0 nothing_yet).matched ≡ verdict (trail (entry_at n) ls 0)
unfolding verdict
descend-verdict n ls t =
    ap (λ (b : Best). b.matched) (descend-trail n ls 0 nothing_yet t)
    ∙ weigh_all-verdict (trail (entry_at n) ls 0) nothing_yet
    ∙ ground arith

abbrev pub bumped : ℕ → Option (ℕ × RadixEntry) → Option RadixEntry
bumped now none = none
bumped now (some (i, e)) = some (bump now e)

abbrev pub path_of : Option (List Bytes) → List Bytes
path_of none = []
path_of (some ls) = ls

module _ (root : Node) (domain : Bytes) (now : ℕ) where
  lookup-refused : split_domain_rtl domain ≡ none → (radix_lookup (some root) domain now).0 ≡ none
  unfolding radix_lookup
  lookup-refused h = ground arith

  lookup-walked :
      (ls : List Bytes)
      → split_domain_rtl domain ≡ some ls
      → (radix_lookup (some root) domain now).0 ≡ bumped now (descend root ls 0 nothing_yet).matched
  unfolding radix_lookup
  lookup-walked ls h = ground arith

-- On a published tree that is sound, a lookup answers, for every domain, with the deepest allowed
-- entry on its way, else the deepest blocked one, else the deepest under review, its hit count one
-- up and its last_seen now; it matches nothing if the way holds no entry or the domain is refused.
pub radix_lookup-verdict :
    (root : Node) (domain : Bytes) (now : ℕ)
    → IsTree root
    → (radix_lookup (some root) domain now).0
      ≡ bumped now (verdict (trail (entry_at root) (path_of (split_domain_rtl domain)) 0))
unfolding trail verdict deepest
radix_lookup-verdict root domain now t = elim (Option-cases (split_domain_rtl domain)) [
  | inl h ↦ lookup-refused root domain now h ∙ rw (h, trail, verdict, deepest) refl
  | inr (ls, h) ↦ lookup-walked root domain now ls h ∙ rw (h, descend-verdict root ls t) refl
]
