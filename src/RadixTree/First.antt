-- ===== src/RadixTree/First.antt =====
-- An entry that is put where the way to its domain had none decides the lookups of the domain.
use nyet.Prelude.{
  ℕ, suc, ◌≡◌, refl, sym, ap, ◌∙◌, ◌≢◌, true, Option, none, some, List, [], ◌∷◌, arith, Bytes, ◌⊎◌,
  subst,
}
use nyet.RadixTree.Lookup.{
  Trail, trail, verdict, deepest, step_on, or_else, bumped, path_of, radix_lookup-verdict,
}
use nyet.RadixTree.Insert.{insert_path-entry_at, insert_path-Inserted}
use mathlib.Core.List.{append-nil}
use nyet.RadixTree.Covers.{deepest-head, trail-has, verdict-blocked}
use nyet.RadixTree.Entries.{entry_at}
use nyet.RadixTree.Shape.{IsTree}
use nyet.RadixTree.{
  Node, RadixEntry, RadixStatus, allowed, blocked, review, Memory, bump, insert_path, radix_lookup,
  radix_tree_insert_live,
}
use nyet.Labels.{split_domain_rtl}
use nyet.RadixTree.Histories.{status_of}

or_else-none : (a b : Option (ℕ × RadixEntry)) → or_else a b ≡ none → (a ≡ none) × (b ≡ none)
or_else-none none b h = (refl, h)
or_else-none (some a) b h = absurd (ground (arith, h))

deepest-none : (s : RadixStatus) (es : Trail) → verdict es ≡ none → deepest s es ≡ none
unfolding verdict
deepest-none allowed es h = (or_else-none _ _ h).0
deepest-none blocked es h = (or_else-none _ _ (or_else-none _ _ h).1).0
deepest-none review es h = (or_else-none _ _ (or_else-none _ _ h).1).1

verdict-none : (es : Trail) → verdict es ≡ none → es ≡ []
verdict-none [] h = refl
verdict-none ((i, e) ∷ es) h =
    let (x, k) = deepest-head i e es in
    absurd (grind (arith, k, deepest-none e.status ((i, e) ∷ es) h))

step_on-empty :
    (i : ℕ) (o : Option RadixEntry) (rest : Trail)
    → step_on i o rest ≡ []
    → (o ≡ none) × (rest ≡ [])
step_on-empty i none rest h = (refl, h)
step_on-empty i (some e) rest h = absurd (ground (arith, h))

trail-alone :
    (f g : List Bytes → Option RadixEntry) (l : Bytes) (ls : List Bytes) (i : ℕ) (e : RadixEntry)
    → trail f (l ∷ ls) i ≡ []
    → g (l ∷ ls) ≡ some e
    → ((q : List Bytes) → (l ∷ ls) ≢ q → g q ≡ f q)
    → (n : ℕ) × (trail g (l ∷ ls) i ≡ (n, e) ∷ [])
unfolding trail
trail-alone f g l [] i e h at same = (suc i, rw at refl)
trail-alone f g l (k ∷ ls) i e h at same =
    let (here, rest) = step_on-empty (suc i) (f (l ∷ [])) _ h in
    let (n, alone) =
      trail-alone (λ p. f (l ∷ p)) (λ p. g (l ∷ p)) k ls (suc i) e rest at
        (λ q other. same (l ∷ q) (λ eq. other (grind (arith, eq)))) in
    (n, rw (same (l ∷ []) (λ eq. absurd (ground (arith, eq))) ∙ here, alone) refl)

verdict-alone :
    (n : ℕ) (e : RadixEntry) (s : RadixStatus) → e.status ≡ s → verdict ((n, e) ∷ []) ≡ some (n, e)
unfolding verdict deepest
verdict-alone n e allowed h = rw h refl
verdict-alone n e blocked h = rw h refl
verdict-alone n e review h = rw h refl

bumped-none : (now : ℕ) (o : Option (ℕ × RadixEntry)) → bumped now o ≡ none → o ≡ none
bumped-none now none h = refl
bumped-none now (some (i, e)) h = absurd (ground (arith, h))

pub insert_live-walked :
    (root : Node) (domain l : Bytes) (ls : List Bytes) (e : RadixEntry) (m : Memory)
    → split_domain_rtl domain ≡ some (l ∷ ls)
    → (radix_tree_insert_live (some root) domain e m).1 ≡ some (insert_path root (l ∷ ls) e m).1
unfolding radix_tree_insert_live
insert_live-walked root domain l ls e m s = rw (s, radix_tree_insert_live) refl

-- On a sound tree whose lookup of a domain finds nothing, an entry that is put for the domain is what
-- the next lookup of the domain finds, with the hit counted.
pub radix_lookup-first :
    (root : Node) (domain l : Bytes) (ls : List Bytes) (e : RadixEntry) (m : Memory) (now now' : ℕ)
    → IsTree root
    → split_domain_rtl domain ≡ some (l ∷ ls)
    → (radix_lookup (some root) domain now).0 ≡ none
    → (insert_path root (l ∷ ls) e m).0 ≡ true
    → (radix_lookup (radix_tree_insert_live (some root) domain e m).1 domain now').0
      ≡ some (bump now' e)
radix_lookup-first root domain l ls e m now now' t s nothing ok =
    ap (λ r. (radix_lookup r domain now').0) inserted
    ∙ radix_lookup-verdict after_it domain now' sound
    ∙ rw (s, alone.1, verdict-alone alone.0 e e.status refl) refl
  where
    after_it : Node
    after_it = (insert_path root (l ∷ ls) e m).1

    inserted : (radix_tree_insert_live (some root) domain e m).1 ≡ some after_it
    inserted = insert_live-walked root domain l ls e m s

    sound : IsTree after_it
    sound = (insert_path-Inserted root (l ∷ ls) e m t).tree

    empty : trail (entry_at root) (l ∷ ls) 0 ≡ []
    empty = verdict-none _ (
        bumped-none now _ (
          ap (λ x. bumped now (verdict (trail (entry_at root) (path_of x) 0))) (sym s)
          ∙ sym (radix_lookup-verdict root domain now t)
          ∙ nothing))

    alone : (n : ℕ) × (trail (entry_at after_it) (l ∷ ls) 0 ≡ (n, e) ∷ [])
    alone =
        trail-alone (entry_at root) (entry_at after_it) l ls 0 e empty
          ((insert_path-entry_at root (l ∷ ls) (l ∷ ls) e m t).0 ok)
          (λ q other. (insert_path-entry_at root (l ∷ ls) q e m t).1 other)

-- A blocked entry at a domain, and perhaps an allowed one on the way, decide its lookup.
pub radix_lookup-blocked :
    (root : Node) (domain l : Bytes) (ls : List Bytes) (e : RadixEntry) (now : ℕ)
    → IsTree root
    → split_domain_rtl domain ≡ some (l ∷ ls)
    → entry_at root (l ∷ ls) ≡ some e
    → e.status ≡ blocked
    → (status_of (radix_lookup (some root) domain now).0 ≡ some allowed)
      ⊎ (status_of (radix_lookup (some root) domain now).0 ≡ some blocked)
radix_lookup-blocked root domain l ls e now t s at b =
    let (x, h) = trail-has (entry_at root) l ls [] 0 e at in
    let here : deepest blocked (trail (entry_at root) (l ∷ ls) 0) ≡ some x =
      subst (λ z. deepest z (trail (entry_at root) (l ∷ ls) 0) ≡ some x) b
        (subst (λ z. deepest e.status (trail (entry_at root) z 0) ≡ some x) (append-nil (l ∷ ls))
          h) in
    let answer =
      radix_lookup-verdict root domain now t
      ∙ ap (λ p. bumped now (verdict (trail (entry_at root) (path_of p) 0))) s in
    rw answer (verdict-blocked now (trail (entry_at root) (l ∷ ls) 0) x here)
