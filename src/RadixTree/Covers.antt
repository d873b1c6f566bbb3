-- ===== src/RadixTree/Covers.antt =====
-- An entry covers the subdomains of its domain.
use nyet.Prelude.{
  ℕ, suc, ◌<◌, ◌≡◌, refl, ap, subst, ◌∙◌, ◌⊎◌, inl, inr, true, Option, none, some, List, [], ◌∷◌,
  ◌++◌, arith, Bool-cases, Option-cases, Bytes, length,
}
use nyet.Labels.{split_domain_rtl, dot}
use nyet.Labels.Split.{split_domain_rtl-sub}
use nyet.RadixTree.{Node, RadixEntry, RadixStatus, allowed, blocked, review, radix_lookup}
use nyet.RadixTree.Shape.{IsTree}
use nyet.RadixTree.Entries.{entry_at}
use nyet.RadixTree.Lookup.{
  Trail, trail, verdict, deepest, step_on, is_status, bumped, path_of, radix_lookup-verdict,
}
use nyet.RadixTree.Histories.{status_of}

deepest-step :
    (s : RadixStatus) (i : ℕ) (o : Option RadixEntry) (es : Trail) (x : ℕ × RadixEntry)
    → deepest s es ≡ some x
    → deepest s (step_on i o es) ≡ some x
unfolding deepest
deepest-step s i none es x h = h
deepest-step s i (some e) es x h = rw h refl

is_status_refl : (s : RadixStatus) → is_status s s ≡ true
is_status_refl allowed = refl
is_status_refl blocked = refl
is_status_refl review = refl

pub deepest-head :
    (i : ℕ) (e : RadixEntry) (es : Trail)
    → (x : ℕ × RadixEntry) × (deepest e.status ((i, e) ∷ es) ≡ some x)
unfolding deepest
deepest-head i e es = elim (Option-cases (deepest e.status es)) [
  | inr (x, h) ↦ rw h (x, refl)
  | inl h ↦ rw (h, is_status_refl e.status) ((i, e), refl)
]

pub trail-has :
    (f : List Bytes → Option RadixEntry) (l : Bytes) (ls more : List Bytes) (i : ℕ) (e : RadixEntry)
    → f (l ∷ ls) ≡ some e
    → (x : ℕ × RadixEntry) × (deepest e.status (trail f ((l ∷ ls) ++ more) i) ≡ some x)
unfolding trail
trail-has f l [] more i e h = rw h (deepest-head (suc i) e (trail (λ p. f (l ∷ p)) more (suc i)))
trail-has f l (k ∷ ls) more i e h =
    let (x, g) = trail-has (λ p. f (l ∷ p)) k ls more (suc i) e h in
    (
      x,
      deepest-step e.status (suc i) (f (l ∷ [])) (trail (λ p. f (l ∷ p)) ((k ∷ ls) ++ more) (suc i))
          x g,
    )

status_eq : (a b : RadixStatus) → is_status a b ≡ true → a ≡ b
status_eq allowed allowed h = refl
status_eq blocked blocked h = refl
status_eq review review h = refl
status_eq allowed blocked h = ground arith
status_eq allowed review h = ground arith
status_eq blocked allowed h = ground arith
status_eq blocked review h = ground arith
status_eq review allowed h = ground arith
status_eq review blocked h = ground arith

deepest-status :
    (s : RadixStatus) (es : Trail) (x : ℕ × RadixEntry) → deepest s es ≡ some x → x.1.status ≡ s
unfolding deepest
deepest-status s [] x h = ground arith
deepest-status s ((i, e) ∷ es) x h = elim (Option-cases (deepest s es)) [
  | inr (y, k) ↦ deepest-status s es x (ground (arith, h, k))
  | inl k ↦ elim (Bool-cases (is_status e.status s)) [
    | inl t ↦
        let at_head : (i, e) ≡ x = ground (arith, h, k, t) in
        subst (λ (z : ℕ × RadixEntry). z.1.status ≡ s) at_head (status_eq e.status s t)
    | inr t ↦ ground (arith, h, k, t)
  ]
]

bumped-status :
    (now : ℕ) (o : Option (ℕ × RadixEntry)) (x : ℕ × RadixEntry)
    → o ≡ some x
    → status_of (bumped now o) ≡ some x.1.status
bumped-status now none x h = ground arith
bumped-status now (some (i, e)) x h = ground arith

verdict-allowed :
    (now : ℕ) (es : Trail) (x : ℕ × RadixEntry)
    → deepest allowed es ≡ some x
    → status_of (bumped now (verdict es)) ≡ some allowed
unfolding verdict
verdict-allowed now es x h = rw h (ap some (deepest-status allowed es x h))

pub verdict-blocked :
    (now : ℕ) (es : Trail) (x : ℕ × RadixEntry)
    → deepest blocked es ≡ some x
    → (status_of (bumped now (verdict es)) ≡ some allowed)
      ⊎ (status_of (bumped now (verdict es)) ≡ some blocked)
unfolding verdict
verdict-blocked now es x h = elim (Option-cases (deepest allowed es)) [
  | inr (y, k) ↦ inl (verdict-allowed now es y k)
  | inl k ↦ inr (rw (k, h) (ap some (deepest-status blocked es x h)))
]

-- On a sound tree, an allowed entry of a domain makes the lookup of every subdomain that fits the
-- buffer answer allowed, whatever else the tree holds, and a blocked entry makes it answer blocked
-- or, where another entry on the way allows it, allowed: never review, and never no match.
pub radix_lookup-sub :
    (root : Node) (sub d l : Bytes) (ls : List Bytes) (e : RadixEntry) (now : ℕ)
    → IsTree root
    → split_domain_rtl d ≡ some (l ∷ ls)
    → entry_at root (l ∷ ls) ≡ some e
    → length (sub ++ (dot ∷ d)) < 512
    → (e.status ≡ allowed
        → status_of (radix_lookup (some root) (sub ++ (dot ∷ d)) now).0 ≡ some allowed)
      × (e.status ≡ blocked
          → (status_of (radix_lookup (some root) (sub ++ (dot ∷ d)) now).0 ≡ some allowed)
            ⊎ (status_of (radix_lookup (some root) (sub ++ (dot ∷ d)) now).0 ≡ some blocked))
radix_lookup-sub root sub d l ls e now t s at fits =
    let (more, s') = split_domain_rtl-sub sub d (l ∷ ls) fits s in
    let (x, h) = trail-has (entry_at root) l ls more 0 e at in
    let answer : (radix_lookup (some root) (sub ++ (dot ∷ d)) now).0
        ≡ bumped now (verdict (trail (entry_at root) ((l ∷ ls) ++ more) 0)) =
      radix_lookup-verdict root (sub ++ (dot ∷ d)) now t
      ∙ ap (λ p. bumped now (verdict (trail (entry_at root) (path_of p) 0))) s' in
    rw answer (
      (λ a.
          verdict-allowed now (trail (entry_at root) ((l ∷ ls) ++ more) 0) x
            (subst (λ z. deepest z (trail (entry_at root) ((l ∷ ls) ++ more) 0) ≡ some x) a h)),
      (λ a.
          verdict-blocked now (trail (entry_at root) ((l ∷ ls) ++ more) 0) x
            (subst (λ z. deepest z (trail (entry_at root) ((l ∷ ls) ++ more) 0) ≡ some x) a h)),
    )
