-- ===== src/Request/Reviewed.antt =====
-- What scoring a domain does to the queries for it that follow.
use nyet.Prelude.{
  ℕ, ◌≡◌, refl, ap, ◌∙◌, Bool, true, false, ◌&&◌, ◌||◌, none, some, List, ◌∷◌, leb, ◌==◌, if_elim,
  Bytes,
}
use nyet.RadixTree.{
  RadixEntry, Node, review, bump, insert_path, radix_lookup, radix_tree_insert_live,
}
use nyet.RadixTree.Shape.{IsTree}
use nyet.RadixTree.First.{radix_lookup-first}
use nyet.Heuristics.{signals_of}
use nyet.Verdict.{tree_result}
use nyet.Request.{
  Server, Outcomes, first_sight, scored_entry, run_heuristics, flag_for_review, write_review,
  review_threshold, signals_of,
}
use nyet.Request.Handling.{cache_eligible}
use nyet.Labels.{split_domain_rtl}
use nyet.Heuristics.Float.{review_threshold, score_of}

and_false : (b : Bool) → (b && false) ≡ false
and_false true = refl
and_false false = refl

first_sight-tree :
    (p : Server) (domain : Bytes) (o : Outcomes)
    → (first_sight p domain o).proxy.blocklist_tree
      ≡ (radix_tree_insert_live p.proxy.blocklist_tree domain (scored_entry domain o) o.memory).1
unfolding first_sight run_heuristics flag_for_review write_review
first_sight-tree p domain o =
    if_elim
      (λ (q : Server).
        (radix_tree_insert_live q.proxy.blocklist_tree domain (scored_entry domain o) o.memory).1
        ≡ (radix_tree_insert_live p.proxy.blocklist_tree domain (scored_entry domain o) o.memory).1)
      (leb review_threshold (score_of (signals_of domain)) && o.review_opens) _ _ (λ _. refl)
      (λ _. refl)

review-ineligible :
    (r : RadixEntry) (domain : Bytes) (qtype : ℕ)
    → r.status ≡ review
    → cache_eligible (tree_result domain r) qtype ≡ false
review-ineligible r domain qtype h = rw h (and_false (qtype == 1 || qtype == 28))

-- Where the sound tree has no match for a domain and the first sight of the domain puts it there, a lookup of
-- it in the tree that results finds an entry under review, whatever the score was, and with that verdict no
-- query may use the answer cache.
pub first_sight-review :
    (p : Server) (root : Node) (domain l : Bytes) (ls : List Bytes) (o : Outcomes) (now now' : ℕ)
    → p.proxy.blocklist_tree ≡ some root
    → IsTree root
    → split_domain_rtl domain ≡ some (l ∷ ls)
    → (radix_lookup (some root) domain now).0 ≡ none
    → (insert_path root (l ∷ ls) (scored_entry domain o) o.memory).0 ≡ true
    → (r : RadixEntry) × ((radix_lookup (first_sight p domain o).proxy.blocklist_tree domain now').0
        ≡ some r)
      × (r.status ≡ review)
      × ((qtype : ℕ) → cache_eligible (tree_result domain r) qtype ≡ false)
first_sight-review p root domain l ls o now now' here t s nothing ok = (
  bump now' (scored_entry domain o),
  ap (λ x. (radix_lookup x domain now').0)
        (first_sight-tree p domain o
          ∙ ap (λ x. (radix_tree_insert_live x domain (scored_entry domain o) o.memory).1) here)
      ∙ radix_lookup-first root domain l ls (scored_entry domain o) o.memory now now' t s nothing
          ok,
  refl,
  (λ qtype. review-ineligible (bump now' (scored_entry domain o)) domain qtype refl),
)
