-- ===== src/Confirm/Promoted.antt =====
-- A domain that the Pi lists is blocked from then on.
use nyet.Prelude.{ℕ, ◌≡◌, refl, sym, ap, subst, ◌∙◌, ◌⊎◌, true, some, List, ◌∷◌, ◌++◌, Bytes}
use nyet.RadixTree.{
  Node, RadixEntry, allowed, blocked, Memory, insert_path, radix_lookup, radix_tree_insert_live,
}
use nyet.RadixTree.Histories.{status_of}
use nyet.Confirm.{
  Surroundings, listed, gravity_check_thread, gravity_entry, promote, learn, is_ok, learned_line,
}
use nyet.Codes.{source_pi_gravity}
use nyet.Request.{Server, dns_seconds}
use nyet.Labels.{split_domain_rtl}
use nyet.RadixTree.Shape.{IsTree}
use nyet.Blocklist.{learned_line}
use nyet.RadixTree.First.{insert_live-walked, radix_lookup-blocked}
use nyet.RadixTree.Insert.{insert_path-Inserted, insert_path-entry_at}

-- the tree that the promotion leaves, and whether the entry is in it
insert_live-ok :
    (root : Node) (domain l : Bytes) (ls : List Bytes) (e : RadixEntry) (m : Memory)
    → split_domain_rtl domain ≡ some (l ∷ ls)
    → (insert_path root (l ∷ ls) e m).0 ≡ true
    → is_ok (radix_tree_insert_live (some root) domain e m).0 ≡ true
unfolding radix_tree_insert_live
insert_live-ok root domain l ls e m s put = rw (s, radix_tree_insert_live, put) refl

-- Where the Pi lists a domain, the tree is sound, the insertion succeeds and learned.tsv opens, a lookup of
-- the domain in the tree that results answers blocked or, where an entry on the way allows it, allowed; the
-- file gains the domain's line.
pub gravity_check_thread-blocks :
    (p : Server) (root : Node) (domain l : Bytes) (ls : List Bytes) (s : Surroundings) (now : ℕ)
    → p.proxy.blocklist_tree ≡ some root
    → IsTree root
    → split_domain_rtl domain ≡ some (l ∷ ls)
    → (insert_path root (l ∷ ls) (gravity_entry (dns_seconds s.seconds)) s.memory).0 ≡ true
    → s.learned_opens ≡ true
    → ((status_of
            (radix_lookup
              (gravity_check_thread p domain listed s).proxy.blocklist_tree
              domain
              now).0
          ≡ some allowed)
        ⊎ (status_of
              (radix_lookup
                (gravity_check_thread p domain listed s).proxy.blocklist_tree
                domain
                now).0
            ≡ some blocked))
      × ((gravity_check_thread p domain listed s).learned_file
          ≡ p.learned_file
            ++ learned_line blocked source_pi_gravity
                (dns_seconds s.seconds)
                (dns_seconds s.seconds)
                1
                0
                domain)
unfolding gravity_check_thread promote learn
gravity_check_thread-blocks p root domain l ls s now here t split put opens =
    let e = gravity_entry (dns_seconds s.seconds) in
    let after_it = (insert_path root (l ∷ ls) e s.memory).1 in
    let tree : (radix_tree_insert_live p.proxy.blocklist_tree domain e s.memory).1 ≡ some after_it =
      ap (λ x. (radix_tree_insert_live x domain e s.memory).1) here
      ∙ insert_live-walked root domain l ls e s.memory split in
    let code : is_ok (radix_tree_insert_live p.proxy.blocklist_tree domain e s.memory).0 ≡ true =
      ap (λ x. is_ok (radix_tree_insert_live x domain e s.memory).0) here
      ∙ insert_live-ok root domain l ls e s.memory split put in
    (
      subst
          (λ x.
            (status_of (radix_lookup x domain now).0 ≡ some allowed)
            ⊎ (status_of (radix_lookup x domain now).0 ≡ some blocked))
          (sym tree)
          (radix_lookup-blocked after_it domain l ls e now
            (insert_path-Inserted root (l ∷ ls) e s.memory t).tree split
            ((insert_path-entry_at root (l ∷ ls) (l ∷ ls) e s.memory t).0 put) refl),
      rw (code, opens) refl,
    )
