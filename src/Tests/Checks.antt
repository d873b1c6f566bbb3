-- ===== src/Tests/Checks.antt =====
-- The check of a domain at a concrete proxy: an empty cache and a tree that blocks ads.net.
use nyet.Prelude.{◌≡◌, refl, ◌≢◌, Option, none, some, [], ◌∷◌, arith, Bytes, bytes_eq}
use nyet.DnsCache.{init, lookup, fnv1a_hash, matches}
use nyet.DnsCache.Invariant.{empty, made, Reachable-IsValid}
use nyet.DnsCache.Slots.{IsValid}
use nyet.Labels.{dot, split_domain_rtl}
use nyet.RadixTree.{Node, RadixEntry, blocked, fresh, insert_path, radix_lookup, review}
use nyet.Verdict.{check_domain, tree_result}
use nyet.Verdict.Cached.{proxy, with_tree, check_domain-repeats}

abbrev net : Bytes
net = 110 ∷ 101 ∷ 116 ∷ []

abbrev ads : Bytes
ads = 97 ∷ 100 ∷ 115 ∷ []

abbrev ads_net : Bytes
ads_net = 97 ∷ 100 ∷ 115 ∷ dot ∷ 110 ∷ 101 ∷ 116 ∷ []

abbrev entry : RadixEntry
entry = record {
  status = blocked;
  ttl = 0;
  hit_count = 0;
  last_seen = 0;
  source = 83;
  ml_score = 0;
  note = none;
}

abbrev seen : RadixEntry
seen = record {
  status = blocked;
  ttl = 0;
  hit_count = 1;
  last_seen = 7;
  source = 83;
  ml_score = 0;
  note = none;
}

abbrev tree : Option Node
tree = some (insert_path (fresh []) (net ∷ ads ∷ []) entry []).1

made_64 : init 64 ≡ some (empty 64)
unfolding init
made_64 = refl

empty-IsValid : IsValid (empty 64)
empty-IsValid = Reachable-IsValid (made 64 (omega arith) made_64)

unknown : (lookup (empty 64) ads_net 5).1 ≡ none
unfolding lookup fnv1a_hash matches
unknown = refl

in_tree : (radix_lookup tree ads_net 7).0 ≡ some seen
unfolding radix_lookup insert_path split_domain_rtl bytes_eq
in_tree = refl

blocked_ne_review : blocked ≢ review
blocked_ne_review = λ e. ground (arith, e)

check_domain-repeats_example :
    ((check_domain (proxy (empty 64) tree) ads_net 5 6 7).1 ≡ tree_result ads_net seen)
    × ((check_domain
          (with_tree (check_domain (proxy (empty 64) tree) ads_net 5 6 7).0 none)
          ads_net
          1000
          1001
          8).1.status
        ≡ blocked)
check_domain-repeats_example =
    check_domain-repeats (empty 64) tree none ads_net seen 5 6 7 1000 1001 8 empty-IsValid
      (omega arith) (omega arith) unknown in_tree blocked_ne_review (omega arith) (omega arith)
