-- ===== src/Tests/Domains.antt =====
-- The tree of domains with the one entry ads.net, blocked.
use nyet.Prelude.{◌≡◌, refl, ◌≢◌, ◌⊎◌, true, false, none, some, [], ◌∷◌, ◌++◌, arith, Bytes}
use nyet.Labels.{dot, split_domain_rtl, find_child}
use nyet.Labels.Order.{lex}
use nyet.Labels.Search.{Answer, Ascending, find_child-Answer}
use nyet.RadixTree.{
  Node, RadixEntry, blocked, fresh, insert_path, sort_children_recursive, radix_lookup, allowed,
  node_create, radix_insert, radix_publish,
}
use nyet.RadixTree.Shape.{IsTree}
use nyet.RadixTree.Entries.{entry_at}
use nyet.RadixTree.Insert.{Inserted, insert_path-Inserted, fresh-IsTree, insert_path-entry_at}
use nyet.RadixTree.Lookup.{trail, verdict, bumped, path_of, radix_lookup-verdict}
use nyet.RadixTree.Publish.{sorted-entry_at, Sorted-Ascending}
use nyet.RadixTree.Covers.{radix_lookup-sub}
use nyet.RadixTree.Failure.{insert_path-lost}
use nyet.RadixTree.Histories.{
  Trees, Reachable, start, after, begins, inserts, publishes, AreTrees, Reachable-AreTrees,
  status_of,
}

abbrev net : Bytes
net = 110 ∷ 101 ∷ 116 ∷ []

abbrev ads : Bytes
ads = 97 ∷ 100 ∷ 115 ∷ []

abbrev ads_net : Bytes
ads_net = 97 ∷ 100 ∷ 115 ∷ dot ∷ 110 ∷ 101 ∷ 116 ∷ []

abbrev www : Bytes
www = 119 ∷ 119 ∷ 119 ∷ []

abbrev entry : RadixEntry
entry = record {
  status = blocked;
  ttl = 0;
  hit_count = 0;
  last_seen = 0;
  source = 83;
  ml_score = 0;
  note = none;
}

abbrev root : Node
root = (insert_path (fresh []) (net ∷ ads ∷ []) entry []).1

root-Inserted :
    Inserted (fresh []) (net ∷ ads ∷ []) entry (insert_path (fresh []) (net ∷ ads ∷ []) entry [])
root-Inserted = insert_path-Inserted (fresh []) (net ∷ ads ∷ []) entry [] (fresh-IsTree [])

root-IsTree : IsTree root
root-IsTree = root-Inserted.tree

split_ads_net : split_domain_rtl ads_net ≡ some (net ∷ ads ∷ [])
unfolding split_domain_rtl
split_ads_net = refl

made : (insert_path (fresh []) (net ∷ ads ∷ []) entry []).0 ≡ true
unfolding insert_path
made = refl

root-entry_at : entry_at root (net ∷ ads ∷ []) ≡ some entry
root-entry_at =
    (insert_path-entry_at (fresh []) (net ∷ ads ∷ []) [] entry [] (fresh-IsTree [])).0 made

insert_path-entry_at_example :
    ((insert_path root (net ∷ []) entry []).0 ≡ true
      → entry_at (insert_path root (net ∷ []) entry []).1 (net ∷ []) ≡ some entry)
    × ((net ∷ []) ≢ (net ∷ ads ∷ [])
        → entry_at (insert_path root (net ∷ []) entry []).1 (net ∷ ads ∷ [])
          ≡ entry_at root (net ∷ ads ∷ []))
insert_path-entry_at_example =
    insert_path-entry_at root (net ∷ []) (net ∷ ads ∷ []) entry [] root-IsTree

insert_path-lost_example :
    ((insert_path root (net ∷ ads ∷ []) entry (false ∷ [])).0 ≡ false)
    × (entry_at (insert_path root (net ∷ ads ∷ []) entry (false ∷ [])).1 (net ∷ ads ∷ []) ≡ none)
insert_path-lost_example =
    insert_path-lost root (net ∷ ads ∷ []) entry entry [] root-IsTree root-entry_at refl

sorted-entry_at_example :
    IsTree (sort_children_recursive root)
    × (entry_at (sort_children_recursive root) (net ∷ ads ∷ []) ≡ entry_at root (net ∷ ads ∷ []))
sorted-entry_at_example = sorted-entry_at root (net ∷ ads ∷ []) root-IsTree

radix_lookup-verdict_example :
    (radix_lookup (some root) ads_net 7).0
    ≡ bumped 7 (verdict (trail (entry_at root) (path_of (split_domain_rtl ads_net)) 0))
radix_lookup-verdict_example = radix_lookup-verdict root ads_net 7 root-IsTree

radix_lookup-sub_example :
    (entry.status ≡ allowed
      → status_of (radix_lookup (some root) (www ++ (dot ∷ ads_net)) 7).0 ≡ some allowed)
    × (entry.status ≡ blocked
        → (status_of (radix_lookup (some root) (www ++ (dot ∷ ads_net)) 7).0 ≡ some allowed)
          ⊎ (status_of (radix_lookup (some root) (www ++ (dot ∷ ads_net)) 7).0 ≡ some blocked))
radix_lookup-sub_example =
    radix_lookup-sub root www ads_net net (ads ∷ []) entry 7 root-IsTree split_ads_net root-entry_at
      (omega arith)

two_labels-Ascending : Ascending (ads ∷ net ∷ [])
unfolding lex
two_labels-Ascending = Sorted-Ascending (ads ∷ net ∷ []) ((refl, tt), (tt, tt))

find_child-Answer_example : Answer (ads ∷ net ∷ []) net 0 2 (find_child true (ads ∷ net ∷ []) net)
find_child-Answer_example = find_child-Answer true (ads ∷ net ∷ []) net (λ h. two_labels-Ascending)

abbrev loaded : Trees
loaded = record { builder = (radix_insert (node_create [] []).0 ads_net entry []).1; live = none }

abbrev published : Trees
published = record {
  builder = (radix_publish none loaded.builder).1;
  live = (radix_publish none loaded.builder).0;
}

published-Reachable : Reachable published
published-Reachable =
    after
      (after (after start (begins (record { builder = none; live = none }) []))
        (inserts (record { builder = (node_create [] []).0; live = none }) ads_net entry []))
      (publishes loaded)

Reachable-AreTrees_example : AreTrees published
Reachable-AreTrees_example = Reachable-AreTrees published-Reachable
