-- ===== src/Verdict/Cached.antt =====
-- What `check_domain` answers from the tree, and for how long it repeats it.
use nyet.Prelude.{
  ℕ, ◌+◌, ◌*◌, ◌≤◌, ◌<◌, ◌≡◌, refl, ap, ◌∙◌, ◌≢◌, Option, none, some, arith, ◌==◌, if◌then◌else◌,
  Bytes, length,
}
use nyet.Prelude.Words.{u64_mod}
use nyet.DnsCache.{
  Cache, Action, block, allow, lookup, insert, max_domain_len, ns_per_second, expired, entry_for,
  fnv1a_hash,
}
use nyet.DnsCache.Slots.{IsValid, read}
use nyet.DnsCache.Lookup.{lookup-read, lookup-IsValid}
use nyet.DnsCache.Insert.{insert-slot_of, insert-IsValid}
use nyet.Packet.{default_block_ttl_seconds}
use nyet.RadixTree.{Node, RadixEntry, RadixStatus, allowed, blocked, review, radix_lookup}
use nyet.Verdict.{
  CheckResult, Proxy, check_domain, remember, from_tree, from_cache, cached_result, tree_result,
  query_cache_ttl_seconds, no_match,
}

-- a fresh entry is read back within its ttl
read_fresh :
    (d : Bytes) (a : Action) (ttl t2 t : ℕ)
    → t ≤ t2 + ttl * ns_per_second
    → t2 + ttl * ns_per_second < u64_mod
    → read t (some (entry_for (fnv1a_hash d) d a ttl t2)) ≡ some (a, ttl)
unfolding expired
read_fresh d a ttl t2 t h w = ground arith

-- A cache that has just stored a verdict answers with it within its ttl.
stored-lookup :
    (c : Cache) (d : Bytes) (a : Action) (ttl t2 t : ℕ)
    → IsValid c
    → ttl ≢ 0
    → length d ≤ max_domain_len
    → t2 + ttl * ns_per_second < u64_mod
    → t ≤ t2 + ttl * ns_per_second
    → (lookup (insert c d a ttl t2).0 d t).1 ≡ some (a, ttl)
stored-lookup c d a ttl t2 t v n l w h =
    lookup-read (insert c d a ttl t2).0 d t (insert-IsValid c d a ttl t2 (omega arith) v) l
    ∙ ap (read t) (insert-slot_of c d a ttl t2 v (n, l, omega arith))
    ∙ read_fresh d a ttl t2 t h w

abbrev pub proxy : Cache → Option Node → Proxy
proxy c tree = record { query_cache = some c; blocklist_tree = tree }

from_cache-hit :
    (tree : Option Node) (d : Bytes) (t2 now : ℕ) (r : Cache × Option (Action × ℕ)) (a : Action)
    (ttl : ℕ)
    → r.1 ≡ some (a, ttl)
    → (from_cache tree d t2 now r).1 ≡ cached_result d (a, ttl)
from_cache-hit tree d t2 now (c, r) a ttl h = ap (λ x. (from_cache tree d t2 now (c, x)).1) h

from_cache-miss :
    (tree : Option Node) (d : Bytes) (t2 now : ℕ) (r : Cache × Option (Action × ℕ))
    → r.1 ≡ none
    → from_cache tree d t2 now r ≡ from_tree (some r.0) d t2 (radix_lookup tree d now)
from_cache-miss tree d t2 now (c, r) h = ap (λ x. from_cache tree d t2 now (c, x)) h

hit :
    (c : Cache) (tree : Option Node) (d : Bytes) (t1 t2 now : ℕ) (a : Action) (ttl : ℕ)
    → (lookup c d t1).1 ≡ some (a, ttl)
    → (check_domain (proxy c tree) d t1 t2 now).1 ≡ cached_result d (a, ttl)
unfolding check_domain
hit c tree d t1 t2 now a ttl h = from_cache-hit tree d t2 now (lookup c d t1) a ttl h

missed :
    (c : Cache) (tree : Option Node) (d : Bytes) (t1 t2 now : ℕ)
    → (lookup c d t1).1 ≡ none
    → check_domain (proxy c tree) d t1 t2 now
      ≡ from_tree (some (lookup c d t1).0) d t2 (radix_lookup tree d now)
unfolding check_domain
missed c tree d t1 t2 now h = from_cache-miss tree d t2 now (lookup c d t1) h

-- how long the cache keeps a verdict, in seconds
abbrev pub kept : RadixStatus → ℕ → ℕ
kept review ttl = 0
kept blocked ttl = if ttl == 0 then default_block_ttl_seconds else ttl
kept allowed ttl = query_cache_ttl_seconds

-- the caching of the miss: what is then asked again
asked_again :
    (c : Cache) (tree' : Option Node) (d : Bytes) (status : RadixStatus) (ttl t2 t t2' now' : ℕ)
    → IsValid c
    → length d ≤ max_domain_len
    → status ≢ review
    → t2 + kept status ttl * ns_per_second < u64_mod
    → t ≤ t2 + kept status ttl * ns_per_second
    → (check_domain (proxy (remember c d status ttl t2) tree') d t t2' now').1.status ≡ status
asked_again c tree' d review ttl t2 t t2' now' v l n w h = absurd (n refl)
asked_again c tree' d blocked ttl t2 t t2' now' v l n w h = ap CheckResult.status (
    hit (remember c d blocked ttl t2) tree' d t t2' now' block (kept blocked ttl)
      (stored-lookup c d block (kept blocked ttl) t2 t v (ground arith) l w h))
asked_again c tree' d allowed ttl t2 t t2' now' v l n w h = ap CheckResult.status (
    hit (remember c d allowed ttl t2) tree' d t t2' now' allow query_cache_ttl_seconds
      (stored-lookup c d allow query_cache_ttl_seconds t2 t v (omega arith) l w h))

abbrev pub tree_cache : Cache → Bytes → ℕ → ℕ → RadixEntry → Cache
tree_cache c d t1 t2 r = remember (lookup c d t1).0 d r.status r.ttl t2

-- the outcome of a miss when the tree has an entry
answered :
    (c : Cache) (tree : Option Node) (d : Bytes) (t1 t2 now : ℕ) (r : RadixEntry)
    → (lookup c d t1).1 ≡ none
    → (radix_lookup tree d now).0 ≡ some r
    → check_domain (proxy c tree) d t1 t2 now
      ≡ (proxy (tree_cache c d t1 t2 r) (radix_lookup tree d now).1, tree_result d r)
answered c tree d t1 t2 now r m f =
    missed c tree d t1 t2 now m
    ∙ ap (λ x. from_tree (some (lookup c d t1).0) d t2 (x, (radix_lookup tree d now).1)) f

-- the proxy with another tree, as a reload publishes it
abbrev pub with_tree : Proxy → Option Node → Proxy
with_tree p tree = record { query_cache = p.query_cache; blocklist_tree = tree }

-- A domain that the cache does not hold and the tree has an entry for, blocked or allowed: the
-- answer is that of the entry, and as long as the verdict is kept (the entry's ttl, or the default,
-- for a block) and no operation on the cache comes between, a further check answers the same
-- status, whatever tree is published meanwhile.
pub check_domain-repeats :
    (c : Cache) (tree tree' : Option Node) (d : Bytes) (r : RadixEntry) (t1 t2 now t t2' now' : ℕ)
    → IsValid c
    → length d ≤ max_domain_len
    → t1 < u64_mod
    → (lookup c d t1).1 ≡ none
    → (radix_lookup tree d now).0 ≡ some r
    → r.status ≢ review
    → t2 + kept r.status r.ttl * ns_per_second < u64_mod
    → t ≤ t2 + kept r.status r.ttl * ns_per_second
    → ((check_domain (proxy c tree) d t1 t2 now).1 ≡ tree_result d r)
      × ((check_domain
            (with_tree (check_domain (proxy c tree) d t1 t2 now).0 tree')
            d
            t
            t2'
            now').1.status
          ≡ r.status)
check_domain-repeats c tree tree' d r t1 t2 now t t2' now' v l b m f n w h =
    let e = answered c tree d t1 t2 now r m f in
    (
      ap (λ x. x.1) e,
      ap (λ x. (check_domain (with_tree x.0 tree') d t t2' now').1.status) e
          ∙ asked_again (lookup c d t1).0 tree' d r.status r.ttl t2 t t2' now'
              (lookup-IsValid c d t1 b v) l n w h,
    )

-- A domain that the cache does not hold leaves the cache as the lookup left it when the tree has no
-- entry for it, with the answer that nothing matched, and when its entry is under review, with the
-- answer of the entry.
pub check_domain-uncached :
    (c : Cache) (tree : Option Node) (d : Bytes) (t1 t2 now : ℕ)
    → (lookup c d t1).1 ≡ none
    → ((radix_lookup tree d now).0 ≡ none
        → check_domain (proxy c tree) d t1 t2 now
          ≡ (proxy (lookup c d t1).0 (radix_lookup tree d now).1, no_match))
      × ((r : RadixEntry)
          → (radix_lookup tree d now).0 ≡ some r
          → r.status ≡ review
          → check_domain (proxy c tree) d t1 t2 now
            ≡ (proxy (lookup c d t1).0 (radix_lookup tree d now).1, tree_result d r))
check_domain-uncached c tree d t1 t2 now m = (
  λ f.
      missed c tree d t1 t2 now m
      ∙ ap (λ x. from_tree (some (lookup c d t1).0) d t2 (x, (radix_lookup tree d now).1)) f,
  λ r f s.
      answered c tree d t1 t2 now r m f
      ∙ ap
          (λ x. (
            proxy (remember (lookup c d t1).0 d x r.ttl t2) (radix_lookup tree d now).1,
            tree_result d r,
          ))
          s,
)
