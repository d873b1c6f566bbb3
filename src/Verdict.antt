-- ===== src/Verdict.antt =====
-- src/nyet.c, `check_domain`: the verdict cache in front of the tree of domains. The cache and the
-- tree have a lock each, so a call reads the clock twice and other threads may come in between; `t1`
-- and `t2` are the clocks of the two cache operations, `now` is the time of the tree's lookup.
pub mod Cached
use nyet.Prelude.{
  ℕ, zero, suc, ◌+◌, ◌-◌, ◌*◌, ◌/◌, ◌%◌, ◌^◌, ◌≤◌, ◌<◌, ◌≡◌, refl, sym, ap, ap₂, subst, ◌∙◌, ◌≢◌,
  ◌↔◌, ◌⊎◌, inl, inr, Bool, true, false, not, ◌&&◌, ◌||◌, Option, none, some, List, [], ◌∷◌, ◌++◌,
  map, arith, ltb, leb, ◌==◌, if◌then◌else◌, if_elim, Bool-cases, Option-cases, Bytes, bytes_eq,
  bytes_eq_iff, bytes_eq_refl, ==_same, ==_other, length, length-append, All, take, drop,
  take_append_exact, drop_append_exact, set, get_elem?, get_or,
}
use nyet.DnsCache.{Cache, Action, block, allow, action_none, redirect, lookup, insert}
use nyet.Packet.{default_block_ttl_seconds}
use nyet.RadixTree.{Node, RadixEntry, RadixStatus, allowed, blocked, review, radix_lookup}

pub data MatchSource : Type 0 where
  match_hash_exact match_hash_suffix match_heuristic match_none : MatchSource

pub record CheckResult : Type 0 where
  pub status : RadixStatus
  pub matched : Bool
  pub matched_domain : Bytes
  pub source : MatchSource
  pub ml_score : ℕ
  pub ttl : ℕ

-- the two members of DNSProxy that `check_domain` uses
pub record Proxy : Type 0 where
  pub query_cache : Option Cache
  pub blocklist_tree : Option Node

abbrev pub query_cache_ttl_seconds : ℕ
query_cache_ttl_seconds = 300

-- `{0}`: the status of value 0 is STATUS_BLOCKED
abbrev pub no_match : CheckResult
no_match = record {
  status = blocked;
  matched = false;
  matched_domain = [];
  source = match_none;
  ml_score = 0;
  ttl = 0;
}

-- strncpy_s into MAX_DOMAIN_LEN bytes
abbrev pub truncated : Bytes → Bytes
truncated raw_domain = take 255 raw_domain

abbrev pub is_block : Action → Bool
is_block block = true
is_block allow = false
is_block action_none = false
is_block redirect = false

-- a hit in the cache
abbrev pub cached_result : Bytes → Action × ℕ → CheckResult
cached_result raw_domain (action, cached_ttl) = record {
  status = if is_block action then blocked else allowed;
  matched = true;
  matched_domain = truncated raw_domain;
  source = match_hash_suffix;
  ml_score = 0;
  ttl = if is_block action then cached_ttl else 0;
}

-- a match in the tree
abbrev pub tree_result : Bytes → RadixEntry → CheckResult
tree_result raw_domain r = record {
  status = r.status;
  matched = true;
  matched_domain = truncated raw_domain;
  source = match_hash_suffix;
  ml_score = r.ml_score;
  ttl = r.ttl;
}

abbrev pub remember : Cache → Bytes → RadixStatus → ℕ → ℕ → Cache
remember c raw_domain review ttl t2 = c
remember c raw_domain blocked ttl t2 =
    (insert c raw_domain block (if ttl == 0 then default_block_ttl_seconds else ttl) t2).0
remember c raw_domain allowed ttl t2 = (insert c raw_domain allow query_cache_ttl_seconds t2).0

abbrev pub remember? : Option Cache → Bytes → RadixStatus → ℕ → ℕ → Option Cache
remember? none raw_domain status ttl t2 = none
remember? (some c) raw_domain status ttl t2 = some (remember c raw_domain status ttl t2)

-- after a miss: the lookup in the tree, and what the cache keeps of it
abbrev pub from_tree :
    Option Cache → Bytes → ℕ → Option RadixEntry × Option Node → Proxy × CheckResult
from_tree cache raw_domain t2 (none, tree) =
    (record { query_cache = cache; blocklist_tree = tree }, no_match)
from_tree cache raw_domain t2 (some r, tree) = (
  record { query_cache = remember? cache raw_domain r.status r.ttl t2; blocklist_tree = tree },
  tree_result raw_domain r,
)

abbrev pub from_cache :
    Option Node → Bytes → ℕ → ℕ → Cache × Option (Action × ℕ) → Proxy × CheckResult
from_cache tree raw_domain t2 now (c, some hit) =
    (record { query_cache = some c; blocklist_tree = tree }, cached_result raw_domain hit)
from_cache tree raw_domain t2 now (c, none) =
    from_tree (some c) raw_domain t2 (radix_lookup tree raw_domain now)

unfoldable pub check_domain : Proxy → Bytes → ℕ → ℕ → ℕ → Proxy × CheckResult
check_domain p raw_domain t1 t2 now = elim p.query_cache [
  | none ↦ from_tree none raw_domain t2 (radix_lookup p.blocklist_tree raw_domain now)
  | some c ↦ from_cache p.blocklist_tree raw_domain t2 now (lookup c raw_domain t1)
]
