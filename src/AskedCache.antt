-- ===== src/AskedCache.antt =====
-- src/nyet.c: the domains for which the upstream was or is being asked, a chained hash table
-- (`asked_cache_try_claim`, `asked_cache_mark_done`), and the threads that ask
-- (`queue_gravity_check`, `gravity_check_thread`). The lock makes each call one step. An argument
-- tells of each allocation and thread creation whether it succeeds.
pub mod Map
pub mod Checks
pub mod Runs
use nyet.Prelude.{
  ℕ, suc, ◌+◌, ◌-◌, ◌*◌, ◌%◌, Bool, true, false, not, ◌&&◌, Option, none, some, List, [], ◌∷◌,
  if◌then◌else◌, ◌==◌, Bytes, bytes_eq, bit_xor,
}
use nyet.Prelude.Words.{u32_mod}

abbrev pub asked_cache_buckets : ℕ
asked_cache_buckets = 4096

abbrev pub max_concurrent_gravity_checks : ℕ
max_concurrent_gravity_checks = 8

pub data AskedState : Type 0 where
  asked_pending asked_done : AskedState

pub record AskedNode : Type 0 where
  pub domain : Bytes
  pub state : AskedState

-- the chains, by bucket
pub record AskedCache : Type 0 where
  pub buckets : ℕ → List AskedNode

-- the loop of `fnv1a` from the running value `h`
unfoldable pub fnv1a_from : ℕ → Bytes → ℕ
fnv1a_from h [] = h
fnv1a_from h (b ∷ bs) = fnv1a_from (bit_xor h b * 16777619 % u32_mod) bs

unfoldable pub fnv1a : Bytes → ℕ
unfolding fnv1a_from
fnv1a = fnv1a_from 2166136261

abbrev pub bucket : Bytes → ℕ
bucket domain = fnv1a domain % asked_cache_buckets

abbrev pub put : AskedCache → ℕ → List AskedNode → AskedCache
put c idx ns = record { buckets = λ i. if idx == i then ns else c.buckets i }

-- the state at which the loop of `asked_cache_try_claim` stops
unfoldable pub find : Bytes → List AskedNode → Option AskedState
find domain [] = none
find domain (n ∷ ns) =
    let rest = find domain ns in if bytes_eq n.domain domain then some n.state else rest

-- `node_ok`: the node was allocated; `copy_ok`: so was the copy of the name
unfoldable pub asked_cache_try_claim : AskedCache → Bytes → Bool → Bool → AskedCache × Bool
unfolding find
asked_cache_try_claim c domain node_ok copy_ok = elim (find domain (c.buckets (bucket domain))) [
  | some s ↦ (c, false)
  | none ↦ if not node_ok then (c, false) else if not copy_ok then (c, false) else (
    put c (bucket domain)
        (record { domain = domain; state = asked_pending } ∷ c.buckets (bucket domain)),
    true,
  )
]

-- the loop of `asked_cache_mark_done`
unfoldable pub mark : Bytes → Bool → List AskedNode → List AskedNode
mark domain succeeded [] = []
mark domain succeeded (n ∷ ns) =
    let rest = mark domain succeeded ns in
    if bytes_eq n.domain domain
    then (if succeeded then record n { state = asked_done } ∷ ns else ns)
    else n ∷ rest

unfoldable pub asked_cache_mark_done : AskedCache → Bytes → Bool → AskedCache
unfolding mark
asked_cache_mark_done c domain succeeded =
    put c (bucket domain) (mark domain succeeded (c.buckets (bucket domain)))

-- the cache, the count of the semaphore, and the domains that a thread is asking about
pub record Gravity : Type 0 where
  pub asked : AskedCache
  pub permits : ℕ
  pub running : List Bytes

-- `args_ok`: the arguments were allocated; `thread_ok`: the thread was created
unfoldable pub queue_gravity_check : Gravity → Bytes → Bool → Bool → Gravity
unfolding asked_cache_mark_done
queue_gravity_check g domain args_ok thread_ok =
    if g.permits == 0
    then record g { asked = asked_cache_mark_done g.asked domain false }
    else if not args_ok
    then g
    else if thread_ok
    then record g { permits = g.permits - 1; running = domain ∷ g.running }
    else g

-- the call in `process_request`
unfoldable pub ask : Gravity → Bytes → Bool → Bool → Bool → Bool → Gravity
unfolding asked_cache_try_claim queue_gravity_check
ask g domain node_ok copy_ok args_ok thread_ok =
    let (asked, fire) = asked_cache_try_claim g.asked domain node_ok copy_ok in
    let claimed = record g { asked = asked } in
    if fire then queue_gravity_check claimed domain args_ok thread_ok else claimed

-- the first thread for the domain leaves
unfoldable pub without : Bytes → List Bytes → List Bytes
without domain [] = []
without domain (d ∷ ds) = let rest = without domain ds in if bytes_eq d domain then ds else d ∷ rest

-- the end of `gravity_check_thread`; `reached`: the upstream answered
unfoldable pub finish : Gravity → Bytes → Bool → Gravity
unfolding asked_cache_mark_done without
finish g domain reached = record {
  asked = asked_cache_mark_done g.asked domain reached;
  permits = suc g.permits;
  running = without domain g.running;
}
