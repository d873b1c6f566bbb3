-- ===== src/Request/Handling.antt =====
-- src/nyet.c, `process_request`: the branches of a request, from the block path to the relay of a reply.
use nyet.Prelude.{
  ℕ, suc, ◌+◌, ◌-◌, Bool, true, false, not, ◌&&◌, ◌||◌, Option, none, some, List, [], ◌∷◌, ◌++◌,
  ◌==◌, if◌then◌else◌, Bytes,
}
use nyet.Upstream.{recv_matching_reply}
use nyet.RateLimit.{◌>>=◌, rate_limit_allow, RateLimiter}
use nyet.Blocklist.{max_domain_len}
use nyet.Verdict.{CheckResult, check_domain, match_none}
use nyet.LogLine.{result_forwarded, result_cached, result_blocked, result_error}
use nyet.AnswerCache.{AnswerCache, answer_cache_lookup, answer_cache_insert}
use nyet.Packet.{
  Answer, create_blocked_response, parse_answer_records, parse_query, create_cached_answer_response,
  default_block_ttl_seconds,
}
use nyet.Request.{
  Server, Send, to_client, to_upstream, QueryContext, Outcomes, first_sight, is_allowed, log_query,
  is_blocked, matched_reason, unparseable, final_result, malformed, final_reason,
}

-- BUFFER_SIZE + 32
abbrev pub response_size : ℕ
response_size = 4128

-- steps 5 and 6: the two upstreams
pub data Exchange : Type 0 where
  exchange : Option Bytes → List Send → ℕ → Exchange

-- the reply, what was sent, and the preferred upstream after it, from what the two upstreams reply
abbrev pub exchanged : ℕ → Bytes → Option Bytes → Option Bytes → Exchange
exchanged primary raw_query (some reply) second =
    exchange (some reply) (to_upstream primary raw_query ∷ []) primary
exchanged primary raw_query none (some reply) =
    exchange (some reply) (to_upstream primary raw_query ∷ to_upstream (1 - primary) raw_query ∷ [])
      (1 - primary)
exchanged primary raw_query none none =
    exchange none (to_upstream primary raw_query ∷ to_upstream (1 - primary) raw_query ∷ []) primary

-- UPSTREAM_TIMEOUT_MS and UPSTREAM_FALLBACK_TIMEOUT_MS
abbrev pub upstream_timeout_ms : ℕ
upstream_timeout_ms = 2000

abbrev pub upstream_fallback_timeout_ms : ℕ
upstream_fallback_timeout_ms = 300

abbrev pub returned : Option (Option Bytes) → Option Bytes
returned none = none
returned (some r) = r

-- The wait for one upstream. It returns by `last_round`, as the clock has reached the deadline there.
unfoldable pub wait_for : Server → Outcomes → Bytes → ℕ → ℕ → Option Bytes
unfolding recv_matching_reply
wait_for p o raw_query u timeout_budget_ms = returned (
    recv_matching_reply (suc (o.last_round u)) (o.rounds u) raw_query (p.upstream_addrs u)
      (o.start_ticks u) timeout_budget_ms)

unfoldable pub ask_upstreams : Server → Outcomes → Bytes → Exchange
unfolding wait_for
ask_upstreams p o raw_query =
    exchanged p.preferred_upstream raw_query
      (wait_for p o raw_query p.preferred_upstream upstream_timeout_ms)
      (wait_for p o raw_query (1 - p.preferred_upstream) upstream_fallback_timeout_ms)

-- a reply to a query that may be cached is kept, where its records can be read
abbrev pub keep_answer : Option AnswerCache → Bytes → ℕ → Option Answer → ℕ → Option AnswerCache
keep_answer none domain qtype parsed now = none
keep_answer (some c) domain qtype none now = some c
keep_answer (some c) domain qtype (some answer) now =
    some (answer_cache_insert c domain qtype answer now).0

unfoldable pub relay : Server → Bytes → ℕ → Bool → Outcomes → Exchange → Server × List Send
unfolding parse_answer_records answer_cache_insert
relay p domain qtype cache_eligible o (exchange none sent preferred) =
    (record p { preferred_upstream = preferred }, sent)
relay p domain qtype cache_eligible o (exchange (some reply) sent preferred) = (
  record p {
    preferred_upstream = preferred;
    dns_answer_cache =
        if cache_eligible
        then keep_answer p.dns_answer_cache domain qtype (parse_answer_records reply qtype)
            o.answer_insert_time
        else p.dns_answer_cache;
  },
  sent ++ to_client reply ∷ [],
)

unfoldable pub forward :
    Server → QueryContext → Bytes → ℕ → CheckResult → Bool → Outcomes → Server × List Send
unfolding ask_upstreams relay log_query
forward p ctx domain qtype check cache_eligible o =
    if not o.socket_ok
    then (
      log_query p ctx domain qtype result_forwarded check.source (matched_reason check) o.latency_us
          o,
      [],
    )
    else (let (q, sent) = relay p domain qtype cache_eligible o (ask_upstreams p o ctx.raw_query) in
        (
          log_query q ctx domain qtype (final_result check) check.source (final_reason check o)
              o.latency_us o,
          sent,
        ))

abbrev pub cache_eligible : CheckResult → ℕ → Bool
cache_eligible check qtype =
    (qtype == 1 || qtype == 28) && ((check.matched && is_allowed check.status) || not check.matched)

abbrev pub response_for : Bytes → ℕ → Option Answer → Option Bytes
response_for raw_query qtype none = none
response_for raw_query qtype (some cached) =
    create_cached_answer_response raw_query response_size qtype cached

-- the answer cache after its lookup, and the response that it gives
unfoldable pub cached_response :
    Option AnswerCache
    → QueryContext
    → Bytes
    → ℕ
    → Bool
    → Outcomes
    → Option AnswerCache × Option Bytes
unfolding answer_cache_lookup create_cached_answer_response
cached_response none ctx domain qtype eligible o = (none, none)
cached_response (some c) ctx domain qtype eligible o =
    let (d, hit) = answer_cache_lookup c domain qtype o.answer_lookup_time in
    if eligible then (some d, response_for ctx.raw_query qtype hit) else (some c, none)

-- with a response from the cache, or without one
unfoldable pub conclude_with :
    Server → QueryContext → Bytes → ℕ → CheckResult → Outcomes → Option Bytes → Server × List Send
unfolding forward log_query
conclude_with p ctx domain qtype check o (some bytes) = (
  log_query p ctx domain qtype result_cached check.source (matched_reason check) o.latency_us o,
  to_client bytes ∷ [],
)
conclude_with p ctx domain qtype check o none =
    forward p ctx domain qtype check (cache_eligible check qtype) o

-- step 4b and what follows
unfoldable pub answer_or_forward :
    Server → QueryContext → Bytes → ℕ → CheckResult → Outcomes → Server × List Send
unfolding cached_response conclude_with
answer_or_forward p ctx domain qtype check o =
    let (cache, response) =
      cached_response p.dns_answer_cache ctx domain qtype (cache_eligible check qtype) o in
    conclude_with (record p { dns_answer_cache = cache }) ctx domain qtype check o response

-- the ttl of a blocked response
abbrev pub block_ttl : CheckResult → ℕ
block_ttl check = if check.ttl == 0 then default_block_ttl_seconds else check.ttl

-- a domain with a verdict: blocked, or answered by a cache or an upstream
unfoldable pub answer_query :
    Server → QueryContext → Bytes → ℕ → CheckResult → Outcomes → Server × List Send
unfolding create_blocked_response first_sight answer_or_forward log_query
answer_query p ctx domain qtype check o =
    if check.matched && is_blocked check.status
    then (
      log_query p ctx domain qtype result_blocked check.source (some check.matched_domain)
          o.latency_us o,
      to_client (create_blocked_response ctx.raw_query (block_ttl check)) ∷ [],
    )
    else answer_or_forward (if check.matched then p else first_sight p domain o) ctx domain qtype
        check o

-- what parse_query gives
unfoldable pub handle_parsed :
    Server → QueryContext → Outcomes → Option (Bytes × ℕ) → Server × List Send
unfolding check_domain answer_query log_query
handle_parsed p ctx o none =
    (log_query p ctx unparseable 0 result_error match_none (some malformed) 0 o, [])
handle_parsed p ctx o (some (domain, qtype)) =
    let (proxy, check) = check_domain p.proxy domain o.lookup_time o.insert_time o.tree_time in
    answer_query (record p { proxy = proxy }) ctx domain qtype check o

-- a query that passed the limiter
unfoldable pub handle_query : Server → QueryContext → Outcomes → Server × List Send
unfolding parse_query handle_parsed
handle_query p ctx o = handle_parsed p ctx o (parse_query ctx.raw_query max_domain_len)

-- what the limiter allows is handled; the rest is counted and dropped
unfoldable pub limited : Server → QueryContext → Outcomes → Bool × RateLimiter → Server × List Send
unfolding handle_query
limited p ctx o (true, limiter) = handle_query (record p { limiter = limiter }) ctx o
limited p ctx o (false, limiter) =
    (record p { limiter = limiter; rl_dropped = p.rl_dropped + 1 }, [])

-- `none` where the limiter overflows
unfoldable pub process_request : Server → QueryContext → Outcomes → Option (Server × List Send)
unfolding rate_limit_allow limited
process_request p ctx o = do
  r ← rate_limit_allow p.limiter ctx.src_ip o.limiter_time
  some (limited p ctx o r)
