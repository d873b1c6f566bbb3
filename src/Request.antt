-- ===== src/Request.antt =====
-- src/nyet.c: `process_request` with the steps that it calls (`flag_for_review`, `run_heuristics`,
-- `log_query`). Each shared part has a lock of its own, so the readings of the clocks in one request
-- are separate values; what comes from outside the process stands in `Outcomes`.
pub mod Handling
pub mod Sends
pub mod Blocked
pub mod Reviewed
use nyet.Prelude.{
  ℕ, zero, suc, ◌+◌, ◌-◌, ◌*◌, ◌/◌, ◌%◌, ◌^◌, ◌≤◌, ◌<◌, ◌≡◌, refl, sym, ap, ap₂, subst, ◌∙◌, ◌≢◌,
  ◌↔◌, ◌⊎◌, inl, inr, Bool, true, false, not, ◌&&◌, ◌||◌, Option, none, some, List, [], ◌∷◌, ◌++◌,
  map, arith, ltb, leb, ◌==◌, if◌then◌else◌, if_elim, Bool-cases, Option-cases, Bytes, bytes_eq,
  bytes_eq_iff, bytes_eq_refl, ==_same, ==_other, length, length-append, All, take, drop,
  take_append_exact, drop_append_exact, set, get_elem?, get_or,
}
use nyet.Prelude.Words.{u32_mod}
use nyet.RateLimit.{◌>>=◌, RateLimiter, rate_limit_allow}
use nyet.RadixTree.{
  RadixEntry, RadixStatus, allowed, blocked, review, Memory, radix_tree_insert_live,
}
use nyet.Blocklist.{review_line, max_domain_len}
use nyet.Heuristics.Float.{review_threshold, bucket_of, score_of, round}
use nyet.Heuristics.{signals_of}
use nyet.AskedCache.{ask, Gravity}
use nyet.LogBuffer.{LogBuffer, append_log}
use nyet.Verdict.{CheckResult, Proxy, MatchSource, check_domain, match_none}
use nyet.LogLine.{
  QueryResult, log_entry, result_allowed, result_review, result_forwarded, LogEntry, result_cached,
  result_blocked, result_error,
}
use nyet.AnswerCache.{AnswerCache, answer_cache_lookup, answer_cache_insert}
use nyet.Packet.{
  Answer, create_blocked_response, parse_answer_records, parse_query, create_cached_answer_response,
  default_block_ttl_seconds,
}
use nyet.Upstream.{Address, Round}

-- "(unparseable)" and "malformed"
abbrev pub unparseable : Bytes
unparseable =
    b'(' ∷ b'u' ∷ b'n' ∷ b'p' ∷ b'a' ∷ b'r' ∷ b's' ∷ b'e' ∷ b'a' ∷ b'b' ∷ b'l' ∷ b'e' ∷ b')' ∷ []

abbrev pub malformed : Bytes
malformed = b'm' ∷ b'a' ∷ b'l' ∷ b'f' ∷ b'o' ∷ b'r' ∷ b'm' ∷ b'e' ∷ b'd' ∷ []

-- what leaves the proxy: a reply to the client, or a packet to one of the two upstreams
pub data Send : Type 0 where
  to_client : Bytes → Send
  to_upstream : ℕ → Bytes → Send

-- g_heuristic_total_scored, g_heuristic_flagged_review and g_score_histogram
pub record Stats : Type 0 where
  pub total_scored : ℕ
  pub flagged_review : ℕ
  pub score_histogram : ℕ → ℕ

-- DNSProxy, with the globals of the limiter, the semaphore and the statistics
pub record Server : Type 0 where
  pub limiter : RateLimiter
  pub rl_dropped : ℕ
  pub proxy : Proxy
  pub dns_answer_cache : Option AnswerCache
  pub gravity : Gravity
  pub log_file : Option LogBuffer
  pub review_file : Bytes
  pub learned_file : Bytes
  pub stats : Stats
  pub upstream_addrs : ℕ → Address
  pub preferred_upstream : ℕ

-- a packet as it was received; `client_ip` is what inet_ntop writes for its sender
pub record QueryContext : Type 0 where
  pub raw_query : Bytes
  pub src_ip : ℕ
  pub client_ip : Bytes

-- the readings of the clocks, the outcomes of allocations and calls of the system, what printf makes of a
-- score, and for each upstream what recvfrom returns in the rounds of `recv_matching_reply`, the clock at its
-- start, and a round in which the clock has reached the deadline
pub record Outcomes : Type 0 where
  pub limiter_time : ℕ
  pub lookup_time : ℕ
  pub insert_time : ℕ
  pub tree_time : ℕ
  pub seconds : ℕ
  pub answer_lookup_time : ℕ
  pub answer_insert_time : ℕ
  pub latency_us : ℕ
  pub memory : Memory
  pub review_opens : Bool
  pub node_ok : Bool
  pub copy_ok : Bool
  pub args_ok : Bool
  pub thread_ok : Bool
  pub socket_ok : Bool
  pub reason : Bytes
  pub score_text : ℕ → Bytes
  pub rounds : ℕ → ℕ → Round
  pub last_round : ℕ → ℕ
  pub start_ticks : ℕ → ℕ

-- time(NULL) less DNS_EPOCH, 1577836800, in 32 bits
abbrev pub dns_seconds : ℕ → ℕ
dns_seconds seconds = (seconds + (u32_mod - 1577836800)) % u32_mod

-- SOURCE_HEURISTIC in the order of EntrySource
abbrev pub heuristic_entry : ℕ → ℕ → Bytes → RadixEntry
heuristic_entry now ml_score reason = record {
  status = review;
  ttl = 0;
  hit_count = 1;
  last_seen = now;
  source = 1;
  ml_score = ml_score;
  note = some reason;
}

-- the line in the file of reviews
unfoldable pub write_review : Server → Bytes → ℕ → Outcomes → Server
unfolding review_line
write_review p domain ml_score o =
    if leb review_threshold ml_score && o.review_opens
    then record p { review_file = p.review_file ++ review_line o.seconds domain o.reason }
    else p

unfoldable pub flag_for_review : Server → Bytes → ℕ → Outcomes → Server
unfolding write_review radix_tree_insert_live
flag_for_review p domain ml_score o =
    let q = write_review p domain ml_score o in
    record q {
      proxy = record q.proxy {
        blocklist_tree =
            (radix_tree_insert_live q.proxy.blocklist_tree domain
              (heuristic_entry (dns_seconds o.seconds) ml_score o.reason) o.memory).1;
      };
    }

abbrev pub count_score : Stats → ℕ → Stats
count_score s score = record {
  total_scored = s.total_scored + 1;
  flagged_review = if leb review_threshold score then s.flagged_review + 1 else s.flagged_review;
  score_histogram =
      λ i. if i == bucket_of score then s.score_histogram i + 1 else s.score_histogram i;
}

-- what `run_heuristics` puts in the tree
abbrev pub scored_entry : Bytes → Outcomes → RadixEntry
scored_entry domain o =
    heuristic_entry (dns_seconds o.seconds) (score_of (signals_of domain)) o.reason

unfoldable pub run_heuristics : Server → Bytes → Outcomes → Server
unfolding signals_of score_of bucket_of flag_for_review
run_heuristics p domain o =
    let score = score_of (signals_of domain) in
    flag_for_review (record p { stats = count_score p.stats score }) domain score o

-- a domain that the tree does not know is scored, and asked about
unfoldable pub first_sight : Server → Bytes → Outcomes → Server
unfolding run_heuristics ask
first_sight p domain o =
    let q = run_heuristics p domain o in
    record q { gravity = ask q.gravity domain o.node_ok o.copy_ok o.args_ok o.thread_ok }

abbrev pub append? : Option LogBuffer → LogEntry → ℕ → Option LogBuffer
append? none e now = none
append? (some b) e now = some (append_log b (log_entry e) now)

unfoldable pub log_query :
    Server
    → QueryContext
    → Bytes
    → ℕ
    → QueryResult
    → MatchSource
    → Option Bytes
    → ℕ
    → Outcomes
    → Server
unfolding append_log log_entry
log_query p ctx domain qtype result source reason latency_us o = record p {
  log_file =
      append? p.log_file
        (record {
          epoch = o.seconds;
          client_ip = ctx.client_ip;
          domain = domain;
          qtype = qtype;
          result = result;
          source = source;
          reason = reason;
          latency_us = latency_us;
        })
        o.seconds;
}

abbrev pub matched_reason : CheckResult → Option Bytes
matched_reason check = if check.matched then some check.matched_domain else none

-- the result of the last line
abbrev pub result_of : RadixStatus → QueryResult
result_of allowed = result_allowed
result_of review = result_review
result_of blocked = result_forwarded

abbrev pub final_result : CheckResult → QueryResult
final_result check = if check.matched then result_of check.status else result_forwarded

abbrev pub is_review : RadixStatus → Bool
is_review allowed = false
is_review review = true
is_review blocked = false

abbrev pub is_blocked : RadixStatus → Bool
is_blocked allowed = false
is_blocked review = false
is_blocked blocked = true

abbrev pub is_allowed : RadixStatus → Bool
is_allowed allowed = true
is_allowed review = false
is_allowed blocked = false

-- its reason; `score_buf` has 16 bytes
abbrev pub final_reason : CheckResult → Outcomes → Option Bytes
final_reason check o =
    if check.matched && is_review check.status
    then some (take 15 (o.score_text check.ml_score))
    else matched_reason check
