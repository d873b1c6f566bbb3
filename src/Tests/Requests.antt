-- ===== src/Tests/Requests.antt =====
-- Requests, a promotion by the Pi and the wait for a reply at a concrete server.
use nyet.Prelude.{
  ℕ, zero, suc, ◌+◌, ◌*◌, ◌≤◌, ◌≡◌, refl, ◌⊎◌, Bool, true, false, Option, none, some, List, [], ◌∷◌,
  ◌++◌, arith, Bytes, bytes_eq,
}
use nyet.RateLimit.{RateLimiter, rate_limit_allow, started}
use nyet.RadixTree.{Node, RadixEntry, allowed, blocked, review, fresh, insert_path, radix_lookup}
use nyet.RadixTree.Insert.{fresh-IsTree}
use nyet.RadixTree.Histories.{status_of}
use nyet.Labels.{split_domain_rtl, dot}
use nyet.Verdict.{check_domain, tree_result}
use nyet.LogBuffer.{init_log_buffer}
use nyet.Blocklist.{learned_line}
use nyet.Codes.{source_pi_gravity}
use nyet.Request.{
  Server, Send, to_client, to_upstream, QueryContext, Outcomes, first_sight, scored_entry,
  dns_seconds,
}
use nyet.Request.Handling.{handle_parsed, cache_eligible}
use nyet.Request.Reviewed.{first_sight-review}
use nyet.Confirm.{Surroundings, listed, gravity_check_thread, gravity_entry}
use nyet.Confirm.Promoted.{gravity_check_thread-blocks}
use nyet.Upstream.{Round, packet, matching, same_id, recv_matching_reply, socket_error}
use nyet.Upstream.Reply.{FirstEnd, recv_matching_reply-ends}

abbrev net : Bytes
net = 110 ∷ 101 ∷ 116 ∷ []

abbrev ads : Bytes
ads = 97 ∷ 100 ∷ 115 ∷ []

abbrev ads_net : Bytes
ads_net = 97 ∷ 100 ∷ 115 ∷ dot ∷ 110 ∷ 101 ∷ 116 ∷ []

abbrev entry : RadixEntry
entry = record {
  status = blocked;
  ttl = 0;
  hit_count = 0;
  last_seen = 0;
  source = 0;
  ml_score = 0;
  note = none;
}

abbrev root : Node
root = (insert_path (fresh []) (net ∷ ads ∷ []) entry []).1

-- a server with a tree
abbrev server : Node → Server
server tree = record {
  limiter = started 100;
  rl_dropped = 0;
  proxy = record { query_cache = none; blocklist_tree = some tree };
  dns_answer_cache = none;
  gravity = record { asked = record { buckets = λ _. [] }; permits = 8; running = [] };
  log_file = some (init_log_buffer [] 65536 [] 100);
  review_file = [];
  learned_file = [];
  stats = record { total_scored = 0; flagged_review = 0; score_histogram = λ _. 0 };
  upstream_addrs = λ u. (u + 1, 53);
  preferred_upstream = 0;
}

-- an A query for ads.net, from 9
abbrev ctx : QueryContext
ctx = record {
  raw_query =
      7 ∷ 8 ∷ 1 ∷ 0 ∷ 0 ∷ 1 ∷ 0 ∷ 0 ∷ 0 ∷ 0 ∷ 0 ∷ 0 ∷ 3 ∷ 97 ∷ 100 ∷ 115 ∷ 3 ∷ 110 ∷ 101 ∷ 116 ∷ 0
      ∷ 0 ∷ 1 ∷ 0 ∷ 1 ∷ [];
  src_ip = 9;
  client_ip = 57 ∷ [];
}

abbrev reply : Bytes
reply = 7 ∷ 8 ∷ 129 ∷ 131 ∷ []

-- The first upstream is silent; for the second, a forged packet comes before the reply.
abbrev packets : ℕ → ℕ → Round
packets zero k = record { received = socket_error; ticks = 1000 * k }
packets (suc u) zero = record { received = packet (66, 53) reply; ticks = 10 }
packets (suc u) (suc k) = record { received = packet (2, 53) reply; ticks = 1000 * k }

abbrev outcomes : Outcomes
outcomes = record {
  limiter_time = 100;
  lookup_time = 1;
  insert_time = 2;
  tree_time = 3;
  seconds = 1700000000;
  answer_lookup_time = 4;
  answer_insert_time = 5;
  latency_us = 12;
  memory = [];
  review_opens = true;
  node_ok = true;
  copy_ok = true;
  args_ok = true;
  thread_ok = true;
  socket_ok = true;
  reason = 120 ∷ [];
  score_text = λ _. [];
  rounds = packets;
  last_round = λ _. 2;
  start_ticks = λ _. 0;
}

abbrev limiter_after : Option (Bool × RateLimiter) → RateLimiter
limiter_after none = started 100
limiter_after (some r) = r.1

abbrev limiter : RateLimiter
limiter = limiter_after (rate_limit_allow (started 100) 9 100)

-- the request for an unknown domain
abbrev unknown : Server × List Send
unknown =
    handle_parsed (record (server (fresh [])) { limiter = limiter }) ctx outcomes
      (some (ads_net, 1))

unknown_sent :
    unknown.1 ≡ to_upstream 0 ctx.raw_query ∷ to_upstream 1 ctx.raw_query ∷ to_client reply ∷ []
unfolding handle_parsed check_domain radix_lookup split_domain_rtl
unknown_sent = refl

split_ads_net : split_domain_rtl ads_net ≡ some (net ∷ ads ∷ [])
unfolding split_domain_rtl
split_ads_net = refl

not_found : (radix_lookup (some (fresh [])) ads_net 3).0 ≡ none
unfolding radix_lookup split_domain_rtl
not_found = refl

put : (insert_path (fresh []) (net ∷ ads ∷ []) (scored_entry ads_net outcomes) []).0 ≡ true
unfolding insert_path bytes_eq
put = refl

first_sight-review_example :
    (r : RadixEntry) × ((radix_lookup
        (first_sight (server (fresh [])) ads_net outcomes).proxy.blocklist_tree
        ads_net
        4).0
      ≡ some r)
    × (r.status ≡ review)
    × ((qtype : ℕ) → cache_eligible (tree_result ads_net r) qtype ≡ false)
first_sight-review_example =
    first_sight-review (server (fresh [])) (fresh []) ads_net net (ads ∷ []) outcomes 3 4 refl
      (fresh-IsTree []) split_ads_net not_found put

abbrev surroundings : Surroundings
surroundings = record { seconds = 1700000000; memory = []; learned_opens = true }

promoted :
    (insert_path (fresh []) (net ∷ ads ∷ []) (gravity_entry (dns_seconds 1700000000)) []).0 ≡ true
unfolding insert_path bytes_eq
promoted = refl

gravity_check_thread-blocks_example :
    ((status_of
          (radix_lookup
            (gravity_check_thread
              (server (fresh []))
              ads_net
              listed
              surroundings).proxy.blocklist_tree
            ads_net
            5).0
        ≡ some allowed)
      ⊎ (status_of
            (radix_lookup
              (gravity_check_thread
                (server (fresh []))
                ads_net
                listed
                surroundings).proxy.blocklist_tree
              ads_net
              5).0
          ≡ some blocked))
    × ((gravity_check_thread (server (fresh [])) ads_net listed surroundings).learned_file
        ≡ []
          ++ learned_line blocked source_pi_gravity
              (dns_seconds 1700000000)
              (dns_seconds 1700000000)
              1
              0
              ads_net)
gravity_check_thread-blocks_example =
    gravity_check_thread-blocks (server (fresh [])) (fresh []) ads_net net (ads ∷ []) surroundings 5
      refl (fresh-IsTree []) split_ads_net promoted refl

-- a forged packet, an early reply of the right server to another query, and the reply
abbrev rounds : ℕ → Round
rounds zero = record { received = packet (66, 53) reply; ticks = 10 }
rounds (suc zero) = record { received = packet (1, 53) (9 ∷ 9 ∷ []); ticks = 20 }
rounds (suc (suc k)) = record { received = packet (1, 53) reply; ticks = 1000 * k }

recv_third : recv_matching_reply 4 rounds ctx.raw_query (1, 53) 0 2000 ≡ some (some reply)
unfolding recv_matching_reply
recv_third = refl

recv_matching_reply-ends_example :
    (j : ℕ) × (j ≤ 4)
    × FirstEnd rounds ctx.raw_query (1, 53) (0 + 2000) 0 j
    × (recv_matching_reply 5 rounds ctx.raw_query (1, 53) 0 2000
        ≡ some (matching ctx.raw_query (1, 53) (rounds j).received))
    × ((r : Bytes)
        → recv_matching_reply 5 rounds ctx.raw_query (1, 53) 0 2000 ≡ some (some r)
        → ((rounds j).received ≡ packet (1, 53) r) × (same_id ctx.raw_query r ≡ true))
recv_matching_reply-ends_example =
    recv_matching_reply-ends 4 rounds ctx.raw_query (1, 53) 0 2000 (omega arith)
