-- ===== src/Lib.antt =====
-- A library on nyet, a DNS proxy that answers queries for blocked domains itself and forwards the
-- rest.
--
-- A query comes in as a UDP packet. A rate limiter decides whether its sender is served, the packet
-- is parsed to a domain and a type, and the domain is checked: first in a cache of verdicts, then in
-- a tree of domains that is built from the blocklist and replaced whole on a reload. A blocked domain
-- gets a packet with a made-up address, an allowed or unknown one an answer from a cache of answers
-- or from upstream. A domain that no entry matches is scored, put in the tree as under review, and
-- asked about once at another server, in a thread of its own; if that server lists it, it is blocked and added
-- to a file that is loaded at the next start. All of it is logged in lines of tab-separated fields.
--
-- The files, with the code of each under the repository's root:
-- - Prelude: lists, bytes, Boolean tests, machine words and C's signed arithmetic for all the others.
-- - Labels: strcmp, the split of a domain into labels from the right, and the search of a child among
--   sorted siblings (src/radix_tree.c: lower, split_domain_rtl, find_child).
-- - RadixTree: nodes, insertion, the sort before a tree is published, lookup and the counting of hits
--   (src/radix_tree.c, src/radix_tree.h). The pointer to a node is the node; a path of indices stands
--   for the place of an entry. The outcome of each malloc is read from a list of Booleans.
-- - DnsCache: the table of verdicts with its lookup, insertion, removal, sweep and clearing
--   (src/dns_cache.c, src/dns_cache.h). The lock is held for each whole operation, so an operation is a
--   function of the state; the clock is an argument.
-- - AnswerCache: the table of answers (src/answer_cache.c): lookup and insertion, and in Upkeep its start,
--   invalidation, clearing and pruning, each under its lock as well. The probe window is a list of indices.
-- - Verdict: check_domain of src/nyet.c, which combines the cache and the tree. Its steps take their
--   locks one by one, so that each has a clock of its own.
-- - Packet: parse_query, create_blocked_response, parse_answer_records and
--   create_cached_answer_response of src/nyet.c.
-- - RateLimit: rate_limit_allow of src/nyet.c, one step for a request at a time of the clock.
-- - AskedCache: the claims and marks of gravity checks, and the threads and permits of
--   queue_gravity_check and gravity_check_thread, in src/nyet.c. A run is a sequence of requests and
--   of ends of threads in any order.
-- - Words and Heuristics: the trie of frequent words and the checks of a domain (src/heuristics.c);
--   Heuristics.Float is the sum of compute_heuristic_score in single precision, as natural numbers in units of
--   2^-27, each operation rounded to the nearest float.
-- - Text: printf's decimals, atoi, strtok_s and fgets, as the code below uses them.
-- - Blocklist: load_blocklist with its lines and columns, and the lines of append_learned_entry and of
--   flag_for_review (src/nyet.c).
-- - LogBuffer and LogLine: init_log_buffer, append_log, flush_log_if_stale and the last write of proxy_destroy,
--   and the lines of log_query (src/nyet.c).
-- - Upstream: recv_matching_reply (src/nyet.c) over the packets that recvfrom returns.
-- - Request: process_request with flag_for_review, run_heuristics and log_query (src/nyet.c). Server is DNSProxy
--   with the globals; Outcomes has the clocks and what comes from outside: allocations, files, replies.
--   Request.Handling has the branches, composed as in the code; the result is the server and what was sent.
-- - Confirm and PiQuery: gravity_check_thread on that server, and the escapes and the reading of the response of
--   query_pi_gravity (src/nyet.c).
-- - LabelTests, LogField and Codes: is_hex_telemetry and is_suspicious_label, sanitize_log_field, and
--   the letters of blocklist columns, in src/nyet.c.
-- - Tests: the definitions and the theorems at concrete inputs.
--
-- Bytes, times and counters are natural numbers; where the code computes in 8, 32 or 64 bits, the
-- wrap-around is written out. Strings are the bytes before the terminator. Loops over arrays recurse
-- on a list. The loops on fuel: the binary search, with the number of places between its
-- bounds, as each turn narrows them by one at least; read_labels and skip_dns_name, with the size
-- of the packet and one more, as each turn consumes a byte at least; load_blocklist, with the size of the file
-- and one more, for the same reason; the decimals, with the 20 digits of a word of 64 bits; and
-- recv_matching_reply, where a round in which the clock shows the deadline ends the loop.
--
-- Left out: the calls of HTTP, sockets, files, threads and the completion port, the start and stop of the program,
-- the timer of the reload thread, and the scripts. The text of the reason of a score is an argument. Allocation
-- failures are modelled in the tree and the gravity checks, where the code goes on after them. Memory freed late
-- for readers of an old tree is not modelled.
pub mod Prelude
pub mod DnsCache
pub mod RateLimit
pub mod AskedCache
pub mod Labels
pub mod RadixTree
pub mod Packet
pub mod Verdict
pub mod LogField
pub mod Upstream
pub mod LogLine
pub mod Request
pub mod Confirm
pub mod PiQuery
pub mod Blocklist
pub mod Text
pub mod LogBuffer
pub mod Heuristics
pub mod Words
pub mod AnswerCache
pub mod Codes
pub mod LabelTests
pub mod Tests
