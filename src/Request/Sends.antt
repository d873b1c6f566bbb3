-- ===== src/Request/Sends.antt =====
-- What a request makes the proxy send.
use nyet.Prelude.{ℕ, suc, ◌≤◌, ◌<◌, ◌≡◌, ◌⊎◌, true, Option, some, List, [], ◌∷◌, Bytes, All}
use nyet.AnswerCache.{AnswerCache}
use nyet.Upstream.{Address, packet, same_id}
use nyet.Request.{
  Server, Send, to_client, to_upstream, Outcomes, CheckResult, RateLimiter, create_blocked_response,
  check_domain, max_domain_len,
}
use nyet.Request.Handling.{Exchange, exchange, response_size}
use nyet.Verdict.{CheckResult, check_domain}
use nyet.RateLimit.{RateLimiter}
use nyet.Packet.{Answer, create_cached_answer_response, create_blocked_response}
use nyet.Blocklist.{max_domain_len}

abbrev pub client_sends : List Send → ℕ
client_sends [] = 0
client_sends (to_client reply ∷ sent) = suc (client_sends sent)
client_sends (to_upstream u bytes ∷ sent) = client_sends sent

abbrev pub upstream_sends : List Send → ℕ
upstream_sends [] = 0
upstream_sends (to_client reply ∷ sent) = upstream_sends sent
upstream_sends (to_upstream u bytes ∷ sent) = suc (upstream_sends sent)

-- Where a packet to the client may come from: it is made for a blocked domain or from a cached answer, or it
-- was received from an upstream, with the query's transaction id.
abbrev pub IsTrusted : (ℕ → Address) → Outcomes → Bytes → Bytes → Type 0
IsTrusted addrs o raw_query reply =
    ((ttl : ℕ) × (reply ≡ create_blocked_response raw_query ttl))
    ⊎ (((qtype : ℕ) × (answer : Answer) × (create_cached_answer_response raw_query response_size
              qtype answer
            ≡ some reply))
        ⊎ ((u : ℕ) × (i : ℕ) × ((o.rounds u i).received ≡ packet (addrs u) reply)
            × (same_id raw_query reply ≡ true)))

-- a trusted packet to the client; the query, unchanged, to one of the two upstreams
abbrev pub IsRelayed : (ℕ → Address) → Outcomes → Bytes → Send → Type 0
IsRelayed addrs o raw_query (to_client reply) = IsTrusted addrs o raw_query reply
IsRelayed addrs o raw_query (to_upstream u bytes) = (u < 2) × (bytes ≡ raw_query)

-- at most one reply and at most two packets to the upstreams
abbrev pub IsSafe : (ℕ → Address) → Outcomes → Bytes → List Send → Type 0
IsSafe addrs o raw_query sent =
    (client_sends sent ≤ 1) × (upstream_sends sent ≤ 2) × All (IsRelayed addrs o raw_query) sent

-- one of the two upstreams is preferred, and the upstreams have the addresses
abbrev pub IsReady : (ℕ → Address) → Server → Type 0
IsReady addrs p = (p.preferred_upstream < 2) × (p.upstream_addrs ≡ addrs)

-- a server that is ready, and what it sent
abbrev pub Fine : (ℕ → Address) → Outcomes → Bytes → Server × List Send → Type 0
Fine addrs o raw_query (p, sent) = IsSafe addrs o raw_query sent × IsReady addrs p

-- what an exchange sends before the reply, and the reply
abbrev Asks : (ℕ → Address) → Outcomes → Bytes → Exchange → Type 0
Asks addrs o raw_query (exchange reply sent preferred) =
    (client_sends sent ≡ 0)
    × (upstream_sends sent ≤ 2)
    × All (IsRelayed addrs o raw_query) sent
    × (preferred < 2)
    × ((r : Bytes) → reply ≡ some r → IsTrusted addrs o raw_query r)
