-- ===== src/Request/Blocked.antt =====
-- What a request for a blocked domain does.
use nyet.Verdict.{CheckResult}
use nyet.Blocklist.{max_domain_len}
use nyet.RateLimit.{rate_limit_allow, RateLimiter, ◌>>=◌}
use nyet.Request.{
  Server, QueryContext, Outcomes, CheckResult, create_blocked_response, max_domain_len,
}
use nyet.Prelude.{ℕ, ◌≡◌, ap, ◌∙◌, true, some, Bytes}
use nyet.Request.Handling.{process_request, limited, handle_query, handle_parsed}
use nyet.Packet.{create_blocked_response, parse_query}

-- nothing but the limiter, the verdict cache, the hits of the tree and the log has changed
abbrev pub IsUntouched : Server → Server → Type 0
IsUntouched p q =
    (q.dns_answer_cache ≡ p.dns_answer_cache)
    × (q.gravity ≡ p.gravity)
    × (q.review_file ≡ p.review_file)
    × (q.learned_file ≡ p.learned_file)
    × (q.stats ≡ p.stats)
    × (q.preferred_upstream ≡ p.preferred_upstream)
    × (q.rl_dropped ≡ p.rl_dropped)

pub process_request-parsed :
    (p : Server) (ctx : QueryContext) (o : Outcomes) (limiter : RateLimiter) (domain : Bytes)
    (qtype : ℕ)
    → rate_limit_allow p.limiter ctx.src_ip o.limiter_time ≡ some (true, limiter)
    → parse_query ctx.raw_query max_domain_len ≡ some (domain, qtype)
    → process_request p ctx o
      ≡ some (handle_parsed (record p { limiter = limiter }) ctx o (some (domain, qtype)))
unfolding process_request limited handle_query
process_request-parsed p ctx o limiter domain qtype allow parsed =
    ap (λ r. r >>= λ s. some (limited p ctx o s)) allow
    ∙ ap (λ x. some (handle_parsed (record p { limiter = limiter }) ctx o x)) parsed
