-- ===== src/LogLine.antt =====
-- src/nyet.c, `log_query`: one line of the query log. `decimal` is printf's %lld and %u.
pub mod Lines
use nyet.Prelude.{ℕ, Option, none, some, [], ◌∷◌, ◌++◌, Bytes, take}
use nyet.Text.{decimal}
use nyet.LogField.{sanitize_log_field}
use nyet.Verdict.{MatchSource, match_hash_exact, match_hash_suffix, match_heuristic, match_none}

pub data QueryResult : Type 0 where
  result_blocked result_allowed result_review result_forwarded result_cached result_error :
      QueryResult

abbrev pub result_char : QueryResult → ℕ
result_char result_blocked = b'B'
result_char result_allowed = b'A'
result_char result_review = b'R'
result_char result_forwarded = b'F'
result_char result_cached = b'C'
result_char result_error = b'E'

abbrev pub source_char : MatchSource → ℕ
source_char match_hash_exact = b'e'
source_char match_hash_suffix = b's'
source_char match_heuristic = b'h'
source_char match_none = b'n'

pub record LogEntry : Type 0 where
  pub epoch : ℕ
  pub client_ip : Bytes
  pub domain : Bytes
  pub qtype : ℕ
  pub result : QueryResult
  pub source : MatchSource
  pub reason : Option Bytes
  pub latency_us : ℕ

-- MAX_DOMAIN_LEN, and INET_ADDRSTRLEN * 2
abbrev pub safe_domain : LogEntry → Bytes
safe_domain e = sanitize_log_field e.domain 256

abbrev pub safe_ip : LogEntry → Bytes
safe_ip e = sanitize_log_field e.client_ip 44

-- the reason, or "" for NULL
abbrev pub reason_text : Option Bytes → Bytes
reason_text none = []
reason_text (some reason) = reason

-- what snprintf would write in a buffer of any size
unfoldable pub log_text : LogEntry → Bytes
log_text e =
    decimal e.epoch
    ++ b'\t'
      ∷ (safe_ip e
          ++ b'\t'
            ∷ (safe_domain e
                ++ b'\t'
                  ∷ (decimal e.qtype
                      ++ b'\t'
                        ∷ result_char e.result
                        ∷ b'\t'
                        ∷ source_char e.source
                        ∷ b'\t'
                        ∷ (reason_text e.reason ++ b'\t' ∷ (decimal e.latency_us ++ b'\n' ∷ [])))))

-- what it writes in the 512 bytes of `log_entry`, less the terminator
unfoldable pub log_entry : LogEntry → Bytes
log_entry e = take 511 (log_text e)
