-- ===== src/Codes/RoundTrip.antt =====
-- The codes of statuses and sources are read back, and a letter that is no code means a default.
use nyet.Prelude.{ℕ, ◌≡◌, refl, ◌≢◌, arith}
use nyet.RadixTree.{RadixStatus, allowed, blocked, review}
use nyet.Codes.{
  EntrySource, source_static, source_heuristic, source_pi_gravity, source_manual, parse_status,
  status_to_char, parse_source, source_to_char,
}

status_read : (s : RadixStatus) → parse_status (status_to_char s) ≡ s
status_read blocked = refl
status_read allowed = refl
status_read review = refl

source_read : (s : EntrySource) → parse_source (source_to_char s) ≡ s
source_read source_static = refl
source_read source_heuristic = refl
source_read source_pi_gravity = refl
source_read source_manual = refl

-- The letter written for a status or a source is read back as that status or source, and a letter
-- that none is written as is read as a review or as a manual entry.
pub parse-to_char :
    (s : RadixStatus) (source : EntrySource) (c : ℕ)
    → (parse_status (status_to_char s) ≡ s)
      × (parse_source (source_to_char source) ≡ source)
      × (((t : RadixStatus) → status_to_char t ≢ c) → parse_status c ≡ review)
      × (((t : EntrySource) → source_to_char t ≢ c) → parse_source c ≡ source_manual)
parse-to_char s source c = (
  status_read s,
  source_read source,
  λ n. ground (arith, n blocked, n allowed),
  λ n. ground (arith, n source_static, n source_heuristic, n source_pi_gravity),
)
