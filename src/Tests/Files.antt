-- ===== src/Tests/Files.antt =====
-- The log, its lines, the learned list and the escaped domain at concrete values.
use nyet.Prelude.{
  ◌-◌, ◌≤◌, ◌<◌, ◌≡◌, refl, ◌≢◌, true, false, none, some, [], ◌∷◌, ◌++◌, arith, Bytes, length, All,
  replicate,
}
use nyet.LogBuffer.{
  LogBuffer, init_log_buffer, append_log, flush_log_if_stale, final_file,
  log_flush_interval_seconds,
}
use nyet.LogBuffer.Logged.{Run, begins, logs, IsLogged, buffered, Run-IsLogged, Run-final_file}
use nyet.RadixTree.{blocked}
use nyet.Codes.{source_pi_gravity}
use nyet.Blocklist.{load_blocklist}
use nyet.Blocklist.Lines.{Learned, file_of, IsLearned, insert_all}
use nyet.Blocklist.Reload.{load_blocklist-learned}
use nyet.LogLine.{LogEntry, result_blocked, log_text, log_entry}
use nyet.LogLine.Lines.{read_line, columns, HasText, log_entry-read}
use nyet.Verdict.{match_hash_suffix}
use nyet.PiQuery.{encoded_domain, is_listed}
use nyet.PiQuery.Encoding.{percent_decode, IsPathByte, encoded_domain-decoded}
use nyet.Text.{decimal}
use nyet.LogField.{sanitize_log_field}

abbrev line_a : Bytes
line_a = b'a' ∷ b'\n' ∷ []

abbrev line_b : Bytes
line_b = b'b' ∷ b'\n' ∷ []

abbrev empty_log : LogBuffer
empty_log = init_log_buffer (b'?' ∷ []) 65536 [] 100

abbrev two_logged : LogBuffer
two_logged = append_log (append_log empty_log line_a 100) line_b 101

two_logged-Run : Run empty_log two_logged (([] ++ line_a) ++ line_b)
two_logged-Run = logs line_b 101 (logs line_a 100 begins (omega arith)) (omega arith)

Run-IsLogged_example : IsLogged [] 65536 two_logged (([] ++ line_a) ++ line_b)
Run-IsLogged_example =
    Run-IsLogged (b'?' ∷ []) [] 65536 100 (omega arith) (omega arith) two_logged-Run

four_bytes : two_logged.length ≢ 0
unfolding append_log
four_bytes = λ e. ground (arith, e)

a_minute : log_flush_interval_seconds ≤ 200 - two_logged.last_flush_time
unfolding append_log
a_minute = omega arith

Run-final_file_example :
    (final_file two_logged ≡ [] ++ (([] ++ line_a) ++ line_b))
    × (final_file (flush_log_if_stale two_logged 200)
        ≡ ([] ++ (([] ++ line_a) ++ line_b)) ++ buffered two_logged)
Run-final_file_example =
    Run-final_file (b'?' ∷ []) [] 65536 100 200 (omega arith) (omega arith) two_logged-Run
      four_bytes a_minute

abbrev learned : Learned
learned = record {
  status = blocked;
  source = source_pi_gravity;
  first_seen = 5;
  last_seen = 6;
  hit_count = 1;
  ttl = 0;
  domain = b'a' ∷ b'.' ∷ b'b' ∷ [];
}

learned-IsLearned : IsLearned learned
learned-IsLearned = record {
  named = omega arith;
  short = omega arith;
  printable =
      ((omega arith, omega arith), ((omega arith, omega arith), ((omega arith, omega arith), tt)));
  fits = (omega arith, omega arith, omega arith);
}

load_blocklist-learned_example :
    load_blocklist none (some (file_of (learned ∷ []))) 7 (λ _. [])
    ≡ insert_all (λ _. []) (learned ∷ []) (none, 0)
load_blocklist-learned_example =
    load_blocklist-learned none 7 (λ _. []) (learned ∷ []) (learned-IsLearned, tt)

abbrev logged : LogEntry
logged = record {
  epoch = 1700000000;
  client_ip = b'9' ∷ [];
  domain = b'a' ∷ [];
  qtype = 1;
  result = result_blocked;
  source = match_hash_suffix;
  reason = some (b'a' ∷ []);
  latency_us = 12;
}

logged-HasText : HasText logged
logged-HasText = ((omega arith, tt), (omega arith, tt), ((omega arith, omega arith), tt))

log_entry-read_example :
    (length (log_text logged) ≤ 511
      → (rest : Bytes) → read_line (log_entry logged ++ rest) ≡ (columns logged, rest))
    × (511 < length (log_text logged) → All (λ c. c ≢ b'\n') (log_entry logged))
log_entry-read_example = log_entry-read logged logged-HasText

-- a domain of 250 letters that is logged twice
abbrev long_logged : LogEntry
long_logged = record logged { domain = replicate 250 b'a'; reason = some (replicate 250 b'a') }

too_long : length (log_text long_logged) ≡ 524
unfolding log_text decimal sanitize_log_field
too_long = refl

-- a/b
abbrev slash : Bytes
slash = b'a' ∷ b'/' ∷ b'b' ∷ []

escaped : encoded_domain slash ≡ b'a' ∷ b'%' ∷ b'2' ∷ b'F' ∷ b'b' ∷ []
unfolding encoded_domain
escaped = refl

encoded_domain-decoded_example :
    (percent_decode (encoded_domain slash) ≡ slash) × All IsPathByte (encoded_domain slash)
encoded_domain-decoded_example =
    encoded_domain-decoded slash (omega arith, (omega arith, (omega arith, tt))) (omega arith)

-- "gravity":[] and a response that ends at the bracket
none_listed :
    is_listed
      (b'"' ∷ b'g' ∷ b'r' ∷ b'a' ∷ b'v' ∷ b'i' ∷ b't' ∷ b'y' ∷ b'"' ∷ b':' ∷ b'[' ∷ b']' ∷ [])
    ≡ false
unfolding is_listed
none_listed = refl

cut_listed :
    is_listed (b'"' ∷ b'g' ∷ b'r' ∷ b'a' ∷ b'v' ∷ b'i' ∷ b't' ∷ b'y' ∷ b'"' ∷ b':' ∷ b'[' ∷ [])
    ≡ true
unfolding is_listed
cut_listed = refl
