-- ===== src/LogBuffer.antt =====
-- src/nyet.c: the log buffer (`init_log_buffer`, `append_log`, `flush_log_if_stale`) and the last write of
-- `proxy_destroy`. Each call holds the log's lock throughout; `now` is its time in seconds.
pub mod Logged
use nyet.Prelude.Words.{u64_mod}
use nyet.Prelude.{
  ℕ, zero, suc, ◌+◌, ◌-◌, ◌*◌, ◌/◌, ◌%◌, ◌^◌, ◌≤◌, ◌<◌, ◌≡◌, refl, sym, ap, ap₂, subst, ◌∙◌, ◌≢◌,
  ◌↔◌, ◌⊎◌, inl, inr, Bool, true, false, not, ◌&&◌, ◌||◌, Option, none, some, List, [], ◌∷◌, ◌++◌,
  map, arith, ltb, leb, ◌==◌, if◌then◌else◌, if_elim, Bool-cases, Option-cases, Bytes, bytes_eq,
  bytes_eq_iff, bytes_eq_refl, ==_same, ==_other, length, length-append, All, take, drop,
  take_append_exact, drop_append_exact, set, get_elem?, get_or,
}

-- LogBuffer, with the file. `text` is the C string in `data`, which a flush leaves there.
pub record LogBuffer : Type 0 where
  pub text : Bytes
  pub length : ℕ
  pub capacity : ℕ
  pub last_flush_time : ℕ
  pub file : Bytes

-- LOG_FLUSH_INTERVAL_SECONDS
abbrev pub log_flush_interval_seconds : ℕ
log_flush_interval_seconds = 60

-- `text` is what the memory of malloc holds
abbrev pub init_log_buffer : Bytes → ℕ → Bytes → ℕ → LogBuffer
init_log_buffer text capacity file now = record {
  text = text;
  length = 0;
  capacity = capacity;
  last_flush_time = now;
  file = file;
}

-- fprintf of the string, and the reset
abbrev pub flush : LogBuffer → ℕ → LogBuffer
flush b now = record b { file = b.file ++ b.text; length = 0; last_flush_time = now }

-- memcpy to the place of `length`, and the terminator
abbrev pub append_text : LogBuffer → Bytes → LogBuffer
append_text b formatted_log = record b {
  text = take b.length b.text ++ formatted_log;
  length = b.length + length formatted_log;
}

-- the size below which a text still fits; it is unsigned and would wrap
abbrev pub is_full : LogBuffer → Bytes → Bool
is_full b formatted_log =
    leb ((b.capacity + u64_mod - 128) % u64_mod) (b.length + length formatted_log)

unfoldable pub append_log : LogBuffer → Bytes → ℕ → LogBuffer
append_log b formatted_log now =
    append_text (if is_full b formatted_log then flush b now else b) formatted_log

unfoldable pub flush_log_if_stale : LogBuffer → ℕ → LogBuffer
flush_log_if_stale b now =
    if ltb 0 b.length && leb log_flush_interval_seconds (now - b.last_flush_time)
    then flush b now
    else b

-- what `proxy_destroy` leaves in the file
unfoldable pub final_file : LogBuffer → Bytes
final_file b = b.file ++ b.text
