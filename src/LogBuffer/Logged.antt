-- ===== src/LogBuffer/Logged.antt =====
-- What the file and the buffer hold over a run.
use nyet.Prelude.{
  ℕ, zero, suc, ◌+◌, ◌-◌, ◌≤◌, ◌<◌, ◌≡◌, refl, sym, ap, ap₂, ◌∙◌, ◌≢◌, inl, inr, ◌&&◌, [], ◌∷◌,
  ◌++◌, arith, ltb, leb, ◌==◌, if_elim, Bool-cases, Bytes, length, length-append, take,
}
use mathlib.Core.List.{append_assoc, append-nil}
use nyet.Prelude.Words.{u64_mod}
use nyet.LogBuffer.{
  LogBuffer, init_log_buffer, flush, append_text, is_full, append_log, flush_log_if_stale,
  final_file, log_flush_interval_seconds,
}

-- A run from a start, with all the texts that were logged.
pub data Run (start : LogBuffer) : LogBuffer → Bytes → Type 0 where
  begins : Run start start []
  logs :
      {b : LogBuffer} {logged : Bytes} (formatted_log : Bytes) (now : ℕ)
      → Run start b logged
      → length formatted_log < 512
      → Run start (append_log b formatted_log now) (logged ++ formatted_log)
  wakes :
      {b : LogBuffer} {logged : Bytes} (now : ℕ)
      → Run start b logged
      → Run start (flush_log_if_stale b now) logged

abbrev pub buffered : LogBuffer → Bytes
buffered b = take b.length b.text

-- Nothing is lost or doubled, and the buffer has room; `file` is the file's content at the start.
pub record IsLogged (file : Bytes) (capacity : ℕ) (b : LogBuffer) (logged : Bytes) : Type 0 where
  pub whole : b.file ++ buffered b ≡ file ++ logged
  pub ends : b.length ≢ 0 → length b.text ≡ b.length
  pub room : b.length + 128 < capacity
  pub same_capacity : b.capacity ≡ capacity

take_whole : (xs : Bytes) (n : ℕ) → length xs ≡ n → take n xs ≡ xs
take_whole [] zero h = refl
take_whole [] (suc n) h = refl
take_whole (x ∷ xs) zero h = absurd (omega (arith, h))
take_whole (x ∷ xs) (suc n) h = ap (◌∷◌ x) (take_whole xs n (omega (arith, h)))

-- the string is what the buffer holds
text-buffered :
    (file : Bytes) (capacity : ℕ) (b : LogBuffer) (logged : Bytes)
    → b.length ≢ 0
    → IsLogged file capacity b logged
    → buffered b ≡ b.text
text-buffered file capacity b logged h i = take_whole b.text b.length (i.ends h)

final_file-logged :
    (file : Bytes) (capacity : ℕ) (b : LogBuffer) (logged : Bytes)
    → b.length ≢ 0
    → IsLogged file capacity b logged
    → final_file b ≡ file ++ logged
unfolding final_file
final_file-logged file capacity b logged h i =
    ap (λ x. b.file ++ x) (sym (text-buffered file capacity b logged h i)) ∙ i.whole

flush-IsLogged :
    (file : Bytes) (capacity : ℕ) (b : LogBuffer) (logged : Bytes) (now : ℕ)
    → b.length ≢ 0
    → IsLogged file capacity b logged
    → IsLogged file capacity (flush b now) logged
flush-IsLogged file capacity b logged now h i = record {
  whole =
      append-nil (b.file ++ b.text)
      ∙ unfold final_file in final_file-logged file capacity b logged h i;
  ends = λ z. absurd (z refl);
  room = omega (arith, i.room);
  same_capacity = i.same_capacity;
}

length-buffered :
    (file : Bytes) (capacity : ℕ) (b : LogBuffer) (logged : Bytes)
    → IsLogged file capacity b logged
    → length (buffered b) ≡ b.length
length-buffered file capacity b logged i = elim (Bool-cases (b.length == 0)) [
  | inl e ↦ let z : b.length ≡ 0 = ground (arith, e) in rw z refl
  | inr e ↦
      let n : b.length ≢ 0 = (λ z. ground (arith, e, z)) in
      ap length (text-buffered file capacity b logged n i) ∙ i.ends n
]

append_text-IsLogged :
    (file : Bytes) (capacity : ℕ) (b : LogBuffer) (logged formatted_log : Bytes)
    → b.length + length formatted_log + 128 < capacity
    → IsLogged file capacity b logged
    → IsLogged file capacity (append_text b formatted_log) (logged ++ formatted_log)
append_text-IsLogged file capacity b logged formatted_log h i =
    let n : length (buffered b ++ formatted_log) ≡ b.length + length formatted_log =
      length-append (buffered b) formatted_log
      ∙ ap (λ m. m + length formatted_log) (length-buffered file capacity b logged i) in
    record {
      whole =
          ap (λ x. b.file ++ x) (take_whole (buffered b ++ formatted_log) _ n)
          ∙ sym (append_assoc b.file (buffered b) formatted_log)
          ∙ ap (λ x. x ++ formatted_log) i.whole
          ∙ append_assoc file logged formatted_log;
      ends = λ z. n;
      room = h;
      same_capacity = i.same_capacity;
    }

append_log-IsLogged :
    (file : Bytes) (capacity : ℕ) (b : LogBuffer) (logged formatted_log : Bytes) (now : ℕ)
    → 640 ≤ capacity
    → capacity < u64_mod
    → length formatted_log < 512
    → IsLogged file capacity b logged
    → IsLogged file capacity (append_log b formatted_log now) (logged ++ formatted_log)
unfolding append_log
append_log-IsLogged file capacity b logged formatted_log now c w l i =
    elim (Bool-cases (is_full b formatted_log)) [
      | inl e ↦ rw e (
          append_text-IsLogged file capacity (flush b now) logged formatted_log
            (omega (arith, c, l))
            (flush-IsLogged file capacity b logged now (ground (arith, e, i.room, i.same_capacity))
              i))
      | inr e ↦ rw e (
          append_text-IsLogged file capacity b logged formatted_log
            (ground (arith, e, i.room, i.same_capacity)) i)
    ]

flush_log_if_stale-IsLogged :
    (file : Bytes) (capacity : ℕ) (b : LogBuffer) (logged : Bytes) (now : ℕ)
    → IsLogged file capacity b logged
    → IsLogged file capacity (flush_log_if_stale b now) logged
unfolding flush_log_if_stale
flush_log_if_stale-IsLogged file capacity b logged now i =
    if_elim (λ x. IsLogged file capacity x logged)
      (ltb 0 b.length && leb log_flush_interval_seconds (now - b.last_flush_time)) (flush b now) b
      (λ e. flush-IsLogged file capacity b logged now (ground (arith, e)) i) (λ e. i)

init-IsLogged :
    (text file : Bytes) (capacity now : ℕ)
    → 640 ≤ capacity
    → IsLogged file capacity (init_log_buffer text capacity file now) []
init-IsLogged text file capacity now c = record {
  whole = refl;
  ends = λ z. absurd (z refl);
  room = omega (arith, c);
  same_capacity = refl;
}

-- In a run from an empty buffer of at least 640 bytes, whatever its memory held, and with texts below
-- 512 bytes, the file and then the buffer hold what the file held and then all the texts in their
-- order, and more than 128 bytes of the buffer stay free.
pub Run-IsLogged :
    (text file : Bytes) (capacity now : ℕ) {b : LogBuffer} {logged : Bytes}
    → 640 ≤ capacity
    → capacity < u64_mod
    → Run (init_log_buffer text capacity file now) b logged
    → IsLogged file capacity b logged
Run-IsLogged text file capacity now c w begins = init-IsLogged text file capacity now c
Run-IsLogged text file capacity now c w (logs {b} {logged} t at r l) =
    append_log-IsLogged file capacity b logged t at c w l
      (Run-IsLogged text file capacity now c w r)
Run-IsLogged text file capacity now c w (wakes {b} {logged} at r) =
    flush_log_if_stale-IsLogged file capacity b logged at
      (Run-IsLogged text file capacity now c w r)

flushed_stale :
    (b : LogBuffer) (at : ℕ)
    → b.length ≢ 0
    → log_flush_interval_seconds ≤ at - b.last_flush_time
    → flush_log_if_stale b at ≡ flush b at
unfolding flush_log_if_stale
flushed_stale b at n s = ground (arith, n)

-- At the end of such a run the last write of `proxy_destroy` leaves all the texts in the file if the
-- buffer is not empty; if the buffer was just flushed by a wake-up a minute or more after the last
-- flush, it writes the texts of that flush a second time.
pub Run-final_file :
    (text file : Bytes) (capacity now : ℕ) {b : LogBuffer} {logged : Bytes} (at : ℕ)
    → 640 ≤ capacity
    → capacity < u64_mod
    → Run (init_log_buffer text capacity file now) b logged
    → b.length ≢ 0
    → log_flush_interval_seconds ≤ at - b.last_flush_time
    → (final_file b ≡ file ++ logged)
      × (final_file (flush_log_if_stale b at) ≡ (file ++ logged) ++ buffered b)
Run-final_file text file capacity now {b} {logged} at c w r n s =
    let i = Run-IsLogged text file capacity now c w r in
    let f = final_file-logged file capacity b logged n i in
    (
      f,
      ap final_file (flushed_stale b at n s)
          ∙ unfold final_file in ap₂ ◌++◌ f (sym (text-buffered file capacity b logged n i)),
    )
