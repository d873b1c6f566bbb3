-- ===== src/Blocklist/Learned.antt =====
-- The lines that the proxy itself adds to the learned list.
use nyet.Prelude.{
  ℕ, ◌^◌, ◌<◌, ◌≡◌, refl, ap, ◌∙◌, true, false, some, [], ◌∷◌, ◌++◌, arith, Bytes, length, All,
  All-map,
}
use nyet.Prelude.Words.{u32_mod}
use nyet.RadixTree.{RadixEntry, RadixStatus, allowed, blocked, review}
use nyet.Codes.{
  isdigit, digits_only, is_all_digits, EntrySource, source_static, source_heuristic, source_manual,
  source_pi_gravity, parse_status, status_to_char, parse_source, source_to_char,
}
use nyet.LogField.Safe.{IsPrintable, sanitize_log_field-safe}
use nyet.Text.{digits, token}
use nyet.Text.Tokens.{Lacks, token-append, token-piece}
use nyet.Text.Decimal.{atoi_u32-digits, digits-append, All-digits, length-digits}
use nyet.Blocklist.{
  is_tab, source_value, ttl_and_note, read_entry, parse_line, learned_line, pi_gravity_confirmed,
  max_domain_len,
}

-- a number in front of a tab
abbrev shown : ℕ → Bytes
shown n = digits 20 n []

digit-tab : (c : ℕ) → isdigit c ≡ true → is_tab c ≡ false
digit-tab c h = ground (arith, h)

shown-Lacks : (n : ℕ) → Lacks is_tab (shown n)
shown-Lacks n =
    All-map (λ c. isdigit c ≡ true) (λ c. is_tab c ≡ false) digit-tab (shown n)
      (All-digits 20 n [] tt)

printable-tab : (c : ℕ) → IsPrintable c → is_tab c ≡ false
printable-tab c h = ground (arith, h)

shown-digits : (n : ℕ) (rest : Bytes) → digits 20 n rest ≡ shown n ++ rest
shown-digits n rest = digits-append 20 n [] rest

-- the columns of a line, one lemma for a number, a text and a letter
token_number :
    (n : ℕ) (rest : Bytes) → token is_tab (digits 20 n (b'\t' ∷ rest)) ≡ (some (shown n), rest)
token_number n rest =
    ap (token is_tab) (shown-digits n (b'\t' ∷ rest))
    ∙ token-piece is_tab (shown n) b'\t' rest (length-digits 19 n []) (shown-Lacks n) refl

token_letter :
    (c : ℕ) (rest : Bytes)
    → is_tab c ≡ false
    → token is_tab (c ∷ b'\t' ∷ rest) ≡ (some (c ∷ []), rest)
token_letter c rest h = token-append is_tab c [] b'\t' rest (h, tt) refl

status_to_char-tab : (s : RadixStatus) → is_tab (status_to_char s) ≡ false
status_to_char-tab allowed = refl
status_to_char-tab blocked = refl
status_to_char-tab review = refl

source_to_char-tab : (s : EntrySource) → is_tab (source_to_char s) ≡ false
source_to_char-tab source_static = refl
source_to_char-tab source_heuristic = refl
source_to_char-tab source_manual = refl
source_to_char-tab source_pi_gravity = refl

digits_only-All : (s : Bytes) → All (λ c. isdigit c ≡ true) s → digits_only s ≡ true
unfolding digits_only
digits_only-All [] a = refl
digits_only-All (c ∷ cs) a = rw (a.0, digits_only-All cs a.1) refl

is_all_digits-All :
    (s : Bytes) → 0 < length s → All (λ c. isdigit c ≡ true) s → is_all_digits (some s) ≡ true
unfolding is_all_digits
is_all_digits-All [] h a = absurd (omega (arith, h))
is_all_digits-All (c ∷ cs) h a = digits_only-All (c ∷ cs) a

-- the ttl and the note at the end of a learned line
ttl_and_note-learned :
    (ttl : ℕ)
    → ttl_and_note (some (shown ttl), pi_gravity_confirmed ++ b'\n' ∷ [])
      ≡ (some (shown ttl), some pi_gravity_confirmed)
unfolding ttl_and_note
ttl_and_note-learned ttl =
    rw (is_all_digits-All (shown ttl) (length-digits 19 ttl []) (All-digits 20 ttl [] tt)) refl

-- the numbers of a learned line, in the types of their columns
abbrev pub FitsColumns : ℕ → ℕ → ℕ → Type 0
FitsColumns last_seen hit_count ttl = (last_seen < u32_mod) × (hit_count < 2 ^ 31) × (ttl < u32_mod)

abbrev pub learned_entry : RadixStatus → EntrySource → ℕ → ℕ → ℕ → RadixEntry
learned_entry status source last_seen hit_count ttl = record {
  status = status;
  ttl = ttl;
  hit_count = hit_count;
  last_seen = last_seen;
  source = source_value source;
  ml_score = 0;
  note = some pi_gravity_confirmed;
}

status_read : (s : RadixStatus) → parse_status (status_to_char s) ≡ s
status_read blocked = refl
status_read allowed = refl
status_read review = refl

source_read : (s : EntrySource) → parse_source (source_to_char s) ≡ s
source_read source_static = refl
source_read source_heuristic = refl
source_read source_pi_gravity = refl
source_read source_manual = refl

read_entry-learned :
    (now : ℕ) (status : RadixStatus) (source : EntrySource) (last_seen hit_count ttl : ℕ)
    → FitsColumns last_seen hit_count ttl
    → read_entry now
        (status_to_char status ∷ [])
        (some (source_to_char source ∷ []))
        (some (shown last_seen))
        (some (shown hit_count))
        (some (shown ttl), some pi_gravity_confirmed)
      ≡ learned_entry status source last_seen hit_count ttl
unfolding read_entry
read_entry-learned now status source last_seen hit_count ttl h =
    rw
      (
        status_read status,
        source_read source,
        atoi_u32-digits last_seen [] h.0 tt,
        atoi_u32-digits hit_count [] (omega (arith, h.1)) tt,
        atoi_u32-digits ttl [] h.2 tt,
      )
      refl

-- a line of six columns and more
parse_line-columns :
    (now : ℕ) (line a r1 b r2 c r3 d r4 e r5 f r6 : Bytes)
    → token is_tab line ≡ (some a, r1)
    → token is_tab r1 ≡ (some b, r2)
    → token is_tab r2 ≡ (some c, r3)
    → token is_tab r3 ≡ (some d, r4)
    → token is_tab r4 ≡ (some e, r5)
    → token is_tab r5 ≡ (some f, r6)
    → parse_line now line
      ≡ some (b, read_entry now a (some c) (some e) (some f) (ttl_and_note (token is_tab r6)))
unfolding parse_line
parse_line-columns now line a r1 b r2 c r3 d r4 e r5 f r6 h1 h2 h3 h4 h5 h6 =
    rw (h1, h2, h3, h4, h5, h6) refl

-- A line that is added to the learned list, for a printable domain of 1 to 255 bytes and numbers that
-- fit their columns, is read back as the domain and its entry with the note; whatever the time of
-- the first sighting.
pub parse_line-learned_line :
    (now : ℕ) (status : RadixStatus) (source : EntrySource) (first_seen last_seen hit_count ttl : ℕ)
    (domain : Bytes)
    → 0 < length domain
    → length domain < 256
    → All IsPrintable domain
    → FitsColumns last_seen hit_count ttl
    → parse_line now (learned_line status source first_seen last_seen hit_count ttl domain)
      ≡ some (domain, learned_entry status source last_seen hit_count ttl)
unfolding learned_line
parse_line-learned_line now status source first_seen last_seen hit_count ttl domain n l p h =
    let bytes = All-map IsPrintable (λ c. c < 256) (λ c q. omega (arith, q.1)) domain p in
    let same = (sanitize_log_field-safe domain max_domain_len (omega arith) bytes).2 p l in
    let lacks = All-map IsPrintable (λ c. is_tab c ≡ false) printable-tab domain p in
    rw same (
      parse_line-columns now _ _ _ _ _ _ _ _ _ _ _ _ _
        (token_letter (status_to_char status) _ (status_to_char-tab status))
        (token-piece is_tab domain b'\t' _ n lacks refl)
        (token_letter (source_to_char source) _ (source_to_char-tab source))
        (token_number first_seen _) (token_number last_seen _) (token_number hit_count _)
      ∙ ap
          (λ x. some (
            domain,
            read_entry now (status_to_char status ∷ []) (some (source_to_char source ∷ []))
                (some (shown last_seen)) (some (shown hit_count)) x,
          ))
          (ap ttl_and_note (token_number ttl _) ∙ ttl_and_note-learned ttl)
      ∙ ap (λ x. some (domain, x)) (read_entry-learned now status source last_seen hit_count ttl h))
