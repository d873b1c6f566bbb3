-- ===== src/Heuristics.antt =====
-- src/heuristics.c: the checks of a label, those of a whole domain, and the weighted sum. A `float` is a
-- number of units of 2^-27, rounded to 24 binary digits, ties to even, as the compiled code computes it.
-- The ratios that the code compares are of numbers below 256: no such ratio rounds to a threshold that
-- it is not, so they are compared as fractions. Labels are never null.
pub mod Float
pub mod Threshold
use nyet.Prelude.{
  ℕ, zero, suc, ◌+◌, ◌-◌, ◌*◌, ◌/◌, ◌%◌, ◌^◌, ◌≤◌, ◌<◌, ◌≡◌, refl, sym, ap, ap₂, subst, ◌∙◌, ◌≢◌,
  ◌↔◌, ◌⊎◌, inl, inr, Bool, true, false, not, ◌&&◌, ◌||◌, Option, none, some, List, [], ◌∷◌, ◌++◌,
  map, arith, ltb, leb, ◌==◌, if◌then◌else◌, if_elim, Bool-cases, Option-cases, Bytes, bytes_eq,
  bytes_eq_iff, bytes_eq_refl, ==_same, ==_other, length, length-append, All, take, drop,
  take_append_exact, drop_append_exact, set, get_elem?, get_or,
}
use nyet.LabelTests.{is_suspicious_label}
use nyet.Codes.{isdigit}
use nyet.Words.{tolower, first_label, count_legit_subsequences}

abbrev pub is_vowel : ℕ → Bool
is_vowel c = c == b'a' || c == b'e' || c == b'i' || c == b'o' || c == b'u'

abbrev pub is_consonant_char : ℕ → Bool
is_consonant_char c = leb b'a' (tolower c) && leb (tolower c) b'z' && not (is_vowel (tolower c))

-- the loop of `is_consonant_suspicious`, from a current run and the longest so far
unfoldable pub max_run : ℕ → ℕ → Bytes → ℕ
max_run current longest [] = longest
max_run current longest (c ∷ cs) =
    let run = if is_consonant_char c then current + 1 else 0 in
    max_run run (if ltb longest run then run else longest) cs

unfoldable pub is_consonant_suspicious : Bytes → Bool
unfolding max_run first_label
is_consonant_suspicious domain = ltb 4 (max_run 0 0 (first_label 255 domain))

unfoldable pub count_if : (ℕ → Bool) → Bytes → ℕ
count_if test [] = 0
count_if test (c ∷ cs) = if test c then suc (count_if test cs) else count_if test cs

-- below 15 percent of more than 10 bytes, or above 60 percent of 5 and more
unfoldable pub is_vowel_suspicious : Bytes → Bool
unfolding first_label count_if
is_vowel_suspicious domain =
    let len = length (first_label 255 domain) in
    let vowels = count_if (λ c. is_vowel (tolower c)) (first_label 255 domain) in
    if len == 0
    then false
    else (ltb 10 len && ltb (20 * vowels) (3 * len)) || (leb 5 len && ltb (3 * len) (5 * vowels))

-- above 40 percent of 8 bytes and more
unfoldable pub is_digit_suspicious : Bytes → Bool
unfolding first_label count_if
is_digit_suspicious domain =
    let len = length (first_label 255 domain) in
    if ltb len 8 then false else ltb (2 * len) (5 * count_if isdigit (first_label 255 domain))

-- The labels of a text, of which `label` has been read; at most `n` are kept.
unfoldable pub cut_labels : ℕ → Bytes → Bytes → List Bytes
cut_labels zero label domain = []
cut_labels (suc n) label [] = label ∷ []
cut_labels (suc n) label (c ∷ cs) = elim (c == b'.') [
  | true ↦ label ∷ cut_labels n [] cs
  | false ↦ cut_labels (suc n) (label ++ c ∷ []) cs
]

-- HEUR_MAX_LABELS
abbrev pub heur_max_labels : ℕ
heur_max_labels = 32

unfoldable pub split_labels : Bytes → List Bytes
unfolding cut_labels
split_labels domain = cut_labels heur_max_labels [] (map tolower (take 255 domain))

abbrev pub is_too_many_labels : ℕ → Bool
is_too_many_labels label_count = ltb 6 label_count

-- the shortest and the longest length, from 256 and 0 on
unfoldable pub spread : ℕ → ℕ → List Bytes → ℕ × ℕ
spread min_len max_len [] = (min_len, max_len)
spread min_len max_len (l ∷ ls) =
    spread (if ltb (length l) min_len then length l else min_len)
      (if ltb max_len (length l) then length l else max_len) ls

-- of the labels that are not the last
unfoldable pub is_label_length_variance_suspicious : List Bytes → Bool
unfolding spread
is_label_length_variance_suspicious labels =
    if ltb (length labels) 2
    then false
    else ltb ((spread 256 0 labels).0 + 20) (spread 256 0 labels).1

abbrev pub is_symbol : ℕ → Bool
is_symbol c =
    not ((leb b'a' c && leb c b'z') || (leb b'A' c && leb c b'Z') || (leb b'0' c && leb c b'9'))

-- above 30 percent of 12 bytes and more
unfoldable pub is_symbol_ratio_suspicious : Bytes → Bool
unfolding count_if
is_symbol_ratio_suspicious domain =
    if ltb (length domain) 12
    then false
    else ltb (3 * length domain) (10 * count_if is_symbol domain)

abbrev pub is_hyphen : ℕ → Bool
is_hyphen c = c == b'-'

unfoldable pub is_hyphen_flattened : List Bytes → Bool
unfolding count_if
is_hyphen_flattened [] = false
is_hyphen_flattened (l ∷ ls) =
    if ltb 2 (length (l ∷ ls)) then false else leb 3 (count_if is_hyphen l)

unfoldable pub is_excessive_hyphens : Bytes → Bool
unfolding count_if
is_excessive_hyphens domain = leb 5 (count_if is_hyphen domain)

-- the locals fired_… of `compute_heuristic_score`, and word_matches and label_count
pub record Signals : Type 0 where
  pub entropy : Bool
  pub consonant : Bool
  pub vowel : Bool
  pub digit : Bool
  pub too_many_labels : Bool
  pub label_variance : Bool
  pub symbol_ratio : Bool
  pub hyphen_flatten : Bool
  pub excessive_hyphens : Bool
  pub word_matches : ℕ
  pub label_count : ℕ

-- all labels but the last, where there are two and more
unfoldable pub non_tld : List Bytes → List Bytes
non_tld [] = []
non_tld (l ∷ []) = l ∷ []
non_tld (l ∷ m ∷ []) = l ∷ []
non_tld (l ∷ m ∷ n ∷ ls) = l ∷ non_tld (m ∷ n ∷ ls)

unfoldable pub any_label : (Bytes → Bool) → List Bytes → Bool
any_label test [] = false
any_label test (l ∷ ls) = test l || any_label test ls

unfoldable pub total_words : List Bytes → ℕ
unfolding count_legit_subsequences
total_words [] = 0
total_words (l ∷ ls) = count_legit_subsequences l + total_words ls

unfoldable pub signals_of : Bytes → Signals
unfolding split_labels non_tld any_label total_words is_suspicious_label is_consonant_suspicious
    is_vowel_suspicious is_digit_suspicious is_label_length_variance_suspicious
    is_symbol_ratio_suspicious is_hyphen_flattened is_excessive_hyphens
signals_of domain =
    let labels = split_labels domain in
    record {
      entropy = any_label is_suspicious_label (non_tld labels);
      consonant = any_label is_consonant_suspicious (non_tld labels);
      vowel = any_label is_vowel_suspicious (non_tld labels);
      digit = any_label is_digit_suspicious (non_tld labels);
      too_many_labels = is_too_many_labels (length labels);
      label_variance = is_label_length_variance_suspicious (non_tld labels);
      symbol_ratio = is_symbol_ratio_suspicious domain;
      hyphen_flatten = is_hyphen_flattened labels;
      excessive_hyphens = is_excessive_hyphens domain;
      word_matches = total_words (non_tld labels);
      label_count = length labels;
    }
