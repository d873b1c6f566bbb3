-- ===== src/Tests/Scores.antt =====
-- The counts of words and the scores at concrete domains.
use nyet.Prelude.{◌+◌, ◌≤◌, ◌≡◌, refl, true, false, [], ◌∷◌, map, leb, Bytes}
use nyet.Words.{count_legit_subsequences, tolower, first_label}
use nyet.Words.Counts.{occurrences, frequent_words, count_legit_subsequences-occurrences}
use nyet.Heuristics.{Signals}
use nyet.Heuristics.Float.{score_of, review_threshold, one}
use nyet.Heuristics.Threshold.{is_review, fired, score_of-review}

-- userAPI.net and mail.net
abbrev user_api : Bytes
user_api = b'u' ∷ b's' ∷ b'e' ∷ b'r' ∷ b'A' ∷ b'P' ∷ b'I' ∷ b'.' ∷ b'n' ∷ b'e' ∷ b't' ∷ []

abbrev mail_net : Bytes
mail_net = b'm' ∷ b'a' ∷ b'i' ∷ b'l' ∷ b'.' ∷ b'n' ∷ b'e' ∷ b't' ∷ []

two_words : count_legit_subsequences user_api ≡ 2
unfolding count_legit_subsequences
two_words = refl

no_mail : count_legit_subsequences mail_net ≡ 0
unfolding count_legit_subsequences
no_mail = refl

count_legit_subsequences-occurrences_example :
    count_legit_subsequences user_api
    ≡ occurrences frequent_words (map tolower (first_label 255 user_api))
count_legit_subsequences-occurrences_example = count_legit_subsequences-occurrences user_api

-- the four checks of labels and one word
abbrev rounded_down : Signals
rounded_down = record {
  entropy = true;
  consonant = true;
  vowel = true;
  digit = true;
  too_many_labels = false;
  label_variance = false;
  symbol_ratio = false;
  hyphen_flatten = false;
  excessive_hyphens = false;
  word_matches = 1;
  label_count = 2;
}

just_below : score_of rounded_down + 4 ≡ review_threshold
unfolding score_of
just_below = refl

score_of-review_example :
    (score_of rounded_down ≤ one)
    × (leb review_threshold (score_of rounded_down) ≡ is_review rounded_down)
    × (leb review_threshold (score_of rounded_down) ≡ true → 3 ≤ fired rounded_down)
score_of-review_example = score_of-review rounded_down
