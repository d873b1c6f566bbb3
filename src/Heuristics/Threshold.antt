-- ===== src/Heuristics/Threshold.antt =====
-- When a score reaches the review threshold.
use nyet.Prelude.{
  ℕ, zero, suc, ◌+◌, ◌-◌, ◌*◌, ◌≤◌, ◌≡◌, refl, sym, ap, subst, Bool, true, false, not, ◌&&◌, ◌||◌,
  List, [], ◌∷◌, arith, leb, ◌==◌, if◌then◌else◌, length, get_or,
}
use nyet.Heuristics.{Signals}
use nyet.Heuristics.Float.{score_of, capped, review_threshold, one, less_words}

-- whether a test holds of all lists of `n` Booleans
for_all : ℕ → (List Bool → Bool) → Bool
for_all zero test = test []
for_all (suc n) test = for_all n (λ bs. test (false ∷ bs)) && for_all n (λ bs. test (true ∷ bs))

for_all_lem :
    (n : ℕ) (test : List Bool → Bool) (bs : List Bool)
    → for_all n test ≡ true
    → length bs ≡ n
    → test bs ≡ true
unfolding for_all
for_all_lem zero test [] h l = h
for_all_lem zero test (b ∷ bs) h l = absurd (omega (arith, l))
for_all_lem (suc n) test [] h l = absurd (omega (arith, l))
for_all_lem (suc n) test (false ∷ bs) h l =
    for_all_lem n (λ bs. test (false ∷ bs)) bs (ground (arith, h)) (omega (arith, l))
for_all_lem (suc n) test (true ∷ bs) h l =
    for_all_lem n (λ bs. test (true ∷ bs)) bs (ground (arith, h)) (omega (arith, l))

abbrev pub points : Bool → ℕ → ℕ
points fired weight = if fired then weight else 0

-- the weights of the signals that have fired, in hundredths
abbrev pub weights_of : Signals → ℕ
weights_of s =
    points s.entropy 20
    + points s.consonant 15
    + points s.vowel 15
    + points s.digit 15
    + points s.too_many_labels 20
    + points s.label_variance 20
    + points s.symbol_ratio 20
    + points s.hyphen_flatten 20
    + points s.excessive_hyphens 10

-- the words that count
abbrev pub at_most_two : ℕ → ℕ
at_most_two zero = 0
at_most_two (suc zero) = 1
at_most_two (suc (suc w)) = 2

-- the sum in hundredths, the words' share taken off
abbrev pub hundredths : Signals → ℕ
hundredths s = weights_of s - 15 * at_most_two s.word_matches

-- the four checks of labels, none of the domain, and one word
abbrev pub is_rounded_down : Signals → Bool
is_rounded_down s =
    s.entropy
    && s.consonant
    && s.vowel
    && s.digit
    && not s.too_many_labels
    && not s.label_variance
    && not s.symbol_ratio
    && not s.hyphen_flatten
    && not s.excessive_hyphens
    && s.word_matches == 1

abbrev pub is_review : Signals → Bool
is_review s = leb 50 (hundredths s) && not (is_rounded_down s)

same : Bool → Bool → Bool
same true b = b
same false b = not b

same_lem : (a b : Bool) → same a b ≡ true → a ≡ b
unfolding same
same_lem true b h = sym h
same_lem false true h = h
same_lem false false h = refl

abbrev listed : ℕ → List Bool → Signals
listed w bs = record {
  entropy = get_or bs 0 false;
  consonant = get_or bs 1 false;
  vowel = get_or bs 2 false;
  digit = get_or bs 3 false;
  too_many_labels = get_or bs 4 false;
  label_variance = get_or bs 5 false;
  symbol_ratio = get_or bs 6 false;
  hyphen_flatten = get_or bs 7 false;
  excessive_hyphens = get_or bs 8 false;
  word_matches = w;
  label_count = 0;
}

-- how many signals have fired
abbrev pub fired : Signals → ℕ
fired s =
    points s.entropy 1
    + points s.consonant 1
    + points s.vowel 1
    + points s.digit 1
    + points s.too_many_labels 1
    + points s.label_variance 1
    + points s.symbol_ratio 1
    + points s.hyphen_flatten 1
    + points s.excessive_hyphens 1

test_of : Signals → Bool
unfolding same
test_of s =
    same (leb review_threshold (score_of s)) (is_review s)
    && (not (is_review s) || leb 3 (fired s))
    && leb (score_of s) one

checked : ℕ → Bool
unfolding for_all test_of
checked w = for_all 9 (λ bs. test_of (listed w bs))

checked_below : (w : ℕ) → w ≤ 2 → checked w ≡ true
unfolding checked test_of score_of same
checked_below zero h = refl
checked_below (suc zero) h = refl
checked_below (suc (suc zero)) h = refl
checked_below (suc (suc (suc w))) h = absurd (omega (arith, h))

every : (w : ℕ) (bs : List Bool) → w ≤ 2 → length bs ≡ 9 → test_of (listed w bs) ≡ true
unfolding checked
every w bs l h = for_all_lem 9 (λ bs. test_of (listed w bs)) bs (checked_below w l) h

capped_twice : (w : ℕ) → capped (capped w) ≡ capped w
capped_twice w = ground arith

at_most_two-capped : (w : ℕ) → at_most_two (capped w) ≡ at_most_two w
at_most_two-capped zero = refl
at_most_two-capped (suc zero) = refl
at_most_two-capped (suc (suc w)) = ap at_most_two (capped_two w)
  where
    capped_two : (w : ℕ) → capped (suc (suc w)) ≡ 2
    capped_two w = ground arith

capped_zero : (w : ℕ) → (capped w == 0) ≡ (w == 0)
capped_zero w = ground arith

capped_one : (w : ℕ) → (capped w == 1) ≡ (w == 1)
capped_one w = ground arith

less_words-capped : (w n : ℕ) → less_words (capped w) n ≡ less_words w n
unfolding less_words
less_words-capped w n = rw (capped_zero w, capped_twice w) refl

abbrev capped_words : Signals → Signals
capped_words s = record s { word_matches = capped s.word_matches; label_count = 0 }

score_of-capped : (s : Signals) → score_of (capped_words s) ≡ score_of s
unfolding score_of
score_of-capped s = less_words-capped s.word_matches _

is_review-capped : (s : Signals) → is_review (capped_words s) ≡ is_review s
is_review-capped s = rw (capped_one s.word_matches, at_most_two-capped s.word_matches) refl

abbrev bools : Signals → List Bool
bools s =
    s.entropy ∷ s.consonant ∷ s.vowel ∷ s.digit ∷ s.too_many_labels ∷ s.label_variance
    ∷ s.symbol_ratio ∷ s.hyphen_flatten ∷ s.excessive_hyphens ∷ []

-- what the test says
told :
    (score n : ℕ) (review : Bool)
    → same (leb review_threshold score) review && (not review || leb 3 n) && leb score one ≡ true
    → (score ≤ one)
      × (leb review_threshold score ≡ review)
      × (leb review_threshold score ≡ true → 3 ≤ n)
unfolding same
told score n review h = ground (arith, h)

-- A score is at most 1, and reaches the review threshold of 0.5 in single precision exactly when the
-- weights of the signals that have fired, less those of at most two words, come to 50 hundredths or
-- more, but for one case: the four checks of labels with one word, 50 hundredths, come to less. At
-- least three signals have then fired.
pub score_of-review :
    (s : Signals)
    → (score_of s ≤ one)
      × (leb review_threshold (score_of s) ≡ is_review s)
      × (leb review_threshold (score_of s) ≡ true → 3 ≤ fired s)
score_of-review s =
    let t : test_of (capped_words s) ≡ true =
      every (capped s.word_matches) (bools s) (ground arith) refl in
    told (score_of s) (fired s) (is_review s) (
      subst
        (λ x.
          same (leb review_threshold x) (is_review s)
            && (not (is_review s) || leb 3 (fired s))
            && leb x one
          ≡ true)
        (score_of-capped s)
        (subst
          (λ x.
            same (leb review_threshold (score_of (capped_words s))) x
              && (not x || leb 3 (fired s))
              && leb (score_of (capped_words s)) one
            ≡ true)
          (is_review-capped s) (unfold test_of in t)))
