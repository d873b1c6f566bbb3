-- ===== src/Heuristics/Float.antt =====
-- src/heuristics.c, `compute_heuristic_score`: the sum, in single precision. All values are below 16, so
-- in units of 2^-27 they are below 2^31.
use nyet.Prelude.{ℕ, ◌+◌, ◌-◌, ◌*◌, ◌/◌, ◌%◌, ◌^◌, Bool, ltb, ◌==◌, if◌then◌else◌}
use nyet.Heuristics.{Signals}

-- the distance of neighbouring floats
abbrev pub ulp : ℕ → ℕ
ulp n =
    if ltb n (2 ^ 24)
    then 1
    else if ltb n (2 ^ 25)
    then 2
    else if ltb n (2 ^ 26)
    then 4
    else if ltb n (2 ^ 27)
    then 8
    else if ltb n (2 ^ 28)
    then 16
    else if ltb n (2 ^ 29)
    then 32
    else if ltb n (2 ^ 30)
    then 64
    else 128

-- to the nearest multiple, ties to the even one
abbrev pub nearest : ℕ → ℕ → ℕ
nearest u n =
    let down = n / u * u in
    let up = down + u in
    if ltb (n - down) (up - n)
    then down
    else if ltb (up - n) (n - down)
    then up
    else if n / u % 2 == 0
    then down
    else up

unfoldable pub round : ℕ → ℕ
round n = nearest (ulp n) n

-- the literals 0.20f, 0.15f and 0.10f, and 0.5f
abbrev pub f20 : ℕ
f20 = 26843546

abbrev pub f15 : ℕ
f15 = 20132660

abbrev pub f10 : ℕ
f10 = 13421773

abbrev pub review_threshold : ℕ
review_threshold = 2 ^ 26

abbrev pub one : ℕ
one = 2 ^ 27

-- score += weight, where the signal has fired
unfoldable pub add_if : Bool → ℕ → ℕ → ℕ
unfolding round
add_if fired weight score = if fired then round (score + weight) else score

-- WORD_MATCH_CAP
abbrev pub capped : ℕ → ℕ
capped word_matches = if ltb 2 word_matches then 2 else word_matches

-- The words' share is taken off, and the score clamped to [0, 1]; where the difference is negative, ℕ
-- gives the 0 that the clamp gives.
unfoldable pub less_words : ℕ → ℕ → ℕ
unfolding round
less_words word_matches score =
    let less =
      if word_matches == 0 then score else round (score - round (f15 * capped word_matches)) in
    if ltb one less then one else less

unfoldable pub score_of : Signals → ℕ
unfolding add_if less_words
score_of s = less_words s.word_matches (
    add_if s.excessive_hyphens f10 (
      add_if s.hyphen_flatten f20 (
        add_if s.symbol_ratio f20 (
          add_if s.label_variance f20 (
            add_if s.too_many_labels f20 (
              add_if s.digit f15
                (add_if s.vowel f15 (add_if s.consonant f15 (add_if s.entropy f20 0)))))))))

-- the bucket of the histogram: (int)(score * 10.0f), at most 9
unfoldable pub bucket_of : ℕ → ℕ
unfolding round
bucket_of score = if ltb 9 (round (score * 10) / one) then 9 else round (score * 10) / one
