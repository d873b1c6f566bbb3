-- ===== src/Tests/Gravity.antt =====
-- The gravity checks at concrete runs.
use nyet.Prelude.{◌<◌, ◌≡◌, refl, ◌≢◌, true, false, none, [], ◌∷◌, arith, Bytes, bytes_eq}
use nyet.AskedCache.{
  ask, finish, Gravity, asked_pending, find, asked_done, mark, queue_gravity_check, without, fnv1a,
}
use nyet.AskedCache.Map.{state_of}
use nyet.AskedCache.Runs.{
  idle, asks, ends, Steps, stop, more, run-IsSound, Steps-Resting, ask-stuck, Resting,
}
use nyet.AskedCache.Checks.{IsSound, threads}

abbrev ads : Bytes
ads = 97 ∷ 100 ∷ []

abbrev news : Bytes
news = 110 ∷ 101 ∷ []

abbrev asked_ads : Gravity
asked_ads = ask idle ads true true true true

abbrev answered_ads : Gravity
answered_ads = finish asked_ads ads true

one_thread : 0 < threads ads asked_ads.running
unfolding ask threads bytes_eq queue_gravity_check find
one_thread = omega arith

two-Steps : Steps true idle answered_ads
two-Steps =
    more (asks idle ads true true true true)
      (more (ends asked_ads ads true one_thread) (stop answered_ads))

run-IsSound_example : IsSound answered_ads
run-IsSound_example = run-IsSound two-Steps

answered_ads-Resting : Resting ads asked_done answered_ads
unfolding finish ask threads bytes_eq find mark without fnv1a
answered_ads-Resting = (refl, refl)

Steps-Resting_example : Resting ads asked_done (ask answered_ads ads true true true true)
Steps-Resting_example =
    Steps-Resting ads asked_done
      (more (asks answered_ads ads true true true true)
        (stop (ask answered_ads ads true true true true)))
      (run-IsSound two-Steps) answered_ads-Resting

unknown_news : state_of news answered_ads.asked ≡ none
unfolding finish ask threads bytes_eq find mark without fnv1a
unknown_news = refl

free_permit : answered_ads.permits ≢ 0
unfolding finish ask bytes_eq find
free_permit = omega arith

ask-stuck_example :
    Resting news asked_pending
      (ask (ask answered_ads news true true true false) news true true true true)
ask-stuck_example =
    ask-stuck answered_ads
      (ask (ask answered_ads news true true true false) news true true true true) news true false
      (run-IsSound two-Steps) unknown_news free_permit refl
      (more (asks (ask answered_ads news true true true false) news true true true true)
        (stop (ask (ask answered_ads news true true true false) news true true true true)))
