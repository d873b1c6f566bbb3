-- ===== src/Tests/Answers.antt =====
-- The table of answers at concrete values.
use nyet.Prelude.{ℕ, ◌≡◌, refl, true, none, some, [], ◌∷◌, arith, Bytes, get_or, replicate}
use nyet.Packet.{Answer}
use nyet.AnswerCache.{AnswerCache, vacant, answer_cache_lookup, answer_cache_insert}
use nyet.AnswerCache.Upkeep.{answer_cache_init, answer_cache_invalidate}
use nyet.AnswerCache.Pruned.{Reached, starts, inserts, Reached-IsValid}
use nyet.AnswerCache.Invalidated.{answer_cache_invalidate-lookup}
use nyet.AnswerCache.Stored.{answer_cache_insert-lookup}
use nyet.AnswerCache.Fresh.{Misses}

abbrev ads : Bytes
ads = 97 ∷ 100 ∷ 115 ∷ []

abbrev address : Answer
address = record { records = (10 ∷ 0 ∷ 0 ∷ 1 ∷ []) ∷ []; record_bytes = 4; ttl_seconds = 60 }

abbrev table : AnswerCache
table = record {
  entries = replicate 64 vacant;
  capacity = 64;
  count = 0;
  hits = 0;
  misses = 0;
  evictions = 0;
  inserts = 0;
}

answer_cache_insert-lookup_example :
    ((answer_cache_insert table ads 1 address 1000).1 ≡ true)
    × ((answer_cache_lookup (answer_cache_insert table ads 1 address 1000).0 ads 1 5000).1
        ≡ some address)
answer_cache_insert-lookup_example =
    answer_cache_insert-lookup table ads 1 1000 5000 address refl (omega arith)
      (omega arith, omega arith, omega arith, omega arith, omega arith, omega arith) (omega arith)
      (omega arith)

init_64 : answer_cache_init 64 ≡ some table
unfolding answer_cache_init
init_64 = refl

table-Reached : Reached table
table-Reached = starts 64 table (omega arith) init_64

abbrev filled : AnswerCache
filled = (answer_cache_insert table ads 1 address 1000).0

answer_cache_invalidate-lookup_example :
    ((answer_cache_lookup (answer_cache_invalidate filled ads).0 ads 1 2000).1 ≡ none)
    × ((answer_cache_lookup (answer_cache_invalidate filled ads).0 ads 28 2000).1 ≡ none)
    × ((j : ℕ)
        → Misses ads 1 filled.entries j
        → Misses ads 28 filled.entries j
        → get_or (answer_cache_invalidate filled ads).0.entries j vacant
          ≡ get_or filled.entries j vacant)
answer_cache_invalidate-lookup_example =
    answer_cache_invalidate-lookup filled ads 2000
      (Reached-IsValid (inserts ads 1 address 1000 table-Reached)) (omega arith)
