-- ===== src/Tests/Verdicts.antt =====
-- The verdict cache at a concrete state: two domains, one stored at 1000 ns and one at 2000 ns.
use nyet.Prelude.{
  ◌≡◌, some, [], Bytes, arith, ◌∷◌, All, ◌⊎◌, false, bytes_ne, refl, ◌≤◌, bytes_eq, ◌≢◌,
}
use nyet.DnsCache.{
  Cache, insert, init, lookup, block, allow, fnv1a_hash, entry_for, expired, Entry,
  get_timestamp_ns,
}
use nyet.DnsCache.Invariant.{empty, Reachable, made, after, inserts, Reachable-IsValid}
use nyet.DnsCache.Lookup.{lookup-read}
use nyet.DnsCache.Insert.{insert-slot_of, insert_ne}
use nyet.DnsCache.Lifetime.{answers-Frequent, expired_never, answers}
use nyet.DnsCache.Slots.{IsValid, read, slot_of}
use nyet.DnsCache.Sweep.{IsLive}

abbrev ads : Bytes
ads = 97 ∷ 100 ∷ 115 ∷ []

abbrev news : Bytes
news = 110 ∷ 101 ∷ 119 ∷ 115 ∷ []

-- neither domain
abbrev mail : Bytes
mail = 109 ∷ 97 ∷ 105 ∷ 108 ∷ []

abbrev one_entry : Cache
one_entry = (insert (empty 64) ads block 300 1000).0

abbrev two_entries : Cache
two_entries = (insert one_entry news allow 60 2000).0

init_64 : init 64 ≡ some (empty 64)
unfolding init
init_64 = refl

two_entries-Reachable : Reachable two_entries
two_entries-Reachable =
    after
      (after (made 64 (omega arith) init_64) (inserts (empty 64) ads block 300 1000 (omega arith)))
      (inserts one_entry news allow 60 2000 (omega arith))

two_entries-IsValid : IsValid two_entries
two_entries-IsValid = Reachable-IsValid two_entries-Reachable

Reachable-IsValid_example : IsValid two_entries
Reachable-IsValid_example = Reachable-IsValid two_entries-Reachable

holds_ads : slot_of ads two_entries.entries ≡ some (entry_for (fnv1a_hash ads) ads block 300 1000)
unfolding slot_of insert fnv1a_hash expired bytes_eq
holds_ads = refl

lookup-read_example : (lookup two_entries ads 5000).1 ≡ read 5000 (slot_of ads two_entries.entries)
lookup-read_example = lookup-read two_entries ads 5000 two_entries-IsValid (omega arith)

ads_ne_mail : ads ≢ mail
unfolding bytes_eq
ads_ne_mail = bytes_ne ads mail refl

news_ne_ads : news ≢ ads
unfolding bytes_eq
news_ne_ads = bytes_ne news ads refl

insert-slot_of_example :
    slot_of mail (insert two_entries mail block 9 3000).0.entries
    ≡ some (entry_for (fnv1a_hash mail) mail block 9 3000)
insert-slot_of_example =
    insert-slot_of two_entries mail block 9 3000 two_entries-IsValid
      (omega arith, omega arith, omega arith)

insert_ne_example :
    (read 4000 (slot_of ads (insert two_entries mail block 9 3000).0.entries)
      ≡ read 4000 (slot_of ads two_entries.entries))
    ⊎ ((x : Entry) × (slot_of ads two_entries.entries ≡ some x)
        × All (IsLive 3000) two_entries.entries
        × All (λ e. x.timestamp_ns ≤ e.timestamp_ns) two_entries.entries)
insert_ne_example =
    insert_ne two_entries mail block 9 3000 ads 4000 two_entries-IsValid
      (omega arith, omega arith, omega arith) ads_ne_mail (omega arith)

-- lookups 200 s apart, 800 s in all, of an entry with a ttl of 300 s
answers-Frequent_example :
    answers two_entries ads (200000000000 ∷ 400000000000 ∷ 600000000000 ∷ 800000000000 ∷ [])
    ≡ some (block, 300) ∷ some (block, 300) ∷ some (block, 300) ∷ some (block, 300) ∷ []
answers-Frequent_example =
    answers-Frequent two_entries ads (entry_for (fnv1a_hash ads) ads block 300 1000)
      (200000000000 ∷ 400000000000 ∷ 600000000000 ∷ 800000000000 ∷ []) two_entries-IsValid
      (omega arith) holds_ads (omega arith)
      (
        omega arith,
        omega arith,
        omega arith,
        (
          omega arith,
          omega arith,
          omega arith,
          (omega arith, omega arith, omega arith, (omega arith, omega arith, omega arith, tt)),
        ),
      )

-- a counter of 10 MHz, and a ttl of an hour: the entry is live a year later
expired_never_example :
    expired (get_timestamp_ns 10000000 315360000000000) (entry_for 7 ads block 3600 0) ≡ false
unfolding get_timestamp_ns
expired_never_example =
    expired_never 10000000 0 315360000000000 (entry_for 7 ads block 3600 0) (omega arith) refl
      (omega arith) (omega arith)
