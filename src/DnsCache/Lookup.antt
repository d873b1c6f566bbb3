-- ===== src/DnsCache/Lookup.antt =====
-- `dns_cache_lookup` against the table as a map, and what a hit does to an entry's lifetime.
use nyet.Prelude.{
  ℕ, ◌≤◌, ◌≡◌, ◌≢◌, refl, Option, none, some, List, [], ◌∷◌, arith, ltb, if◌then◌else◌, length, All,
  Bytes, if_elim, ◌<◌,
}
use nyet.DnsCache.{
  Entry, Cache, Action, Found, nothing, stale, fresh, max_domain_len, fnv1a_hash, expired, matches,
  touch, lookup_scan, conclude, lookup, u64_mod,
}
use nyet.DnsCache.Slots.{
  slot_of, occurrences, live_count, IsHashed, IsValid, read, matches-holds, holds_ne,
}

abbrev answer : ℕ → Option Entry → Found
answer now none = nothing
answer now (some e) = if expired now e then stale else fresh e.action e.ttl

-- the entry after the loop has found it
abbrev pub touched : ℕ → Option Entry → Option Entry
touched now none = none
touched now (some e) = if expired now e then some e else some (touch now e)

touch-IsHashed : (now : ℕ) (e : Entry) → now < u64_mod → IsHashed e → IsHashed (touch now e)
touch-IsHashed now e w h =
    if_elim IsHashed (ltb e.timestamp_ns now) _ _ (λ _ live. ((h live).0, (h live).1, w)) (λ _. h)

module _ (d : Bytes) (now : ℕ) where
  abbrev scan : List Entry → List Entry × Found
  scan es = lookup_scan (fnv1a_hash d) d now es

  scan-answer : (es : List Entry) → All IsHashed es → (scan es).1 ≡ answer now (slot_of d es)
  unfolding lookup_scan slot_of
  scan-answer [] h = refl
  scan-answer (e ∷ es) h = ground (arith, matches-holds d e h.0, scan-answer es h.1)

  scan-touched :
      (es : List Entry) → All IsHashed es → slot_of d (scan es).0 ≡ touched now (slot_of d es)
  unfolding lookup_scan slot_of
  scan-touched [] h = refl
  scan-touched (e ∷ es) h = ground (arith, matches-holds d e h.0, scan-touched es h.1)

  scan_ne :
      (q : Bytes) (es : List Entry) → q ≢ d → All IsHashed es → slot_of q (scan es).0 ≡ slot_of q es
  unfolding lookup_scan slot_of
  scan_ne q [] n h = refl
  scan_ne q (e ∷ es) n h =
      ground (arith, matches-holds d e h.0, holds_ne d q e n, scan_ne q es n h.1)

  scan-shape :
      (q : Bytes) (es : List Entry)
      → (length (scan es).0 ≡ length es)
        × (occurrences q (scan es).0 ≡ occurrences q es)
        × (live_count (scan es).0 ≡ live_count es)
  unfolding lookup_scan occurrences live_count
  scan-shape q [] = (refl, refl, refl)
  scan-shape q (e ∷ es) = ground (arith, scan-shape q es)

  scan-IsHashed : (es : List Entry) → now < u64_mod → All IsHashed es → All IsHashed (scan es).0
  unfolding lookup_scan
  scan-IsHashed [] w h = tt
  scan-IsHashed (e ∷ es) w h =
      if_elim (λ (r : List Entry × Found). All IsHashed r.0) (matches (fnv1a_hash d) d e) _ _
        (λ _.
          if_elim (λ (r : List Entry × Found). All IsHashed r.0) (expired now e) _ _ (λ _. h)
            (λ _. (touch-IsHashed now e w h.0, h.1)))
        (λ _. (h.0, scan-IsHashed es w h.1))

module _ (c : Cache) (d : Bytes) (now : ℕ) where
  conclude-entries : (r : List Entry × Found) → (conclude c r).0.entries ≡ r.0
  conclude-entries (es, nothing) = refl
  conclude-entries (es, stale) = refl
  conclude-entries (es, fresh a t) = refl

  -- The answer of a lookup is what the table holds under the domain at that time.
  pub lookup-read :
      IsValid c → length d ≤ max_domain_len → (lookup c d now).1 ≡ read now (slot_of d c.entries)
  unfolding lookup
  lookup-read v h = ground (arith, scan-answer d now c.entries v.hashed)

  pub lookup-touched :
      IsValid c
      → length d ≤ max_domain_len
      → slot_of d (lookup c d now).0.entries ≡ touched now (slot_of d c.entries)
  unfolding lookup
  lookup-touched v h = ground (
    arith,
    scan-touched d now c.entries v.hashed,
    conclude-entries (lookup_scan (fnv1a_hash d) d now c.entries),
  )

  pub lookup_ne :
      (q : Bytes) → IsValid c → q ≢ d → slot_of q (lookup c d now).0.entries ≡ slot_of q c.entries
  unfolding lookup
  lookup_ne q v n = ground (
    arith,
    scan_ne d now q c.entries n v.hashed,
    conclude-entries (lookup_scan (fnv1a_hash d) d now c.entries),
  )

  conclude-IsValid :
      (r : List Entry × Found) → IsValid (record c { entries = r.0 }) → IsValid (conclude c r).0
  conclude-IsValid (es, nothing) v = assumption v
  conclude-IsValid (es, stale) v = assumption v
  conclude-IsValid (es, fresh a t) v = assumption v

  -- A lookup keeps the invariant.
  pub lookup-IsValid : now < u64_mod → IsValid c → IsValid (lookup c d now).0
  unfolding lookup
  lookup-IsValid w v =
      if_elim (λ (r : Cache × Option (Action × ℕ)). IsValid r.0) (ltb max_domain_len (length d)) _ _
        (λ _. v)
        (λ _. conclude-IsValid (lookup_scan (fnv1a_hash d) d now c.entries) (record {
          width = ground (arith, scan-shape d now d c.entries);
          fits = v.fits;
          occupied = v.occupied;
          hashed = scan-IsHashed d now c.entries w v.hashed;
          unique = λ q. ground (arith, scan-shape d now q c.entries, v.unique q);
          counted = ground (arith, scan-shape d now d c.entries);
        }))
