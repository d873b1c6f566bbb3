-- ===== src/DnsCache/Removal.antt =====
-- `dns_cache_invalidate`, `dns_cache_clear` and `dns_cache_prune_expired`.
use nyet.Prelude.{
  ℕ, zero, suc, ◌+◌, ◌≤◌, ◌<◌, ◌≡◌, ◌≢◌, refl, Bool, true, false, ◌&&◌, Option, none, some, List,
  [], ◌∷◌, arith, ltb, if◌then◌else◌, if_elim, length, replicate, length-replicate, All, Bytes, suc,
}
use nyet.Prelude.Words.{u64_mod, dec64}
use nyet.DnsCache.{
  Entry, Cache, max_domain_len, fnv1a_hash, expired, zeroed, invalidate_scan, invalidate, clear,
  prune_scan, prune_expired, matches,
}
use nyet.DnsCache.Slots.{
  slot_of, occurrences, live_count, IsHashed, IsValid, read, matches-holds, holds_ne, slot_of-none,
  expired_mono, live_count-le,
}

abbrev pub is_some {ℓ} : {A : Type ℓ} → Option A → Bool
is_some none = false
is_some (some a) = true

module _ (d : Bytes) where
  abbrev dropped : List Entry → List Entry × Bool
  dropped es = invalidate_scan (fnv1a_hash d) d es

  dropped-found : (es : List Entry) → All IsHashed es → (dropped es).1 ≡ is_some (slot_of d es)
  unfolding invalidate_scan slot_of
  dropped-found [] h = refl
  dropped-found (e ∷ es) h = ground (arith, matches-holds d e h.0, dropped-found es h.1)

  dropped-none :
      (es : List Entry) → All IsHashed es → occurrences d es ≤ 1 → occurrences d (dropped es).0 ≡ 0
  unfolding invalidate_scan occurrences
  dropped-none [] h u = refl
  dropped-none (e ∷ es) h u = ground (arith, matches-holds d e h.0, dropped-none es h.1)

  dropped_ne :
      (q : Bytes) (es : List Entry)
      → All IsHashed es
      → q ≢ d
      → slot_of q (dropped es).0 ≡ slot_of q es
  unfolding invalidate_scan slot_of
  dropped_ne q [] h n = refl
  dropped_ne q (e ∷ es) h n =
      ground (arith, matches-holds d e h.0, holds_ne d q e n, dropped_ne q es h.1 n)

  dropped-shape :
      (q : Bytes) (es : List Entry)
      → All IsHashed es
      → (length (dropped es).0 ≡ length es)
        × (occurrences q (dropped es).0 ≤ occurrences q es)
        × (live_count (dropped es).0 + (if (dropped es).1 then 1 else 0) ≡ live_count es)
  unfolding invalidate_scan occurrences live_count
  dropped-shape q [] h = (refl, omega arith, refl)
  dropped-shape q (e ∷ es) h = ground (arith, matches-holds d e h.0, dropped-shape q es h.1)

  dropped-IsHashed : (es : List Entry) → All IsHashed es → All IsHashed (dropped es).0
  unfolding invalidate_scan
  dropped-IsHashed [] h = tt
  dropped-IsHashed (e ∷ es) h =
      if_elim (λ (r : List Entry × Bool). All IsHashed r.0) (matches (fnv1a_hash d) d e) _ _
        (λ _. ((λ f. cc), h.1)) (λ _. (h.0, dropped-IsHashed es h.1))

module _ (c : Cache) (d : Bytes) (v : IsValid c) where
  -- After an invalidation the domain is unknown, the result tells whether it was known, and
  -- every other domain keeps its entry.
  pub invalidate-slot_of :
      (q : Bytes)
      → length d ≤ max_domain_len
      → q ≢ d
      → (slot_of d (invalidate c d).0.entries ≡ none)
        × ((invalidate c d).1 ≡ is_some (slot_of d c.entries))
        × (slot_of q (invalidate c d).0.entries ≡ slot_of q c.entries)
  unfolding invalidate
  invalidate-slot_of q len n = ground (
    arith,
    dropped-none d c.entries v.hashed (v.unique d),
    slot_of-none d (dropped d c.entries).0,
    dropped-found d c.entries v.hashed,
    dropped_ne d q c.entries v.hashed n,
  )

  pub invalidate-IsValid : IsValid (invalidate c d).0
  unfolding invalidate
  invalidate-IsValid =
      if_elim (λ (r : Cache × Bool). IsValid r.0) (ltb max_domain_len (length d)) _ _ (λ _. v)
        (λ _. record {
          width = omega (arith, dropped-shape d d c.entries v.hashed, v.width);
          fits = v.fits;
          occupied = v.occupied;
          hashed = dropped-IsHashed d c.entries v.hashed;
          unique = λ q. omega (arith, dropped-shape d q c.entries v.hashed, v.unique q);
          counted = ground (
            arith,
            dropped-shape d d c.entries v.hashed,
            v.counted,
            v.fits,
            v.width,
            live_count-le c.entries,
          );
        })

module _ (now : ℕ) where
  pruned-live :
      (es : List Entry) (count : ℕ)
      → All (λ e. (e.valid && expired now e) ≡ false) (prune_scan now es count).0
  unfolding prune_scan
  pruned-live [] count = tt
  pruned-live (e ∷ es) count = (
    if_elim (λ x. (x.valid && expired now x) ≡ false) (e.valid && expired now e) zeroed e
        (λ _. refl) (λ stay. stay),
    pruned-live es _,
  )

  pruned-shape :
      (q : Bytes) (es : List Entry) (count : ℕ)
      → live_count es ≤ count
      → count < u64_mod
      → (length (prune_scan now es count).0 ≡ length es)
        × (occurrences q (prune_scan now es count).0 ≤ occurrences q es)
        × ((prune_scan now es count).1 + (prune_scan now es count).2 ≡ count)
        × (live_count (prune_scan now es count).0 + (prune_scan now es count).2 ≡ live_count es)
  unfolding prune_scan occurrences live_count
  pruned-shape q [] count l f = ground arith
  pruned-shape q (e ∷ es) count l f =
      ground (arith, pruned-shape q es (if e.valid && expired now e then dec64 count else count))

  pruned-none :
      (q : Bytes) (es : List Entry) (count : ℕ)
      → occurrences q es ≡ 0
      → occurrences q (prune_scan now es count).0 ≡ 0
  unfolding prune_scan occurrences
  pruned-none q [] count u = refl
  pruned-none q (e ∷ es) count u =
      ground (arith, pruned-none q es (if e.valid && expired now e then dec64 count else count))

  pruned-read :
      (q : Bytes) (t : ℕ) (es : List Entry) (count : ℕ)
      → now ≤ t
      → occurrences q es ≤ 1
      → read t (slot_of q (prune_scan now es count).0) ≡ read t (slot_of q es)
  unfolding prune_scan slot_of occurrences
  pruned-read q t [] count l u = refl
  pruned-read q t (e ∷ es) count l u = ground (
    arith,
    expired_mono now t e l,
    pruned-read q t es (if e.valid && expired now e then dec64 count else count) l,
    slot_of-none q es,
    pruned-none q es (if e.valid && expired now e then dec64 count else count),
    slot_of-none q (prune_scan now es (if e.valid && expired now e then dec64 count else count)).0,
  )

  pruned-IsHashed :
      (es : List Entry) (count : ℕ) → All IsHashed es → All IsHashed (prune_scan now es count).0
  unfolding prune_scan
  pruned-IsHashed [] count h = tt
  pruned-IsHashed (e ∷ es) count h = (
    if_elim IsHashed (e.valid && expired now e) zeroed e (λ _ f. cc) (λ _. h.0),
    pruned-IsHashed es _ h.1,
  )

module _ (c : Cache) (now : ℕ) (v : IsValid c) where
  prune-shape :
      (q : Bytes)
      → (length (prune_scan now c.entries c.count).0 ≡ length c.entries)
        × (occurrences q (prune_scan now c.entries c.count).0 ≤ occurrences q c.entries)
        × ((prune_scan now c.entries c.count).1 + (prune_scan now c.entries c.count).2 ≡ c.count)
        × (live_count (prune_scan now c.entries c.count).0 + (prune_scan now c.entries c.count).2
            ≡ live_count c.entries)
  prune-shape q =
      pruned-shape now q c.entries c.count (omega (arith, v.counted))
        (omega (arith, v.counted, v.fits, v.width, live_count-le c.entries))

  -- Pruning at `now` leaves no expired entry, reports how far the count has fallen, and changes
  -- no answer from `now` on.
  pub prune_expired_lem :
      (q : Bytes) (t : ℕ)
      → now ≤ t
      → All (λ e. (e.valid && expired now e) ≡ false) (prune_expired c now).0.entries
        × ((prune_expired c now).0.count + (prune_expired c now).1 ≡ c.count)
        × (read t (slot_of q (prune_expired c now).0.entries) ≡ read t (slot_of q c.entries))
  unfolding prune_expired
  prune_expired_lem q t l = (
    pruned-live now c.entries c.count,
    (prune-shape q).2,
    pruned-read now q t c.entries c.count l (v.unique q),
  )

  pub prune_expired-IsValid : IsValid (prune_expired c now).0
  unfolding prune_expired
  prune_expired-IsValid = record {
    width = omega (arith, prune-shape [], v.width);
    fits = v.fits;
    occupied = v.occupied;
    hashed = pruned-IsHashed now c.entries c.count v.hashed;
    unique = λ q. omega (arith, prune-shape q, v.unique q);
    counted = omega (arith, prune-shape [], v.counted);
  }

-- a table of zeroed entries holds nothing
pub zeroed_table :
    (n : ℕ) (q : Bytes)
    → All IsHashed (replicate n zeroed)
      × (occurrences q (replicate n zeroed) ≡ 0)
      × (live_count (replicate n zeroed) ≡ 0)
unfolding occurrences live_count
zeroed_table zero q = (tt, refl, refl)
zeroed_table (suc n) q =
    let (h, o, l) = zeroed_table n q in (((λ f. cc), h), ground (arith, o), ground (arith, l))

pub clear-IsValid : (c : Cache) → IsValid c → IsValid (clear c)
unfolding clear
clear-IsValid c v = record {
  width = length-replicate c.capacity zeroed;
  fits = v.fits;
  occupied = v.occupied;
  hashed = (zeroed_table c.capacity []).0;
  unique = λ q. omega (arith, zeroed_table c.capacity q);
  counted = omega (arith, zeroed_table c.capacity []);
}

-- After a clear no domain is known.
pub slot_of-clear : (c : Cache) (q : Bytes) → slot_of q (clear c).entries ≡ none
unfolding clear
slot_of-clear c q = slot_of-none q _ (zeroed_table c.capacity q).1
