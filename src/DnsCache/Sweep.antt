-- ===== src/DnsCache/Sweep.antt =====
-- The loop of `dns_cache_insert`: it sweeps what has expired, refreshes the entry of the domain if
-- that is alive, and otherwise remembers the first free slot and the oldest entry.
use nyet.Prelude.{
  ◌==◌, ℕ, ◌+◌, ◌≤◌, ◌<◌, ◌≡◌, ◌≢◌, refl, Bool, true, false, not, none, ltb, some, List, [], ◌∷◌,
  arith, if_elim, length, All, Bytes, bytes_eq_iff, bytes_eq_refl, ◌⊎◌, inl, inr, Bool-cases, ◌∙◌,
}
use nyet.Prelude.Words.{u64_mod}
use nyet.DnsCache.{
  Entry, Action, Scan, fnv1a_hash, expired, matches, visit, refreshable, insert_scan, entry_for,
  note_live,
}
use nyet.DnsCache.Slots.{
  slot_of, occurrences, live_count, IsHashed, read, matches-holds, holds_ne, slot_of-none,
  expired_mono, test_at,
}

abbrev pub IsLive : ℕ → Entry → Type 0
IsLive now e = (e.valid ≡ true) × (expired now e ≡ false)

-- what the loop records of a table with no free slot
pub note_all : ℕ → List Entry → Scan → Scan
note_all i [] s = s
note_all i (e ∷ es) s = note_all (i + 1) es (note_live i e s)

-- the bound only falls, and ends under every timestamp
note_all-le : (i : ℕ) (es : List Entry) (s : Scan) → (note_all i es s).oldest_time ≤ s.oldest_time
unfolding note_all
note_all-le i [] s = omega arith
note_all-le i (e ∷ es) s = ground (arith, note_all-le (i + 1) es (note_live i e s))

pub note_all_below :
    (i : ℕ) (es : List Entry) (s : Scan) (b : ℕ)
    → b ≡ (note_all i es s).oldest_time
    → All (λ e. b ≤ e.timestamp_ns) es
unfolding note_all
note_all_below i [] s b h = tt
note_all_below i (e ∷ es) s b h = (
  ground (arith, note_all-le (i + 1) es (note_live i e s)),
  note_all_below (i + 1) es (note_live i e s) b h,
)

-- it is the timestamp at the recorded place, if it has moved at all
pub note_all_at :
    (i : ℕ) (es : List Entry) (s : Scan) (b : ℕ)
    → b ≡ (note_all i es s).oldest_time
    → (note_all i es s ≡ s)
      ⊎ (test_at (λ e. e.timestamp_ns == b) i es (note_all i es s).lru_idx ≡ true)
unfolding note_all test_at
note_all_at i [] s b h = inl refl
note_all_at i (e ∷ es) s b h = elim (note_all_at (i + 1) es (note_live i e s) b h) [
  | inr found ↦ inr (ground arith)
  | inl same ↦ elim (Bool-cases (ltb e.timestamp_ns s.oldest_time)) [
    | inl lower ↦ inr (ground arith)
    | inr higher ↦ inl (same ∙ rw higher)
  ]
]

visit-IsHashed : (now i : ℕ) (e : Entry) (s : Scan) → IsHashed e → IsHashed (visit now i e s).0
unfolding visit
visit-IsHashed now i e s h =
    if_elim (λ (r : Entry × Scan). IsHashed r.0) (not e.valid) _ _ (λ _. h)
      (λ _. if_elim (λ (r : Entry × Scan). IsHashed r.0) (expired now e) _ _ (λ _ f. cc) (λ _. h))

module _ (d : Bytes) (a : Action) (ttl now : ℕ) where
  abbrev pub new_entry : Entry
  new_entry = entry_for (fnv1a_hash d) d a ttl now

  abbrev pub scan : ℕ → List Entry → Scan → List Entry × Scan × Bool
  scan = insert_scan (fnv1a_hash d) d a ttl now

  -- how the loop changes the counts, whichever way it ends
  pub scan-shape :
      (q : Bytes) (i : ℕ) (es : List Entry) (s : Scan)
      → (length (scan i es s).0 ≡ length es) × (occurrences q (scan i es s).0 ≤ occurrences q es)
  unfolding insert_scan visit refreshable occurrences
  scan-shape q i [] s = (refl, omega arith)
  scan-shape q i (e ∷ es) s = ground (arith, scan-shape q (i + 1) es (visit now i e s).1)

  pub scan-counted :
      (i : ℕ) (es : List Entry) (s : Scan)
      → live_count es ≤ s.count
      → s.count < u64_mod
      → (scan i es s).1.count + live_count es ≡ s.count + live_count (scan i es s).0
  unfolding insert_scan visit refreshable live_count matches
  scan-counted i [] s p q = refl
  scan-counted i (e ∷ es) s p q = ground (arith, scan-counted (i + 1) es (visit now i e s).1)

  -- a refreshed entry is the one that a first insertion would have stored
  pub scan-found :
      (i : ℕ) (es : List Entry) (s : Scan)
      → All IsHashed es
      → (scan i es s).2 ≡ true
      → slot_of d (scan i es s).0 ≡ some new_entry
  unfolding insert_scan visit refreshable slot_of
  scan-found i [] s h f = cc
  scan-found i (e ∷ es) s h f = ground (
    arith,
    matches-holds d e h.0,
    h.0,
    bytes_eq_iff e.domain d,
    bytes_eq_refl d,
    scan-found (i + 1) es (visit now i e s).1 h.1,
  )

  pub scan-IsHashed :
      (i : ℕ) (es : List Entry) (s : Scan)
      → now < u64_mod
      → All IsHashed es
      → All IsHashed (scan i es s).0
  unfolding insert_scan visit refreshable
  scan-IsHashed i [] s w h = tt
  scan-IsHashed i (e ∷ es) s w h =
      if_elim (λ (r : List Entry × Scan × Bool). All IsHashed r.0)
        (refreshable (fnv1a_hash d) d now e) _ _
        (λ _. ((λ live. ((h.0 live).0, (h.0 live).1, w)), h.1))
        (λ _. (visit-IsHashed now i e s h.0, scan-IsHashed (i + 1) es (visit now i e s).1 w h.1))

  -- later than `now`, another domain reads as before
  pub scan-read_ne :
      (q : Bytes) (t i : ℕ) (es : List Entry) (s : Scan)
      → q ≢ d
      → now ≤ t
      → occurrences q es ≤ 1
      → All IsHashed es
      → read t (slot_of q (scan i es s).0) ≡ read t (slot_of q es)
  unfolding insert_scan visit refreshable slot_of occurrences
  scan-read_ne q t i [] s n l u h = refl
  scan-read_ne q t i (e ∷ es) s n l u h = ground (
    arith,
    matches-holds d e h.0,
    holds_ne d q e n,
    expired_mono now t e l,
    scan-read_ne q t (i + 1) es (visit now i e s).1 n l,
    slot_of-none q es,
    slot_of-none q (scan (i + 1) es (visit now i e s).1).0,
    scan-shape q (i + 1) es (visit now i e s).1,
  )

  -- with no live entry of the domain, the domain is gone from the swept table
  pub scan-missed :
      (i : ℕ) (es : List Entry) (s : Scan)
      → All IsHashed es
      → (scan i es s).2 ≡ false
      → occurrences d (scan i es s).0 ≡ 0
  unfolding insert_scan visit refreshable occurrences
  scan-missed i [] s h f = refl
  scan-missed i (e ∷ es) s h f =
      ground (arith, matches-holds d e h.0, scan-missed (i + 1) es (visit now i e s).1 h.1)

  -- the free slot that the loop remembers is free after it
  pub scan-kept :
      (i j : ℕ) (es : List Entry) (s : Scan)
      → s.empty_idx ≡ some j
      → (scan i es s).1.empty_idx ≡ some j
  unfolding insert_scan visit
  scan-kept i j [] s h = h
  scan-kept i j (e ∷ es) s h = ground (arith, scan-kept (i + 1) j es (visit now i e s).1)

  pub scan-free :
      (i j : ℕ) (es : List Entry) (s : Scan)
      → s.empty_idx ≡ none
      → (scan i es s).2 ≡ false
      → (scan i es s).1.empty_idx ≡ some j
      → test_at (λ e. not e.valid) i (scan i es s).0 j ≡ true
  unfolding insert_scan visit test_at
  scan-free i j [] s n f h = cc
  scan-free i j (e ∷ es) s n f h = ground (
    arith,
    scan-free (i + 1) j es (visit now i e s).1,
    scan-kept (i + 1) i es (visit now i e s).1,
  )

  -- with no free slot every entry is alive, and the loop has left the table as it was
  pub scan-full :
      (i : ℕ) (es : List Entry) (s : Scan)
      → s.empty_idx ≡ none
      → (scan i es s).2 ≡ false
      → (scan i es s).1.empty_idx ≡ none
      → All (IsLive now) es × ((scan i es s).0 ≡ es) × ((scan i es s).1 ≡ note_all i es s)
  unfolding insert_scan visit note_all
  scan-full i [] s n f h = (tt, refl, refl)
  scan-full i (e ∷ es) s n f h =
      ground (
        arith,
        scan-full (i + 1) es (visit now i e s).1,
        scan-kept (i + 1) i es (visit now i e s).1,
      )
