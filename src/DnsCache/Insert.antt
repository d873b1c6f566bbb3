-- ===== src/DnsCache/Insert.antt =====
-- `dns_cache_insert` as a whole: its three outcomes, and what can be read after it.
use nyet.Prelude.{
  ℕ, ◌≤◌, ◌<◌, ◌≡◌, ◌≢◌, ◌⊎◌, inl, inr, refl, ap, ◌==◌, bytes_eq_refl, bytes_eq_iff, length-set,
  if_elim, Bool, ltb, ◌∙◌, ==_iff, get_elem?-lt, All-map, All-get_elem?, true, false, not, none,
  some, List, arith, length, set, get_elem?, All, Bytes, Bool-cases, Option-cases,
}
use nyet.Prelude.Words.{u64_mod, inc64}
use nyet.DnsCache.{Entry, Cache, Action, Scan, max_domain_len, scan_start, store, insert, Bool}
use nyet.DnsCache.Slots.{
  holds, slot_of, occurrences, live_count, IsHashed, IsValid, read, test_at-get_elem?,
  slot_of-set_self, slot_of-set_ne, slot_of_unique, occurrences-set, live_count-set, IsHashed-set,
  live_count-le, holds_ne,
}
use nyet.DnsCache.Sweep.{
  IsLive, note_all, note_all_below, note_all_at, scan, new_entry, scan-shape, scan-counted,
  scan-found, scan-full, scan-missed, scan-read_ne, scan-IsHashed, scan-free,
}

abbrev Accepted : Bytes → ℕ → ℕ → Type 0
Accepted d ttl now = (ttl ≢ 0) × (length d ≤ max_domain_len) × (now < u64_mod)

module _ (c : Cache) (d : Bytes) (a : Action) (ttl now : ℕ) where
  abbrev scanned : List Entry × Scan × Bool
  scanned = scan d a ttl now 0 c.entries (scan_start c)

  abbrev stored : Entry
  stored = new_entry d a ttl now

  insert-store : Accepted d ttl now → insert c d a ttl now ≡ (store c stored scanned, true)
  unfolding insert
  insert-store ok = ground arith

  -- the oldest entry of a table in which nothing is free
  record IsVictim (x : Entry) : Type 0 where
    live : All (IsLive now) c.entries
    place : get_elem? c.entries scanned.1.lru_idx ≡ some x
    oldest : All (λ e. x.timestamp_ns ≤ e.timestamp_ns) c.entries

  full-IsVictim :
      IsValid c → scanned.2 ≡ false → scanned.1.empty_idx ≡ none → (x : Entry) × IsVictim x
  full-IsVictim v f h =
      let (live, kept, last) = scan-full d a ttl now 0 c.entries (scan_start c) refl f h in
      let bound = (note_all 0 c.entries (scan_start c)).oldest_time in
      let below = note_all_below 0 c.entries (scan_start c) bound refl in
      elim (note_all_at 0 c.entries (scan_start c) bound refl) [
        | inr found ↦
            let (x, at, same) =
              test_at-get_elem? (λ e. e.timestamp_ns == bound) c.entries _ found in
            (
              x,
              record {
                live = live;
                place = rw last at;
                oldest = rw ((==_iff x.timestamp_ns bound).0 same) below;
              },
            )
        | inl unmoved ↦
            let (x, at) = get_elem?-lt c.entries 0 (omega (arith, v.width, v.occupied)) in
            let low =
              All-get_elem? IsHashed c.entries 0 x v.hashed at
                (All-get_elem? (IsLive now) c.entries 0 x live at).0 in
            (
              x,
              record {
                live = live;
                place = rw (last, unmoved) at;
                oldest =
                    All-map _ _
                      (λ e (h : bound ≤ e.timestamp_ns).
                        omega (arith, low.2, h, ap (λ (s : Scan). s.oldest_time) unmoved))
                      c.entries below;
              },
            )
      ]

  victim-place :
      (x : Entry)
      → scanned.0 ≡ c.entries
      → IsVictim x
      → get_elem? scanned.0 scanned.1.lru_idx ≡ some x
  victim-place x same victim = rw same victim.place

  gone : IsValid c → scanned.2 ≡ false → occurrences d scanned.0 ≡ 0
  gone v miss = scan-missed d a ttl now 0 c.entries (scan_start c) v.hashed miss

  -- A property of the stored cache, from the three ways in which the insertion ends.
  outcomes :
      IsValid c
      → (P : Cache → Type 0)
      → (scanned.2 ≡ true → P (record c { entries = scanned.0; count = scanned.1.count }))
      → ((j : ℕ) (x : Entry)
          → scanned.2 ≡ false
          → get_elem? scanned.0 j ≡ some x
          → x.valid ≡ false
          → P (record c {
            entries = set scanned.0 j stored;
            count = inc64 scanned.1.count;
            inserts = inc64 c.inserts;
          }))
      → ((x : Entry)
          → scanned.2 ≡ false
          → scanned.0 ≡ c.entries
          → IsVictim x
          → P (record c {
            entries = set scanned.0 scanned.1.lru_idx stored;
            count = scanned.1.count;
            evictions = inc64 c.evictions;
            inserts = inc64 c.inserts;
          }))
      → P (store c stored scanned)
  outcomes v P found free full = elim (Bool-cases scanned.2) [
    | inl hit ↦ rw hit (found hit)
    | inr miss ↦ elim (Option-cases scanned.1.empty_idx) [
      | inr (j, at) ↦
          let (x, place, unused) =
            test_at-get_elem? (λ e. not e.valid) scanned.0 j
              (scan-free d a ttl now 0 j c.entries (scan_start c) refl miss at) in
          rw (miss, at) (free j x miss place (ground arith))
      | inl nowhere ↦
          let (x, victim) = full-IsVictim v miss nowhere in
          rw (miss, nowhere)
            (full x miss (scan-full d a ttl now 0 c.entries (scan_start c) refl miss nowhere).1
              victim)
    ]
  ]

  -- Right after an insertion the table holds exactly the new entry under its domain.
  pub insert-slot_of :
      IsValid c → Accepted d ttl now → slot_of d (insert c d a ttl now).0.entries ≡ some stored
  insert-slot_of v ok = rw (insert-store ok) (
      outcomes v (λ r. slot_of d r.entries ≡ some stored)
        (λ hit. scan-found d a ttl now 0 c.entries (scan_start c) v.hashed hit)
        (λ j x miss at unused.
          slot_of-set_self stored d scanned.0 j x at (bytes_eq_refl d) (gone v miss))
        (λ x miss same victim.
          slot_of-set_self stored d scanned.0 scanned.1.lru_idx x (victim-place x same victim)
            (bytes_eq_refl d) (gone v miss)))

  -- `q` reads at `t` as before, or its entry was the oldest of a table full of live entries
  abbrev pub Spared : Bytes → ℕ → Cache → Type 0
  Spared q t r =
      (read t (slot_of q r.entries) ≡ read t (slot_of q c.entries))
      ⊎ ((x : Entry) × (slot_of q c.entries ≡ some x)
          × All (IsLive now) c.entries
          × All (λ e. x.timestamp_ns ≤ e.timestamp_ns) c.entries)

  -- Another domain reads as before from then on, unless the table was full of live entries and
  -- the domain's entry was the oldest of them.
  pub insert_ne :
      (q : Bytes) (t : ℕ)
      → IsValid c
      → Accepted d ttl now
      → q ≢ d
      → now ≤ t
      → (read t (slot_of q (insert c d a ttl now).0.entries) ≡ read t (slot_of q c.entries))
        ⊎ ((x : Entry) × (slot_of q c.entries ≡ some x)
            × All (IsLive now) c.entries
            × All (λ e. x.timestamp_ns ≤ e.timestamp_ns) c.entries)
  insert_ne q t v ok n l = rw (insert-store ok) (
      let other = holds_ne d q stored n (bytes_eq_refl d) in
      let kept =
        scan-read_ne d a ttl now q t 0 c.entries (scan_start c) n l (v.unique q) v.hashed in
      outcomes v (Spared q t) (λ hit. inl kept)
        (λ j x miss at unused.
          inl (ap (read t) (slot_of-set_ne stored q scanned.0 j x at other (ground arith)) ∙ kept))
        (λ x miss same victim.
          let place = victim-place x same victim in
          elim (Bool-cases (holds q x)) [
            | inl lost ↦ inr (
              x,
              slot_of_unique q c.entries _ x victim.place lost (v.unique q),
              victim.live,
              victim.oldest,
            )
            | inr safe ↦
                inl (ap (read t) (slot_of-set_ne stored q scanned.0 _ x place other safe) ∙ kept)
          ]))

  module _ (v : IsValid c) (w : now < u64_mod) (len : length d ≤ max_domain_len) where
    shape : (q : Bytes) → (length scanned.0 ≡ length c.entries) × (occurrences q scanned.0 ≤ 1)
    shape q = omega (arith, scan-shape d a ttl now q 0 c.entries (scan_start c), v.unique q)

    counts : scanned.1.count ≡ live_count scanned.0
    counts =
        let counted =
          scan-counted d a ttl now 0 c.entries (scan_start c) (omega (arith, v.counted))
            (omega (arith, v.counted, v.fits, v.width, live_count-le c.entries)) in
        omega (arith, counted, v.counted)

    swept-IsHashed : All IsHashed scanned.0
    swept-IsHashed = scan-IsHashed d a ttl now 0 c.entries (scan_start c) w v.hashed

    -- the new entry in a place that had none of another domain
    placed_unique :
        (j : ℕ) (x : Entry) (q : Bytes)
        → scanned.2 ≡ false
        → get_elem? scanned.0 j ≡ some x
        → occurrences q (set scanned.0 j stored) ≤ 1
    placed_unique j x q miss at =
        ground
          (arith, occurrences-set stored q scanned.0 j x at, shape q, gone v miss, bytes_eq_iff d q)

    placed-IsHashed : (j : ℕ) → All IsHashed (set scanned.0 j stored)
    placed-IsHashed j = IsHashed-set stored scanned.0 j (λ _. (refl, len, w)) swept-IsHashed

    free-count :
        (j : ℕ) (x : Entry)
        → get_elem? scanned.0 j ≡ some x
        → x.valid ≡ false
        → inc64 scanned.1.count ≡ live_count (set scanned.0 j stored)
    free-count j x at unused =
        let more = live_count-set stored scanned.0 j x at refl in
        let room = live_count-le (set scanned.0 j stored) in
        let wide = length-set scanned.0 j stored in
        ground (arith, counts, more, room, wide, shape d, v.width, v.fits)

    full-count :
        (x : Entry)
        → IsVictim x
        → get_elem? scanned.0 scanned.1.lru_idx ≡ some x
        → scanned.1.count ≡ live_count (set scanned.0 scanned.1.lru_idx stored)
    full-count x victim at =
        let alive = (All-get_elem? (IsLive now) c.entries _ x victim.live victim.place).0 in
        ground (arith, counts, alive, live_count-set stored scanned.0 scanned.1.lru_idx x at refl)

    store-IsValid : IsValid (store c stored scanned)
    store-IsValid =
        outcomes v IsValid
          (λ hit. record {
            width = omega (arith, shape d, v.width);
            fits = v.fits;
            occupied = v.occupied;
            hashed = swept-IsHashed;
            unique = λ q. (shape q).1;
            counted = counts;
          })
          (λ j x miss at unused. record {
            width = omega (arith, length-set scanned.0 j stored, shape d, v.width);
            fits = v.fits;
            occupied = v.occupied;
            hashed = placed-IsHashed j;
            unique = λ q. placed_unique j x q miss at;
            counted = free-count j x at unused;
          })
          (λ x miss same victim.
            let at = victim-place x same victim in
            record {
              width =
                  omega (arith, length-set scanned.0 scanned.1.lru_idx stored, shape d, v.width);
              fits = v.fits;
              occupied = v.occupied;
              hashed = placed-IsHashed scanned.1.lru_idx;
              unique = λ q. placed_unique scanned.1.lru_idx x q miss at;
              counted = full-count x victim at;
            })

-- An insertion keeps the invariant, whether it is accepted or not.
pub insert-IsValid :
    (c : Cache) (d : Bytes) (a : Action) (ttl now : ℕ)
    → now < u64_mod
    → IsValid c
    → IsValid (insert c d a ttl now).0
unfolding insert
insert-IsValid c d a ttl now w v =
    if_elim (λ (r : Cache × Bool). IsValid r.0) (ttl == 0) _ _ (λ _. v)
      (λ _.
        if_elim (λ (r : Cache × Bool). IsValid r.0) (ltb max_domain_len (length d)) _ _ (λ _. v)
          (λ short. store-IsValid c d a ttl now v w (ground arith)))
