-- ===== src/Upstream/Reply.antt =====
-- When the loop that waits for a reply ends, and with what.
use nyet.Prelude.{
  ℕ, zero, suc, ◌+◌, ◌≤◌, ◌<◌, ◌≡◌, refl, sym, subst, ◌∙◌, ◌≢◌, ◌⊎◌, inl, inr, Bool, true, false,
  Option, none, some, arith, leb, ◌==◌, Bool-cases, Option-cases, Bytes, ap,
}
use nyet.Upstream.{
  Address, Received, Round, packet, socket_error, same_address, same_id, matching, recv_loop,
  recv_matching_reply, after_round,
}

same_address-same : (a p b q : ℕ) → same_address (b, q) (a, p) ≡ true → (b ≡ a) × (q ≡ p)
same_address-same a p b q e = (ground (arith, e), ground (arith, e))

packet_same :
    (raw_query : Bytes) (a p b q : ℕ) (bytes reply : Bytes)
    → b ≡ a
    → q ≡ p
    → bytes ≡ reply
    → same_id raw_query bytes ≡ true
    → (packet (b, q) bytes ≡ packet (a, p) reply) × (same_id raw_query reply ≡ true)
packet_same raw_query a p b q bytes reply e d same id =
    (cc, subst (λ r. same_id raw_query r ≡ true) same id)

matching-packet :
    (raw_query : Bytes) (upstream : Address) (r : Received) (reply : Bytes)
    → matching raw_query upstream r ≡ some reply
    → (r ≡ packet upstream reply) × (same_id raw_query reply ≡ true)
matching-packet raw_query upstream socket_error reply h = absurd (ground (arith, h))
matching-packet raw_query (a, p) (packet (b, q) bytes) reply h =
    elim (Bool-cases (same_address (b, q) (a, p))) [
      | inl e ↦ elim (Bool-cases (same_id raw_query bytes)) [
        | inl d ↦
            let same = same_address-same a p b q e in
            packet_same raw_query a p b q bytes reply same.0 same.1 (grind (arith, h, e, d)) d
        | inr d ↦ absurd (grind (arith, h, e, d))
      ]
      | inr e ↦ absurd (grind (arith, h, e))
    ]

-- Round `j` is the first that ends the wait: the rounds before it had no reply and were in time.
abbrev pub FirstEnd : (ℕ → Round) → Bytes → Address → ℕ → ℕ → ℕ → Type 0
FirstEnd rounds raw_query upstream deadline k j =
    (k ≤ j)
    × ((i : ℕ)
        → k ≤ i
        → i < j
        → (matching raw_query upstream (rounds i).received ≡ none) × ((rounds i).ticks < deadline))
    × (matching raw_query upstream (rounds j).received ≡ none → deadline ≤ (rounds j).ticks)

FirstEnd-here :
    (rounds : ℕ → Round) (raw_query : Bytes) (upstream : Address) (deadline k : ℕ)
    → (matching raw_query upstream (rounds k).received ≡ none → deadline ≤ (rounds k).ticks)
    → FirstEnd rounds raw_query upstream deadline k k
FirstEnd-here rounds raw_query upstream deadline k ends =
    (ground arith, (λ i a b. absurd (ground (arith, a, b))), ends)

FirstEnd-before :
    (rounds : ℕ → Round) (raw_query : Bytes) (upstream : Address) (deadline k j : ℕ)
    → matching raw_query upstream (rounds k).received ≡ none
    → (rounds k).ticks < deadline
    → FirstEnd rounds raw_query upstream deadline (k + 1) j
    → FirstEnd rounds raw_query upstream deadline k j
FirstEnd-before rounds raw_query upstream deadline k j h t (b, before, ends) =
    (ground (arith, b), earlier, ends)
  where
    earlier :
        (i : ℕ)
        → k ≤ i
        → i < j
        → (matching raw_query upstream (rounds i).received ≡ none) × ((rounds i).ticks < deadline)
    earlier i c d = elim (Bool-cases (i == k)) [
      | inl e ↦
          subst
            (λ x.
              (matching raw_query upstream (rounds x).received ≡ none)
              × ((rounds x).ticks < deadline))
            (sym (ground (arith, e))) (h, t)
      | inr e ↦ before i (ground (arith, e, c)) d
    ]

after_round-ends :
    (m : Option Bytes) (late : Bool) (more : Option (Option Bytes))
    → m ≢ none ⊎ late ≡ true
    → after_round m late more ≡ some m
after_round-ends (some reply) late more h = refl
after_round-ends none true more h = refl
after_round-ends none false more (inl h) = absurd (h refl)
after_round-ends none false more (inr h) = absurd (ground (arith, h))

after_round-continues :
    (m : Option Bytes) (late : Bool) (more : Option (Option Bytes))
    → m ≡ none
    → late ≡ false
    → after_round m late more ≡ more
after_round-continues m late more h t = rw (h, t) refl

-- The loop ends at its round `k` where that round ends the wait.
loop_ends_here :
    (n : ℕ) (rounds : ℕ → Round) (raw_query : Bytes) (upstream : Address) (deadline k : ℕ)
    → matching raw_query upstream (rounds k).received ≢ none ⊎ leb deadline (rounds k).ticks ≡ true
    → (j : ℕ) × (j ≤ k + n)
      × FirstEnd rounds raw_query upstream deadline k j
      × (recv_loop (suc n) rounds raw_query upstream deadline k
          ≡ some (matching raw_query upstream (rounds j).received))
unfolding recv_loop
loop_ends_here n rounds raw_query upstream deadline k h = (
  k,
  ground arith,
  FirstEnd-here rounds raw_query upstream deadline k (ends h),
  after_round-ends (matching raw_query upstream (rounds k).received) (leb deadline (rounds k).ticks)
      (recv_loop n rounds raw_query upstream deadline (k + 1)) h,
)
  where
    ends :
        matching raw_query upstream (rounds k).received ≢ none
          ⊎ leb deadline (rounds k).ticks ≡ true
        → matching raw_query upstream (rounds k).received ≡ none
        → deadline ≤ (rounds k).ticks
    ends (inl some_reply) none_here = absurd (some_reply none_here)
    ends (inr t) none_here = ground (arith, t)

k_plus_zero : (k : ℕ) → k + 0 ≡ k
k_plus_zero k = ground arith

k_plus_suc : (k n : ℕ) → k + suc n ≡ k + 1 + n
k_plus_suc k n = ground arith

zero_plus : (n : ℕ) → n ≡ 0 + n
zero_plus n = ground arith

recv_loop-ends :
    (n : ℕ) (rounds : ℕ → Round) (raw_query : Bytes) (upstream : Address) (deadline k : ℕ)
    → deadline ≤ (rounds (k + n)).ticks
    → (j : ℕ) × (j ≤ k + n)
      × FirstEnd rounds raw_query upstream deadline k j
      × (recv_loop (suc n) rounds raw_query upstream deadline k
          ≡ some (matching raw_query upstream (rounds j).received))
unfolding recv_loop
recv_loop-ends zero rounds raw_query upstream deadline k late =
    loop_ends_here 0 rounds raw_query upstream deadline k
      (inr (ground (arith, subst (λ x. deadline ≤ (rounds x).ticks) (k_plus_zero k) late)))
recv_loop-ends (suc n) rounds raw_query upstream deadline k late =
    elim (Option-cases (matching raw_query upstream (rounds k).received)) [
      | inr (reply, h) ↦
          loop_ends_here (suc n) rounds raw_query upstream deadline k
            (inl (λ e. absurd (grind (arith, h, e))))
      | inl h ↦ elim (Bool-cases (leb deadline (rounds k).ticks)) [
        | inl t ↦ loop_ends_here (suc n) rounds raw_query upstream deadline k (inr t)
        | inr t ↦
            let (j, b, first, eq) =
              recv_loop-ends n rounds raw_query upstream deadline (k + 1)
                (subst (λ x. deadline ≤ (rounds x).ticks) (k_plus_suc k n) late) in
            (
              j,
              ground (arith, b),
              FirstEnd-before rounds raw_query upstream deadline k j h (ground (arith, t)) first,
              after_round-continues (matching raw_query upstream (rounds k).received)
                    (leb deadline (rounds k).ticks)
                    (recv_loop (suc n) rounds raw_query upstream deadline (k + 1)) h t
                  ∙ eq,
            )
      ]
    ]

-- A reply that the loop returns was received from the upstream, with the id.
recv_loop-received :
    (fuel : ℕ) (rounds : ℕ → Round) (raw_query : Bytes) (upstream : Address) (deadline k : ℕ)
    (reply : Bytes)
    → recv_loop fuel rounds raw_query upstream deadline k ≡ some (some reply)
    → (i : ℕ) × ((rounds i).received ≡ packet upstream reply) × (same_id raw_query reply ≡ true)
unfolding recv_loop
recv_loop-received zero rounds raw_query upstream deadline k reply h = absurd (ground (arith, h))
recv_loop-received (suc fuel) rounds raw_query upstream deadline k reply h =
    elim (Option-cases (matching raw_query upstream (rounds k).received)) [
      | inr (r, m) ↦
          let same : r ≡ reply = grind (arith, m, h) in
          let (a, b) =
            matching-packet raw_query upstream (rounds k).received reply (m ∙ ap some same) in
          (k, a, b)
      | inl m ↦ elim (Bool-cases (leb deadline (rounds k).ticks)) [
        | inl t ↦ absurd (grind (arith, m, t, h))
        | inr t ↦ recv_loop-received fuel rounds raw_query upstream deadline (k + 1) reply (
            sym (
              after_round-continues (matching raw_query upstream (rounds k).received)
                (leb deadline (rounds k).ticks)
                (recv_loop fuel rounds raw_query upstream deadline (k + 1)) m t)
            ∙ h)
      ]
    ]

pub recv_matching_reply-received :
    (fuel : ℕ) (rounds : ℕ → Round) (raw_query : Bytes) (upstream : Address) (start budget : ℕ)
    (reply : Bytes)
    → recv_matching_reply fuel rounds raw_query upstream start budget ≡ some (some reply)
    → (i : ℕ) × ((rounds i).received ≡ packet upstream reply) × (same_id raw_query reply ≡ true)
unfolding recv_matching_reply
recv_matching_reply-received fuel rounds raw_query upstream start budget reply h =
    recv_loop-received fuel rounds raw_query upstream (start + budget) 0 reply h

-- Where the clock reaches the deadline by round `n`, the wait for a reply ends after at most `n + 1` packets,
-- at the first round that has a matching reply or is past the deadline; a reply that it returns was received
-- in that round from the upstream asked, with the query's transaction id.
pub recv_matching_reply-ends :
    (n : ℕ) (rounds : ℕ → Round) (raw_query : Bytes) (upstream : Address) (start budget : ℕ)
    → start + budget ≤ (rounds n).ticks
    → (j : ℕ) × (j ≤ n)
      × FirstEnd rounds raw_query upstream (start + budget) 0 j
      × (recv_matching_reply (suc n) rounds raw_query upstream start budget
          ≡ some (matching raw_query upstream (rounds j).received))
      × ((reply : Bytes)
          → recv_matching_reply (suc n) rounds raw_query upstream start budget ≡ some (some reply)
          → ((rounds j).received ≡ packet upstream reply) × (same_id raw_query reply ≡ true))
unfolding recv_matching_reply
recv_matching_reply-ends n rounds raw_query upstream start budget late =
    let (j, b, first, eq) =
      recv_loop-ends n rounds raw_query upstream (start + budget) 0
        (subst (λ x. start + budget ≤ (rounds x).ticks) (zero_plus n) late) in
    (
      j,
      ground (arith, b),
      first,
      eq,
      (λ reply h.
          matching-packet raw_query upstream (rounds j).received reply (grind (arith, eq, h))),
    )
