-- ===== src/Upstream.antt =====
-- src/nyet.c: `recv_matching_reply`, and the forwarding in `process_request`. What recvfrom returns and
-- what the clock of milliseconds shows after it are given for each round of the loop.
pub mod Reply
use nyet.Prelude.{
  ℕ, zero, suc, ◌+◌, ◌-◌, ◌*◌, ◌/◌, ◌%◌, ◌^◌, ◌≤◌, ◌<◌, ◌≡◌, refl, sym, ap, ap₂, subst, ◌∙◌, ◌≢◌,
  ◌↔◌, ◌⊎◌, inl, inr, Bool, true, false, not, ◌&&◌, ◌||◌, Option, none, some, List, [], ◌∷◌, ◌++◌,
  map, arith, ltb, leb, ◌==◌, if◌then◌else◌, if_elim, Bool-cases, Option-cases, Bytes, bytes_eq,
  bytes_eq_iff, bytes_eq_refl, ==_same, ==_other, length, length-append, All, take, drop,
  take_append_exact, drop_append_exact, set, get_elem?, get_or,
}

-- an address and a port
abbrev pub Address : Type 0
Address = ℕ × ℕ

-- SOCKET_ERROR, or a packet and its sender
pub data Received : Type 0 where
  socket_error : Received
  packet : Address → Bytes → Received

pub record Round : Type 0 where
  pub received : Received
  pub ticks : ℕ

abbrev pub same_address : Address → Address → Bool
same_address (a, p) (b, q) = a == b && p == q

-- the two bytes of the transaction id
abbrev pub same_id : Bytes → Bytes → Bool
same_id expected (a ∷ b ∷ cs) = a == get_or expected 0 0 && b == get_or expected 1 0
same_id expected _ = false

-- the reply that ends the loop
abbrev pub matching : Bytes → Address → Received → Option Bytes
matching expected_id upstream socket_error = none
matching expected_id upstream (packet from bytes) =
    if not (same_address from upstream)
    then none
    else if same_id expected_id bytes
    then some bytes
    else none

-- what a round does: it returns the reply, gives up past the deadline, or continues
abbrev pub after_round : Option Bytes → Bool → Option (Option Bytes) → Option (Option Bytes)
after_round (some reply) late more = some (some reply)
after_round none late more = if late then some none else more

-- The loop from a round on, on fuel: `none` where the fuel runs out, else the reply or SOCKET_ERROR.
unfoldable pub recv_loop : ℕ → (ℕ → Round) → Bytes → Address → ℕ → ℕ → Option (Option Bytes)
recv_loop zero rounds expected_id upstream deadline k = none
recv_loop (suc fuel) rounds expected_id upstream deadline k =
    after_round (matching expected_id upstream (rounds k).received) (leb deadline (rounds k).ticks)
      (recv_loop fuel rounds expected_id upstream deadline (k + 1))

-- the query's first two bytes are the id
unfoldable pub recv_matching_reply :
    ℕ → (ℕ → Round) → Bytes → Address → ℕ → ℕ → Option (Option Bytes)
unfolding recv_loop
recv_matching_reply fuel rounds raw_query upstream start timeout_budget_ms =
    recv_loop fuel rounds raw_query upstream (start + timeout_budget_ms) 0
