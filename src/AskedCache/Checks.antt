-- ===== src/AskedCache/Checks.antt =====
-- The threads that ask the upstream: at most one for a domain and at most eight in all, over
-- any interleaving of queries and of threads that end.
use nyet.Prelude.{
  ℕ, suc, ◌+◌, ◌-◌, ◌≤◌, ◌<◌, ◌≡◌, refl, Bool, true, false, not, some, List, [], ◌∷◌, arith, ◌==◌,
  if◌then◌else◌, if_elim, Bytes, bytes_eq, bytes_eq_iff, bytes_eq_refl, length,
}
use nyet.AskedCache.{
  asked_pending, asked_cache_try_claim, Gravity, queue_gravity_check, ask, without, finish,
  max_concurrent_gravity_checks,
}
use nyet.AskedCache.Map.{
  state_of, IsUnique, claim-state_of, claim-IsUnique, mark-state_of, mark-IsUnique,
}

-- how many threads ask about the domain
unfoldable pub threads : Bytes → List Bytes → ℕ
threads d [] = 0
threads d (x ∷ xs) = (if bytes_eq x d then 1 else 0) + threads d xs

pub record IsSound (g : Gravity) : Type 0 where
  pub unique : IsUnique g.asked
  pub single : (d : Bytes) → threads d g.running ≤ 1
  pub pending : (d : Bytes) → 0 < threads d g.running → state_of d g.asked ≡ some asked_pending
  pub slots : g.permits + length g.running ≡ max_concurrent_gravity_checks

pub threads-cons :
    (d q : Bytes) (xs : List Bytes)
    → threads q (d ∷ xs) ≡ (if bytes_eq d q then 1 else 0) + threads q xs
unfolding threads
threads-cons d q xs = refl

pub without-threads :
    (d q : Bytes) (xs : List Bytes)
    → (threads q (without d xs) ≡ (if bytes_eq d q then threads q xs - 1 else threads q xs))
unfolding threads without
without-threads d q [] = ground arith
without-threads d q (x ∷ xs) =
    ground (arith, without-threads d q xs, bytes_eq_iff x d, bytes_eq_iff d q, bytes_eq_iff x q)

without-length :
    (d : Bytes) (xs : List Bytes) → 0 < threads d xs → suc (length (without d xs)) ≡ length xs
unfolding threads without
without-length d [] h = ground arith
without-length d (x ∷ xs) h = ground (arith, without-length d xs)

-- a thread ends
pub finish-IsSound :
    (g : Gravity) (d : Bytes) (reached : Bool)
    → 0 < threads d g.running
    → IsSound g
    → IsSound (finish g d reached)
unfolding finish
finish-IsSound g d reached h s = record {
  unique = mark-IsUnique g.asked d reached s.unique;
  single = λ q. ground (arith, without-threads d q g.running, s.single q);
  pending = λ q more. ground (
    arith,
    mark-state_of g.asked d q reached s.unique,
    without-threads d q g.running,
    bytes_eq_iff d q,
    s.single q,
    s.pending q,
  );
  slots = omega (arith, without-length d g.running h, s.slots);
}

-- a claimed domain is queued
queue-IsSound :
    (g : Gravity) (d : Bytes) (args_ok thread_ok : Bool)
    → IsSound g
    → state_of d g.asked ≡ some asked_pending
    → threads d g.running ≡ 0
    → IsSound (queue_gravity_check g d args_ok thread_ok)
unfolding queue_gravity_check
queue-IsSound g d args_ok thread_ok s p z =
    if_elim IsSound (g.permits == 0) _ _
      (λ full. record {
        unique = mark-IsUnique g.asked d false s.unique;
        single = s.single;
        pending = λ q more.
            ground (arith, mark-state_of g.asked d q false s.unique, bytes_eq_iff d q, s.pending q);
        slots = s.slots;
      })
      (λ room.
        if_elim IsSound (not args_ok) _ _ (λ _. s)
          (λ _.
            if_elim IsSound thread_ok _ _
              (λ _. record {
                unique = s.unique;
                single =
                    λ q. ground (arith, bytes_eq_iff d q, s.single q, threads-cons d q g.running);
                pending = λ q more.
                    ground (arith, bytes_eq_iff d q, s.pending q, threads-cons d q g.running);
                slots = ground (arith, s.slots);
              })
              (λ _. s)))

-- the claim in front of it
pub claim-IsSound :
    (g : Gravity) (d : Bytes) (node_ok copy_ok : Bool)
    → IsSound g
    → IsSound (record g { asked = (asked_cache_try_claim g.asked d node_ok copy_ok).0 })
claim-IsSound g d node_ok copy_ok s = record {
  unique = claim-IsUnique g.asked d node_ok copy_ok s.unique;
  single = s.single;
  pending = λ q more.
      ground (arith, claim-state_of g.asked d node_ok copy_ok q, s.pending q, bytes_eq_iff d q);
  slots = s.slots;
}

claimed_new :
    (g : Gravity) (d : Bytes) (node_ok copy_ok : Bool)
    → IsSound g
    → (asked_cache_try_claim g.asked d node_ok copy_ok).1 ≡ true
    → (state_of d (asked_cache_try_claim g.asked d node_ok copy_ok).0 ≡ some asked_pending)
      × (threads d g.running ≡ 0)
claimed_new g d node_ok copy_ok s f =
    ground (arith, claim-state_of g.asked d node_ok copy_ok d, bytes_eq_refl d, s.pending d)

pub ask-IsSound :
    (g : Gravity) (d : Bytes) (node_ok copy_ok args_ok thread_ok : Bool)
    → IsSound g
    → IsSound (ask g d node_ok copy_ok args_ok thread_ok)
unfolding ask
ask-IsSound g d node_ok copy_ok args_ok thread_ok s =
    if_elim IsSound (asked_cache_try_claim g.asked d node_ok copy_ok).1 _ _
      (λ f.
        let (p, z) = claimed_new g d node_ok copy_ok s f in
        queue-IsSound _ d args_ok thread_ok (claim-IsSound g d node_ok copy_ok s) p z)
      (λ _. claim-IsSound g d node_ok copy_ok s)
