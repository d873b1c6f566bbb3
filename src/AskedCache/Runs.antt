-- ===== src/AskedCache/Runs.antt =====
-- Whole runs of the gravity checks: queries that ask and threads that end, in any interleaving.
use nyet.Prelude.{
  ◌<◌, ◌≡◌, refl, subst, ◌≢◌, ◌↔◌, Bool, true, false, ◌&&◌, none, some, [], arith, if◌then◌else◌,
  if_elim, Bytes, bytes_eq, bytes_eq_iff, bytes_eq_refl,
}
use nyet.AskedCache.{
  AskedState, AskedCache, asked_pending, asked_cache_try_claim, Gravity, queue_gravity_check, ask,
  finish, max_concurrent_gravity_checks, find,
}
use nyet.AskedCache.Map.{state_of, IsUnique, claim-state_of, claim-IsUnique, mark-state_of, nodes}
use nyet.AskedCache.Checks.{
  threads, IsSound, finish-IsSound, ask-IsSound, claim-IsSound, without-threads, threads-cons,
}

-- one step; the flag tells that no allocation of a query's thread and no thread's creation failed
pub data Step : Bool → Gravity → Gravity → Type 0 where
  asks :
      (g : Gravity) (d : Bytes) (node_ok copy_ok args_ok thread_ok : Bool)
      → Step (args_ok && thread_ok) g (ask g d node_ok copy_ok args_ok thread_ok)
  ends :
      (g : Gravity) (d : Bytes) (reached : Bool)
      → 0 < threads d g.running
      → Step true g (finish g d reached)

-- a run; the flag tells the same of all its steps
pub data Steps : Bool → Gravity → Gravity → Type 0 where
  stop : (g : Gravity) → Steps true g g
  more : {a b : Bool} {g g' g'' : Gravity} → Step a g g' → Steps b g' g'' → Steps (a && b) g g''

-- what `proxy_init` leaves
abbrev pub idle : Gravity
idle = record {
  asked = record { buckets = λ _. [] };
  permits = max_concurrent_gravity_checks;
  running = [];
}

idle-IsSound : IsSound idle
unfolding nodes threads
idle-IsSound = record {
  unique = λ i d. omega arith;
  single = λ d. omega arith;
  pending = λ d h. ground arith;
  slots = refl;
}

Step-IsSound : {b : Bool} {g g' : Gravity} → Step b g g' → IsSound g → IsSound g'
Step-IsSound (asks g d n c a t) s = ask-IsSound g d n c a t s
Step-IsSound (ends g d r h) s = finish-IsSound g d r h s

Steps-IsSound : {b : Bool} {g g' : Gravity} → Steps b g g' → IsSound g → IsSound g'
Steps-IsSound (stop g) s = s
Steps-IsSound (more x xs) s = Steps-IsSound xs (Step-IsSound x s)

-- From the start, over any interleaving of queries and ending threads and whatever fails, each
-- domain has at most one thread, at most eight threads run, a domain that a thread asks about is
-- pending, and no domain stands twice in the table.
pub run-IsSound : {b : Bool} {g : Gravity} → Steps b idle g → IsSound g
run-IsSound xs = Steps-IsSound xs idle-IsSound

-- a domain with a state and without a thread
abbrev pub Resting : Bytes → AskedState → Gravity → Type 0
Resting d x g = (state_of d g.asked ≡ some x) × (threads d g.running ≡ 0)

queue-same :
    (g : Gravity) (d q : Bytes) (a t : Bool) (x : AskedState)
    → IsSound g
    → q ≢ d
    → Resting q x g
    → Resting q x (queue_gravity_check g d a t)
unfolding queue_gravity_check
queue-same g d q a t x s n r =
    ground (
      arith,
      mark-state_of g.asked d q false s.unique,
      threads-cons d q g.running,
      bytes_eq_iff d q,
    )

claim-kept :
    (c : AskedCache) (d q : Bytes) (n k : Bool) (x : AskedState)
    → state_of q c ≡ some x
    → state_of q (asked_cache_try_claim c d n k).0 ≡ some x
claim-kept c d q n k x e = ground (arith, claim-state_of c d n k q, bytes_eq_iff d q)

claimed_other :
    (c : AskedCache) (d q : Bytes) (n k : Bool) (x : AskedState)
    → (asked_cache_try_claim c d n k).1 ≡ true
    → state_of q c ≡ some x
    → q ≢ d
claimed_other c d q n k x f e h =
    let known : state_of d c ≡ some x = subst (λ y. state_of y c ≡ some x) h e in
    ground (arith, claim-state_of c d n k q)

Step-Resting :
    {b : Bool} {g g' : Gravity} (q : Bytes) (x : AskedState)
    → Step b g g'
    → IsSound g
    → Resting q x g
    → Resting q x g'
unfolding ask finish
Step-Resting q x (ends g d r h) s (e, z) =
    ground
      (arith, mark-state_of g.asked d q r s.unique, without-threads d q g.running, bytes_eq_iff d q)
Step-Resting q x (asks g d n c a t) s (e, z) =
    if_elim (Resting q x) (asked_cache_try_claim g.asked d n c).1 _ _
      (λ f.
        queue-same (record g { asked = (asked_cache_try_claim g.asked d n c).0 }) d q a t x
          (claim-IsSound g d n c s) (claimed_other g.asked d q n c x f e)
          (claim-kept g.asked d q n c x e, z))
      (λ f. (claim-kept g.asked d q n c x e, z))

-- In a sound state a domain that has a state and no thread keeps both over any further run: an
-- answered domain is never asked about again, and neither is one whose thread was never started.
pub Steps-Resting :
    {b : Bool} {g g' : Gravity} (q : Bytes) (x : AskedState)
    → Steps b g g'
    → IsSound g
    → Resting q x g
    → Resting q x g'
Steps-Resting q x (stop g) s r = r
Steps-Resting q x (more y ys) s r = Steps-Resting q x ys (Step-IsSound y s) (Step-Resting q x y s r)

-- the claim of an unknown domain whose thread cannot start
ask-Resting :
    (g : Gravity) (d : Bytes) (a t : Bool)
    → state_of d g.asked ≡ none
    → threads d g.running ≡ 0
    → g.permits ≢ 0
    → (a && t) ≡ false
    → Resting d asked_pending (ask g d true true a t)
unfolding ask queue_gravity_check
ask-Resting g d a t e z p f = ground (arith, claim-state_of g.asked d true true d, bytes_eq_refl d)

-- When a permit is free, and the arguments or the thread for a new domain cannot be allocated, the
-- domain stays pending with no thread over every further run.
pub ask-stuck :
    {b : Bool} (g g' : Gravity) (d : Bytes) (a t : Bool)
    → IsSound g
    → state_of d g.asked ≡ none
    → g.permits ≢ 0
    → (a && t) ≡ false
    → Steps b (ask g d true true a t) g'
    → Resting d asked_pending g'
ask-stuck g g' d a t s e p f xs =
    Steps-Resting d asked_pending xs (ask-IsSound g d true true a t s)
      (ask-Resting g d a t e (ground (arith, s.pending d)) p f)

-- every pending domain has a thread
abbrev pub Accounted : Gravity → Type 0
Accounted g = (q : Bytes) → state_of q g.asked ≡ some asked_pending → 0 < threads q g.running

queue-Accounted :
    (g : Gravity) (A : AskedCache) (d q : Bytes) (a t : Bool)
    → Accounted g
    → IsUnique A
    → state_of d g.asked ≡ none
    → ((q : Bytes)
        → state_of q A ≡ (if bytes_eq d q then some asked_pending else state_of q g.asked))
    → (a && t) ≡ true
    → state_of q (queue_gravity_check (record g { asked = A }) d a t).asked ≡ some asked_pending
    → 0 < threads q (queue_gravity_check (record g { asked = A }) d a t).running
unfolding queue_gravity_check
queue-Accounted g A d q a t acc u new at ok p =
    ground (
      arith,
      mark-state_of A d q false u,
      threads-cons d q g.running,
      bytes_eq_iff d q,
      at q,
      acc q,
    )

claimed_new :
    (c : AskedCache) (d : Bytes) (n k : Bool)
    → (asked_cache_try_claim c d n k).1 ≡ true
    → state_of d c ≡ none
claimed_new c d n k f = ground (arith, claim-state_of c d n k d)

claimed_at :
    (c : AskedCache) (d : Bytes) (n k : Bool)
    → (asked_cache_try_claim c d n k).1 ≡ true
    → (q : Bytes)
    → state_of q (asked_cache_try_claim c d n k).0
      ≡ (if bytes_eq d q then some asked_pending else state_of q c)
claimed_at c d n k f q = ground (arith, claim-state_of c d n k q)

Step-Accounted :
    {b : Bool} {g g' : Gravity} → Step b g g' → b ≡ true → IsSound g → Accounted g → Accounted g'
unfolding ask finish
Step-Accounted (ends g d r h) e s acc q p = ground (
  arith,
  mark-state_of g.asked d q r s.unique,
  without-threads d q g.running,
  bytes_eq_iff d q,
  acc q,
)
Step-Accounted (asks g d n c a t) e s acc q p =
    if_elim (λ (h : Gravity). state_of q h.asked ≡ some asked_pending → 0 < threads q h.running)
      (asked_cache_try_claim g.asked d n c).1 _ _
      (λ f.
        queue-Accounted g (asked_cache_try_claim g.asked d n c).0 d q a t acc
          (claim-IsUnique g.asked d n c s.unique) (claimed_new g.asked d n c f)
          (claimed_at g.asked d n c f) e)
      (λ f r. ground (arith, claim-state_of g.asked d n c q, bytes_eq_iff d q, acc q)) p

and_both : (a b : Bool) → (a && b) ≡ true → (a ≡ true) × (b ≡ true)
and_both a b h = ground arith

Steps-Accounted :
    {b : Bool} {g g' : Gravity} → Steps b g g' → b ≡ true → IsSound g → Accounted g → Accounted g'
Steps-Accounted (stop g) e s acc = acc
Steps-Accounted (more {a = a} {b = b} x xs) e s acc =
    let (e1, e2) = and_both a b e in
    Steps-Accounted xs e2 (Step-IsSound x s) (Step-Accounted x e1 s acc)

-- From the start, over any interleaving in which no allocation of a thread's arguments and no
-- creation of a thread fails, a domain is pending exactly while one thread asks about it.
pub run-Accounted :
    {g : Gravity} (d : Bytes)
    → Steps true idle g
    → (state_of d g.asked ≡ some asked_pending) ↔ (threads d g.running ≡ 1)
unfolding find
run-Accounted {g} d xs =
    let s = run-IsSound xs in
    let acc = Steps-Accounted xs refl idle-IsSound (λ q p. ground arith) in
    (λ p. omega (arith, acc d p, s.single d), λ p. s.pending d (omega arith))
