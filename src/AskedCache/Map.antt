-- ===== src/AskedCache/Map.antt =====
-- The chained table as a map from domains to states.
use nyet.Prelude.{
  ℕ, ◌+◌, ◌≤◌, ◌≡◌, refl, sym, ap, subst, ◌∙◌, ◌≢◌, ◌↔◌, inl, inr, Bool, true, false, ◌&&◌, Option,
  none, some, List, [], ◌∷◌, arith, ◌==◌, if◌then◌else◌, if_elim, Bool-cases, Option-cases, Bytes,
  bytes_eq, bytes_eq_iff, bytes_eq_refl, ==_same, bytes_ne,
}
use nyet.AskedCache.{
  AskedState, AskedNode, AskedCache, asked_pending, asked_done, find, mark, bucket, Bytes, Bool,
  List, Option, ◌∷◌, none, some, false, asked_cache_mark_done, asked_cache_try_claim, put,
}

abbrev pub state_of : Bytes → AskedCache → Option AskedState
state_of d c = find d (c.buckets (bucket d))

-- how many nodes of a chain carry the domain
unfoldable pub nodes : Bytes → List AskedNode → ℕ
nodes d [] = 0
nodes d (n ∷ ns) = (if bytes_eq n.domain d then 1 else 0) + nodes d ns

-- no chain has a domain twice
abbrev pub IsUnique : AskedCache → Type 0
IsUnique c = (i : ℕ) (d : Bytes) → nodes d (c.buckets i) ≤ 1

-- what a claim and a report do to the state of the domain
abbrev pub fires : Bool → Option AskedState → Bool
fires ok none = ok
fires ok (some s) = false

abbrev pub pend : Bool → Option AskedState → Option AskedState
pend ok none = if ok then some asked_pending else none
pend ok (some s) = some s

abbrev pub settle : Bool → Option AskedState → Option AskedState
settle succeeded none = none
settle succeeded (some s) = if succeeded then some asked_done else none

find-none : (d : Bytes) (ns : List AskedNode) → (find d ns ≡ none) ↔ (nodes d ns ≡ 0)
unfolding find nodes
find-none d [] = ground arith
find-none d (n ∷ ns) = ground (arith, find-none d ns)

-- both operations leave each domain at most once in its chain
mark-nodes : (d q : Bytes) (s : Bool) (ns : List AskedNode) → nodes q (mark d s ns) ≤ nodes q ns
unfolding mark nodes
mark-nodes d q s [] = omega arith
mark-nodes d q s (n ∷ ns) = ground (arith, mark-nodes d q s ns)

mark-find :
    (d : Bytes) (s : Bool) (ns : List AskedNode)
    → nodes d ns ≤ 1
    → find d (mark d s ns) ≡ settle s (find d ns)
unfolding mark nodes find
mark-find d s [] h = refl
mark-find d s (n ∷ ns) h = ground (arith, mark-find d s ns, find-none d ns)

mark-find_ne :
    (d q : Bytes) (s : Bool) (ns : List AskedNode) → q ≢ d → find q (mark d s ns) ≡ find q ns
unfolding mark find
mark-find_ne d q s [] h = refl
mark-find_ne d q s (n ∷ ns) h =
    ground (arith, bytes_eq_iff n.domain d, bytes_eq_iff n.domain q, mark-find_ne d q s ns h)

module _ (c : AskedCache) (d : Bytes) (ns : List AskedNode) where
  put_self : state_of d (put c (bucket d) ns) ≡ find d ns
  put_self = rw (==_same (bucket d) (bucket d) refl) refl

  put_ne :
      (q : Bytes)
      → find q ns ≡ find q (c.buckets (bucket d))
      → state_of q (put c (bucket d) ns) ≡ state_of q c
  put_ne q h = elim (Bool-cases (bucket d == bucket q)) [
    | inl same ↦ rw same (h ∙ ap (λ i. find q (c.buckets i)) (ground arith))
    | inr other ↦ rw other refl
  ]

  put-IsUnique : IsUnique c → ((q : Bytes) → nodes q ns ≤ 1) → IsUnique (put c (bucket d) ns)
  put-IsUnique u h i q =
      if_elim (λ xs. nodes q xs ≤ 1) (bucket d == i) ns (c.buckets i) (λ _. h q) (λ _. u i q)

-- A statement about `q` and `d` from one where they are equal and one where they are not.
pub by_name {ℓ} :
    (P : Bytes → Type ℓ) (d : Bytes) → P d → ((q : Bytes) → q ≢ d → P q) → (q : Bytes) → P q
by_name P d same other q = elim (Bool-cases (bytes_eq q d)) [
  | inl e ↦ subst P (sym ((bytes_eq_iff q d).0 e)) same
  | inr e ↦ other q (bytes_ne q d e)
]

bytes_eq_ne : (d q : Bytes) → q ≢ d → bytes_eq d q ≡ false
bytes_eq_ne d q n = ground (arith, bytes_eq_iff d q)

pub mark-state_of :
    (c : AskedCache) (d q : Bytes) (s : Bool)
    → IsUnique c
    → state_of q (asked_cache_mark_done c d s)
      ≡ (if bytes_eq d q then settle s (state_of d c) else state_of q c)
unfolding asked_cache_mark_done
mark-state_of c d q s u =
    by_name
      (λ q.
        state_of q (asked_cache_mark_done c d s)
        ≡ (if bytes_eq d q then settle s (state_of d c) else state_of q c))
      d
      (put_self c d (mark d s (c.buckets (bucket d)))
        ∙ mark-find d s (c.buckets (bucket d)) (u (bucket d) d)
        ∙ rw (bytes_eq_refl d) refl)
      (λ q n.
        put_ne c d (mark d s (c.buckets (bucket d))) q (mark-find_ne d q s (c.buckets (bucket d)) n)
        ∙ rw (bytes_eq_ne d q n) refl)
      q

pub mark-IsUnique :
    (c : AskedCache) (d : Bytes) (s : Bool) → IsUnique c → IsUnique (asked_cache_mark_done c d s)
unfolding asked_cache_mark_done
mark-IsUnique c d s u =
    put-IsUnique c d (mark d s (c.buckets (bucket d))) u
      (λ q. omega (arith, mark-nodes d q s (c.buckets (bucket d)), u (bucket d) q))

module _ (c : AskedCache) (d : Bytes) (node_ok copy_ok : Bool) where
  abbrev grown : List AskedNode
  grown = record { domain = d; state = asked_pending } ∷ c.buckets (bucket d)

  claim-some :
      (x : AskedState)
      → state_of d c ≡ some x
      → asked_cache_try_claim c d node_ok copy_ok ≡ (c, false)
  unfolding asked_cache_try_claim
  claim-some x e = ground arith

  claim-none :
      state_of d c ≡ none
      → asked_cache_try_claim c d node_ok copy_ok
        ≡ (if node_ok && copy_ok then (put c (bucket d) grown, true) else (c, false))
  unfolding asked_cache_try_claim
  claim-none e = ground arith

  grown-find_ne : (q : Bytes) → q ≢ d → find q grown ≡ find q (c.buckets (bucket d))
  unfolding find
  grown-find_ne q n = rw (bytes_eq_ne d q n) refl

  grown-find : find d grown ≡ some asked_pending
  unfolding find
  grown-find = rw (bytes_eq_refl d) refl

  grown-nodes : state_of d c ≡ none → IsUnique c → (q : Bytes) → nodes q grown ≤ 1
  unfolding nodes
  grown-nodes e u q =
      ground (arith, bytes_eq_iff d q, (find-none d (c.buckets (bucket d))).0 e, u (bucket d) q)

  unchanged :
      (o : Option AskedState)
      → state_of d c ≡ o
      → (q : Bytes) → state_of q c ≡ (if bytes_eq d q then o else state_of q c)
  unchanged o e =
      by_name (λ q. state_of q c ≡ (if bytes_eq d q then o else state_of q c)) d
        (e ∙ rw (bytes_eq_refl d) refl) (λ q n. rw (bytes_eq_ne d q n) refl)

  -- A claim succeeds exactly when the domain is unknown and both allocations do, and it then
  -- records the domain as pending; nothing else of the map changes.
  pub claim-state_of :
      (q : Bytes)
      → ((asked_cache_try_claim c d node_ok copy_ok).1 ≡ fires (node_ok && copy_ok) (state_of d c))
        × (state_of q (asked_cache_try_claim c d node_ok copy_ok).0
            ≡ (if bytes_eq d q then pend (node_ok && copy_ok) (state_of d c) else state_of q c))
  claim-state_of q = elim (Option-cases (state_of d c)) [
    | inr (x, e) ↦ rw (claim-some x e, e) (refl, unchanged (some x) e q)
    | inl e ↦ elim (Bool-cases (node_ok && copy_ok)) [
      | inl ok ↦
          rw (claim-none e, e, ok)
            (
              refl,
              by_name
                  (λ q.
                    state_of q (put c (bucket d) grown)
                    ≡ (if bytes_eq d q then some asked_pending else state_of q c))
                  d (put_self c d grown ∙ grown-find ∙ rw (bytes_eq_refl d) refl)
                  (λ q n. put_ne c d grown q (grown-find_ne q n) ∙ rw (bytes_eq_ne d q n) refl) q,
            )
      | inr bad ↦ rw (claim-none e, e, bad) (refl, unchanged none e q)
    ]
  ]

  pub claim-IsUnique : IsUnique c → IsUnique (asked_cache_try_claim c d node_ok copy_ok).0
  claim-IsUnique u = elim (Option-cases (state_of d c)) [
    | inr (x, e) ↦ rw (claim-some x e) u
    | inl e ↦ rw (claim-none e) (
        if_elim (λ (r : AskedCache × Bool). IsUnique r.0) (node_ok && copy_ok)
          (put c (bucket d) grown, true) (c, false)
          (λ _. put-IsUnique c d grown u (grown-nodes e u)) (λ _. u))
  ]
