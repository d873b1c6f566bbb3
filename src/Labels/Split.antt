-- ===== src/Labels/Split.antt =====
-- `split_domain_rtl`: the labels of a subdomain extend the domain's, and letter case is lost.
use nyet.Prelude.{
  ℕ, zero, suc, ◌-◌, ◌≤◌, ◌<◌, ◌≡◌, refl, ap, ap₂, ◌∙◌, inl, inr, some, List, [], ◌∷◌, ◌++◌, map,
  arith, ◌==◌, if_elim, Bool-cases, Bytes, length, length-append,
}
use nyet.Labels.{dot, lower, close, walk, reversed, split_domain_rtl}

lower-lower : (c : ℕ) → lower (lower c) ≡ lower c
lower-lower c = ground arith

map-lower : (d : Bytes) → map lower (map lower d) ≡ map lower d
map-lower [] = refl
map-lower (c ∷ cs) = ap₂ ◌∷◌ (lower-lower c) (map-lower cs)

length-lower : (d : Bytes) → length (map lower d) ≡ length d
length-lower [] = refl
length-lower (c ∷ cs) = ap suc (length-lower cs)

-- A domain and its lower-case form have the same labels.
pub split_domain_rtl-lower : (d : Bytes) → split_domain_rtl (map lower d) ≡ split_domain_rtl d
unfolding split_domain_rtl
split_domain_rtl-lower [] = refl
split_domain_rtl-lower (c ∷ cs) = rw (map-lower (c ∷ cs), length-lower cs) refl

length-close :
    (label : Bytes) (skip next : List Bytes) (n : ℕ)
    → length skip ≤ suc n
    → length next ≤ n
    → length (close label skip next) ≤ suc n
length-close [] skip next n a b = a
length-close (c ∷ cs) skip next n a b = omega arith

-- never more labels than there is room for
pub length-walk : (room : ℕ) (label rest : Bytes) → length (walk room label rest) ≤ room
unfolding walk
length-walk zero label rest = omega arith
length-walk (suc room) label [] = length-close label [] [] room (omega arith) (omega arith)
length-walk (suc room) label (c ∷ cs) =
    if_elim (λ (r : List Bytes). length r ≤ suc room) (c == dot) _ _
      (λ h. length-close label _ _ room (length-walk (suc room) [] cs) (length-walk room [] cs))
      (λ h. length-walk (suc room) (c ∷ label) cs)

minus_zero : (n : ℕ) → n ≡ n - 0
minus_zero n = omega arith

minus_suc : (a b : ℕ) → a - b ≡ suc a - suc b
minus_suc a b = omega arith

close-append :
    (label ys : Bytes) (room : ℕ) (skip next : List Bytes)
    → close label
        (skip ++ walk (suc room - length skip) [] ys)
        (next ++ walk (room - length next) [] ys)
      ≡ close label skip next ++ walk (suc room - length (close label skip next)) [] ys
close-append [] ys room skip next = refl
close-append (c ∷ cs) ys room skip next =
    ap (λ r. (c ∷ cs) ∷ (next ++ walk r [] ys)) (minus_suc room (length next))

close-last :
    (label ys : Bytes) (room : ℕ)
    → close label (walk (suc room) [] ys) (walk room [] ys)
      ≡ close label [] [] ++ walk (suc room - length (close label [] [])) [] ys
close-last [] ys room = ap (λ r. walk r [] ys) (minus_zero (suc room))
close-last (c ∷ cs) ys room = ap (λ r. (c ∷ cs) ∷ walk r [] ys) (minus_zero room ∙ minus_suc room 0)

-- the labels to the left of a dot come after those to its right
walk-append :
    (room : ℕ) (label xs ys : Bytes)
    → walk room label (xs ++ (dot ∷ ys))
      ≡ walk room label xs ++ walk (room - length (walk room label xs)) [] ys
unfolding walk
walk-append zero label xs ys = refl
walk-append (suc room) label [] ys = close-last label ys room
walk-append (suc room) label (c ∷ cs) ys = elim (Bool-cases (c == dot)) [
  | inl h ↦
      rw (h, walk-append (suc room) [] cs ys, walk-append room [] cs ys)
        (close-append label ys room (walk (suc room) [] cs) (walk room [] cs))
  | inr h ↦ rw h (walk-append (suc room) (c ∷ label) cs ys)
]

reversed-append : (a b done : Bytes) → reversed (a ++ b) done ≡ reversed b (reversed a done)
reversed-append [] b done = refl
reversed-append (x ∷ a) b done = reversed-append a b (x ∷ done)

reversed_acc : (a x y : Bytes) → reversed a (x ++ y) ≡ reversed a x ++ y
reversed_acc [] x y = refl
reversed_acc (c ∷ a) x y = reversed_acc a (c ∷ x) y

map-append : (a b : Bytes) → map lower (a ++ b) ≡ map lower a ++ map lower b
map-append [] b = refl
map-append (c ∷ a) b = ap (λ t. lower c ∷ t) (map-append a b)

-- the buffer of a subdomain, read from its end
reversed-sub :
    (sub d : Bytes)
    → reversed (map lower (sub ++ (dot ∷ d))) []
      ≡ reversed (map lower d) [] ++ (dot ∷ reversed (map lower sub) [])
reversed-sub sub d =
    ap (λ t. reversed t []) (map-append sub (dot ∷ d))
    ∙ reversed-append (map lower sub) (dot ∷ map lower d) []
    ∙ reversed_acc (map lower d) [] (dot ∷ reversed (map lower sub) [])

short :
    (d : Bytes) (ls : List Bytes)
    → split_domain_rtl d ≡ some ls
    → walk 128 [] (reversed (map lower d) []) ≡ ls
unfolding split_domain_rtl
short [] ls h = ground arith
short (c ∷ cs) ls h = ground arith

enough :
    (d : Bytes)
    → 0 < length d
    → length d < 512
    → split_domain_rtl d ≡ some (walk 128 [] (reversed (map lower d) []))
unfolding split_domain_rtl
enough [] p h = ground arith
enough (c ∷ cs) p h = ground arith

-- The labels of a subdomain that fits the buffer begin with those of the domain.
pub split_domain_rtl-sub :
    (sub d : Bytes) (ls : List Bytes)
    → length (sub ++ (dot ∷ d)) < 512
    → split_domain_rtl d ≡ some ls
    → (more : List Bytes) × (split_domain_rtl (sub ++ (dot ∷ d)) ≡ some (ls ++ more))
split_domain_rtl-sub sub d ls h e =
    let rest = walk (128 - length ls) [] (reversed (map lower sub) []) in
    (
      rest,
      enough (sub ++ (dot ∷ d)) (omega (arith, length-append sub (dot ∷ d))) h
          ∙ ap some (
              ap (walk 128 []) (reversed-sub sub d)
              ∙ walk-append 128 [] (reversed (map lower d) []) (reversed (map lower sub) [])
              ∙ ap (λ t. t ++ walk (128 - length t) [] (reversed (map lower sub) []))
                  (short d ls e)),
    )
