-- ===== src/AnswerCache/Invariant.antt =====
-- The table as a partial map: a key stands in one slot at most, and in its window.
use nyet.Prelude.{
  ℕ, zero, suc, ◌+◌, ◌≤◌, ◌<◌, ◌≡◌, refl, sym, ap, ◌∙◌, Bool, true, false, List, [], ◌∷◌, arith,
  if◌then◌else◌, Bytes, length, set, get_or, length-set,
}
use nyet.Prelude.Words.{u64_mod, inc64, dec64}
use nyet.AnswerCache.{Slot, vacant, is_match, probes}
use nyet.AnswerCache.Fresh.{Among}

unfoldable pub live : List Slot → ℕ
live [] = 0
live (s ∷ ss) = (if s.valid then 1 else 0) + live ss

abbrev pub HasKey : Bytes → ℕ → List Slot → ℕ → Type 0
HasKey d q es i = is_match d q (get_or es i vacant) ≡ true

pub record IsMap (es : List Slot) (capacity : ℕ) (count : ℕ) : Type 0 where
  pub width : length es ≡ capacity
  pub located : (d : Bytes) (q i : ℕ) → HasKey d q es i → Among i (probes d q capacity)
  pub unique : (d : Bytes) (q i j : ℕ) → HasKey d q es i → HasKey d q es j → i ≡ j
  pub counted : count ≡ live es

pub live-le : (es : List Slot) → live es ≤ length es
unfolding live
live-le [] = omega arith
live-le (s ∷ ss) = ground (arith, live-le ss)

abbrev pub bit : Bool → ℕ
bit b = if b then 1 else 0

pub live-set :
    (es : List Slot) (i : ℕ) (v : Slot)
    → i < length es
    → live (set es i v) + bit (get_or es i vacant).valid ≡ live es + bit v.valid
unfolding live
live-set [] i v h = absurd (omega (arith, h))
live-set (s ∷ ss) zero v h = omega arith
live-set (s ∷ ss) (suc i) v h = omega (arith, live-set ss i v (omega (arith, h)))

valid_lt : (es : List Slot) (i : ℕ) → (get_or es i vacant).valid ≡ true → i < length es
valid_lt [] i h = cc
valid_lt (s ∷ ss) zero h = omega arith
valid_lt (s ∷ ss) (suc i) h = omega (arith, valid_lt ss i h)

pub is_match-vacant : (d : Bytes) (q : ℕ) → is_match d q vacant ≡ false
unfolding is_match
is_match-vacant d q = refl

-- a write of a slot without a key of its own leaves no new key
pub HasKey-set :
    (d : Bytes) (q : ℕ) (es : List Slot) (i j : ℕ) (v : Slot)
    → (is_match d q v ≡ true → HasKey d q es i)
    → HasKey d q (set es i v) j
    → HasKey d q es j
HasKey-set d q [] i j v k h = h
HasKey-set d q (s ∷ ss) zero zero v k h = k h
HasKey-set d q (s ∷ ss) zero (suc j) v k h = h
HasKey-set d q (s ∷ ss) (suc i) zero v k h = h
HasKey-set d q (s ∷ ss) (suc i) (suc j) v k h = HasKey-set d q ss i j v k h

-- such a write keeps the map, up to the count
set-IsMap :
    (es : List Slot) (capacity count count' i : ℕ) (v : Slot)
    → ((d : Bytes) (q : ℕ) → is_match d q v ≡ true → HasKey d q es i)
    → count' ≡ live (set es i v)
    → IsMap es capacity count
    → IsMap (set es i v) capacity count'
set-IsMap es capacity count count' i v k c m = record {
  width = length-set es i v ∙ m.width;
  located = λ d q j h. m.located d q j (HasKey-set d q es i j v (k d q) h);
  unique = λ d q j l h h'.
      m.unique d q j l (HasKey-set d q es i j v (k d q) h) (HasKey-set d q es i l v (k d q) h');
  counted = c;
}

pub dec64_lem : (a b m : ℕ) → m < u64_mod → a ≤ m → b + 1 ≡ a → dec64 a ≡ b
dec64_lem a b m w l e = ground (arith, e)

pub inc64_lem : (a b m : ℕ) → m < u64_mod → b ≤ m → a + 1 ≡ b → inc64 a ≡ b
inc64_lem a b m w l e = ground (arith, e)

-- a live slot that is made invalid
pub dropped-IsMap :
    (es : List Slot) (capacity count i : ℕ) (v : Slot)
    → capacity < u64_mod
    → (get_or es i vacant).valid ≡ true
    → v.valid ≡ false
    → ((d : Bytes) (q : ℕ) → is_match d q v ≡ false)
    → IsMap es capacity count
    → IsMap (set es i v) capacity (dec64 count)
dropped-IsMap es capacity count i v w l f k m =
    let less : live (set es i v) + 1 ≡ live es =
      ap (λ b. live (set es i v) + bit b) (sym l)
      ∙ live-set es i v (valid_lt es i l)
      ∙ ap (λ b. live es + bit b) f
      ∙ omega arith in
    set-IsMap es capacity count (dec64 count) i v (λ d q h. absurd (ground (arith, k d q, h)))
      (dec64_lem count (live (set es i v)) capacity w
        (omega (arith, live-le es, m.width, m.counted)) (less ∙ sym m.counted))
      m

pub vacated-IsMap :
    (es : List Slot) (capacity count i : ℕ)
    → capacity < u64_mod
    → (get_or es i vacant).valid ≡ true
    → IsMap es capacity count
    → IsMap (set es i vacant) capacity (dec64 count)
vacated-IsMap es capacity count i w l m =
    dropped-IsMap es capacity count i vacant w l refl is_match-vacant m

pub equal :
    (es : List Slot) (i : ℕ) (v : Slot)
    → (get_or es i vacant).valid ≡ true
    → v.valid ≡ true
    → live es ≡ live (set es i v)
equal es i v l f =
    let a = live-set es i v (valid_lt es i l) in
    let b : live (set es i v) + 1 ≡ live es + 1 =
      ap (λ b. live (set es i v) + bit b) (sym l) ∙ a ∙ ap (λ b. live es + bit b) f in
    omega (arith, b)

-- a slot that keeps its key and stays live
pub kept-IsMap :
    (es : List Slot) (capacity count i : ℕ) (v : Slot)
    → (get_or es i vacant).valid ≡ true
    → v.valid ≡ true
    → ((d : Bytes) (q : ℕ) → is_match d q v ≡ is_match d q (get_or es i vacant))
    → IsMap es capacity count
    → IsMap (set es i v) capacity count
kept-IsMap es capacity count i v l f k m =
    set-IsMap es capacity count count i v (λ d q h. sym (k d q) ∙ h) (m.counted ∙ equal es i v l f)
      m
