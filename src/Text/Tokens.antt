-- ===== src/Text/Tokens.antt =====
-- strtok_s and fgets on texts that are put together from their pieces.
use nyet.Prelude.{
  ℕ, zero, suc, ◌<◌, ◌≡◌, refl, Bool, true, false, some, [], ◌∷◌, ◌++◌, arith, ◌==◌, Bytes, length,
  All,
}
use nyet.Text.{until, token, fgets}

-- free of a kind of byte
abbrev pub Lacks : (ℕ → Bool) → Bytes → Type 0
Lacks d = All (λ c. d c ≡ false)

until-append :
    (d : ℕ → Bool) (xs : Bytes) (t : ℕ) (rest : Bytes)
    → Lacks d xs
    → d t ≡ true
    → until d (xs ++ t ∷ rest) ≡ (xs, rest)
unfolding until
until-append d [] t rest a h = rw h refl
until-append d (x ∷ xs) t rest a h = rw (a.0, until-append d xs t rest a.1 h) refl

-- a piece that is not empty, up to a delimiter
pub token-append :
    (d : ℕ → Bool) (x : ℕ) (xs : Bytes) (t : ℕ) (rest : Bytes)
    → Lacks d (x ∷ xs)
    → d t ≡ true
    → token d ((x ∷ xs) ++ t ∷ rest) ≡ (some (x ∷ xs), rest)
unfolding token
token-append d x xs t rest a h = rw (a.0, until-append d xs t rest a.1 h) refl

-- a line and its line feed, shorter than the buffer
pub fgets-append :
    (n : ℕ) (xs rest : Bytes)
    → Lacks (λ c. c == b'\n') xs
    → length xs < n
    → fgets n (xs ++ b'\n' ∷ rest) ≡ (xs ++ b'\n' ∷ [], rest)
unfolding fgets
fgets-append zero xs rest a h = absurd (omega (arith, h))
fgets-append (suc n) [] rest a h = refl
fgets-append (suc n) (x ∷ xs) rest a h =
    rw (a.0, fgets-append n xs rest a.1 (omega (arith, h))) refl

-- the same for a piece that is given whole
pub token-piece :
    (d : ℕ → Bool) (xs : Bytes) (t : ℕ) (rest : Bytes)
    → 0 < length xs
    → Lacks d xs
    → d t ≡ true
    → token d (xs ++ t ∷ rest) ≡ (some xs, rest)
token-piece d [] t rest n a h = absurd (omega (arith, n))
token-piece d (x ∷ xs) t rest n a h = token-append d x xs t rest a h
