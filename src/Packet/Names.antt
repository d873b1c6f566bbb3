-- ===== src/Packet/Names.antt =====
-- `skip_dns_name` and the numbers of a packet.
use nyet.Prelude.{
  ℕ, zero, suc, ◌+◌, ◌*◌, ◌/◌, ◌%◌, ◌^◌, ◌<◌, ◌≡◌, refl, ap, ◌∙◌, ◌≢◌, some, List, [], ◌∷◌, ◌++◌,
  arith, Bytes, length, All, drop, drop_append_exact,
}
use nyet.Packet.{skip_dns_name, word16}
use nyet.Packet.Query.{encode, append_assoc}

-- a length byte that is not taken for a pointer
abbrev pub IsShort : Bytes → Type 0
IsShort l = (0 < length l) × (length l < 192)

skip-step :
    (fuel len : ℕ) (p : Bytes)
    → len ≢ 0
    → len < 192
    → skip_dns_name (suc fuel) (len ∷ p) ≡ skip_dns_name fuel (drop len p)
unfolding skip_dns_name
skip-step fuel len p a b = ground arith

-- a name is skipped whole, to the bytes that follow it
pub skip-encode :
    (fuel : ℕ) (ls : List Bytes) (tail : Bytes)
    → All IsShort ls
    → length ls < fuel
    → skip_dns_name fuel (encode ls ++ tail) ≡ some tail
unfolding skip_dns_name encode
skip-encode zero ls tail a h = ground arith
skip-encode (suc fuel) [] tail a h = refl
skip-encode (suc fuel) (l ∷ ls) tail a h =
    ap (λ t. skip_dns_name (suc fuel) (length l ∷ t)) (append_assoc l (encode ls) tail)
    ∙ skip-step fuel (length l) (l ++ (encode ls ++ tail)) (omega (arith, a.0.0)) a.0.1
    ∙ ap (skip_dns_name fuel) (drop_append_exact l (encode ls ++ tail))
    ∙ skip-encode fuel ls tail a.1 (omega arith)

pub word16-be16 : (n : ℕ) → n < 2 ^ 16 → word16 (n / 2 ^ 8 % 256) (n % 256) ≡ n
word16-be16 n h = omega arith

pub word32-be32 :
    (n : ℕ)
    → n < 2 ^ 32
    → ((n / 2 ^ 24 % 256 * 256 + n / 2 ^ 16 % 256) * 256 + n / 2 ^ 8 % 256) * 256 + n % 256 ≡ n
word32-be32 n h = omega arith
