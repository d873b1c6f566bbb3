-- ===== src/PiQuery/Encoding.antt =====
-- The escaped domain: it can be read back, and nothing of it restructures the path.
use nyet.Prelude.{
  ℕ, ◌+◌, ◌-◌, ◌*◌, ◌/◌, ◌%◌, ◌≤◌, ◌<◌, ◌≡◌, refl, sym, ap, ap₂, subst, ◌∙◌, ◌≢◌, false, [], ◌∷◌,
  arith, ltb, ◌==◌, if◌then◌else◌, if_elim, Bytes, ==_other, length, All,
}
use nyet.PiQuery.{is_escaped, encoded_size, encode, encoded_domain}
use nyet.LogField.{hex_digit}

-- a hexadecimal digit of the upper case
abbrev pub from_hex : ℕ → ℕ
from_hex c = if ltb c 58 then c - 48 else c - 55

-- what a server reads in a segment of a path
unfoldable pub percent_decode : Bytes → Bytes
percent_decode [] = []
percent_decode (c ∷ []) = c ∷ []
percent_decode (c ∷ d ∷ []) = c ∷ d ∷ []
percent_decode (c ∷ d ∷ e ∷ cs) =
    let three = percent_decode cs in
    let one = percent_decode (d ∷ e ∷ cs) in
    if c == b'%' then (from_hex d * 16 + from_hex e) ∷ three else c ∷ one

-- a byte that neither ends the segment nor starts a query or a fragment
abbrev pub IsPathByte : ℕ → Type 0
IsPathByte c = (31 < c) × (c < 127) × (c ≢ b'/') × (c ≢ b'?') × (c ≢ b'#') × (c ≢ 92)

from_hex-hex_digit : (d : ℕ) → d < 16 → from_hex (hex_digit d) ≡ d
from_hex-hex_digit d h = ground arith

from_hex-pair :
    (a b : ℕ) → a < 16 → b < 16 → from_hex (hex_digit a) * 16 + from_hex (hex_digit b) ≡ a * 16 + b
from_hex-pair a b h k = rw (from_hex-hex_digit a h, from_hex-hex_digit b k) refl

hex_pair :
    (c : ℕ) → c < 256 → from_hex (hex_digit (c / 16)) * 16 + from_hex (hex_digit (c % 16)) ≡ c
hex_pair c h = from_hex-pair (c / 16) (c % 16) (omega arith) (omega arith) ∙ omega arith

hex_digit-IsPathByte : (d : ℕ) → d < 16 → IsPathByte (hex_digit d)
hex_digit-IsPathByte d h = (
  ground arith,
  ground arith,
  (λ e. ground (arith, e)),
  (λ e. ground (arith, e)),
  (λ e. ground (arith, e)),
  (λ e. ground (arith, e)),
)

decode-plain : (c : ℕ) (cs : Bytes) → c ≢ b'%' → percent_decode (c ∷ cs) ≡ c ∷ percent_decode cs
unfolding percent_decode
decode-plain c [] h = refl
decode-plain c (d ∷ []) h = refl
decode-plain c (d ∷ e ∷ cs) h = rw (==_other c b'%' h) refl

plain-IsPathByte : (c : ℕ) → is_escaped c ≡ false → IsPathByte c × (c ≢ b'%')
plain-IsPathByte c h = (
  (
    ground (arith, h),
    ground (arith, h),
    (λ e. ground (arith, e, h)),
    (λ e. ground (arith, e, h)),
    (λ e. ground (arith, e, h)),
    (λ e. ground (arith, e, h)),
  ),
  (λ e. ground (arith, e, h)),
)

encode-step :
    (n c : ℕ) (cs : Bytes)
    → n + 4 < encoded_size
    → encode n (c ∷ cs) ≡ (
        if is_escaped c
        then b'%' ∷ hex_digit (c / 16) ∷ hex_digit (c % 16) ∷ encode (n + 3) cs
        else c ∷ encode (n + 1) cs)
unfolding encode
encode-step n c cs h = ground (arith, h)

-- the text that was escaped, and its bytes
abbrev Sound : Bytes → Bytes → Type 0
Sound cs text = (percent_decode text ≡ cs) × All IsPathByte text

escaped-Sound :
    (c : ℕ) (cs text : Bytes)
    → c < 256
    → Sound cs text
    → Sound (c ∷ cs) (b'%' ∷ hex_digit (c / 16) ∷ hex_digit (c % 16) ∷ text)
unfolding percent_decode
escaped-Sound c cs text h (e, a) = (
  ap₂ (λ x y. x ∷ y) (hex_pair c h) e,
  (
    hex_digit-percent,
    (hex_digit-IsPathByte (c / 16) (omega arith), (hex_digit-IsPathByte (c % 16) (omega arith), a)),
  ),
)
  where
    hex_digit-percent : IsPathByte b'%'
    hex_digit-percent = (
      ground arith,
      ground arith,
      (λ e. ground (arith, e)),
      (λ e. ground (arith, e)),
      (λ e. ground (arith, e)),
      (λ e. ground (arith, e)),
    )

encode-Sound :
    (n : ℕ) (cs : Bytes) → All (λ c. c < 256) cs → n + 3 * length cs < 766 → Sound cs (encode n cs)
unfolding encode percent_decode
encode-Sound n [] a h = (refl, tt)
encode-Sound n (c ∷ cs) (b, a) h =
    subst (Sound (c ∷ cs)) (sym (encode-step n c cs (omega (arith, h)))) (
      if_elim (Sound (c ∷ cs)) (is_escaped c) _ _
        (λ e.
          escaped-Sound c cs (encode (n + 3) cs) b (encode-Sound (n + 3) cs a (omega (arith, h))))
        (λ e.
          let (path, other) = plain-IsPathByte c e in
          let (d, all) = encode-Sound (n + 1) cs a (omega (arith, h)) in
          (decode-plain c (encode (n + 1) cs) other ∙ ap (λ x. c ∷ x) d, (path, all))))

-- A domain of at most 255 bytes is escaped in full: percent decoding gives it back, and no byte of the
-- escaped text is a slash, a backslash, a question mark, a hash or outside printable ASCII.
pub encoded_domain-decoded :
    (domain : Bytes)
    → All (λ c. c < 256) domain
    → length domain ≤ 255
    → (percent_decode (encoded_domain domain) ≡ domain) × All IsPathByte (encoded_domain domain)
unfolding encoded_domain
encoded_domain-decoded domain a h = encode-Sound 0 domain a (omega (arith, h))
