-- ===== src/KeyFile/Utf8/Encoding.antt =====
-- The check against the encoding of Unicode scalar values (RFC 3629).
use remmina_krunner.Base.{
  ℕ, ◌+◌, ◌*◌, ◌/◌, ◌%◌, ◌≤◌, ◌<◌, Text, List, [], ◌∷◌, ◌++◌, if◌then◌else◌, ltb, ◌≡◌, ◌⊎◌, arith,
}

-- The code points that UTF-8 encodes, but U+0000.
pub record IsScalar (c : ℕ) : Type 0 where
  pub nonzero : 0 < c
  pub in_range : c < 0x110000
  pub no_surrogate : (c < 0xD800) ⊎ (0xE000 ≤ c)

-- The bytes of one code point.
unfoldable pub encode : ℕ → Text
encode c =
    if ltb c 0x80
    then c ∷ []
    else if ltb c 0x800
    then (0xC0 + c / 64) ∷ (0x80 + c % 64) ∷ []
    else if ltb c 0x10000
    then (0xE0 + c / 4096) ∷ (0x80 + c / 64 % 64) ∷ (0x80 + c % 64) ∷ []
    else (0xF0 + c / 262144) ∷ (0x80 + c / 4096 % 64) ∷ (0x80 + c / 64 % 64) ∷ (0x80 + c % 64) ∷ []

abbrev pub encode_all : List ℕ → Text
encode_all [] = []
encode_all (c ∷ cs) = encode c ++ encode_all cs

-- The codes of two, three and four bytes, from the digits that their bytes carry.
pub encode_2 :
    (c x y : ℕ) → c ≡ x * 64 + y → 2 ≤ x → x < 32 → y < 64 → encode c ≡ (0xC0 + x) ∷ (0x80 + y) ∷ []
unfolding encode
encode_2 c x y e p q r =
    let u : c / 64 ≡ x = omega arith in let v : c % 64 ≡ y = omega arith in ground arith

pub encode_3 :
    (c x y z : ℕ)
    → c ≡ x * 4096 + y * 64 + z
    → 0x800 ≤ c
    → x < 16
    → y < 64
    → z < 64
    → encode c ≡ (0xE0 + x) ∷ (0x80 + y) ∷ (0x80 + z) ∷ []
unfolding encode
encode_3 c x y z e p q r s =
    let u : c / 4096 ≡ x = omega arith in
    let v : c / 64 % 64 ≡ y = omega arith in let w : c % 64 ≡ z = omega arith in ground arith

pub encode_4 :
    (c x y z t : ℕ)
    → c ≡ x * 262144 + y * 4096 + z * 64 + t
    → 0x10000 ≤ c
    → y < 64
    → z < 64
    → t < 64
    → encode c ≡ (0xF0 + x) ∷ (0x80 + y) ∷ (0x80 + z) ∷ (0x80 + t) ∷ []
unfolding encode
encode_4 c x y z t e p q r s =
    let u : c / 262144 ≡ x = omega arith in
    let v : c / 4096 % 64 ≡ y = omega arith in
    let w : c / 64 % 64 ≡ z = omega arith in let o : c % 64 ≡ t = omega arith in ground arith
