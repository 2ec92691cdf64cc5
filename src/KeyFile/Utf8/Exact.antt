-- ===== src/KeyFile/Utf8/Exact.antt =====
-- The UTF-8 check accepts every encoding, and nothing else.
use remmina_krunner.Base.{
  ℕ, zero, suc, ◌+◌, ◌/◌, ◌%◌, ◌≤◌, ◌<◌, Text, List, [], ◌∷◌, ◌++◌, true, ltb, length,
  length-append, ◌≡◌, ◌↔◌, inl, inr, refl, arith, All, Bool-cases,
}
use remmina_krunner.KeyFile.Utf8.{valid_from, is_valid_utf8}
use remmina_krunner.KeyFile.Utf8.Encoding.{IsScalar, encode, encode_all}
use remmina_krunner.KeyFile.Utf8.Sound.{valid_codes}

-- The loop passes over a well-formed code of each length.
module _ (fuel : ℕ) (tail : Text) (h : valid_from fuel tail ≡ true) where
  pass_1 : (lead : ℕ) → 0 < lead → lead ≤ 0x7F → valid_from (suc fuel) (lead ∷ tail) ≡ true
  unfolding valid_from
  pass_1 lead p q = ground arith

  pass_2 :
      (lead a : ℕ)
      → 0xC2 ≤ lead
      → lead ≤ 0xDF
      → 0x80 ≤ a
      → a ≤ 0xBF
      → valid_from (suc fuel) (lead ∷ a ∷ tail) ≡ true
  unfolding valid_from
  pass_2 lead a p q r s = ground arith

  pass_3 :
      (lead a b : ℕ)
      → 0xE0 ≤ lead
      → lead ≤ 0xEF
      → 0x80 ≤ a
      → a ≤ 0xBF
      → 0x80 ≤ b
      → b ≤ 0xBF
      → (lead ≡ 0xE0 → 0xA0 ≤ a)
      → (lead ≡ 0xED → a ≤ 0x9F)
      → valid_from (suc fuel) (lead ∷ a ∷ b ∷ tail) ≡ true
  unfolding valid_from
  pass_3 lead a b p q r s t u low high = ground arith

  pass_4 :
      (lead a b d : ℕ)
      → 0xF0 ≤ lead
      → lead ≤ 0xF4
      → 0x80 ≤ a
      → a ≤ 0xBF
      → 0x80 ≤ b
      → b ≤ 0xBF
      → 0x80 ≤ d
      → d ≤ 0xBF
      → (lead ≡ 0xF0 → 0x90 ≤ a)
      → (lead ≡ 0xF4 → a ≤ 0x8F)
      → valid_from (suc fuel) (lead ∷ a ∷ b ∷ d ∷ tail) ≡ true
  unfolding valid_from
  pass_4 lead a b d p q r s t u v w low high = ground arith

  pass_code : (c : ℕ) → IsScalar c → valid_from (suc fuel) (encode c ++ tail) ≡ true
  unfolding encode
  pass_code c s = elim (Bool-cases (ltb c 0x80)) [
    | inl e ↦ rw e (pass_1 c (omega arith) (ground arith))
    | inr e ↦ elim (Bool-cases (ltb c 0x800)) [
      | inl f ↦
          rw (e, f)
            (pass_2 (0xC0 + c / 64) (0x80 + c % 64) (ground arith) (ground arith) (omega arith)
              (omega arith))
      | inr f ↦ elim (Bool-cases (ltb c 0x10000)) [
        | inl g ↦
            rw (e, f, g)
              (pass_3 (0xE0 + c / 4096) (0x80 + c / 64 % 64) (0x80 + c % 64) (omega arith)
                (ground arith) (omega arith) (omega arith) (omega arith) (omega arith)
                (λ z. ground arith) (λ z. ground arith))
        | inr g ↦
            rw (e, f, g)
              (pass_4 (0xF0 + c / 262144) (0x80 + c / 4096 % 64) (0x80 + c / 64 % 64)
                (0x80 + c % 64) (omega arith) (omega arith) (omega arith) (omega arith)
                (omega arith) (omega arith) (omega arith) (omega arith) (λ z. ground arith)
                (λ z. omega arith))
      ]
    ]
  ]

length-encode_pos : (c : ℕ) → 0 < length (encode c)
unfolding encode
length-encode_pos c = ground arith

codes_valid :
    (fuel : ℕ) (cs : List ℕ)
    → All IsScalar cs
    → length (encode_all cs) < fuel
    → valid_from fuel (encode_all cs) ≡ true
codes_valid zero cs h l = absurd (omega arith)
codes_valid (suc fuel) [] h l = unfold valid_from in refl
codes_valid (suc fuel) (c ∷ cs) h l =
    pass_code fuel (encode_all cs)
      (codes_valid fuel cs h.1
        (omega (arith, length-append (encode c) (encode_all cs), length-encode_pos c)))
      c h.0

-- The check accepts exactly the texts that encode Unicode scalar values other than U+0000: no
-- overlong code, no surrogate, nothing above U+10FFFF, no code cut short.
pub is_valid_utf8_iff :
    (input : Text)
    → (is_valid_utf8 input ≡ true) ↔ ((cs : List ℕ) × All IsScalar cs × (input ≡ encode_all cs))
unfolding is_valid_utf8
is_valid_utf8_iff input = (
  valid_codes (suc (length input)) input,
  λ (cs, h, e). rw e (codes_valid (suc (length (encode_all cs))) cs h (omega arith)),
)
