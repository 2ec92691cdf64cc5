-- ===== src/KeyFile/Utf8/Sound.antt =====
-- What the UTF-8 check accepts is an encoding.
use remmina_krunner.Base.{
  ℕ, zero, suc, ◌+◌, ◌*◌, ◌-◌, ◌≤◌, ◌<◌, Text, List, [], ◌∷◌, ◌++◌, true, leb, ◌≡◌, inl, inr, refl,
  ap, arith, All, Bool-cases, ◌∙◌,
}
use remmina_krunner.KeyFile.Utf8.{valid_from}
use remmina_krunner.KeyFile.Utf8.Encoding.{
  IsScalar, encode, encode_all, encode_2, encode_3, encode_4,
}

-- A text that the loop accepts starts with the code of one scalar value.
pub data Starts (fuel lead : ℕ) (rest : Text) : Type 0 where
  code_of :
      (c : ℕ) (tail : Text)
      → IsScalar c
      → lead ∷ rest ≡ encode c ++ tail
      → valid_from fuel tail ≡ true
      → Starts fuel lead rest

lead_1 :
    (fuel lead : ℕ) (rest : Text)
    → 0 < lead
    → lead ≤ 0x7F
    → valid_from fuel rest ≡ true
    → Starts fuel lead rest
unfolding encode
lead_1 fuel lead rest p q h =
    code_of lead rest
      (record { nonzero = p; in_range = omega arith; no_surrogate = inl (omega arith) })
      (ground arith) h

lead_2 :
    (fuel lead a : ℕ) (rest : Text)
    → 0xC2 ≤ lead
    → lead ≤ 0xDF
    → 0x80 ≤ a
    → a ≤ 0xBF
    → valid_from fuel rest ≡ true
    → Starts fuel lead (a ∷ rest)
lead_2 fuel lead a rest p q r s h =
    let c : ℕ = (lead - 0xC0) * 64 + (a - 0x80) in
    let e = encode_2 c (lead - 0xC0) (a - 0x80) refl (omega arith) (omega arith) (omega arith) in
    code_of c rest
      (record { nonzero = omega arith; in_range = omega arith; no_surrogate = inl (omega arith) })
      (rw e (ground arith)) h

lead_3 :
    (fuel lead a b : ℕ) (rest : Text)
    → 0xE0 ≤ lead
    → lead ≤ 0xEF
    → 0x80 ≤ a
    → a ≤ 0xBF
    → 0x80 ≤ b
    → b ≤ 0xBF
    → (lead ≡ 0xE0 → 0xA0 ≤ a)
    → (lead ≡ 0xED → a ≤ 0x9F)
    → valid_from fuel rest ≡ true
    → Starts fuel lead (a ∷ b ∷ rest)
lead_3 fuel lead a b rest p q r s t u low high h =
    let c : ℕ = (lead - 0xE0) * 4096 + (a - 0x80) * 64 + (b - 0x80) in
    let e =
      encode_3 c (lead - 0xE0) (a - 0x80) (b - 0x80) refl (ground arith) (omega arith) (omega arith)
        (omega arith) in
    code_of c rest
      (record {
        nonzero = ground arith;
        in_range = omega arith;
        no_surrogate = elim (Bool-cases (leb lead 0xED)) [
          | inl e ↦ inl (ground arith)
          | inr e ↦ inr (ground arith)
        ];
      })
      (rw e (ground arith)) h

lead_4 :
    (fuel lead a b d : ℕ) (rest : Text)
    → 0xF0 ≤ lead
    → lead ≤ 0xF4
    → 0x80 ≤ a
    → a ≤ 0xBF
    → 0x80 ≤ b
    → b ≤ 0xBF
    → 0x80 ≤ d
    → d ≤ 0xBF
    → (lead ≡ 0xF0 → 0x90 ≤ a)
    → (lead ≡ 0xF4 → a ≤ 0x8F)
    → valid_from fuel rest ≡ true
    → Starts fuel lead (a ∷ b ∷ d ∷ rest)
lead_4 fuel lead a b d rest p q r s t u v w low high h =
    let c : ℕ = (lead - 0xF0) * 262144 + (a - 0x80) * 4096 + (b - 0x80) * 64 + (d - 0x80) in
    let e =
      encode_4 c (lead - 0xF0) (a - 0x80) (b - 0x80) (d - 0x80) refl (ground arith) (omega arith)
        (omega arith) (omega arith) in
    code_of c rest
      (record {
        nonzero = ground arith;
        in_range = ground arith;
        no_surrogate = inr (ground arith);
      })
      (rw e (ground arith)) h

-- Which branch the loop takes says how long the code is.
valid-Starts :
    (fuel lead : ℕ) (rest : Text)
    → valid_from (suc fuel) (lead ∷ rest) ≡ true
    → Starts fuel lead rest
unfolding valid_from
valid-Starts fuel lead [] h = lead_1 fuel lead [] (ground arith) (ground arith) (ground arith)
valid-Starts fuel lead (a ∷ []) h = elim (Bool-cases (leb lead 0x7F)) [
  | inl e ↦ lead_1 fuel lead (a ∷ []) (ground arith) (ground arith) (ground arith)
  | inr e ↦
      lead_2 fuel lead a [] (ground arith) (ground arith) (ground arith) (ground arith)
        (ground arith)
]
valid-Starts fuel lead (a ∷ b ∷ []) h = elim (Bool-cases (leb lead 0x7F)) [
  | inl e ↦ lead_1 fuel lead (a ∷ b ∷ []) (ground arith) (ground arith) (ground arith)
  | inr e ↦ elim (Bool-cases (leb lead 0xDF)) [
    | inl f ↦
        lead_2 fuel lead a (b ∷ []) (ground arith) (ground arith) (ground arith) (ground arith)
          (ground arith)
    | inr f ↦
        lead_3 fuel lead a b [] (ground arith) (ground arith) (ground arith) (ground arith)
          (ground arith) (ground arith) (ground arith) (ground arith) (ground arith)
  ]
]
valid-Starts fuel lead (a ∷ b ∷ d ∷ rest) h = elim (Bool-cases (leb lead 0x7F)) [
  | inl e ↦ lead_1 fuel lead (a ∷ b ∷ d ∷ rest) (ground arith) (ground arith) (ground arith)
  | inr e ↦ elim (Bool-cases (leb lead 0xDF)) [
    | inl f ↦
        lead_2 fuel lead a (b ∷ d ∷ rest) (ground arith) (ground arith) (ground arith)
          (ground arith) (ground arith)
    | inr f ↦ elim (Bool-cases (leb lead 0xEF)) [
      | inl g ↦
          lead_3 fuel lead a b (d ∷ rest) (ground arith) (ground arith) (ground arith)
            (ground arith) (ground arith) (ground arith) (ground arith) (ground arith)
            (ground arith)
      | inr g ↦
          lead_4 fuel lead a b d rest (ground arith) (ground arith) (ground arith) (ground arith)
            (ground arith) (ground arith) (ground arith) (ground arith) (ground arith)
            (ground arith) (ground arith)
    ]
  ]
]

pub valid_codes :
    (fuel : ℕ) (input : Text)
    → valid_from fuel input ≡ true
    → (cs : List ℕ) × All IsScalar cs × (input ≡ encode_all cs)
valid_codes zero input h = unfold valid_from in cc
valid_codes (suc fuel) [] h = ([], tt, refl)
valid_codes (suc fuel) (lead ∷ rest) h = go (valid-Starts fuel lead rest h) (valid_codes fuel)
  where
    go :
        Starts fuel lead rest
        → ((input : Text)
            → valid_from fuel input ≡ true
            → (cs : List ℕ) × All IsScalar cs × (input ≡ encode_all cs))
        → (cs : List ℕ) × All IsScalar cs × (lead ∷ rest ≡ encode_all cs)
    go (code_of c tail s e k) rec =
        let (cs, all, f) = rec tail k in (c ∷ cs, (s, all), e ∙ ap (◌++◌ (encode c)) f)
