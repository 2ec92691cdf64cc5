-- ===== src/Repository/Unambiguous.antt =====
-- Different tuples are hashed as different bytes.
use remmina_krunner.Base.{
  ℕ, ◌+◌, ◌*◌, ◌<◌, Text, List, [], ◌∷◌, ◌++◌, length, map, All, ◌≡◌, refl, sym, ap, ◌∙◌, arith,
}
use mathlib.Core.List.{append_assoc}
use remmina_krunner.Repository.Hash.{add_length, field_bytes, fields_bytes, tuple_bytes}

abbrev pub lengths : ℕ
lengths = 18446744073709551616

append_cancel : (a b c d : Text) → length a ≡ length b → a ++ c ≡ b ++ d → (a ≡ b) × (c ≡ d)
append_cancel [] [] c d n e = (refl, e)
append_cancel [] (y ∷ b) c d n e = absurd (omega arith)
append_cancel (x ∷ a) [] c d n e = absurd (omega arith)
append_cancel (x ∷ a) (y ∷ b) c d n e =
    let (same, rest) = append_cancel a b c d (omega arith) cc in (ground arith, rest)

length-add_length : (n : ℕ) → length (add_length n) ≡ 8
unfolding add_length
length-add_length n = refl

-- The value of eight bytes, the highest first.
value_from : ℕ → Text → ℕ
value_from n [] = n
value_from n (c ∷ bytes) = value_from (n * 256 + c) bytes

value-add_length : (n : ℕ) → n < lengths → value_from 0 (add_length n) ≡ n
unfolding add_length value_from
value-add_length n a = omega arith

add_length_unique : (m n : ℕ) → m < lengths → n < lengths → add_length m ≡ add_length n → m ≡ n
add_length_unique m n a b e =
    sym (value-add_length m a) ∙ ap (value_from 0) e ∙ value-add_length n b

-- The fields fit the eight bytes of their lengths.
abbrev pub Fits : (Text → Text) → List Text → Type 0
Fits to_utf8 fields = All (λ field. length (to_utf8 field) < lengths) fields

module _ (to_utf8 : Text → Text) where
  field_first :
      (f g rest rest' : Text)
      → length (to_utf8 f) < lengths
      → length (to_utf8 g) < lengths
      → field_bytes to_utf8 f ++ rest ≡ field_bytes to_utf8 g ++ rest'
      → (to_utf8 f ≡ to_utf8 g) × (rest ≡ rest')
  unfolding field_bytes
  field_first f g rest rest' a b e =
      let (n, tail) =
        append_cancel (add_length (length (to_utf8 f))) (add_length (length (to_utf8 g)))
          (to_utf8 f ++ rest) (to_utf8 g ++ rest')
          (length-add_length (length (to_utf8 f)) ∙ sym (length-add_length (length (to_utf8 g))))
          (sym (append_assoc (add_length (length (to_utf8 f))) (to_utf8 f) rest)
            ∙ e
            ∙ append_assoc (add_length (length (to_utf8 g))) (to_utf8 g) rest') in
      append_cancel (to_utf8 f) (to_utf8 g) rest rest' (add_length_unique _ _ a b n) tail

  fields_unique :
      (fs gs : List Text)
      → length fs ≡ length gs
      → Fits to_utf8 fs
      → Fits to_utf8 gs
      → fields_bytes to_utf8 fs ≡ fields_bytes to_utf8 gs
      → map to_utf8 fs ≡ map to_utf8 gs
  unfolding fields_bytes
  fields_unique [] [] n a b e = refl
  fields_unique [] (g ∷ gs) n a b e = absurd (omega arith)
  fields_unique (f ∷ fs) [] n a b e = absurd (omega arith)
  fields_unique (f ∷ fs) (g ∷ gs) n a b e =
      let (same, rest) =
        field_first f g (fields_bytes to_utf8 fs) (fields_bytes to_utf8 gs) a.0 b.0 e in
      let later = fields_unique fs gs (omega arith) a.1 b.1 rest in cc

  -- Tuples of fewer than 2^64 fields, each of fewer than 2^64 bytes, that are hashed as the same bytes
  -- have the same number of fields, and their fields have the same encodings.
  pub tuple_bytes_unique :
      (fs gs : List Text)
      → length fs < lengths
      → length gs < lengths
      → Fits to_utf8 fs
      → Fits to_utf8 gs
      → tuple_bytes to_utf8 fs ≡ tuple_bytes to_utf8 gs
      → map to_utf8 fs ≡ map to_utf8 gs
  unfolding tuple_bytes
  tuple_bytes_unique fs gs m n a b e =
      let (count, rest) =
        append_cancel (add_length (length fs)) (add_length (length gs)) _ _
          (length-add_length (length fs) ∙ sym (length-add_length (length gs))) e in
      fields_unique fs gs (add_length_unique _ _ m n count) a b rest
