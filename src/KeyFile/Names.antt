-- ===== src/KeyFile/Names.antt =====
-- `isValidKeyName`, `isValidGroupName` and the trimming functions of src/core/key_file_reader.cpp.
-- `QChar::isLetterOrNumber` is a parameter.
use remmina_krunner.Base.{
  ℕ, suc, ◌+◌, ◌-◌, Text, [], ◌∷◌, take, drop, length, Option, none, some, is_empty, if◌then◌else◌,
  Bool, true, false, not, ◌||◌, ◌==◌, ltb, any, all,
}
use mathlib.Core.Option
use mathlib.Core.List.{reverse}

-- `text.indexOf(character)`, with `none` for -1.
unfoldable pub index_of : ℕ → Text → Option ℕ
index_of c [] = none
index_of c (x ∷ rest) =
    let later = Option.map suc (index_of c rest) in if x == c then some 0 else later

-- The characters of a locale.
unfoldable pub is_locale_character : (ℕ → Bool) → ℕ → Bool
is_locale_character is_letter_or_number c =
    is_letter_or_number c || c == b'-' || c == b'_' || c == b'.' || c == b'@'

-- The end of `isValidKeyName`, on the places of the brackets.
unfoldable pub valid_locale : (ℕ → Bool) → Text → ℕ → ℕ → Bool
unfolding is_locale_character
valid_locale is_letter_or_number key opening closing =
    let locale = take (closing - opening - 1) (drop (opening + 1) key) in
    if is_empty locale then false else all (is_locale_character is_letter_or_number) locale

abbrev pub is_some {ℓ} : {A : Type ℓ} → Option A → Bool
is_some none = false
is_some (some a) = true

unfoldable pub is_valid_key_name : (ℕ → Bool) → Text → Bool
unfolding index_of valid_locale
is_valid_key_name is_letter_or_number key =
    if is_empty key then false else elim (index_of b'[' key) [
      | none ↦ not (is_some (index_of b']' key))
      | some opening ↦ elim (index_of b']' key) [
        | none ↦ false
        | some closing ↦
            if opening == 0
              || not (closing == length key - 1)
              || is_some (index_of b'[' (drop (opening + 1) key))
            then false
            else valid_locale is_letter_or_number key opening closing
      ]
    ]

-- A byte that the loop of `isValidGroupName` refuses.
unfoldable pub bad_group_byte : ℕ → Bool
bad_group_byte byte = byte == b'[' || byte == b']' || ltb byte 0x20 || byte == 0x7F

unfoldable pub is_valid_group_name : Text → Bool
unfolding bad_group_byte
is_valid_group_name group = if is_empty group then false else not (any bad_group_byte group)

-- A space, a tabulator or a form feed.
unfoldable pub is_syntactic_whitespace : ℕ → Bool
is_syntactic_whitespace c = c == 32 || c == 9 || c == 12

-- The line from its first character on that fails the test: `firstNonWhitespace` and `sliced`.
unfoldable pub trim_start : (ℕ → Bool) → Text → Text
trim_start is_space [] = []
trim_start is_space (c ∷ rest) =
    let later = trim_start is_space rest in if is_space c then later else c ∷ rest

-- The loops that move the end back.
unfoldable pub trim_end : (ℕ → Bool) → Text → Text
unfolding trim_start
trim_end is_space text = reverse (trim_start is_space (reverse text))

unfoldable pub left_trimmed : Text → Text
unfolding trim_start is_syntactic_whitespace
left_trimmed value = trim_start is_syntactic_whitespace value

unfoldable pub trimmed_key : Text → Text
unfolding trim_start trim_end is_syntactic_whitespace
trimmed_key value = trim_end is_syntactic_whitespace (trim_start is_syntactic_whitespace value)

unfoldable pub trimmed_group_header : Text → Text
unfolding trim_end
trimmed_group_header value = trim_end (λ c. c == 32 || c == 9) value
