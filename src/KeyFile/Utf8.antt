-- ===== src/KeyFile/Utf8.antt =====
-- `isValidUtf8` of src/core/key_file_reader.cpp. The index is kept as the bytes behind it.
pub mod Encoding
pub mod Sound
pub mod Exact
use remmina_krunner.Base.{
  ℕ, zero, suc, Text, List, [], ◌∷◌, drop, if◌then◌else◌, Bool, true, false, not, ◌&&◌, ◌||◌, leb,
  ltb, ◌==◌, within, length,
}

unfoldable pub is_continuation_byte : ℕ → Bool
is_continuation_byte byte = within 0x80 0xBF byte

-- On the bytes from the offset on.
unfoldable pub has_continuation_bytes : Text → ℕ → Bool
unfolding is_continuation_byte
has_continuation_bytes input zero = true
has_continuation_bytes [] (suc count) = false
has_continuation_bytes (byte ∷ input) (suc count) =
    is_continuation_byte byte && has_continuation_bytes input count

-- `input.at(index + 1)`
abbrev pub second_byte : Text → ℕ
second_byte [] = 0
second_byte (byte ∷ rest) = byte

-- The loop, with the size of the input and one for fuel.
unfoldable pub valid_from : ℕ → Text → Bool
unfolding has_continuation_bytes
valid_from zero input = false
valid_from (suc fuel) [] = true
valid_from (suc fuel) (lead ∷ rest) =
    let one = valid_from fuel rest in
    let two = valid_from fuel (drop 1 rest) in
    let three = valid_from fuel (drop 2 rest) in
    let four = valid_from fuel (drop 3 rest) in
    if lead == 0
    then false
    else if leb lead 0x7F
    then one
    else if within 0xC2 0xDF lead
    then (if not (has_continuation_bytes rest 1) then false else two)
    else if within 0xE0 0xEF lead
    then (if not (has_continuation_bytes rest 2)
        then false
        else if (lead == 0xE0 && ltb (second_byte rest) 0xA0)
            || (lead == 0xED && ltb 0x9F (second_byte rest))
        then false
        else three)
    else if within 0xF0 0xF4 lead
    then (if not (has_continuation_bytes rest 3)
        then false
        else if (lead == 0xF0 && ltb (second_byte rest) 0x90)
            || (lead == 0xF4 && ltb 0x8F (second_byte rest))
        then false
        else four)
    else false

unfoldable pub is_valid_utf8 : Text → Bool
unfolding valid_from
is_valid_utf8 input = valid_from (suc (length input)) input
