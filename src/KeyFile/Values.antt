-- ===== src/KeyFile/Values.antt =====
-- `decodeValue` of src/core/key_file_reader.cpp: the escapes of a value. `QString::fromUtf8` is a
-- parameter.
pub mod RoundTrip
use remmina_krunner.Base.{
  ℕ, Text, List, [], ◌∷◌, ◌++◌, Option, none, some, if◌then◌else◌, Bool, ◌==◌,
}
use mathlib.Core.Option

-- The `switch` on the byte behind a backslash.
unfoldable pub unescape : ℕ → Option ℕ
unescape byte =
    if byte == b's'
    then some b' '
    else if byte == b'n'
    then some b'\n'
    else if byte == b't'
    then some b'\t'
    else if byte == b'r'
    then some b'\r'
    else if byte == b'\\'
    then some b'\\'
    else none

-- The loop, with the bytes that are decoded; `none` where the source returns `std::nullopt`.
unfoldable pub decode_from : Text → Text → Option Text
unfolding unescape
decode_from decoded [] = some decoded
decode_from decoded (current ∷ []) =
    if current == b'\\' then none else some (decoded ++ current ∷ [])
decode_from decoded (current ∷ next ∷ rest) =
    let plain = decode_from (decoded ++ current ∷ []) (next ∷ rest) in
    let escaped : Option Text = elim (unescape next) [
      | none ↦ none
      | some byte ↦ decode_from (decoded ++ byte ∷ []) rest
    ] in
    if current == b'\\' then escaped else plain

unfoldable pub decode_value : (Text → Text) → Text → Option Text
unfolding decode_from
decode_value from_utf8 encoded = Option.map from_utf8 (decode_from [] encoded)
