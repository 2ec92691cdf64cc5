-- ===== src/Tests/KeyFile.antt =====
-- Key files: whole files, values and encodings.
use remmina_krunner.Base.{
  Text, codes, List, [], ◌∷◌, true, false, ◌≡◌, refl, arith, equal, some, Option, ◌↔◌, All, ◌≤◌, ℕ,
  length,
}
use remmina_krunner.Base.Maps.{insert, remove}
use remmina_krunner.KeyFile.Utf8.{
  is_valid_utf8, valid_from, has_continuation_bytes, is_continuation_byte,
}
use remmina_krunner.KeyFile.Utf8.Encoding.{IsScalar, encode_all}
use remmina_krunner.KeyFile.Utf8.Exact.{is_valid_utf8_iff}
use remmina_krunner.KeyFile.Values.{decode_value, decode_from, unescape}
use remmina_krunner.KeyFile.Values.RoundTrip.{Written, decode_value_iff}
use remmina_krunner.KeyFile.Names.{
  index_of, is_locale_character, valid_locale, is_valid_key_name, bad_group_byte,
  is_valid_group_name, is_syntactic_whitespace, trim_start, trim_end, left_trimmed, trimmed_key,
  trimmed_group_header,
}
use remmina_krunner.KeyFile.Reader.{
  File, ReadResult, values_read, read_error, malformed, AllowedValues, Progress, initial,
  maximum_total_bytes, read_line, drop_key, without_ending, exceeds, store_value, finish,
  read_header, read_entry_at, read_content, read_round, read_lines,
  read_allowed_key_file_values_with_error,
}
use remmina_krunner.KeyFile.Reader.Allowed.{OnlyAllowed, read_allowed_values}
use remmina_krunner.KeyFile.Reader.Limits.{read_limits}
use remmina_krunner.KeyFile.Reader.Termination.{Runs, read_lines-Runs}
use remmina_krunner.Tests.Data.{is_alphanumeric}

abbrev ascii : Text → Text
ascii t = t

abbrev keys : List Text
keys = codes "name" ∷ codes "server" ∷ []

abbrev read : Option File → ReadResult
read = read_allowed_key_file_values_with_error ascii is_alphanumeric (codes "remmina") keys

abbrev holding : Text → Option File
holding text = some (record { bytes = text; fails = false })

abbrev good : Text
good = codes "# a profile\n[remmina]\nname = Web\\sserver \r\npassword=x\n[other]\nname=y"

finds_values : read (holding good) ≡ values_read ((codes "name", codes "Web server ") ∷ [])
unfolding read_allowed_key_file_values_with_error read_lines read_round read_content read_entry_at
    read_header finish store_value exceeds without_ending drop_key read_line insert remove
    decode_value decode_from unescape trimmed_group_header trimmed_key left_trimmed trim_end
    trim_start is_syntactic_whitespace is_valid_group_name bad_group_byte is_valid_key_name
    valid_locale is_locale_character index_of is_valid_utf8 valid_from has_continuation_bytes
    is_continuation_byte equal
finds_values = refl

-- An entry in front of every group, and a value with a stray escape.
early_refused : read (holding (codes "name=Web\n[remmina]\n")) ≡ read_error malformed
unfolding read_allowed_key_file_values_with_error read_lines read_round read_content read_entry_at
    read_header finish store_value exceeds without_ending drop_key read_line insert remove
    decode_value decode_from unescape trimmed_group_header trimmed_key left_trimmed trim_end
    trim_start is_syntactic_whitespace is_valid_group_name bad_group_byte is_valid_key_name
    valid_locale is_locale_character index_of is_valid_utf8 valid_from has_continuation_bytes
    is_continuation_byte equal
early_refused = refl

escape_refused : read (holding (codes "[remmina]\nname=\\q\n")) ≡ read_error malformed
unfolding read_allowed_key_file_values_with_error read_lines read_round read_content read_entry_at
    read_header finish store_value exceeds without_ending drop_key read_line insert remove
    decode_value decode_from unescape trimmed_group_header trimmed_key left_trimmed trim_end
    trim_start is_syntactic_whitespace is_valid_group_name bad_group_byte is_valid_key_name
    valid_locale is_locale_character index_of is_valid_utf8 valid_from has_continuation_bytes
    is_continuation_byte equal
escape_refused = refl

abbrev good_values : AllowedValues
good_values = (codes "name", codes "Web server ") ∷ []

read_allowed_values_example : OnlyAllowed ascii is_alphanumeric (codes "remmina") keys good_values
read_allowed_values_example =
    read_allowed_values ascii is_alphanumeric (codes "remmina") keys (holding good) finds_values

read_limits_example :
    (length good ≤ maximum_total_bytes) × (is_valid_utf8 good ≡ true) × (false ≡ false)
read_limits_example =
    read_limits ascii is_alphanumeric (codes "remmina") keys
      (record { bytes = good; fails = false }) finds_values

abbrev at_start : Progress
at_start = record {
  line_count = 0;
  total_bytes = 0;
  reader = initial;
  file = record { bytes = good; fails = false };
}

read_lines-Runs_example :
    Runs ascii is_alphanumeric
      (codes "remmina")
      keys
      (read_lines ascii is_alphanumeric (codes "remmina") keys 100 at_start)
      at_start
read_lines-Runs_example =
    read_lines-Runs ascii is_alphanumeric (codes "remmina") keys 100 at_start (omega arith)

is_valid_utf8_iff_example :
    (is_valid_utf8 (0xC3 ∷ 0xA9 ∷ []) ≡ true)
    ↔ ((cs : List ℕ) × All IsScalar cs × ((0xC3 ∷ 0xA9 ∷ []) ≡ encode_all cs))
is_valid_utf8_iff_example = is_valid_utf8_iff (0xC3 ∷ 0xA9 ∷ [])

surrogate_refused : is_valid_utf8 (0xED ∷ 0xA0 ∷ 0x80 ∷ []) ≡ false
unfolding is_valid_utf8 valid_from has_continuation_bytes is_continuation_byte
surrogate_refused = refl

decode_value_iff_example :
    (decode_value ascii (codes "a\\tb") ≡ some (codes "a\tb"))
    ↔ ((value : Text) × Written value (codes "a\\tb") × (value ≡ codes "a\tb"))
decode_value_iff_example = decode_value_iff ascii (codes "a\\tb") (codes "a\tb")
