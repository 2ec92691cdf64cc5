-- ===== src/KeyFile/Reader.antt =====
-- `readAllowedKeyFileValuesWithError` of src/core/key_file_reader.cpp. The file is the bytes that
-- the device delivers, and whether a read then fails; `QString::fromUtf8` and
-- `QChar::isLetterOrNumber` are parameters.
pub mod Loop
pub mod Allowed
pub mod Lines
pub mod Limits
pub mod Termination
use remmina_krunner.Base.{
  ℕ, zero, suc, ◌+◌, ◌-◌, Text, equal, contains, List, [], ◌∷◌, ◌++◌, take, drop, length, Option,
  none, some, is_empty, if◌then◌else◌, Bool, true, false, not, ◌&&◌, ◌||◌, ◌==◌, ltb,
}
use mathlib.Core.List.{reverse}
use mathlib.Core.Option
use remmina_krunner.Base.Maps.{Map, insert, remove}
use remmina_krunner.KeyFile.Utf8.{is_valid_utf8}
use remmina_krunner.KeyFile.Values.{decode_value}
use remmina_krunner.KeyFile.Names.{
  index_of, is_valid_key_name, is_valid_group_name, is_syntactic_whitespace, trim_start,
  left_trimmed, trimmed_key, trimmed_group_header,
}

abbrev pub maximum_line_bytes : ℕ
maximum_line_bytes = 16384

abbrev pub maximum_total_bytes : ℕ
maximum_total_bytes = 1048576

abbrev pub maximum_line_count : ℕ
maximum_line_count = 4096

pub data ReadError : Type 0 where
  unreadable malformed : ReadError

abbrev pub AllowedValues : Type 0
AllowedValues = Map Text

pub data ReadResult : Type 0 where
  values_read : AllowedValues → ReadResult
  read_error : ReadError → ReadResult

-- What the device delivers from here on, and whether the next read behind it fails.
pub record File : Type 0 where
  pub bytes : Text
  pub fails : Bool

abbrev pub at_end : File → Bool
at_end file = is_empty file.bytes && not file.fails

-- `readLine(limit)`: up to and with the first line feed, and no more than the limit.
unfoldable pub read_line : ℕ → Text → Text
read_line zero bytes = []
read_line (suc limit) [] = []
read_line (suc limit) (c ∷ rest) =
    let later = read_line limit rest in if c == b'\n' then c ∷ [] else c ∷ later

-- `line.endsWith(c)`, and `line.chop(1)`.
abbrev pub last_is : ℕ → Text → Bool
last_is c [] = false
last_is c (x ∷ []) = x == c
last_is c (x ∷ y ∷ rest) = last_is c (y ∷ rest)

abbrev pub chop : Text → Text
chop [] = []
chop (x ∷ []) = []
chop (x ∷ y ∷ rest) = x ∷ chop (y ∷ rest)

-- The variables that the loop carries from line to line.
pub record Reader : Type 0 where
  pub values : AllowedValues
  pub invalid_values : List Text
  pub has_section : Bool
  pub in_requested_section : Bool
  pub has_requested_section : Bool

abbrev pub initial : Reader
initial = record {
  values = [];
  invalid_values = [];
  has_section = false;
  in_requested_section = false;
  has_requested_section = false;
}

-- `invalidValues.insert(key)` and `invalidValues.remove(key)`.
unfoldable pub drop_key : Text → List Text → List Text
drop_key key [] = []
drop_key key (k ∷ keys) = let rest = drop_key key keys in if equal k key then rest else k ∷ rest

-- The line ending is taken off.
unfoldable pub without_ending : Text → Text
without_ending line =
    if last_is b'\n' line
    then (if last_is b'\r' (chop line) then chop (chop line) else chop line)
    else line

-- Whether a line is refused by its size, by the counts so far, or for its missing end.
unfoldable pub exceeds : ℕ → ℕ → Text → File → Bool
exceeds line_count total_bytes line rest =
    ltb maximum_line_count line_count
    || ltb maximum_line_bytes (length line)
    || ltb maximum_total_bytes (total_bytes + length line)
    || (not (last_is b'\n' line) && not (at_end rest))

-- The value of a key that is wanted, decoded or refused.
unfoldable pub store_value : Text → Option Text → Reader → Reader
store_value key none r = record r {
  values = remove key r.values;
  invalid_values = key ∷ drop_key key r.invalid_values;
}
store_value key (some value) r = record r {
  values = insert key value r.values;
  invalid_values = drop_key key r.invalid_values;
}

-- What follows the loop.
unfoldable pub finish : Reader → ReadResult
finish r =
    if not r.has_requested_section || not (is_empty r.invalid_values)
    then read_error malformed
    else values_read r.values

-- The line that a round reads.
abbrev pub next_line : File → Text
next_line file = read_line (suc maximum_line_bytes) file.bytes

-- The state between two rounds of the loop, and how a round ends.
pub record Progress : Type 0 where
  pub line_count : ℕ
  pub total_bytes : ℕ
  pub reader : Reader
  pub file : File

pub data Round : Type 0 where
  ends : ReadResult → Round
  continues : Progress → Round

module _ (from_utf8 : Text → Text) (is_letter_or_number : ℕ → Bool) (section : Text)
    (allowed_keys : List Text) where
  -- A group header; `none` where the source returns `malformed`.
  unfoldable pub read_header : Text → Reader → Option Reader
  read_header content r =
      let header = trimmed_group_header content in
      let encoded_section = chop (drop 1 header) in
      let requested = equal (from_utf8 encoded_section) section in
      if ltb (length header) 3 || not (last_is b']' header)
      then none
      else if not (is_valid_group_name encoded_section)
      then none
      else some (record r {
        has_section = true;
        in_requested_section = requested;
        has_requested_section = r.has_requested_section || requested;
      })

  -- A line `key=value`, split at its first equals sign.
  unfoldable pub read_entry_at : Text → ℕ → Reader → Option Reader
  read_entry_at content equals r =
      let encoded_key = trimmed_key (take equals content) in
      let key = from_utf8 encoded_key in
      if is_empty encoded_key
      then none
      else if not (is_valid_key_name is_letter_or_number key)
      then none
      else if not r.in_requested_section || not (contains allowed_keys key)
      then some r
      else some
          (store_value key (decode_value from_utf8 (left_trimmed (drop (suc equals) content))) r)

  -- A line without leading white space, neither blank nor a comment.
  unfoldable pub read_content : Text → Reader → Option Reader
  read_content [] r = some r
  read_content (c ∷ rest) r =
      if c == b'#'
      then some r
      else if c == b'['
      then read_header (c ∷ rest) r
      else if not r.has_section
      then none
      else elim (index_of b'=' (c ∷ rest)) [
        | none ↦ none
        | some equals ↦ read_entry_at (c ∷ rest) equals r
      ]

  -- One round of the loop.
  unfoldable pub read_round : Progress → Round
  read_round p =
      let line = next_line p.file in
      let rest = record p.file { bytes = drop (length line) p.file.bytes } in
      if at_end p.file
      then ends (finish p.reader)
      else if is_empty line && p.file.fails
      then ends (read_error unreadable)
      else if exceeds (suc p.line_count) p.total_bytes line rest
      then ends (read_error malformed)
      else if not (is_valid_utf8 line)
      then ends (read_error malformed)
      else elim (read_content (trim_start is_syntactic_whitespace (without_ending line)) p.reader) [
        | none ↦ ends (read_error malformed)
        | some r ↦ continues (record {
          line_count = suc p.line_count;
          total_bytes = p.total_bytes + length line;
          reader = r;
          file = rest;
        })
      ]

  -- The loop over the lines. The fuel is the number of bytes, and two.
  unfoldable pub read_lines : ℕ → Progress → ReadResult
  read_lines zero p = read_error unreadable
  read_lines (suc fuel) p = elim (read_round p) [
    | ends result ↦ result
    | continues next ↦ read_lines fuel next
  ]

  -- The opened file; `none` where it cannot be opened or is no regular file.
  unfoldable pub read_allowed_key_file_values_with_error : Option File → ReadResult
  read_allowed_key_file_values_with_error none = read_error unreadable
  read_allowed_key_file_values_with_error (some file) =
      read_lines (suc (suc (length file.bytes)))
        (record { line_count = 0; total_bytes = 0; reader = initial; file = file })

  unfoldable pub read_allowed_key_file_values : Option File → Option AllowedValues
  read_allowed_key_file_values file = elim (read_allowed_key_file_values_with_error file) [
    | values_read values ↦ some values
    | read_error error ↦ none
  ]
