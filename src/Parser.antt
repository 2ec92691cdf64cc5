-- ===== src/Parser.antt =====
-- src/core/profile_parser.cpp: a profile from the values of its key file. `QString::trimmed` is a
-- parameter.
pub mod Parsed
pub mod Labels
use remmina_krunner.Base.{
  ℕ, Text, codes, List, [], ◌∷◌, map, select, Option, none, some, is_empty, if◌then◌else◌, Bool,
  true, false, not, ◌==◌,
}
use remmina_krunner.Base.Split.{split}
use remmina_krunner.Base.Maps.{lookup}
use remmina_krunner.Profile.{ProfileRecord}
use remmina_krunner.KeyFile.Reader.{
  ReadError, ReadResult, values_read, read_error, AllowedValues, File,
  read_allowed_key_file_values_with_error,
}

pub data ProfileParseError : Type 0 where
  unreadable malformed missing_name : ProfileParseError

pub data ProfileParseResult : Type 0 where
  parsed : ProfileRecord → ProfileParseResult
  refused : ProfileParseError → ProfileParseResult

abbrev pub allowed_keys : List Text
allowed_keys = codes "name" ∷ codes "server" ∷ codes "labels" ∷ codes "protocol" ∷ []

-- `values.take(key)`, which is empty for a key with no value.
abbrev pub or_empty : Option Text → Text
or_empty none = []
or_empty (some text) = text

abbrev pub value_of : Text → AllowedValues → Text
value_of key values = or_empty (lookup key values)

module _ (trimmed : Text → Text) where
  -- The loop over the parts of the labels.
  unfoldable pub labels_in : Text → List Text
  labels_in labels_display =
      select (λ label. not (is_empty label)) (map trimmed (split b',' labels_display))

  -- `parseRemminaProfile` on the values that are read.
  unfoldable pub profile_of : Text → Text → Text → AllowedValues → ProfileParseResult
  profile_of source_path launch_path opaque_id values =
      let name = trimmed (value_of (codes "name") values) in
      let labels_display = trimmed (value_of (codes "labels") values) in
      if is_empty name
      then refused missing_name
      else parsed (record {
        opaque_id = opaque_id;
        source_path = source_path;
        launch_path = launch_path;
        name = name;
        server = trimmed (value_of (codes "server") values);
        labels = labels_in labels_display;
        labels_display = labels_display;
        protocol = trimmed (value_of (codes "protocol") values);
      })

  unfoldable pub parse_result : Text → Text → Text → ReadResult → ProfileParseResult
  parse_result source_path launch_path opaque_id (read_error ReadError.unreadable) =
      refused unreadable
  parse_result source_path launch_path opaque_id (read_error ReadError.malformed) =
      refused malformed
  parse_result source_path launch_path opaque_id (values_read values) =
      profile_of source_path launch_path opaque_id values

-- The file at the source path, as the reader opens it, is an argument.
module _ (from_utf8 : Text → Text) (is_letter_or_number : ℕ → Bool) (trimmed : Text → Text) where
  unfoldable pub parse_remmina_profile : Option File → Text → Text → Text → ProfileParseResult
  parse_remmina_profile file source_path launch_path opaque_id =
      parse_result trimmed source_path launch_path opaque_id (
        read_allowed_key_file_values_with_error from_utf8 is_letter_or_number (codes "remmina")
          allowed_keys file)
