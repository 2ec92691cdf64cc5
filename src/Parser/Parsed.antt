-- ===== src/Parser/Parsed.antt =====
-- What a parsed profile is like.
use remmina_krunner.Base.{
  ℕ, Text, codes, [], ◌∷◌, Option, Option-cases, none, some, inl, inr, ap, subst, is_empty, Bool,
  true, false, ◌≡◌, ◌≢◌, refl, if_split,
}
use remmina_krunner.Profile.{ProfileRecord}
use remmina_krunner.KeyFile.Reader.{
  ReadError, ReadResult, values_read, read_error, AllowedValues, File,
  read_allowed_key_file_values_with_error,
}
use remmina_krunner.KeyFile.Reader.Allowed.{OnlyAllowed, read_allowed_values}
use remmina_krunner.Base.Maps.{lookup}
use remmina_krunner.Parser.Labels.{AreLabels, labels_in-AreLabels}
use remmina_krunner.Parser.{
  or_empty, ProfileParseResult, parsed, refused, allowed_keys, value_of, profile_of, parse_result,
  parse_remmina_profile, missing_name, unreadable, malformed,
}

module _ (trimmed : Text → Text) where
  -- The value of a key, trimmed, which is that of the empty text when there is none.
  pub data IsValue (key : Text) (values : AllowedValues) (text : Text) : Type 0 where
    present :
        {value : Text}
        → lookup key values ≡ some value
        → text ≡ trimmed value
        → IsValue key values text
    absent : lookup key values ≡ none → text ≡ trimmed [] → IsValue key values text

  value_of-IsValue :
      (key : Text) (values : AllowedValues) → IsValue key values (trimmed (value_of key values))
  value_of-IsValue key values = elim (Option-cases (lookup key values)) [
    | inl e ↦ absent e (ap (λ o. trimmed (or_empty o)) e)
    | inr (v, e) ↦ present e (ap (λ o. trimmed (or_empty o)) e)
  ]

  -- What a profile holds of the values of its file.
  pub record IsOf (source_path launch_path opaque_id : Text) (values : AllowedValues)
      (p : ProfileRecord) : Type 0 where
    pub id : p.opaque_id ≡ opaque_id
    pub source : p.source_path ≡ source_path
    pub launch : p.launch_path ≡ launch_path
    pub named : p.name ≢ []
    pub name : IsValue (codes "name") values p.name
    pub server : IsValue (codes "server") values p.server
    pub protocol : IsValue (codes "protocol") values p.protocol
    pub labels_display : IsValue (codes "labels") values p.labels_display
    pub labels : AreLabels trimmed p.labels_display p.labels

  -- What parsing a file comes to, by what was read of it: a profile with a name, or the refusal of
  -- a file with no name, or that of the reader.
  pub data Parses (source_path launch_path opaque_id : Text) (read : ReadResult)
      (result : ProfileParseResult) : Type 0 where
    holding :
        (values : AllowedValues) (p : ProfileRecord)
        → read ≡ values_read values
        → IsOf source_path launch_path opaque_id values p
        → result ≡ parsed p
        → Parses source_path launch_path opaque_id read result
    nameless :
        (values : AllowedValues)
        → read ≡ values_read values
        → IsValue (codes "name") values []
        → result ≡ refused missing_name
        → Parses source_path launch_path opaque_id read result
    not_opened :
        read ≡ read_error ReadError.unreadable
        → result ≡ refused unreadable
        → Parses source_path launch_path opaque_id read result
    not_well_formed :
        read ≡ read_error ReadError.malformed
        → result ≡ refused malformed
        → Parses source_path launch_path opaque_id read result

  profile_of-Parses :
      (source_path launch_path opaque_id : Text) (values : AllowedValues)
      → Parses source_path launch_path opaque_id
          (values_read values)
          (profile_of trimmed source_path launch_path opaque_id values)
  unfolding profile_of
  profile_of-Parses source_path launch_path opaque_id values =
      if_split (Parses source_path launch_path opaque_id (values_read values))
        (is_empty (trimmed (value_of (codes "name") values))) _ _
        (λ e.
          nameless values refl
            (subst (IsValue (codes "name") values) (bare _ e)
              (value_of-IsValue (codes "name") values))
            refl)
        λ e.
          holding values _ refl
            (record {
              id = refl;
              source = refl;
              launch = refl;
              named = full _ e;
              name = value_of-IsValue (codes "name") values;
              server = value_of-IsValue (codes "server") values;
              protocol = value_of-IsValue (codes "protocol") values;
              labels_display = value_of-IsValue (codes "labels") values;
              labels = labels_in-AreLabels trimmed _;
            })
            refl
    where
      bare : (t : Text) → is_empty t ≡ true → t ≡ []
      bare [] h = refl
      bare (c ∷ t) h = cc

      full : (t : Text) → is_empty t ≡ false → t ≢ []
      full [] h = cc
      full (c ∷ t) h = λ z. cc

  parse_result-Parses :
      (source_path launch_path opaque_id : Text) (r : ReadResult)
      → Parses source_path launch_path opaque_id r
          (parse_result trimmed source_path launch_path opaque_id r)
  unfolding parse_result
  parse_result-Parses source_path launch_path opaque_id (read_error ReadError.unreadable) =
      not_opened refl refl
  parse_result-Parses source_path launch_path opaque_id (read_error ReadError.malformed) =
      not_well_formed refl refl
  parse_result-Parses source_path launch_path opaque_id (values_read values) =
      profile_of-Parses source_path launch_path opaque_id values

module _ (from_utf8 : Text → Text) (is_letter_or_number : ℕ → Bool) (trimmed : Text → Text) where
  -- The outcome of reading a file for the four keys of the display.
  abbrev pub read_of : Option File → ReadResult
  read_of file =
      read_allowed_key_file_values_with_error from_utf8 is_letter_or_number (codes "remmina")
        (codes "name" ∷ codes "server" ∷ codes "labels" ∷ codes "protocol" ∷ []) file

  -- What is read stands under the four keys only.
  abbrev pub IsDisplayed : ReadResult → Type 0
  IsDisplayed (values_read values) =
      OnlyAllowed from_utf8 is_letter_or_number (codes "remmina")
        (codes "name" ∷ codes "server" ∷ codes "labels" ∷ codes "protocol" ∷ []) values
  IsDisplayed (read_error error) = Unit

  read_of-IsDisplayed : (file : Option File) → IsDisplayed (read_of file)
  read_of-IsDisplayed file = go (read_of file) refl
    where
      go : (r : ReadResult) → read_of file ≡ r → IsDisplayed r
      go (values_read values) e =
          read_allowed_values from_utf8 is_letter_or_number (codes "remmina") allowed_keys file e
      go (read_error error) e = tt

  -- A file is parsed into a profile exactly when its values are read and they have a name that is
  -- not empty when trimmed; a file with no such name, one that cannot be read and a malformed one
  -- are refused, each with its own error. The values that are read stand under the four keys of the
  -- display; the profile holds them trimmed, with the ids and paths that were given, and its labels
  -- are the parts between the commas that are not empty when trimmed, in order.
  pub parse_remmina_profile-Parses :
      (file : Option File) (source_path launch_path opaque_id : Text)
      → Parses trimmed source_path launch_path opaque_id (read_of file) (
          parse_remmina_profile from_utf8 is_letter_or_number trimmed file source_path launch_path
            opaque_id)
        × IsDisplayed (read_of file)
  unfolding parse_remmina_profile
  parse_remmina_profile-Parses file source_path launch_path opaque_id = (
    parse_result-Parses trimmed source_path launch_path opaque_id (read_of file),
    read_of-IsDisplayed file,
  )
