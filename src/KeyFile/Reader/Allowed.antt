-- ===== src/KeyFile/Reader/Allowed.antt =====
-- Which keys the reader hands out.
use remmina_krunner.Base.{
  ℕ, Text, contains, All, List, [], ◌∷◌, take, Option, none, some, is_empty, Bool, true, not, ◌||◌,
  ◌==◌, ◌≡◌, arith, Option-cases, if_split, subst, inl, inr,
}
use remmina_krunner.Base.Maps.{insert, All-remove}
use remmina_krunner.KeyFile.Names.{index_of, trimmed_key, is_valid_key_name}
use remmina_krunner.KeyFile.Reader.Loop.{RoundIs, read_lines_rule, read_round_rule}
use remmina_krunner.KeyFile.Reader.{
  AllowedValues, ReadResult, values_read, read_error, File, Reader, read_header, store_value,
  read_entry_at, read_content, finish, Progress, read_round,
  read_allowed_key_file_values_with_error,
}

module _ (from_utf8 : Text → Text) (is_letter_or_number : ℕ → Bool) (section : Text)
    (allowed_keys : List Text) where
  -- Every key with a value is an allowed one.
  abbrev pub OnlyAllowed : AllowedValues → Type 0
  OnlyAllowed = All (λ kv. contains allowed_keys kv.0 ≡ true)

  abbrev Keeps : Reader → Option Reader → Type 0
  Keeps r none = Unit
  Keeps r (some r') = OnlyAllowed r.values → OnlyAllowed r'.values

  store_value-allowed :
      (key : Text) (v : Option Text) (r : Reader)
      → contains allowed_keys key ≡ true
      → OnlyAllowed r.values
      → OnlyAllowed (store_value key v r).values
  unfolding store_value insert
  store_value-allowed key none r k h = All-remove _ key r.values h
  store_value-allowed key (some v) r k h = (k, All-remove _ key r.values h)

  abbrev key_of : Text → ℕ → Text
  key_of content equals = from_utf8 (trimmed_key (take equals content))

  read_entry_at-Keeps :
      (content : Text) (equals : ℕ) (r : Reader)
      → Keeps r (read_entry_at from_utf8 is_letter_or_number section allowed_keys content equals r)
  unfolding read_entry_at
  read_entry_at-Keeps content equals r =
      if_split (Keeps r) (is_empty (trimmed_key (take equals content))) _ _ (λ _. tt)
        λ _.
          if_split (Keeps r) (not (is_valid_key_name is_letter_or_number (key_of content equals))) _
            _ (λ _. tt)
            λ _.
              if_split (Keeps r)
                (not r.in_requested_section || not (contains allowed_keys (key_of content equals)))
                _ _ (λ _ h. h) λ e. store_value-allowed (key_of content equals) _ r (ground arith)

  read_header-Keeps :
      (content : Text) (r : Reader)
      → Keeps r (read_header from_utf8 is_letter_or_number section allowed_keys content r)
  unfolding read_header
  read_header-Keeps content r =
      elim (Option-cases
        (read_header from_utf8 is_letter_or_number section allowed_keys content r)) [
          | inl e ↦ rw e tt
          | inr (r', e) ↦ rw e (λ h. ground arith)
        ]

  read_content-Keeps :
      (content : Text) (r : Reader)
      → Keeps r (read_content from_utf8 is_letter_or_number section allowed_keys content r)
  unfolding read_content
  read_content-Keeps [] r = λ h. h
  read_content-Keeps (c ∷ rest) r =
      if_split (Keeps r) (c == b'#') _ _ (λ _ h. h)
        λ _.
          if_split (Keeps r) (c == b'[') _ _ (λ _. read_header-Keeps (c ∷ rest) r)
            λ _.
              if_split (Keeps r) (not r.has_section) _ _ (λ _. tt)
                λ _. entry (index_of b'=' (c ∷ rest))
    where
      entry :
          (at : Option ℕ)
          → Keeps r (elim at [
            | none ↦ none
            | some equals ↦
                read_entry_at from_utf8 is_letter_or_number section allowed_keys (c ∷ rest) equals r
          ])
      entry none = tt
      entry (some equals) = read_entry_at-Keeps (c ∷ rest) equals r

  abbrev AllowedResult : ReadResult → Type 0
  AllowedResult (values_read values) = OnlyAllowed values
  AllowedResult (read_error error) = Unit

  finish-allowed : (r : Reader) → OnlyAllowed r.values → AllowedResult (finish r)
  unfolding finish
  finish-allowed r h =
      if_split AllowedResult (not r.has_requested_section || not (is_empty r.invalid_values)) _ _
        (λ _. tt) (λ _. h)

  read_round-allowed :
      (p : Progress)
      → OnlyAllowed p.reader.values
      → RoundIs
          (λ q. OnlyAllowed q.reader.values)
          AllowedResult
          (read_round from_utf8 is_letter_or_number section allowed_keys p)
  read_round-allowed p h =
      read_round_rule from_utf8 is_letter_or_number section allowed_keys _ _ p tt tt
        (λ _. finish-allowed p.reader h)
        (λ r _ _ _ _ e. subst (Keeps p.reader) e (read_content-Keeps _ p.reader) h)

  -- Whatever the file holds, the reader hands out values of allowed keys only: no other value of a
  -- profile, a password among them, leaves it.
  pub read_allowed_values :
      (file : Option File) {values : AllowedValues}
      → read_allowed_key_file_values_with_error from_utf8 is_letter_or_number section allowed_keys
          file
        ≡ values_read values
      → OnlyAllowed values
  unfolding read_allowed_key_file_values_with_error
  read_allowed_values none e = absurd (cc)
  read_allowed_values (some file) e = subst AllowedResult e (
      read_lines_rule from_utf8 is_letter_or_number section allowed_keys
        (λ q. OnlyAllowed q.reader.values) AllowedResult tt read_round-allowed _ _ tt)
