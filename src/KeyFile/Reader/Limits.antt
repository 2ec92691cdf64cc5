-- ===== src/KeyFile/Reader/Limits.antt =====
-- What a file that is read was like: its size, its encoding, that it was read to its end.
use mathlib.Core.List.{append_assoc, append-nil}
use remmina_krunner.Base.{
  ℕ, suc, ◌+◌, ◌≤◌, Text, List, [], ◌∷◌, ◌++◌, drop, length, length-append, some, is_empty, Bool,
  true, false, not, ◌&&◌, ◌||◌, ◌≡◌, refl, arith, if_split, ap, sym, ◌∙◌, subst, All, All-append,
}
use remmina_krunner.KeyFile.Utf8.{is_valid_utf8}
use remmina_krunner.KeyFile.Utf8.Encoding.{IsScalar, encode, encode_all}
use remmina_krunner.KeyFile.Utf8.Exact.{is_valid_utf8_iff}
use remmina_krunner.KeyFile.Reader.Loop.{RoundIs, read_lines_rule, read_round_rule}
use remmina_krunner.KeyFile.Reader.Lines.{read_line-drop}
use remmina_krunner.KeyFile.Reader.{
  AllowedValues, ReadResult, values_read, read_error, File, Reader, at_end, next_line, exceeds,
  finish, Progress, Round, read_round, read_lines, maximum_total_bytes, maximum_line_count,
  read_allowed_key_file_values_with_error,
}

encode_all-append : (a b : List ℕ) → encode_all (a ++ b) ≡ encode_all a ++ encode_all b
encode_all-append [] b = refl
encode_all-append (c ∷ a) b =
    ap (◌++◌ (encode c)) (encode_all-append a b)
    ∙ sym (append_assoc (encode c) (encode_all a) (encode_all b))

-- Between two rounds the bytes read are counted, within the limit, and are an encoding.
record IsCounted (content : Text) (fails : Bool) (p : Progress) : Type 0 where
  codes : List ℕ
  scalars : All IsScalar codes
  split : content ≡ encode_all codes ++ p.file.bytes
  total : p.total_bytes ≡ length (encode_all codes)
  bounded : p.total_bytes ≤ maximum_total_bytes
  lines : p.line_count ≤ maximum_line_count
  same : p.file.fails ≡ fails

-- What is known of a file that gave values.
abbrev pub IsSound : Text → Bool → ReadResult → Type 0
IsSound content fails (values_read values) =
    (length content ≤ maximum_total_bytes) × (is_valid_utf8 content ≡ true) × (fails ≡ false)
IsSound content fails (read_error error) = Unit

at_end-parts :
    (bytes : Text) (fails : Bool)
    → (is_empty bytes && not fails) ≡ true
    → (bytes ≡ []) × (fails ≡ false)
at_end-parts [] fails e = (refl, ground arith)
at_end-parts (c ∷ bytes) fails e = cc

finish-IsSound :
    (content : Text) (fails : Bool) (p : Progress)
    → IsCounted content fails p
    → at_end p.file ≡ true
    → IsSound content fails (finish p.reader)
unfolding finish
finish-IsSound content fails p i e =
    if_split (IsSound content fails)
      (not p.reader.has_requested_section || not (is_empty p.reader.invalid_values)) _ _ (λ _. tt)
      (λ _. whole)
  where
    ended : (p.file.bytes ≡ []) × (p.file.fails ≡ false)
    ended = at_end-parts p.file.bytes p.file.fails e

    is_all : content ≡ encode_all i.codes
    is_all = i.split ∙ ap (◌++◌ (encode_all i.codes)) ended.0 ∙ append-nil _

    whole :
        (length content ≤ maximum_total_bytes) × (is_valid_utf8 content ≡ true) × (fails ≡ false)
    whole = (
      omega (arith, ap length is_all, i.total, i.bounded),
      (is_valid_utf8_iff content).1 (i.codes, i.scalars, is_all),
      sym i.same ∙ ended.1,
    )

next-IsCounted :
    (content : Text) (fails : Bool) (p : Progress) (r : Reader)
    → IsCounted content fails p
    → exceeds
        (suc p.line_count)
        p.total_bytes
        (next_line p.file)
        (record p.file { bytes = drop (length (next_line p.file)) p.file.bytes })
      ≡ false
    → is_valid_utf8 (next_line p.file) ≡ true
    → IsCounted content fails (record {
      line_count = suc p.line_count;
      total_bytes = p.total_bytes + length (next_line p.file);
      reader = r;
      file = record p.file { bytes = drop (length (next_line p.file)) p.file.bytes };
    })
unfolding exceeds
next-IsCounted content fails p r i x v =
    let (cs, all, e) = (is_valid_utf8_iff (next_line p.file)).0 v in
    let grown : encode_all (i.codes ++ cs) ≡ encode_all i.codes ++ next_line p.file =
      encode_all-append i.codes cs ∙ ap (◌++◌ (encode_all i.codes)) (sym e) in
    record {
      codes = i.codes ++ cs;
      scalars = All-append IsScalar i.codes cs i.scalars all;
      split =
          i.split
          ∙ ap (◌++◌ (encode_all i.codes)) (sym (read_line-drop _ p.file.bytes))
          ∙ sym (append_assoc (encode_all i.codes) (next_line p.file) _)
          ∙ ap (λ t. t ++ drop (length (next_line p.file)) p.file.bytes) (sym grown);
      total =
          omega (
            arith,
            i.total,
            ap length grown,
            length-append (encode_all i.codes) (next_line p.file),
          );
      bounded = ground arith;
      lines = ground arith;
      same = i.same;
    }

module _ (from_utf8 : Text → Text) (is_letter_or_number : ℕ → Bool) (section : Text)
    (allowed_keys : List Text) where
  abbrev round : Progress → Round
  round = read_round from_utf8 is_letter_or_number section allowed_keys

  abbrev lines : ℕ → Progress → ReadResult
  lines = read_lines from_utf8 is_letter_or_number section allowed_keys

  round-IsCounted :
      (content : Text) (fails : Bool) (p : Progress)
      → IsCounted content fails p
      → RoundIs (IsCounted content fails) (IsSound content fails) (round p)
  round-IsCounted content fails p i =
      read_round_rule from_utf8 is_letter_or_number section allowed_keys _ _ p tt tt
        (finish-IsSound content fails p i) (λ r _ _ x v _. next-IsCounted content fails p r i x v)

  -- A file that gives values has no more than 1 MiB, is valid UTF-8 from its first byte to its
  -- last, and was read to its end with no failing read.
  pub read_limits :
      (file : File) {values : AllowedValues}
      → read_allowed_key_file_values_with_error from_utf8 is_letter_or_number section allowed_keys
          (some file)
        ≡ values_read values
      → (length file.bytes ≤ maximum_total_bytes)
        × (is_valid_utf8 file.bytes ≡ true)
        × (file.fails ≡ false)
  unfolding read_allowed_key_file_values_with_error
  read_limits file e = subst (IsSound file.bytes file.fails) e (
      read_lines_rule from_utf8 is_letter_or_number section allowed_keys
        (IsCounted file.bytes file.fails) (IsSound file.bytes file.fails) tt
        (round-IsCounted file.bytes file.fails) _ _
        (record {
          codes = [];
          scalars = tt;
          split = refl;
          total = refl;
          bounded = omega arith;
          lines = omega arith;
          same = refl;
        }))
