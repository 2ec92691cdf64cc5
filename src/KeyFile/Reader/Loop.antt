-- ===== src/KeyFile/Reader/Loop.antt =====
-- The rules of the reader's loop: an invariant, and how it ends.
use remmina_krunner.Base.{
  ℕ, zero, suc, ◌+◌, Text, List, drop, length, Option, none, some, is_empty, Bool, true, false, not,
  ◌&&◌, ◌≡◌, refl, arith, if_split,
}
use remmina_krunner.KeyFile.Utf8.{is_valid_utf8}
use remmina_krunner.KeyFile.Names.{trim_start, is_syntactic_whitespace}
use remmina_krunner.KeyFile.Reader.{
  ReadResult, read_error, unreadable, malformed, Reader, at_end, next_line, exceeds, without_ending,
  read_content, finish, Progress, Round, ends, continues, read_round, read_lines,
}

abbrev pub RoundIs {κ} : (Progress → Type κ) → (ReadResult → Type κ) → Round → Type κ
RoundIs P Q (ends result) = Q result
RoundIs P Q (continues next) = P next

module _ (from_utf8 : Text → Text) (is_letter_or_number : ℕ → Bool) (section : Text)
    (allowed_keys : List Text) where
  abbrev round : Progress → Round
  round = read_round from_utf8 is_letter_or_number section allowed_keys

  abbrev lines : ℕ → Progress → ReadResult
  lines = read_lines from_utf8 is_letter_or_number section allowed_keys

  -- What each round keeps holds at the end, also where the fuel runs out.
  module _ {κ} (P : Progress → Type κ) (Q : ReadResult → Type κ) where
    continue_rule :
        (fuel : ℕ) (r : Round)
        → RoundIs P Q r
        → ((p : Progress) → P p → Q (lines fuel p))
        → Q (elim r [ ends result ↦ result | continues next ↦ lines fuel next ])
    continue_rule fuel (ends result) h rec = h
    continue_rule fuel (continues next) h rec = rec next h

    pub read_lines_rule :
        Q (read_error unreadable)
        → ((p : Progress) → P p → RoundIs P Q (round p))
        → (fuel : ℕ) (p : Progress) → P p
        → Q (lines fuel p)
    unfolding read_lines
    read_lines_rule q keep zero p h = q
    read_lines_rule q keep (suc fuel) p h =
        continue_rule fuel (round p) (keep p h) (read_lines_rule q keep fuel)

    -- To prove something of a round, only its last steps are of interest.
    pub read_round_rule :
        (p : Progress)
        → Q (read_error unreadable)
        → Q (read_error malformed)
        → (at_end p.file ≡ true → Q (finish p.reader))
        → ((r : Reader)
            → at_end p.file ≡ false
            → (is_empty (next_line p.file) && p.file.fails) ≡ false
            → exceeds
                (suc p.line_count)
                p.total_bytes
                (next_line p.file)
                (record p.file { bytes = drop (length (next_line p.file)) p.file.bytes })
              ≡ false
            → is_valid_utf8 (next_line p.file) ≡ true
            → read_content from_utf8 is_letter_or_number section allowed_keys
                (trim_start is_syntactic_whitespace (without_ending (next_line p.file)))
                p.reader
              ≡ some r
            → P (record {
              line_count = suc p.line_count;
              total_bytes = p.total_bytes + length (next_line p.file);
              reader = r;
              file = record p.file { bytes = drop (length (next_line p.file)) p.file.bytes };
            }))
        → RoundIs P Q (round p)
    unfolding read_round
    read_round_rule p u m f k = if_split (RoundIs P Q) (at_end p.file) _ _ f λ a.
        if_split (RoundIs P Q) (is_empty (next_line p.file) && p.file.fails) _ _ (λ _. u)
          λ b.
            if_split (RoundIs P Q) (exceeds (suc p.line_count) p.total_bytes (next_line p.file) _) _
              _ (λ _. m)
              λ c.
                if_split (RoundIs P Q) (not (is_valid_utf8 (next_line p.file))) _ _ (λ _. m)
                  λ d. content _ refl (λ r. k r a b c (ground arith))
      where
        content :
            (next : Option Reader)
            → read_content from_utf8 is_letter_or_number section allowed_keys
                (trim_start is_syntactic_whitespace (without_ending (next_line p.file)))
                p.reader
              ≡ next
            → ((r : Reader)
                → read_content from_utf8 is_letter_or_number section allowed_keys
                    (trim_start is_syntactic_whitespace (without_ending (next_line p.file)))
                    p.reader
                  ≡ some r
                → P (record {
                  line_count = suc p.line_count;
                  total_bytes = p.total_bytes + length (next_line p.file);
                  reader = r;
                  file = record p.file { bytes = drop (length (next_line p.file)) p.file.bytes };
                }))
            → RoundIs P Q (elim next [
              | none ↦ ends (read_error malformed)
              | some r ↦ continues (record {
                line_count = suc p.line_count;
                total_bytes = p.total_bytes + length (next_line p.file);
                reader = r;
                file = record p.file { bytes = drop (length (next_line p.file)) p.file.bytes };
              })
            ])
        content none e k = m
        content (some r) e k = k r e
