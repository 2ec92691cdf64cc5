-- ===== src/KeyFile/Reader/Termination.antt =====
-- The reader's loop ends by itself.
use remmina_krunner.Base.{
  ℕ, zero, suc, ◌<◌, Text, List, [], ◌∷◌, drop, length, length-append, is_empty, Bool, false, not,
  ◌&&◌, ◌≡◌, refl, arith, ap,
}
use remmina_krunner.KeyFile.Reader.Loop.{RoundIs, read_round_rule}
use remmina_krunner.KeyFile.Reader.Lines.{read_line-drop, read_line-pos, read_line-nil}
use remmina_krunner.KeyFile.Reader.{
  ReadResult, Progress, Round, ends, continues, read_line, read_round, read_lines,
  maximum_line_bytes,
}

module _ (from_utf8 : Text → Text) (is_letter_or_number : ℕ → Bool) (section : Text)
    (allowed_keys : List Text) where
  abbrev round : Progress → Round
  round = read_round from_utf8 is_letter_or_number section allowed_keys

  abbrev lines : ℕ → Progress → ReadResult
  lines = read_lines from_utf8 is_letter_or_number section allowed_keys

  -- The loop comes to the result by rounds, the last of which ends it.
  pub data Runs (result : ReadResult) : Progress → Type 0 where
    stops : {p : Progress} → round p ≡ ends result → Runs result p
    goes_on :
        {p : Progress} (next : Progress)
        → round p ≡ continues next
        → Runs result next
        → Runs result p

  -- A round that goes on has read at least one byte.
  abbrev Shrinks : Progress → Round → Type 0
  Shrinks p r = RoundIs (λ q. length q.file.bytes < length p.file.bytes) (λ _. Unit {0}) r

  round-Shrinks : (p : Progress) → Shrinks p (round p)
  round-Shrinks p =
      read_round_rule from_utf8 is_letter_or_number section allowed_keys _ _ p tt tt (λ _. tt)
        (λ r a b _ _ _. shrunk p.file.bytes p.file.fails a b)
    where
      shrunk :
          (bytes : Text) (fails : Bool)
          → (is_empty bytes && not fails) ≡ false
          → (is_empty (read_line (suc maximum_line_bytes) bytes) && fails) ≡ false
          → length (drop (length (read_line (suc maximum_line_bytes) bytes)) bytes) < length bytes
      shrunk [] fails a b = ground (arith, read_line-nil maximum_line_bytes)
      shrunk (c ∷ bytes) fails a b = omega (
        arith,
        ap length (read_line-drop (suc maximum_line_bytes) (c ∷ bytes)),
        length-append (read_line (suc maximum_line_bytes) (c ∷ bytes))
            (drop (length (read_line (suc maximum_line_bytes) (c ∷ bytes))) (c ∷ bytes)),
        read_line-pos maximum_line_bytes c bytes,
      )

  round-Runs :
      (fuel : ℕ) (p : Progress) (r : Round)
      → length p.file.bytes < suc fuel
      → round p ≡ r
      → Shrinks p r
      → ((q : Progress) → length q.file.bytes < fuel → Runs (lines fuel q) q)
      → Runs (elim r [ ends result ↦ result | continues next ↦ lines fuel next ]) p
  round-Runs fuel p (ends result) h e s rec = stops e
  round-Runs fuel p (continues next) h e s rec = goes_on next e (rec next (omega arith))

  -- With more fuel than bytes the loop ends by itself, and never for want of fuel.
  pub read_lines-Runs :
      (fuel : ℕ) (p : Progress) → length p.file.bytes < fuel → Runs (lines fuel p) p
  unfolding read_lines
  read_lines-Runs zero p h = absurd (omega arith)
  read_lines-Runs (suc fuel) p h =
      round-Runs fuel p (round p) h refl (round-Shrinks p) (read_lines-Runs fuel)
