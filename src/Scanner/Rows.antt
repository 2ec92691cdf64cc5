-- ===== src/Scanner/Rows.antt =====
-- The rows of `flatpak list`, and the installations that are made of them.
use remmina_krunner.Base.{
  ℕ, Text, contains, equal, equal_iff, equal_refl, Bool-cases, List, [], ◌∷◌, In, Some, Option,
  none, some, if◌then◌else◌, Bool, true, false, arith, ◌⊎◌, ◌≡◌, refl, ◌∙◌, ap, if_split, inl, inr,
}
use remmina_krunner.Base.Sort.{In-sort}
use remmina_krunner.Base.Split.{split}
use remmina_krunner.Scanner.{
  FlatpakInstallation, installation_before, deduplication_key, read_row, collect_rows,
  parse_flatpak_installations,
}

-- No element stands in the list twice.
abbrev pub IsDistinct : List FlatpakInstallation → Type 0
IsDistinct [] = Unit {0}
IsDistinct (i ∷ l) = (¬ In i l) × IsDistinct l

module _ (decode : Text → Option Text) (is_control : ℕ → Bool) (trimmed : Text → Text) where
  -- A line of the output that is a row for an installation.
  abbrev pub IsRow : FlatpakInstallation → Text → Type 0
  IsRow i line = read_row decode is_control trimmed line ≡ some i

  abbrev collected : List Text → List Text → List FlatpakInstallation
  collected = collect_rows decode is_control trimmed

  -- A round of the loop: the line is no row, or its key was seen, or it is listed.
  collect_rows_rule :
      (P : List FlatpakInstallation → Type 0) (line : Text) (lines seen : List Text)
      → (read_row decode is_control trimmed line ≡ none → P (collected lines seen))
      → ((j : FlatpakInstallation)
          → IsRow j line
          → contains seen (deduplication_key j) ≡ true
          → P (collected lines seen))
      → ((j : FlatpakInstallation)
          → IsRow j line
          → contains seen (deduplication_key j) ≡ false
          → P (j ∷ collected lines (deduplication_key j ∷ seen)))
      → P (collected (line ∷ lines) seen)
  unfolding collect_rows
  collect_rows_rule P line lines seen skip known new =
      go (read_row decode is_control trimmed line) refl
    where
      go :
          (o : Option FlatpakInstallation)
          → read_row decode is_control trimmed line ≡ o
          → P (elim o [
            | none ↦ collect_rows decode is_control trimmed lines seen
            | some j ↦
                if contains seen (deduplication_key j)
                then collect_rows decode is_control trimmed lines seen
                else j ∷ collect_rows decode is_control trimmed lines (deduplication_key j ∷ seen)
          ])
      go none e = skip e
      go (some j) e =
          if_split P (contains seen (deduplication_key j)) _ _ (λ c. known j e c) (λ c. new j e c)

  no_rows : (seen : List Text) (i : FlatpakInstallation) → In i (collected [] seen) → ⊥
  unfolding collect_rows
  no_rows seen i h = h

  collect_rows-rows :
      (lines seen : List Text) (i : FlatpakInstallation)
      → In i (collected lines seen)
      → Some (IsRow i) lines
  collect_rows-rows [] seen i = λ h. absurd (no_rows seen i h)
  collect_rows-rows (line ∷ lines) seen i =
      collect_rows_rule (λ l. In i l → Some (IsRow i) (line ∷ lines)) line lines seen
        (λ _ h. inr (collect_rows-rows lines seen i h))
        (λ _ _ _ h. inr (collect_rows-rows lines seen i h))
        (λ j e _ h. elim h [
          | inl same ↦ inl (e ∙ ap some same)
          | inr later ↦ inr (collect_rows-rows lines (deduplication_key j ∷ seen) i later)
        ])

  -- Every installation that is listed stands in a row of the output.
  pub parse_flatpak_installations-rows :
      (output : Text) (i : FlatpakInstallation)
      → In i (parse_flatpak_installations decode is_control trimmed output)
      → Some (IsRow i) (split b'\n' output)
  unfolding parse_flatpak_installations
  parse_flatpak_installations-rows output i h =
      collect_rows-rows (split b'\n' output) [] i ((In-sort installation_before i _).0 h)

  -- An installation is listed with the key, or the key was seen.
  abbrev pub Stands : List Text → FlatpakInstallation → List FlatpakInstallation → Type 0
  Stands seen i l =
      (contains seen (deduplication_key i) ≡ true)
      ⊎ ((j : FlatpakInstallation) × In j l × (deduplication_key j ≡ deduplication_key i))

  Stands-later :
      (seen : List Text) (i j : FlatpakInstallation) (l : List FlatpakInstallation)
      → Stands (deduplication_key j ∷ seen) i l
      → Stands seen i (j ∷ l)
  Stands-later seen i j l (inr (m, h, k)) = inr (m, inr h, k)
  Stands-later seen i j l (inl c) =
      elim (Bool-cases (equal (deduplication_key j) (deduplication_key i))) [
        | inl e ↦ inr (j, inl refl, (equal_iff _ _).0 e)
        | inr e ↦ inl (ground arith)
      ]

  pub collect_rows-Stands :
      (lines seen : List Text) (i : FlatpakInstallation)
      → Some (IsRow i) lines
      → Stands seen i (collected lines seen)
  collect_rows-Stands [] seen i r = absurd r
  collect_rows-Stands (line ∷ lines) seen i (inl r) =
      collect_rows_rule (Stands seen i) line lines seen (λ e. cc (e, r))
        (λ j e c. let same : j ≡ i = cc (e, r) in inl (rw same at c))
        (λ j e _. let same : j ≡ i = cc (e, r) in inr (j, inl refl, ap deduplication_key same))
  collect_rows-Stands (line ∷ lines) seen i (inr r) =
      collect_rows_rule (Stands seen i) line lines seen (λ _. collect_rows-Stands lines seen i r)
        (λ _ _ _. collect_rows-Stands lines seen i r)
        (λ j _ _.
          Stands-later seen i j _ (collect_rows-Stands lines (deduplication_key j ∷ seen) i r))

  -- What is listed has a key that was not seen before.
  collect_rows-new :
      (lines seen : List Text) (i : FlatpakInstallation)
      → In i (collected lines seen)
      → contains seen (deduplication_key i) ≡ false
  collect_rows-new [] seen i = λ h. absurd (no_rows seen i h)
  collect_rows-new (line ∷ lines) seen i =
      collect_rows_rule (λ l. In i l → contains seen (deduplication_key i) ≡ false) line lines seen
        (λ _ h. collect_rows-new lines seen i h) (λ _ _ _ h. collect_rows-new lines seen i h)
        (λ j _ c h. elim h [
          | inl same ↦ rw same at c
          | inr later ↦
              let fresh = collect_rows-new lines (deduplication_key j ∷ seen) i later in
              ground arith
        ])

  pub collect_rows-IsDistinct : (lines seen : List Text) → IsDistinct (collected lines seen)
  collect_rows-IsDistinct [] seen = unfold collect_rows in tt
  collect_rows-IsDistinct (line ∷ lines) seen =
      collect_rows_rule IsDistinct line lines seen (λ _. collect_rows-IsDistinct lines seen)
        (λ _ _ _. collect_rows-IsDistinct lines seen)
        (λ j _ _. (
          λ h.
              let fresh = collect_rows-new lines (deduplication_key j ∷ seen) j h in
              absurd (ground (arith, equal_refl (deduplication_key j))),
          collect_rows-IsDistinct lines (deduplication_key j ∷ seen),
        ))
