-- ===== src/Scanner/Listed.antt =====
-- The list that is made of the output of `flatpak list`: each row for an application once.
use remmina_krunner.Base.{
  ℕ, Text, Bool-cases, List, [], ◌∷◌, ◌++◌, In, All, All-In, Some, Some-map, Option, Bool, true,
  false, ◌↔◌, ◌≡◌, ◌≢◌, refl, sym, subst, inl, inr,
}
use remmina_krunner.Base.Sort.{In-sort, In-insert, insert, sort}
use remmina_krunner.Base.Split.{split}
use remmina_krunner.Scanner.{
  FlatpakInstallation, installation_before, deduplication_key, parse_flatpak_installations,
}
use remmina_krunner.Scanner.Columns.{Holds, StandsFor, StandsFor-of_IsRow, IsRow-of_StandsFor}
use remmina_krunner.Scanner.Rows.{
  IsRow, IsDistinct, collect_rows-IsDistinct, collect_rows-Stands, parse_flatpak_installations-rows,
}

module _ (before : FlatpakInstallation → FlatpakInstallation → Bool) where
  insert-IsDistinct :
      (x : FlatpakInstallation) (l : List FlatpakInstallation)
      → IsDistinct (x ∷ l)
      → IsDistinct (insert before x l)
  unfolding insert
  insert-IsDistinct x [] h = h
  insert-IsDistinct x (y ∷ l) h = elim (Bool-cases (before y x)) [
    | inr n ↦ rw n h
    | inl e ↦ rw e (
      λ i. elim ((In-insert before y x l).0 i) [
        | inl same ↦ h.0 (inl (sym same))
        | inr later ↦ h.1.0 later
      ],
      insert-IsDistinct x l ((λ i. h.0 (inr i)), h.1.1),
    )
  ]

  sort-IsDistinct : (l : List FlatpakInstallation) → IsDistinct l → IsDistinct (sort before l)
  unfolding sort
  sort-IsDistinct [] h = tt
  sort-IsDistinct (x ∷ l) h =
      insert-IsDistinct x (sort before l)
        ((λ i. h.0 ((In-sort before x l).0 i)), sort-IsDistinct l h.1)

-- The separator of the key does not occur in the first part, so that the key tells both parts.
key_parts :
    (a a' b b' : Text)
    → All (λ c. c ≢ 0x1F) a
    → All (λ c. c ≢ 0x1F) a'
    → a ++ 0x1F ∷ b ≡ a' ++ 0x1F ∷ b'
    → (a ≡ a') × (b ≡ b')
key_parts [] [] b b' h k e = (refl, cc)
key_parts [] (c ∷ a') b b' h k e = absurd (k.0 (cc))
key_parts (c ∷ a) [] b b' h k e = absurd (h.0 (cc))
key_parts (c ∷ a) (d ∷ a') b b' h k e = let (p, q) = key_parts a a' b b' h.1 k.1 (cc) in (cc, q)

All-of_In : {P : ℕ → Type 0} (t : Text) → ((c : ℕ) → In c t → P c) → All P t
All-of_In [] h = tt
All-of_In (c ∷ t) h = (h c (inl refl), All-of_In t (λ d i. h d (inr i)))

module _ (decode : Text → Option Text) (is_control : ℕ → Bool) (trimmed : Text → Text) where
  module _ (separator : is_control 0x1F ≡ true)
      (trims : (t : Text) (c : ℕ) → In c (trimmed t) → In c t) where
    Holds-separated :
        (column text : Text)
        → Holds decode is_control trimmed column text
        → All (λ c. c ≢ 0x1F) text
    Holds-separated column text h = All-of_In text (λ c i.
        let k = trims h.field c (subst (In c) (sym h.trims) i) in
        let quiet = All-In (λ c. is_control c ≡ false) h.field h.printable k in
        λ e. cc (separator, quiet, e))

    same_key :
        (i j : FlatpakInstallation) (line line' : Text)
        → StandsFor decode is_control trimmed i line
        → StandsFor decode is_control trimmed j line'
        → deduplication_key i ≡ deduplication_key j
        → i ≡ j
    same_key i j line line' s t e =
        let (p, q) =
          key_parts i.installation j.installation i.ref j.ref (Holds-separated s.c _ s.installation)
            (Holds-separated t.c _ t.installation) e in
        λ k. record { installation = p k; ref = q k }

    line_of :
        (lines : List Text) (i : FlatpakInstallation)
        → Some (IsRow decode is_control trimmed i) lines
        → (line : Text) × StandsFor decode is_control trimmed i line
    line_of [] i s = absurd s
    line_of (line ∷ lines) i (inl r) = (line, StandsFor-of_IsRow decode is_control trimmed i line r)
    line_of (line ∷ lines) i (inr s) = line_of lines i s

    -- An installation is listed exactly when some line of the output stands for it: three columns,
    -- each without control characters and not empty when trimmed, of which the first is the id of
    -- Remmina, the second the reference, to its id with an architecture and a branch, and the
    -- third the installation. None is listed twice. The
    -- separator of the key counts as a control character, and trimming adds no character.
    pub parse_flatpak_installations-lists :
        (output : Text)
        → ((i : FlatpakInstallation)
            → In i (parse_flatpak_installations decode is_control trimmed output)
              ↔ Some (StandsFor decode is_control trimmed i) (split b'\n' output))
          × IsDistinct (parse_flatpak_installations decode is_control trimmed output)
    unfolding parse_flatpak_installations
    parse_flatpak_installations-lists output = (
      λ i. (
        λ h.
            Some-map (StandsFor-of_IsRow decode is_control trimmed i) _
              (parse_flatpak_installations-rows decode is_control trimmed output i h),
        λ s. listed i (Some-map (IsRow-of_StandsFor decode is_control trimmed i) _ s),
      ),
      sort-IsDistinct installation_before _
          (collect_rows-IsDistinct decode is_control trimmed (split b'\n' output) []),
    )
      where
        listed :
            (i : FlatpakInstallation)
            → Some (IsRow decode is_control trimmed i) (split b'\n' output)
            → In i (parse_flatpak_installations decode is_control trimmed output)
        listed i r =
            elim (collect_rows-Stands decode is_control trimmed (split b'\n' output) [] i r) [
              | inl c ↦ absurd (cc)
              | inr (j, h, k) ↦
                  let k' = (In-sort installation_before j _).1 h in
                  let other =
                    line_of _ j
                      (parse_flatpak_installations-rows decode is_control trimmed output j k') in
                  let own = line_of _ i r in
                  subst (λ x. In x (parse_flatpak_installations decode is_control trimmed output))
                    (same_key j i other.0 own.0 other.1 own.1 k) k'
            ]
