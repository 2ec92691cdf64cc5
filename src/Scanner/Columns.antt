-- ===== src/Scanner/Columns.antt =====
-- The columns of a row of `flatpak list`, and when a row stands for an installation of Remmina.
use remmina_krunner.Base.{
  ℕ, all, not, ◌&&◌, Text, codes, equal, equal_iff, any, any-false, Bool-cases, List, [], ◌∷◌, All,
  Option, Option-cases, none, some, is_empty, Bool, true, false, arith, ◌≡◌, ◌≢◌, refl, ◌∙◌, ap,
  inl, inr,
}
use remmina_krunner.Base.Split.{split}
use remmina_krunner.Scanner.{
  FlatpakInstallation, row_of, read_columns, decode_flatpak_field, is_remmina_application_ref,
  is_application, remmina_application_id,
}
use remmina_krunner.Scanner.Rows.{IsRow}

module _ (decode : Text → Option Text) (is_control : ℕ → Bool) (trimmed : Text → Text) where
  -- A column that holds a text: it decodes to a text without control characters, which is this one
  -- when it is trimmed; the text is not empty.
  pub record Holds (column text : Text) : Type 0 where
    pub field : Text
    pub decoded : decode column ≡ some field
    pub printable : All (λ c. is_control c ≡ false) field
    pub trims : trimmed field ≡ text
    pub full : text ≢ []

  -- A reference to Remmina: its id, an architecture and a branch, behind `app` or alone.
  pub data IsReference (ref : Text) : Type 0 where
    alone :
        (arch branch : Text)
        → arch ≢ []
        → branch ≢ []
        → split b'/' ref ≡ codes "org.remmina.Remmina" ∷ arch ∷ branch ∷ []
        → IsReference ref
    behind_app :
        (arch branch : Text)
        → arch ≢ []
        → branch ≢ []
        → split b'/' ref ≡ codes "app" ∷ codes "org.remmina.Remmina" ∷ arch ∷ branch ∷ []
        → IsReference ref

  -- A line that stands for an installation of Remmina: its three columns are the id of the
  -- application, a reference to this application, and the installation.
  pub record StandsFor (i : FlatpakInstallation) (line : Text) : Type 0 where
    pub a : Text
    pub b : Text
    pub c : Text
    pub columns : split b'\t' line ≡ a ∷ b ∷ c ∷ []
    pub application : Holds a (codes "org.remmina.Remmina")
    pub ref : Holds b i.ref
    pub installation : Holds c i.installation
    pub of_application : IsReference i.ref

  nonempty : (t : Text) → is_empty t ≡ false → t ≢ []
  nonempty [] h = cc
  nonempty (c ∷ t) h = λ e. cc

  filled : (t : Text) → t ≢ [] → is_empty t ≡ false
  filled [] n = absurd (n refl)
  filled (c ∷ t) n = refl

  none_control : (t : Text) → All (λ c. is_control c ≡ false) t → any is_control t ≡ false
  none_control [] h = refl
  none_control (c ∷ t) h = ground (arith, h.0, none_control t h.1)

  IsReference-of_test : (ref : Text) → is_remmina_application_ref ref ≡ true → IsReference ref
  unfolding is_remmina_application_ref is_application
  IsReference-of_test ref h = go (split b'/' ref) refl h
    where
      go :
          (parts : List Text)
          → split b'/' ref ≡ parts
          → (all (λ part. not (is_empty part)) parts && is_application parts) ≡ true
          → IsReference ref
      go [] e h = absurd (ground arith)
      go (a ∷ []) e h = absurd (ground arith)
      go (a ∷ b ∷ []) e h = absurd (ground arith)
      go (a ∷ b ∷ c ∷ []) e h =
          let same : a ≡ remmina_application_id = (equal_iff a _).0 (ground arith) in
          alone b c (nonempty b (ground arith)) (nonempty c (ground arith))
            (e ∙ ap (λ x. x ∷ b ∷ c ∷ []) same)
      go (a ∷ b ∷ c ∷ d ∷ []) e h =
          let first : a ≡ codes "app" = (equal_iff a _).0 (ground arith) in
          let same : b ≡ remmina_application_id = (equal_iff b _).0 (ground arith) in
          behind_app c d (nonempty c (ground arith)) (nonempty d (ground arith))
            (e ∙ ap (λ x. x ∷ b ∷ c ∷ d ∷ []) first ∙ ap (λ x. codes "app" ∷ x ∷ c ∷ d ∷ []) same)
      go (a ∷ b ∷ c ∷ d ∷ f ∷ parts) e h = absurd (ground arith)

  test-of_IsReference : (ref : Text) → IsReference ref → is_remmina_application_ref ref ≡ true
  unfolding is_remmina_application_ref is_application equal
  test-of_IsReference ref (alone arch branch m n e) = rw (e, filled arch m, filled branch n) refl
  test-of_IsReference ref (behind_app arch branch m n e) =
      rw (e, filled arch m, filled branch n) refl

  Holds-of_field :
      (column text : Text)
      → decode_flatpak_field decode is_control trimmed column ≡ some text
      → Holds column text
  unfolding decode_flatpak_field
  Holds-of_field column text e = elim (Option-cases (decode column)) [
    | inl d ↦ absurd (ground arith)
    | inr (field, d) ↦ elim (Bool-cases (any is_control field)) [
      | inl c ↦ absurd (ground arith)
      | inr c ↦ elim (Bool-cases (is_empty (trimmed field))) [
        | inl z ↦ absurd (ground arith)
        | inr z ↦
            let same : trimmed field ≡ text = ground arith in
            record {
              field = field;
              decoded = d;
              printable = any-false is_control field c;
              trims = same;
              full = nonempty text (rw same at z);
            }
      ]
    ]
  ]

  field-of_Holds :
      (column text : Text)
      → Holds column text
      → decode_flatpak_field decode is_control trimmed column ≡ some text
  unfolding decode_flatpak_field
  field-of_Holds column text h =
      rw
        (
          decode_flatpak_field,
          h.decoded,
          none_control h.field h.printable,
          h.trims,
          filled text h.full,
        )
        refl

  pub StandsFor-of_IsRow :
      (i : FlatpakInstallation) (line : Text)
      → IsRow decode is_control trimmed i line
      → StandsFor i line
  unfolding read_columns row_of
  StandsFor-of_IsRow i line e = of_columns (split b'\t' line) refl e
    where
      of_fields :
          (a b c : Text) (x y z : Option Text)
          → split b'\t' line ≡ a ∷ b ∷ c ∷ []
          → decode_flatpak_field decode is_control trimmed a ≡ x
          → decode_flatpak_field decode is_control trimmed b ≡ y
          → decode_flatpak_field decode is_control trimmed c ≡ z
          → row_of decode is_control trimmed x y z ≡ some i
          → StandsFor i line
      of_fields a b c none y z s p q r e = absurd (cc)
      of_fields a b c (some x) none z s p q r e = absurd (cc)
      of_fields a b c (some x) (some y) none s p q r e = absurd (cc)
      of_fields a b c (some x) (some y) (some z) s p q r e =
          elim (Bool-cases (equal x remmina_application_id)) [
            | inr n ↦ absurd (ground arith)
            | inl n ↦ elim (Bool-cases (is_remmina_application_ref y)) [
              | inr m ↦ absurd (ground arith)
              | inl m ↦
                  let ref : y ≡ i.ref = ground arith in
                  let installation : z ≡ i.installation = ground arith in
                  record {
                    a = a;
                    b = b;
                    c = c;
                    columns = s;
                    application =
                        Holds-of_field a _ (p ∙ ap some ((equal_iff x remmina_application_id).0 n));
                    ref = Holds-of_field b _ (q ∙ ap some ref);
                    installation = Holds-of_field c _ (r ∙ ap some installation);
                    of_application = IsReference-of_test i.ref (rw ref at m);
                  }
            ]
          ]

      of_columns :
          (columns : List Text)
          → split b'\t' line ≡ columns
          → read_columns decode is_control trimmed columns ≡ some i
          → StandsFor i line
      of_columns [] s e = absurd (cc)
      of_columns (a ∷ []) s e = absurd (cc)
      of_columns (a ∷ b ∷ []) s e = absurd (cc)
      of_columns (a ∷ b ∷ c ∷ []) s e = of_fields a b c _ _ _ s refl refl refl e
      of_columns (a ∷ b ∷ c ∷ d ∷ columns) s e = absurd (cc)

  pub IsRow-of_StandsFor :
      (i : FlatpakInstallation) (line : Text)
      → StandsFor i line
      → IsRow decode is_control trimmed i line
  unfolding read_columns row_of
  IsRow-of_StandsFor i line s =
      rw
        (
          s.columns,
          field-of_Holds s.a _ s.application,
          field-of_Holds s.b _ s.ref,
          field-of_Holds s.c _ s.installation,
          test-of_IsReference i.ref s.of_application,
          (equal_iff remmina_application_id remmina_application_id).1 refl,
        )
        refl
