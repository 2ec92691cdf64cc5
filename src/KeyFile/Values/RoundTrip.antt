-- ===== src/KeyFile/Values/RoundTrip.antt =====
-- Values are read back as they were written.
use mathlib.Core.List.{append_assoc, append-nil}
use remmina_krunner.Base.{
  ℕ, Text, [], ◌∷◌, ◌++◌, none, some, true, false, ◌==◌, ◌≡◌, ◌↔◌, inl, inr, refl, arith,
  Bool-cases, ◌∙◌, ap, sym, Option-cases, ==_iff, subst,
}
use remmina_krunner.KeyFile.Values.{unescape, decode_from, decode_value}

-- The five escapes of the key file format, each with the byte that it means.
pub data Escape (mark b : ℕ) : Type 0 where
  space : mark ≡ b's' → b ≡ 32 → Escape mark b
  line_feed : mark ≡ b'n' → b ≡ 10 → Escape mark b
  tabulator : mark ≡ b't' → b ≡ 9 → Escape mark b
  carriage_return : mark ≡ b'r' → b ≡ 13 → Escape mark b
  backslash : mark ≡ b'\\' → b ≡ b'\\' → Escape mark b

unescape-of_Escape : {m b : ℕ} → Escape m b → unescape m ≡ some b
unfolding unescape
unescape-of_Escape (space e f) = rw (e, f)
unescape-of_Escape (line_feed e f) = rw (e, f)
unescape-of_Escape (tabulator e f) = rw (e, f)
unescape-of_Escape (carriage_return e f) = rw (e, f)
unescape-of_Escape (backslash e f) = rw (e, f)

-- An escape that the switch knows is one of the five.
Escape-of_unescape : (m b : ℕ) → unescape m ≡ some b → Escape m b
unfolding unescape
Escape-of_unescape m b h = elim (Bool-cases (m == b's')) [
  | inl e ↦ space ((==_iff m _).0 e) (ground arith)
  | inr e ↦ elim (Bool-cases (m == b'n')) [
    | inl f ↦ line_feed ((==_iff m _).0 f) (ground arith)
    | inr f ↦ elim (Bool-cases (m == b't')) [
      | inl g ↦ tabulator ((==_iff m _).0 g) (ground arith)
      | inr g ↦ elim (Bool-cases (m == b'r')) [
        | inl i ↦ carriage_return ((==_iff m _).0 i) (ground arith)
        | inr i ↦ elim (Bool-cases (m == b'\\')) [
          | inl j ↦ backslash ((==_iff m _).0 j) (ground arith)
          | inr j ↦ absurd (ground arith)
        ]
      ]
    ]
  ]
]

-- A value as a writer of key files may have escaped it: each byte as it stands, which a
-- backslash does not, or as one of the escapes.
pub data Written : Text → Text → Type 0 where
  done : Written [] []
  plainly :
      {b : ℕ} {value encoded : Text}
      → (b == b'\\') ≡ false
      → Written value encoded
      → Written (b ∷ value) (b ∷ encoded)
  escaped :
      {b mark : ℕ} {value encoded : Text}
      → Escape mark b
      → Written value encoded
      → Written (b ∷ value) (b'\\' ∷ mark ∷ encoded)

none≢some : {v : Text} → ¬ (none ≡ some v)
none≢some e = cc

decode-plain :
    (out : Text) (c : ℕ) (rest : Text)
    → (c == b'\\') ≡ false
    → decode_from out (c ∷ rest) ≡ decode_from (out ++ c ∷ []) rest
unfolding decode_from
decode-plain out c [] h = ground arith
decode-plain out c (d ∷ rest) h = ground arith

decode-escape :
    (out : Text) (m b : ℕ) (rest : Text)
    → unescape m ≡ some b
    → decode_from out (b'\\' ∷ m ∷ rest) ≡ decode_from (out ++ b ∷ []) rest
unfolding decode_from
decode-escape out m b rest h = rw h

decode-Written :
    {value encoded : Text} (out : Text)
    → Written value encoded
    → decode_from out encoded ≡ some (out ++ value)
decode-Written out done = unfold decode_from in rw append-nil
decode-Written out (plainly {b} h w) =
    decode-plain out b _ h ∙ decode-Written (out ++ b ∷ []) w ∙ ap some (append_assoc out _ _)
decode-Written out (escaped {b} {mark} h w) =
    decode-escape out mark b _ (unescape-of_Escape h)
    ∙ decode-Written (out ++ b ∷ []) w
    ∙ ap some (append_assoc out _ _)

abbrev Reads : Text → Text → Text → Type 0
Reads out encoded r = (value : Text) × Written value encoded × (r ≡ out ++ value)

Reads-plainly :
    (out : Text) (b : ℕ) (encoded r : Text)
    → (b == b'\\') ≡ false
    → Reads (out ++ b ∷ []) encoded r
    → Reads out (b ∷ encoded) r
Reads-plainly out b encoded r h (v, w, e) = (b ∷ v, plainly h w, e ∙ append_assoc out _ _)

Reads-escaped :
    (out : Text) (m b : ℕ) (encoded r : Text)
    → unescape m ≡ some b
    → Reads (out ++ b ∷ []) encoded r
    → Reads out (b'\\' ∷ m ∷ encoded) r
Reads-escaped out m b encoded r h (v, w, e) =
    (b ∷ v, escaped (Escape-of_unescape m b h) w, e ∙ append_assoc out _ _)

decode-dangling : (out : Text) → decode_from out (b'\\' ∷ []) ≡ none
unfolding decode_from
decode-dangling out = refl

decode-unknown :
    (out : Text) (m : ℕ) (rest : Text)
    → unescape m ≡ none
    → decode_from out (b'\\' ∷ m ∷ rest) ≡ none
unfolding decode_from
decode-unknown out m rest h = rw h

slash : (c : ℕ) → (c == b'\\') ≡ true → b'\\' ≡ c
slash c h = omega (arith, (==_iff c b'\\').0 h)

decode-Reads : (encoded out r : Text) → decode_from out encoded ≡ some r → Reads out encoded r
decode-Reads [] out r e = ([], done, unfold decode_from in ground (arith, append-nil out))
decode-Reads (c ∷ []) out r e = elim (Bool-cases (c == b'\\')) [
  | inr h ↦
      Reads-plainly out c [] r h
        (decode-Reads [] (out ++ c ∷ []) r (sym (decode-plain out c [] h) ∙ e))
  | inl h ↦
      absurd
        (none≢some (sym (decode-dangling out) ∙ ap (λ x. decode_from out (x ∷ [])) (slash c h) ∙ e))
]
decode-Reads (c ∷ m ∷ rest) out r e = elim (Bool-cases (c == b'\\')) [
  | inr h ↦
      Reads-plainly out c (m ∷ rest) r h
        (decode-Reads (m ∷ rest) (out ++ c ∷ []) r (sym (decode-plain out c (m ∷ rest) h) ∙ e))
  | inl h ↦
      let e' = ap (λ x. decode_from out (x ∷ m ∷ rest)) (slash c h) ∙ e in
      subst (λ x. Reads out (x ∷ m ∷ rest) r) (slash c h)
        (elim (Option-cases (unescape m)) [
          | inl u ↦ absurd (none≢some (sym (decode-unknown out m rest u) ∙ e'))
          | inr (b, u) ↦
              Reads-escaped out m b rest r u
                (decode-Reads rest (out ++ b ∷ []) r (sym (decode-escape out m b rest u) ∙ e'))
        ])
]

-- A value decodes exactly when it is a way to write some bytes, each as it stands or as one of the
-- escapes of a space, a line feed, a tabulator, a carriage return and a backslash, and then to the
-- text that these bytes encode. So a backslash before anything else makes it fail, and nothing else.
pub decode_value_iff :
    (from_utf8 : Text → Text) (encoded text : Text)
    → (decode_value from_utf8 encoded ≡ some text)
      ↔ ((value : Text) × Written value encoded × (from_utf8 value ≡ text))
decode_value_iff from_utf8 encoded text = (
  λ e. elim (Option-cases (decode_from [] encoded)) [
    | inl n ↦ absurd (refuted n e)
    | inr (r, d) ↦ let (v, w, q) = decode-Reads encoded [] r d in (v, w, cc (decoded v w, e))
  ],
  λ h. decoded h.0 h.1 ∙ ap some h.2,
)
  where
    refuted : decode_from [] encoded ≡ none → decode_value from_utf8 encoded ≡ some text → ⊥
    refuted n e = none≢some {v = text} (unfold decode_value in rw n at e)

    decoded : (v : Text) → Written v encoded → decode_value from_utf8 encoded ≡ some (from_utf8 v)
    decoded v w = unfold decode_value in rw (decode-Written [] w)
