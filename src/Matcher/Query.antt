-- ===== src/Matcher/Query.antt =====
-- The tokens of a query are its words, and when a query is ignored.
use remmina_krunner.Base.{
  ℕ, zero, suc, ◌≤◌, ◌<◌, Text, codes, equal, equal_iff, ne_of_equal-false, length, drop, List, [],
  ◌∷◌, ◌++◌, map, is_empty, if◌then◌else◌, Bool, true, false, ◌&&◌, ◌≡◌, ◌≢◌, ◌⊎◌, inl, inr, refl,
  sym, ◌∙◌, ap, arith, Bool-cases, All, All-append,
}
use mathlib.Core.List.{append_assoc, append-nil}
use remmina_krunner.Matcher.{
  ParsedQuery, create, lookup, ignored_query, classify, skip_spaces, token_at, after_token,
  tokens_from, parse_runner_query,
}

module _ (is_space : ℕ → Bool) where
  -- The words of a text, in one pass: `current` is the word that is being read.
  abbrev flush : Text → List Text → List Text
  flush [] rest = rest
  flush (c ∷ cs) rest = (c ∷ cs) ∷ rest

  pub words_from : Text → Text → List Text
  words_from current [] = flush current []
  words_from current (c ∷ rest) =
      let here = words_from [] rest in
      let on = words_from (current ++ c ∷ []) rest in if is_space c then flush current here else on

  abbrev pub words : Text → List Text
  words = words_from []

  words-nil : words [] ≡ []
  unfolding words_from
  words-nil = refl

  words_from-token :
      (c : ℕ) (cs text : Text)
      → words_from (c ∷ cs) text
        ≡ (c ∷ (cs ++ token_at is_space text)) ∷ words (after_token is_space text)
  unfolding words_from token_at after_token
  words_from-token c cs [] = simp append-nil
  words_from-token c cs (d ∷ text) = elim (Bool-cases (is_space d)) [
    | inl h ↦ simp (h, append-nil)
    | inr h ↦ simp h (words_from-token c (cs ++ d ∷ []) text ∙ rw append_assoc)
  ]

  words-skip_spaces : (text : Text) → words (skip_spaces is_space text) ≡ words text
  unfolding words_from skip_spaces
  words-skip_spaces [] = refl
  words-skip_spaces (c ∷ text) = ground (arith, words-skip_spaces text)

  length-skip_spaces : (text : Text) → length (skip_spaces is_space text) ≤ length text
  unfolding skip_spaces
  length-skip_spaces [] = omega arith
  length-skip_spaces (c ∷ text) = ground (arith, length-skip_spaces text)

  length-after_token : (text : Text) → length (after_token is_space text) ≤ length text
  unfolding after_token
  length-after_token [] = omega arith
  length-after_token (c ∷ text) = ground (arith, length-after_token text)

  skip_spaces-cases :
      (text : Text)
      → (skip_spaces is_space text ≡ [])
        ⊎ ((c : ℕ) × (rest : Text) × (skip_spaces is_space text ≡ c ∷ rest) × (is_space c ≡ false))
  unfolding skip_spaces
  skip_spaces-cases [] = inl refl
  skip_spaces-cases (c ∷ text) = elim (Bool-cases (is_space c)) [
    | inl h ↦ rw h (skip_spaces-cases text)
    | inr h ↦ rw h (inr (c, text, refl, h))
  ]

  -- A word is not empty and holds no white space.
  abbrev pub IsWord : Text → Type 0
  IsWord w = (w ≢ []) × All (λ c. is_space c ≡ false) w

  All-snoc :
      (w : Text) (c : ℕ)
      → All (λ c. is_space c ≡ false) w
      → is_space c ≡ false
      → All (λ c. is_space c ≡ false) (w ++ c ∷ [])
  All-snoc w c h k = All-append (λ c. is_space c ≡ false) w (c ∷ []) h (k, tt)

  flush-IsWord :
      (w : Text) (l : List Text)
      → All (λ c. is_space c ≡ false) w
      → All IsWord l
      → All IsWord (flush w l)
  flush-IsWord [] l h k = k
  flush-IsWord (c ∷ w) l h k = (((λ e. cc), h), k)

  words_from-IsWord :
      (current text : Text)
      → All (λ c. is_space c ≡ false) current
      → All IsWord (words_from current text)
  unfolding words_from
  words_from-IsWord current [] h = flush-IsWord current [] h tt
  words_from-IsWord current (c ∷ text) h = elim (Bool-cases (is_space c)) [
    | inl e ↦ rw e (flush-IsWord current _ h (words_from-IsWord [] text tt))
    | inr e ↦ rw e (words_from-IsWord (current ++ c ∷ []) text (All-snoc current c h e))
  ]

  words_at :
      (d : ℕ) (rest : Text)
      → is_space d ≡ false
      → words (d ∷ rest) ≡ (d ∷ token_at is_space rest) ∷ words (after_token is_space rest)
  unfolding words_from
  words_at d rest n = rw n (words_from-token d [] rest)

  words_skipped :
      (text skipped : Text) → skip_spaces is_space text ≡ skipped → words text ≡ words skipped
  words_skipped text skipped e = sym (words-skip_spaces text) ∙ ap words e

module _ (is_space : ℕ → Bool) (fold : Text → Text) where
  tokens_from-nil : (fuel : ℕ) → tokens_from is_space fold fuel [] ≡ []
  unfolding tokens_from
  tokens_from-nil zero = refl
  tokens_from-nil (suc fuel) = refl

  -- One round of the loop.
  tokens_from-step :
      (fuel : ℕ) (c : ℕ) (text skipped : Text)
      → skip_spaces is_space (c ∷ text) ≡ skipped
      → tokens_from is_space fold (suc fuel) (c ∷ text) ≡ (
          if is_empty (token_at is_space skipped)
          then tokens_from is_space fold fuel (after_token is_space skipped)
          else fold (token_at is_space skipped)
            ∷ tokens_from is_space fold fuel (after_token is_space skipped))
  unfolding tokens_from
  tokens_from-step fuel c text skipped e = rw (← e)

  step_blank :
      (fuel : ℕ)
      → (if is_empty (token_at is_space [])
          then tokens_from is_space fold fuel (after_token is_space [])
          else fold (token_at is_space [])
            ∷ tokens_from is_space fold fuel (after_token is_space []))
        ≡ []
  unfolding token_at after_token
  step_blank fuel = tokens_from-nil fuel

  step_token :
      (fuel : ℕ) (d : ℕ) (rest : Text)
      → is_space d ≡ false
      → (if is_empty (token_at is_space (d ∷ rest))
          then tokens_from is_space fold fuel (after_token is_space (d ∷ rest))
          else fold (token_at is_space (d ∷ rest))
            ∷ tokens_from is_space fold fuel (after_token is_space (d ∷ rest)))
        ≡ fold (d ∷ token_at is_space rest)
          ∷ tokens_from is_space fold fuel (after_token is_space rest)
  unfolding token_at after_token
  step_token fuel d rest n = rw n

  shorter :
      (c : ℕ) (text : Text) (d : ℕ) (rest : Text) (fuel : ℕ)
      → skip_spaces is_space (c ∷ text) ≡ d ∷ rest
      → length (c ∷ text) < suc fuel
      → length (after_token is_space rest) < fuel
  shorter c text d rest fuel e h =
      omega (
        arith,
        ap length e,
        length-skip_spaces is_space (c ∷ text),
        length-after_token is_space rest,
      )

  -- With more fuel than code units the loop reads the words, folded, up to the end of the text.
  pub tokens_from-words :
      (fuel : ℕ) (text : Text)
      → length text < fuel
      → tokens_from is_space fold fuel text ≡ map fold (words is_space text)
  tokens_from-words zero text h = absurd (omega arith)
  tokens_from-words (suc fuel) [] h =
      tokens_from-nil (suc fuel) ∙ ap (map fold) (sym (words-nil is_space))
  tokens_from-words (suc fuel) (c ∷ text) h = elim (skip_spaces-cases is_space (c ∷ text)) [
    | inl e ↦
        tokens_from-step fuel c text [] e
        ∙ step_blank fuel
        ∙ ap (map fold) (sym (words_skipped is_space (c ∷ text) [] e ∙ words-nil is_space))
    | inr (d, rest, e, n) ↦
        tokens_from-step fuel c text (d ∷ rest) e
        ∙ step_token fuel d rest n
        ∙ ap (◌∷◌ (fold (d ∷ token_at is_space rest)))
            (tokens_from-words fuel (after_token is_space rest) (shorter c text d rest fuel e h))
        ∙ ap (map fold)
            (sym (words_skipped is_space (c ∷ text) (d ∷ rest) e ∙ words_at is_space d rest n))
  ]

  -- The trigger word, and a white space behind it.
  abbrev pub Triggered : Text → Type 0
  Triggered (a ∷ b ∷ d ∷ c ∷ rest) = (fold (a ∷ b ∷ d ∷ []) ≡ codes "rem") × (is_space c ≡ true)
  Triggered _ = ⊥

  -- What a query is read as.
  pub data Reads (query : Text) (p : ParsedQuery) : Type 0 where
    untriggered : ¬ Triggered query → p ≡ ignored_query → Reads query p
    blank : Triggered query → words is_space (drop 3 query) ≡ [] → p ≡ ignored_query → Reads query p
    creates :
        Triggered query
        → map fold (words is_space (drop 3 query)) ≡ codes "new" ∷ []
        → p ≡ record { kind = create; tokens = [] }
        → Reads query p
    looks_up :
        (tokens : List Text)
        → Triggered query
        → map fold (words is_space (drop 3 query)) ≡ tokens
        → tokens ≢ []
        → tokens ≢ codes "new" ∷ []
        → p ≡ record { kind = lookup; tokens = tokens }
        → Reads query p

  map-nil : (l : List Text) → map fold l ≡ [] → l ≡ []
  map-nil [] e = refl
  map-nil (x ∷ l) e = cc

  classify-Reads :
      (query : Text) (tokens : List Text)
      → Triggered query
      → map fold (words is_space (drop 3 query)) ≡ tokens
      → Reads query (classify tokens)
  unfolding classify
  classify-Reads query [] t e = blank t (map-nil _ e) refl
  classify-Reads query (w ∷ []) t e = elim (Bool-cases (equal w (codes "new"))) [
    | inl h ↦ rw h (creates t (e ∙ ap (λ x. x ∷ []) ((equal_iff w (codes "new")).0 h)) refl)
    | inr h ↦
        rw h (looks_up (w ∷ []) t e (λ z. cc) (λ z. ne_of_equal-false w (codes "new") h (cc)) refl)
  ]
  classify-Reads query (w ∷ x ∷ l) t e = looks_up (w ∷ x ∷ l) t e (λ z. cc) (λ z. cc) refl

  parse_long :
      (a b d c : ℕ) (rest : Text)
      → parse_runner_query is_space fold (a ∷ b ∷ d ∷ c ∷ rest) ≡ (
          if equal (fold (a ∷ b ∷ d ∷ [])) (codes "rem") && is_space c
          then classify (tokens_from is_space fold (suc (length (a ∷ b ∷ d ∷ c ∷ rest))) (c ∷ rest))
          else ignored_query)
  unfolding parse_runner_query
  parse_long a b d c rest = ground arith

  -- The reading of every query: with the trigger word and white space the folded words behind it
  -- decide, and without them the query is ignored.
  pub parse_runner_query-Reads :
      (query : Text) → Reads query (parse_runner_query is_space fold query)
  parse_runner_query-Reads (a ∷ b ∷ d ∷ c ∷ rest) =
      rw (parse_long a b d c rest)
        (elim (Bool-cases (equal (fold (a ∷ b ∷ d ∷ [])) (codes "rem"))) [
          | inl w ↦ elim (Bool-cases (is_space c)) [
            | inl s ↦
                rw (w, s)
                  (classify-Reads _ _ ((equal_iff _ _).0 w, s)
                    (sym (
                      tokens_from-words (suc (length (a ∷ b ∷ d ∷ c ∷ rest))) (c ∷ rest)
                        (omega arith))))
            | inr s ↦ rw (w, s) (untriggered (λ t. cc (t.1, s)) refl)
          ]
          | inr w ↦ rw w (untriggered (λ t. ne_of_equal-false _ _ w t.0) refl)
        ])
  parse_runner_query-Reads q = untriggered (λ t. t) (unfold parse_runner_query in ground arith)
