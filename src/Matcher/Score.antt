-- ===== src/Matcher/Score.antt =====
-- When a profile matches, and with which relevance.
use remmina_krunner.Base.{
  ℕ, ◌≤◌, ◌<◌, min, max, Text, equal, equal_iff, false, ◌≢◌, All-map, subst, starts_with,
  contains_text, List, [], ◌∷◌, some, true, ◌==◌, ◌≡◌, ◌↔◌, ◌⊎◌, inl, inr, refl, arith, Bool-cases,
  All, Some, Some-map,
}
use remmina_krunner.Matcher.{relationship_score, best_score, relevance_of, exact_score}

starts_with_self : (a : Text) → starts_with a a ≡ true
unfolding starts_with
starts_with_self [] = refl
starts_with_self (x ∷ a) = ground (arith, starts_with_self a)

starts-contains : (f t : Text) → starts_with f t ≡ true → contains_text f t ≡ true
unfolding contains_text
starts-contains [] t h = h
starts-contains (x ∷ f) t h = rw h refl

-- A field scores a token exactly when it contains it.
pub relationship_score_pos :
    (f t : Text) → (0 < relationship_score f t) ↔ (contains_text f t ≡ true)
unfolding relationship_score
relationship_score_pos f t = ground (arith, starts-contains f t, equal_iff f t, starts_with_self f)

relationship_score_le : (f t : Text) → relationship_score f t ≤ 100
unfolding relationship_score
relationship_score_le f t = ground arith

best_score_ge : (fields : List Text) (b : ℕ) (t : Text) → b ≤ best_score b fields t
unfolding best_score
best_score_ge [] b t = omega arith
best_score_ge (f ∷ fields) b t =
    omega (arith, best_score_ge fields (max b (relationship_score f t)) t)

best_score-All :
    (fields : List Text) (b : ℕ) (t : Text)
    → All (λ f. relationship_score f t ≤ best_score b fields t) fields
unfolding best_score
best_score-All [] b t = tt
best_score-All (f ∷ fields) b t = (
  omega (arith, best_score_ge fields (max b (relationship_score f t)) t),
  best_score-All fields (max b (relationship_score f t)) t,
)

best_score-Some :
    (fields : List Text) (b : ℕ) (t : Text)
    → (best_score b fields t ≡ b)
      ⊎ Some (λ f. relationship_score f t ≡ best_score b fields t) fields
unfolding best_score
best_score-Some [] b t = inl refl
best_score-Some (f ∷ fields) b t =
    ground (arith, best_score-Some fields (max b (relationship_score f t)) t)

-- Some field contains the token.
abbrev pub Occurs : List Text → Text → Type 0
Occurs fields t = Some (λ f. contains_text f t ≡ true) fields

Occurs-of_pos :
    (fields : List Text) (t : Text) (s : ℕ)
    → 0 < s
    → Some (λ f. relationship_score f t ≡ s) fields
    → Occurs fields t
Occurs-of_pos fields t s h = Some-map (λ f e. (relationship_score_pos f t).0 (omega arith)) fields

pos-of_Occurs :
    (fields : List Text) (t : Text) (s : ℕ)
    → All (λ f. relationship_score f t ≤ s) fields
    → Occurs fields t
    → 0 < s
pos-of_Occurs [] t s h o = absurd o
pos-of_Occurs (f ∷ fields) t s h (inl c) = omega (arith, (relationship_score_pos f t).1 c)
pos-of_Occurs (f ∷ fields) t s h (inr o) = pos-of_Occurs fields t s h.1 o

best_score-Occurs : (fields : List Text) (t : Text) → (0 < best_score 0 fields t) ↔ Occurs fields t
best_score-Occurs fields t = (
  λ h. elim (best_score-Some fields 0 t) [
    | inl z ↦ absurd (omega arith)
    | inr s ↦ Occurs-of_pos fields t _ h s
  ],
  pos-of_Occurs fields t _ (best_score-All fields 0 t),
)

-- What a field scores for a token: 1 when it is the token, 0.9 when it starts with it, 0.75 when it
-- contains it elsewhere only, and 0 otherwise, in hundredths.
pub data Grade (field token : Text) (score : ℕ) : Type 0 where
  exactly : field ≡ token → score ≡ 100 → Grade field token score
  in_front : field ≢ token → starts_with field token ≡ true → score ≡ 90 → Grade field token score
  inside :
      starts_with field token ≡ false
      → contains_text field token ≡ true
      → score ≡ 75
      → Grade field token score
  nowhere : contains_text field token ≡ false → score ≡ 0 → Grade field token score

relationship_score-Grade : (f t : Text) → Grade f t (relationship_score f t)
unfolding relationship_score
relationship_score-Grade f t = elim (Bool-cases (equal f t)) [
  | inl e ↦ rw e (exactly ((equal_iff f t).0 e) refl)
  | inr e ↦ elim (Bool-cases (starts_with f t)) [
    | inl s ↦ rw (e, s) (in_front (λ z. cc ((equal_iff f t).1 z, e)) s refl)
    | inr s ↦ elim (Bool-cases (contains_text f t)) [
      | inl c ↦ rw (e, s, c) (inside s c refl)
      | inr c ↦ rw (e, s, c) (nowhere c refl)
    ]
  ]
]

-- The highest score of the fields for a token that one of them contains.
pub record IsBest (best : ℕ) (fields : List Text) (token : Text) : Type 0 where
  pub bounds : All (λ f. (s : ℕ) × Grade f token s × (s ≤ best)) fields
  pub reached : Some (λ f. Grade f token best) fields
  pub positive : 0 < best

graded-All :
    (fields : List Text) (t : Text) (b : ℕ)
    → All (λ f. relationship_score f t ≤ b) fields
    → All (λ f. (s : ℕ) × Grade f t s × (s ≤ b)) fields
graded-All fields t b =
    All-map (λ f h. (relationship_score f t, relationship_score-Grade f t, h)) fields

graded-Some :
    (fields : List Text) (t : Text) (b : ℕ)
    → Some (λ f. relationship_score f t ≡ b) fields
    → Some (λ f. Grade f t b) fields
graded-Some fields t b = Some-map (λ f e. subst (Grade f t) e (relationship_score-Grade f t)) fields

best_score-IsBest :
    (fields : List Text) (t : Text) → Occurs fields t → IsBest (best_score 0 fields t) fields t
best_score-IsBest fields t o =
    let positive = (best_score-Occurs fields t).1 o in
    record {
      bounds = graded-All fields t _ (best_score-All fields 0 t);
      reached = elim (best_score-Some fields 0 t) [
        | inl z ↦ absurd (omega (arith, z, positive))
        | inr s ↦ graded-Some fields t _ s
      ];
      positive = positive;
    }

best_score_le : (fields : List Text) (b : ℕ) (t : Text) → b ≤ 100 → best_score b fields t ≤ 100
unfolding best_score
best_score_le [] b t h = h
best_score_le (f ∷ fields) b t h =
    best_score_le fields (max b (relationship_score f t)) t
      (omega (arith, h, relationship_score_le f t))

-- The relevance `r` of a profile with these fields: every token has a best score, which `r` does not
-- exceed, and for one of the tokens it is `r`.
pub record Relevance (r : ℕ) (fields tokens : List Text) : Type 0 where
  pub least : All (λ t. (s : ℕ) × IsBest s fields t × (r ≤ s)) tokens
  pub reached : Some (λ t. IsBest r fields t) tokens

relevance_some :
    (tokens : List Text) (a : ℕ) (fields : List Text) (r : ℕ)
    → relevance_of a fields tokens ≡ some r
    → All (Occurs fields) tokens
      × All (λ t. r ≤ best_score 0 fields t) tokens
      × ((r ≡ a) ⊎ Some (λ t. best_score 0 fields t ≡ r) tokens)
      × (r ≤ a)
unfolding relevance_of
relevance_some [] a fields r e = ground arith
relevance_some (t ∷ tokens) a fields r e = elim (Bool-cases (best_score 0 fields t == 0)) [
  | inl z ↦ ground arith
  | inr z ↦
      let (o, b, w, l) =
        relevance_some tokens (min a (best_score 0 fields t)) fields r (ground arith) in
      (
        ((best_score-Occurs fields t).0 (ground arith), o),
        (omega arith, b),
        ground arith,
        omega arith,
      )
]

least-All :
    (tokens : List Text) (r : ℕ) (fields : List Text)
    → All (Occurs fields) tokens
    → All (λ t. r ≤ best_score 0 fields t) tokens
    → All (λ t. (s : ℕ) × IsBest s fields t × (r ≤ s)) tokens
least-All [] r fields o h = tt
least-All (t ∷ tokens) r fields o h =
    ((_, best_score-IsBest fields t o.0, h.0), least-All tokens r fields o.1 h.1)

reached-Some :
    (tokens : List Text) (r : ℕ) (fields : List Text)
    → All (Occurs fields) tokens
    → Some (λ t. best_score 0 fields t ≡ r) tokens
    → Some (λ t. IsBest r fields t) tokens
reached-Some [] r fields o h = absurd h
reached-Some (t ∷ tokens) r fields o (inl e) =
    inl (subst (λ s. IsBest s fields t) e (best_score-IsBest fields t o.0))
reached-Some (t ∷ tokens) r fields o (inr h) = inr (reached-Some tokens r fields o.1 h)

-- A profile that is kept for some tokens has its relevance.
pub relevance_of-Relevance :
    (fields tokens : List Text) (r : ℕ)
    → tokens ≢ []
    → relevance_of exact_score fields tokens ≡ some r
    → Relevance r fields tokens
relevance_of-Relevance fields [] r n e = absurd (n refl)
relevance_of-Relevance fields (t ∷ tokens) r n e =
    let (o, b, w, l) = relevance_some (t ∷ tokens) exact_score fields r e in
    record {
      least = least-All (t ∷ tokens) r fields o b;
      reached = reached-Some (t ∷ tokens) r fields o (elim w [
        | inl z ↦ inl (omega (arith, z, b.0, best_score_le fields 0 t (omega arith)))
        | inr s ↦ s
      ]);
    }

relevance_total :
    (tokens : List Text) (a : ℕ) (fields : List Text)
    → All (Occurs fields) tokens
    → (r : ℕ) × (relevance_of a fields tokens ≡ some r)
unfolding relevance_of
relevance_total [] a fields h = (a, refl)
relevance_total (t ∷ tokens) a fields h =
    let (r, e) = relevance_total tokens (min a (best_score 0 fields t)) fields h.1 in
    (r, ground (arith, (best_score-Occurs fields t).1 h.0))

-- A profile is kept when every token occurs in one of its fields.
pub relevance_of-Occurs :
    (fields tokens : List Text)
    → All (Occurs fields) tokens
    → (r : ℕ) × (relevance_of exact_score fields tokens ≡ some r)
relevance_of-Occurs fields tokens = relevance_total tokens exact_score fields
