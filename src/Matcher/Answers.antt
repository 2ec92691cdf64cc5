-- ===== src/Matcher/Answers.antt =====
-- Which profiles are among the answers.
use remmina_krunner.Base.{
  ℕ, Text, List, [], ◌∷◌, map, any, Option, none, some, is_empty, if◌then◌else◌, false, ◌≡◌, ◌∙◌,
  ◌≢◌, ◌⊎◌, inl, inr, refl, ap, Bool-cases, Option-cases, All, In, subst,
}
use remmina_krunner.Base.Sort.{In-sort}
use remmina_krunner.Profile.{ProfileRecord}
use remmina_krunner.Matcher.{
  SearchMatch, before, matches_of, match_profiles, relevance_of, folded_searchable_fields,
  exact_score,
}
use remmina_krunner.Matcher.Score.{Relevance, Occurs, relevance_of-Relevance, relevance_of-Occurs}

guarded_In :
    (tokens : List Text) (m : SearchMatch) (l : List SearchMatch)
    → In m (if is_empty tokens then [] else if any is_empty tokens then [] else l)
    → (tokens ≢ []) × In m l
guarded_In [] m l = λ i. absurd i
guarded_In (t ∷ tokens) m l = elim (Bool-cases (any is_empty (t ∷ tokens))) [
  | inl f ↦ rw f (λ i. absurd i)
  | inr f ↦ rw f (λ i. ((λ e. cc), i))
]

map-nonempty : (fold : Text → Text) (tokens : List Text) → tokens ≢ [] → map fold tokens ≢ []
map-nonempty fold [] n = absurd (n refl)
map-nonempty fold (t ∷ tokens) n = λ e. cc

-- One step of the loop, for any relevance `f` of profiles.
module _ (f : ProfileRecord → Option ℕ) where
  abbrev push : ProfileRecord → List SearchMatch → List SearchMatch
  push p l = elim (f p) [
    | none ↦ l
    | some relevance ↦ record { profile = p; relevance = relevance } ∷ l
  ]

  abbrev Kept : SearchMatch → Type 0
  Kept m = f m.profile ≡ some m.relevance

  push-new :
      (p : ProfileRecord) (m : SearchMatch) (l : List SearchMatch)
      → p ≡ m.profile
      → Kept m
      → In m (push p l)
  push-new p m l e k =
      rw (ap f e ∙ k, push) (inl (λ i. record { profile = e i; relevance = m.relevance }))

  push-old : (p : ProfileRecord) (m : SearchMatch) (l : List SearchMatch) → In m l → In m (push p l)
  push-old p m l i = elim (Option-cases (f p)) [
    | inl e ↦ rw (e, push) i
    | inr (r, e) ↦ rw (e, push) (inr i)
  ]

  push-cases :
      (p : ProfileRecord) (m : SearchMatch) (l : List SearchMatch)
      → In m (push p l)
      → ((p ≡ m.profile) × Kept m) ⊎ In m l
  push-cases p m l = elim (Option-cases (f p)) [
    | inl e ↦ rw (e, push) (λ i. inr i)
    | inr (r, e) ↦
        rw (e, push)
          (λ i. elim i [
            | inl same ↦ inl (ap (λ x. x.profile) same, subst Kept same e)
            | inr i ↦ inr i
          ])
  ]

module _ (fold : Text → Text) (tokens : List Text) where
  abbrev relevance_in : ProfileRecord → Option ℕ
  relevance_in p = relevance_of exact_score (folded_searchable_fields fold p) tokens

  -- What the loop over the profiles keeps.
  matches_of-of_In :
      (m : SearchMatch) (profiles : List ProfileRecord)
      → In m (matches_of fold profiles tokens)
      → In m.profile profiles × (relevance_in m.profile ≡ some m.relevance)
  unfolding matches_of
  matches_of-of_In m [] i = absurd i
  matches_of-of_In m (p ∷ profiles) i = elim (push-cases relevance_in p m _ i) [
    | inl (e, k) ↦ (inl e, k)
    | inr j ↦ let (a, k) = matches_of-of_In m profiles j in (inr a, k)
  ]

  In-matches_of :
      (m : SearchMatch) (profiles : List ProfileRecord)
      → In m.profile profiles
      → relevance_in m.profile ≡ some m.relevance
      → In m (matches_of fold profiles tokens)
  unfolding matches_of
  In-matches_of m [] i k = absurd i
  In-matches_of m (p ∷ profiles) (inl e) k = push-new relevance_in p m _ e k
  In-matches_of m (p ∷ profiles) (inr i) k =
      push-old relevance_in p m _ (In-matches_of m profiles i k)

-- Every answer is one of the profiles. A token scores 1 in a folded field that is the token, 0.9 in one
-- that starts with it, 0.75 in one that contains it elsewhere only, and 0 in any other; its best score
-- is the highest over the fields of the profile, and above 0. The relevance of the answer is the
-- smallest of the best scores of the folded tokens.
pub match_profiles_sound :
    (fold : Text → Text) (profiles : List ProfileRecord) (tokens : List Text) (m : SearchMatch)
    → In m (match_profiles fold profiles tokens)
    → In m.profile profiles
      × Relevance m.relevance
          (fold m.profile.name ∷ fold m.profile.server ∷ map fold m.profile.labels)
          (map fold tokens)
unfolding match_profiles folded_searchable_fields
match_profiles_sound fold profiles tokens m i =
    let (n, j) = guarded_In tokens m _ i in
    let (a, k) =
      matches_of-of_In fold (map fold tokens) m profiles ((In-sort (before fold) m _).0 j) in
    (a, relevance_of-Relevance _ _ m.relevance (map-nonempty fold tokens n) k)

-- Every profile in one of whose folded fields each folded token occurs is among the answers,
-- if there is a token and none is empty.
pub match_profiles_complete :
    (fold : Text → Text) (profiles : List ProfileRecord) (tokens : List Text) (p : ProfileRecord)
    → tokens ≢ []
    → any is_empty tokens ≡ false
    → In p profiles
    → All (Occurs (folded_searchable_fields fold p)) (map fold tokens)
    → (r : ℕ) × In (record { profile = p; relevance = r }) (match_profiles fold profiles tokens)
unfolding match_profiles
match_profiles_complete fold profiles [] p n f i o = absurd (n refl)
match_profiles_complete fold profiles (t ∷ tokens) p n f i o =
    let (r, k) = relevance_of-Occurs _ (map fold (t ∷ tokens)) o in
    (
      r,
      rw f (
          (In-sort (before fold) _ _).1 (
            In-matches_of fold (map fold (t ∷ tokens)) (record { profile = p; relevance = r })
              profiles i k)),
    )
