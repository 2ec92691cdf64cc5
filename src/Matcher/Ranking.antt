-- ===== src/Matcher/Ranking.antt =====
-- The order of the answers.
use remmina_krunner.Base.{
  compare, Ordering, All, All-map, false, ◌<◌, refl, Text, compare_text, List, [], ◌∷◌, ◌==◌, ap,
  ◌∙◌, any, is_empty, if◌then◌else◌, ◌≡◌, inl, inr, arith, Bool-cases,
}
use mathlib.Core.Path.{fun_ext}
use remmina_krunner.Base.Order.{
  IsOrder, then_by, then_by-IsOrder, compare-IsOrder, compare_text-IsOrder, on-IsOrder,
  reverse-IsOrder, flip, compare_text-eq,
}
use remmina_krunner.Base.Sort.{sort, is_lt, IsSorted, sort-IsSorted}
use remmina_krunner.Profile.{ProfileRecord}
use remmina_krunner.Matcher.{SearchMatch, before, match_profiles}

-- The three ways in which two texts compare.
data Compared (x y : Text) : Type 0 where
  smaller : compare_text x y ≡ Ordering.lt → Compared x y
  same : x ≡ y → compare_text y x ≡ Ordering.eq → Compared x y
  larger : compare_text y x ≡ Ordering.lt → Compared x y

compared : (x y : Text) → Compared x y
compared x y = go (compare_text x y) refl
  where
    go : (o : Ordering) → compare_text x y ≡ o → Compared x y
    go Ordering.lt e = smaller e
    go Ordering.eq e = same (compare_text-eq x y e) (compare_text-IsOrder.swap x y ∙ ap flip e)
    go Ordering.gt e = larger (compare_text-IsOrder.swap x y ∙ ap flip e)

module _ (fold : Text → Text) where
  -- Higher relevance first, then the folded name, the folded server and the path.
  abbrev pub compare_match : SearchMatch → SearchMatch → Ordering
  compare_match a b = then_by (compare b.relevance a.relevance) (
      then_by (compare_text (fold a.profile.name) (fold b.profile.name)) (
        then_by (compare_text (fold a.profile.server) (fold b.profile.server))
          (compare_text a.profile.source_path b.profile.source_path)))

  pub compare_match-IsOrder : IsOrder compare_match
  compare_match-IsOrder =
      then_by-IsOrder (on-IsOrder (λ m. m.relevance) (reverse-IsOrder compare-IsOrder)) (
        then_by-IsOrder (on-IsOrder (λ m. fold m.profile.name) compare_text-IsOrder) (
          then_by-IsOrder (on-IsOrder (λ m. fold m.profile.server) compare_text-IsOrder)
            (on-IsOrder (λ m. m.profile.source_path) compare_text-IsOrder)))

  before_compare : (a b : SearchMatch) → before fold a b ≡ is_lt (compare_match a b)
  unfolding before
  before_compare a b = ground arith

  before_eq : before fold ≡ (λ a b. is_lt (compare_match a b))
  before_eq = fun_ext λ a. fun_ext λ b. before_compare a b

  -- The answers are sorted, from the best on.
  sort-before-IsSorted : (l : List SearchMatch) → IsSorted (before fold) (sort (before fold) l)
  sort-before-IsSorted l = rw before_eq (sort-IsSorted compare_match-IsOrder l)

  guarded-IsSorted :
      (tokens : List Text) (l : List SearchMatch)
      → IsSorted (before fold) l
      → IsSorted
          (before fold)
          (if is_empty tokens then [] else if any is_empty tokens then [] else l)
  guarded-IsSorted tokens l h = elim (Bool-cases (is_empty tokens)) [
    | inl e ↦ rw e tt
    | inr e ↦ rw e (elim (Bool-cases (any is_empty tokens)) [ inl f ↦ rw f tt | inr f ↦ rw f h ])
  ]

  -- An answer stands in front of another one by a higher relevance, then by the folded name, then by
  -- the folded server, then by the path, or they agree in all four.
  pub data StandsBefore (a b : SearchMatch) : Type 0 where
    by_relevance : b.relevance < a.relevance → StandsBefore a b
    by_name :
        a.relevance ≡ b.relevance
        → compare_text (fold a.profile.name) (fold b.profile.name) ≡ Ordering.lt
        → StandsBefore a b
    by_server :
        a.relevance ≡ b.relevance
        → fold a.profile.name ≡ fold b.profile.name
        → compare_text (fold a.profile.server) (fold b.profile.server) ≡ Ordering.lt
        → StandsBefore a b
    by_path :
        a.relevance ≡ b.relevance
        → fold a.profile.name ≡ fold b.profile.name
        → fold a.profile.server ≡ fold b.profile.server
        → compare_text a.profile.source_path b.profile.source_path ≡ Ordering.lt
        → StandsBefore a b
    level :
        a.relevance ≡ b.relevance
        → fold a.profile.name ≡ fold b.profile.name
        → fold a.profile.server ≡ fold b.profile.server
        → a.profile.source_path ≡ b.profile.source_path
        → StandsBefore a b

  not_before-StandsBefore : (a b : SearchMatch) → before fold b a ≡ false → StandsBefore a b
  unfolding before
  not_before-StandsBefore a b h = elim (Bool-cases (b.relevance == a.relevance)) [
    | inr e ↦ by_relevance (ground arith)
    | inl e ↦ elim (compared (fold a.profile.name) (fold b.profile.name)) [
      | smaller n ↦ by_name (ground arith) n
      | larger n ↦ absurd (ground arith)
      | same m n ↦ elim (compared (fold a.profile.server) (fold b.profile.server)) [
        | smaller k ↦ by_server (ground arith) m k
        | larger k ↦ absurd (ground arith)
        | same i k ↦ elim (compared a.profile.source_path b.profile.source_path) [
          | smaller p ↦ by_path (ground arith) m i p
          | larger p ↦ absurd (ground arith)
          | same j p ↦ level (ground arith) m i j
        ]
      ]
    ]
  ]

  match_profiles-IsSorted :
      (profiles : List ProfileRecord) (tokens : List Text)
      → IsSorted (before fold) (match_profiles fold profiles tokens)
  unfolding match_profiles
  match_profiles-IsSorted profiles tokens = guarded-IsSorted tokens _ (sort-before-IsSorted _)

  -- Every answer, and not only the next one, stands behind the earlier ones.
  abbrev pub InOrder : List SearchMatch → Type 0
  InOrder [] = Unit
  InOrder (a ∷ l) = All (StandsBefore a) l × InOrder l

  InOrder-of_IsSorted : (l : List SearchMatch) → IsSorted (before fold) l → InOrder l
  InOrder-of_IsSorted [] h = tt
  InOrder-of_IsSorted (a ∷ l) h =
      (All-map (λ b. not_before-StandsBefore a b) l h.0, InOrder-of_IsSorted l h.1)

  -- Of any two answers the earlier one has the higher relevance, or with equal relevance the smaller
  -- folded name, or with equal folded names the smaller folded server, or with equal folded servers
  -- the smaller path, or they agree in all four. Texts are compared by their code units.
  pub match_profiles-InOrder :
      (profiles : List ProfileRecord) (tokens : List Text)
      → InOrder (match_profiles fold profiles tokens)
  match_profiles-InOrder profiles tokens =
      InOrder-of_IsSorted _ (match_profiles-IsSorted profiles tokens)
