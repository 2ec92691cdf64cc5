-- ===== src/Matcher.antt =====
-- src/core/matcher.cpp: the query that the launcher types, and the profiles that answer it.
-- `QChar::isSpace` and `QString::toCaseFolded` are Qt's, and parameters here. The four scores are
-- written in hundredths; they are only compared.
pub mod Query
pub mod Score
pub mod Ranking
pub mod Answers
use remmina_krunner.Base.{
  ℕ, zero, suc, min, max, Ordering, Text, codes, equal, starts_with, contains_text, compare_text,
  length, take, drop, List, [], ◌∷◌, ◌++◌, map, any, Option, none, some, is_empty, if◌then◌else◌,
  Bool, true, false, not, ◌&&◌, ◌||◌, ◌==◌, ltb,
}
use remmina_krunner.Base.Sort.{sort, is_lt}
use remmina_krunner.Profile.{ProfileRecord}

pub data QueryKind : Type 0 where
  ignore create lookup : QueryKind

pub record ParsedQuery : Type 0 where
  pub kind : QueryKind
  pub tokens : List Text

abbrev pub ignored_query : ParsedQuery
ignored_query = record { kind = ignore; tokens = [] }

pub record SearchMatch : Type 0 where
  pub profile : ProfileRecord
  pub relevance : ℕ

abbrev pub exact_score : ℕ
exact_score = 100

abbrev pub prefix_score : ℕ
prefix_score = 90

abbrev pub substring_score : ℕ
substring_score = 75

-- The end of `parseRunnerQuery`, on the tokens.
unfoldable pub classify : List Text → ParsedQuery
classify [] = ignored_query
classify (token ∷ []) =
    if equal token (codes "new")
    then record { kind = create; tokens = [] }
    else record { kind = lookup; tokens = token ∷ [] }
classify (token ∷ next ∷ rest) = record { kind = lookup; tokens = token ∷ next ∷ rest }

-- The query behind the first white space; `position` is the suffix that is still to be read.
module _ (is_space : ℕ → Bool) where
  unfoldable pub skip_spaces : Text → Text
  skip_spaces [] = []
  skip_spaces (c ∷ rest) = if is_space c then skip_spaces rest else c ∷ rest

  unfoldable pub token_at : Text → Text
  token_at [] = []
  token_at (c ∷ rest) = if is_space c then [] else c ∷ token_at rest

  unfoldable pub after_token : Text → Text
  after_token [] = []
  after_token (c ∷ rest) = if is_space c then c ∷ rest else after_token rest

module _ (is_space : ℕ → Bool) (fold : Text → Text) where
  -- The loop over the positions; the fuel is the length of the query and one.
  unfoldable pub tokens_from : ℕ → Text → List Text
  tokens_from zero text = []
  tokens_from (suc fuel) text =
      let token = token_at is_space (skip_spaces is_space text) in
      let rest = tokens_from fuel (after_token is_space (skip_spaces is_space text)) in
      if is_empty text then [] else if is_empty token then rest else fold token ∷ rest

  -- `query.at(triggerLength).isSpace()`, on the text from there.
  abbrev pub is_separated : Text → Bool
  is_separated [] = false
  is_separated (c ∷ rest) = is_space c

  unfoldable pub parse_runner_query : Text → ParsedQuery
  parse_runner_query query =
      if ltb (length query) 3 || not (equal (fold (take 3 query)) (codes "rem"))
      then ignored_query
      else if length query == 3
      then ignored_query
      else if not (is_separated (drop 3 query))
      then ignored_query
      else classify (tokens_from (suc (length query)) (drop 3 query))

unfoldable pub relationship_score : Text → Text → ℕ
relationship_score field token =
    if equal field token
    then exact_score
    else if starts_with field token
    then prefix_score
    else if contains_text field token
    then substring_score
    else 0

-- The inner loop over the fields.
unfoldable pub best_score : ℕ → List Text → Text → ℕ
best_score best [] token = best
best_score best (field ∷ rest) token =
    best_score (max best (relationship_score field token)) rest token

-- The loop over the tokens, which breaks at the first that no field matches.
unfoldable pub relevance_of : ℕ → List Text → List Text → Option ℕ
relevance_of relevance fields [] = some relevance
relevance_of relevance fields (token ∷ rest) =
    let best = best_score 0 fields token in
    let later = relevance_of (min relevance best) fields rest in if best == 0 then none else later

module _ (fold : Text → Text) where
  unfoldable pub folded_searchable_fields : ProfileRecord → List Text
  folded_searchable_fields profile =
      fold profile.name ∷ fold profile.server ∷ map fold profile.labels

  -- The loop over the profiles.
  unfoldable pub matches_of : List ProfileRecord → List Text → List SearchMatch
  matches_of [] tokens = []
  matches_of (profile ∷ rest) tokens =
      let matches = matches_of rest tokens in
      elim (relevance_of exact_score (folded_searchable_fields profile) tokens) [
        | none ↦ matches
        | some relevance ↦ record { profile = profile; relevance = relevance } ∷ matches
      ]

  -- The comparison that the sort is given.
  unfoldable pub before : SearchMatch → SearchMatch → Bool
  before left right =
      let name_order = compare_text (fold left.profile.name) (fold right.profile.name) in
      let server_order = compare_text (fold left.profile.server) (fold right.profile.server) in
      let path_order = is_lt (compare_text left.profile.source_path right.profile.source_path) in
      if not (left.relevance == right.relevance)
      then ltb right.relevance left.relevance
      else elim name_order [
        | Ordering.lt ↦ true
        | Ordering.gt ↦ false
        | Ordering.eq ↦ elim server_order [
          | Ordering.lt ↦ true
          | Ordering.gt ↦ false
          | Ordering.eq ↦ path_order
        ]
      ]

  unfoldable pub match_profiles : List ProfileRecord → List Text → List SearchMatch
  match_profiles profiles tokens =
      if is_empty tokens
      then []
      else if any is_empty tokens
      then []
      else sort before (matches_of profiles (map fold tokens))
