-- ===== src/Tests/Matcher.antt =====
-- Queries and their answers.
use remmina_krunner.Base.{
  Text, codes, List, [], ◌∷◌, ◌≡◌, refl, equal, starts_with, contains_text, compare_text, inl, inr,
  ℕ, In, map, arith,
}
use remmina_krunner.Base.Sort.{sort}
use remmina_krunner.Profile.{ProfileRecord}
use remmina_krunner.Matcher.{
  SearchMatch, lookup, create, ignore, parse_runner_query, match_profiles, before,
  folded_searchable_fields, matches_of, relevance_of, best_score, relationship_score, tokens_from,
  skip_spaces, token_at, after_token, classify,
}
use remmina_krunner.Matcher.Query.{Reads, parse_runner_query-Reads, words, tokens_from-words}
use remmina_krunner.Matcher.Score.{Relevance}
use remmina_krunner.Matcher.Ranking.{InOrder, match_profiles-InOrder}
use remmina_krunner.Matcher.Answers.{match_profiles_sound, match_profiles_complete}
use remmina_krunner.Tests.Data.{is_blank, lower, profile}

reads_words :
    parse_runner_query is_blank lower (codes "Rem  Web\tServer ")
    ≡ record { kind = lookup; tokens = codes "web" ∷ codes "server" ∷ [] }
unfolding parse_runner_query tokens_from skip_spaces token_at after_token classify equal
reads_words = refl

reads_new :
    parse_runner_query is_blank lower (codes "rem NEW") ≡ record { kind = create; tokens = [] }
unfolding parse_runner_query tokens_from skip_spaces token_at after_token classify equal
reads_new = refl

ignores_remote :
    parse_runner_query is_blank lower (codes "remote") ≡ record { kind = ignore; tokens = [] }
unfolding parse_runner_query tokens_from skip_spaces token_at after_token classify equal
ignores_remote = refl

parse_runner_query-Reads_example :
    Reads is_blank lower (codes "rem web") (parse_runner_query is_blank lower (codes "rem web"))
parse_runner_query-Reads_example = parse_runner_query-Reads is_blank lower (codes "rem web")

abbrev profiles : List ProfileRecord
profiles =
    profile (codes "1") (codes "Office web") (codes "a.example")
    ∷ profile (codes "2") (codes "Web") (codes "b.example")
    ∷ profile (codes "3") (codes "Mail") (codes "c.example")
    ∷ []

abbrev web : List Text
web = codes "web" ∷ []

-- The exact name comes before the one that contains the token.
answers :
    match_profiles lower profiles web
    ≡ record { profile = profile (codes "2") (codes "Web") (codes "b.example"); relevance = 100 }
      ∷ record {
        profile = profile (codes "1") (codes "Office web") (codes "a.example");
        relevance = 75;
      }
      ∷ []
unfolding match_profiles matches_of before sort relevance_of best_score relationship_score
    folded_searchable_fields equal starts_with contains_text compare_text
answers = refl

match_profiles-InOrder_example : InOrder lower (match_profiles lower profiles web)
match_profiles-InOrder_example = match_profiles-InOrder lower profiles web

abbrev best : SearchMatch
best = record { profile = profile (codes "2") (codes "Web") (codes "b.example"); relevance = 100 }

match_profiles_sound_example :
    In best.profile profiles
    × Relevance 100
        (lower best.profile.name ∷ lower best.profile.server ∷ map lower best.profile.labels)
        (map lower web)
unfolding match_profiles matches_of before sort relevance_of best_score relationship_score
    folded_searchable_fields equal starts_with contains_text compare_text
match_profiles_sound_example = match_profiles_sound lower profiles web best (inl refl)

match_profiles_complete_example :
    (r : ℕ) × In
      (record { profile = best.profile; relevance = r })
      (match_profiles lower profiles web)
unfolding folded_searchable_fields contains_text starts_with
match_profiles_complete_example =
    match_profiles_complete lower profiles web best.profile (λ e. cc) refl (inr (inl refl))
      (inl refl, tt)

tokens_from-words_test :
    tokens_from is_blank lower 9 (codes " Web  B ") ≡ map lower (words is_blank (codes " Web  B "))
tokens_from-words_test = tokens_from-words is_blank lower 9 (codes " Web  B ") (omega arith)
