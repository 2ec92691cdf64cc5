-- ===== src/Service/Session.antt =====
-- The session of the catalog and the idle timer.
use remmina_krunner.Base.{
  ℕ, Text, List, [], ◌∷◌, ◌++◌, Option, none, some, Bool, true, false, ◌≡◌, refl, sym, ◌∙◌, arith,
  if_split,
}
use remmina_krunner.Instance.{RemminaInstance, RegistrySnapshot, selected_instance}
use remmina_krunner.Matcher.{QueryKind, ignore, create, lookup}
use remmina_krunner.Catalog.{
  CatalogResult, found, not_found, no_profile_directory, unreadable_directory,
}
use remmina_krunner.Service.{
  RunnerService, RemoteMatch, initial, Call, asks_records, ends_session, resets, rescans, creates,
  connects, Answers, end_active_session, give_up, answer_records, search, look_up, match_kind,
  match_query, launches, run_match, teardown, config, set_activation_token, time_out,
}
use remmina_krunner.Service.Events.{
  Event, matches, runs, tears_down, configures, times_out, sets_token, step, trace,
}

-- Whether the catalog's session is open after some calls.
abbrev pub open_after : Bool → List Call → Bool
open_after opened [] = opened
open_after opened (asks_records instance ∷ calls) = open_after true calls
open_after opened (ends_session ∷ calls) = open_after false calls
open_after opened (resets ∷ calls) = open_after false calls
open_after opened (rescans ∷ calls) = open_after opened calls
open_after opened (creates token ∷ calls) = open_after opened calls
open_after opened (connects id token ∷ calls) = open_after opened calls

open_after-append :
    (opened : Bool) (a b : List Call)
    → open_after opened (a ++ b) ≡ open_after (open_after opened a) b
open_after-append opened [] b = refl
open_after-append opened (asks_records instance ∷ a) b = open_after-append true a b
open_after-append opened (ends_session ∷ a) b = open_after-append false a b
open_after-append opened (resets ∷ a) b = open_after-append false a b
open_after-append opened (rescans ∷ a) b = open_after-append opened a b
open_after-append opened (creates token ∷ a) b = open_after-append opened a b
open_after-append opened (connects id token ∷ a) b = open_after-append opened a b

-- The timer runs exactly while the session is active, and the flag says whether the catalog's
-- session is open.
pub record IsTracked (opened : Bool) (s : RunnerService) : Type 0 where
  pub timed : s.timer_running ≡ s.session_active
  pub tracked : opened ≡ s.session_active

end_active_session-IsTracked :
    (clear opened : Bool) (s : RunnerService)
    → opened ≡ s.session_active
    → IsTracked (open_after opened (end_active_session clear s).1) (end_active_session clear s).0
unfolding end_active_session
end_active_session-IsTracked clear opened s h = record { timed = refl; tracked = ground arith }

give_up-IsTracked :
    (reply : List RemoteMatch) (calls : List Call) (opened : Bool) (s : RunnerService)
    → open_after opened calls ≡ s.session_active
    → IsTracked (open_after opened (give_up reply calls s).2) (give_up reply calls s).1
unfolding give_up
give_up-IsTracked reply calls opened s h =
    rw (open_after-append opened calls (end_active_session false s).1)
      (end_active_session-IsTracked false (open_after opened calls) s h)

module _ (is_space : ℕ → Bool) (fold trimmed : Text → Text) where
  answer_records-IsTracked :
      (i : RemminaInstance) (tokens : List Text) (r : Option CatalogResult) (opened : Bool)
      (s : RunnerService)
      → s.session_active ≡ true
      → IsTracked
          (open_after opened (answer_records is_space fold trimmed i tokens r s).2)
          (answer_records is_space fold trimmed i tokens r s).1
  unfolding answer_records
  answer_records-IsTracked i tokens none opened s h = give_up-IsTracked _ _ opened s (sym h)
  answer_records-IsTracked i tokens (some (not_found no_profile_directory)) opened s h =
      give_up-IsTracked _ _ opened s (sym h)
  answer_records-IsTracked i tokens (some (not_found unreadable_directory)) opened s h =
      give_up-IsTracked _ _ opened s (sym h)
  answer_records-IsTracked i tokens (some (found profiles)) opened s h = record {
    timed = sym h;
    tracked = sym h;
  }

  look_up-IsTracked :
      (answers : Answers) (o : Option RegistrySnapshot) (tokens : List Text) (opened : Bool)
      (s : RunnerService)
      → IsTracked opened s
      → IsTracked
          (open_after opened (look_up is_space fold trimmed answers o tokens s).2)
          (look_up is_space fold trimmed answers o tokens s).1
  unfolding look_up
  look_up-IsTracked answers none tokens opened s h = give_up-IsTracked _ _ opened s h.tracked
  look_up-IsTracked answers (some snapshot) tokens opened s h = go (selected_instance snapshot)
    where
      go :
          (o : Option RemminaInstance)
          → IsTracked
              (open_after opened (search is_space fold trimmed answers o tokens s).2)
              (search is_space fold trimmed answers o tokens s).1
      go none = unfold search in give_up-IsTracked _ _ opened s h.tracked
      go (some i) =
          unfold search in answer_records-IsTracked i tokens (answers.records i) opened _ refl

  match_kind-IsTracked :
      (answers : Answers) (kind : QueryKind) (tokens : List Text) (opened : Bool)
      (s : RunnerService)
      → IsTracked opened s
      → IsTracked
          (open_after opened (match_kind is_space fold trimmed answers kind tokens s).2)
          (match_kind is_space fold trimmed answers kind tokens s).1
  unfolding match_kind
  match_kind-IsTracked answers ignore tokens opened s h = h
  match_kind-IsTracked answers create tokens opened s h = h
  match_kind-IsTracked answers lookup tokens opened s h =
      look_up-IsTracked answers answers.snapshot tokens opened s h

  open_after-launches :
      (opened : Bool) (match_id action_id token : Text)
      → open_after opened (launches match_id action_id token) ≡ opened
  unfolding launches
  open_after-launches opened match_id action_id token = ground arith

  step-IsTracked :
      (e : Event) (opened : Bool) (s : RunnerService)
      → IsTracked opened s
      → IsTracked
          (open_after opened (step is_space fold trimmed e s).1)
          (step is_space fold trimmed e s).0
  step-IsTracked (matches answers query) opened s h =
      unfold match_query in
      match_kind-IsTracked answers _ _ opened _ (record { timed = h.timed; tracked = h.tracked })
  step-IsTracked (runs match_id action_id) opened s h =
      unfold run_match in
      rw (open_after-append opened (launches match_id action_id s.activation_token) _) (
        end_active_session-IsTracked false _ _
          (open_after-launches opened match_id action_id s.activation_token ∙ h.tracked))
  step-IsTracked tears_down opened s h = unfold teardown in record { timed = refl; tracked = refl }
  step-IsTracked configures opened s h =
      unfold config in
      rw (open_after-append opened (end_active_session true s).1 (rescans ∷ resets ∷ [])) (record {
        timed = unfold end_active_session in refl;
        tracked = unfold end_active_session in refl;
      })
  step-IsTracked times_out opened s h =
      unfold time_out in
      if_split (λ (x : RunnerService × List Call). IsTracked (open_after opened x.1) x.0)
        s.timer_running _ _ (λ _. end_active_session-IsTracked true opened s h.tracked) (λ _. h)
  step-IsTracked (sets_token none) opened s h =
      unfold set_activation_token in record { timed = h.timed; tracked = h.tracked }
  step-IsTracked (sets_token (some token)) opened s h =
      unfold set_activation_token in record { timed = h.timed; tracked = h.tracked }

  trace_from-IsTracked :
      (es : List Event) (opened : Bool) (s : RunnerService)
      → IsTracked opened s
      → IsTracked
          (open_after opened (trace is_space fold trimmed es s).1)
          (trace is_space fold trimmed es s).0
  unfolding trace
  trace_from-IsTracked [] opened s h = h
  trace_from-IsTracked (e ∷ es) opened s h =
      rw (open_after-append opened (step is_space fold trimmed e s).1 _)
        (trace_from-IsTracked es _ _ (step-IsTracked e opened s h))

  -- After any calls of a new service, with any answers of its dependencies, the idle timer runs
  -- exactly while a session is active, and the session is active exactly when the catalog's own
  -- session was opened and not ended since: no session stays open without a timer that ends it.
  pub trace-IsTracked :
      (es : List Event)
      → IsTracked
          (open_after false (trace is_space fold trimmed es initial).1)
          (trace is_space fold trimmed es initial).0
  unfolding initial
  trace-IsTracked es =
      trace_from-IsTracked es false initial (record { timed = refl; tracked = refl })
