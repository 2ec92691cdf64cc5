-- ===== src/Service/Token.antt =====
-- The activation token: what is set, and what reaches the launcher.
use mathlib.Core.List.{append_assoc, append-nil}
use remmina_krunner.Base.{
  ℕ, Text, List, [], ◌∷◌, ◌++◌, Option, none, some, Bool, true, false, ◌≡◌, refl, sym, ◌∙◌, ap,
  subst, equal, starts_with, is_empty, not, ◌&&◌, if_split,
}
use remmina_krunner.Base.Sublists.{
  Sublist, Sublist-nil, Sublist-self, Sublist-behind, Sublist-append, Sublist_trans,
}
use remmina_krunner.Instance.{RemminaInstance, RegistrySnapshot, selected_instance}
use remmina_krunner.Matcher.{QueryKind, ignore, create, lookup}
use remmina_krunner.Catalog.{
  CatalogResult, found, not_found, no_profile_directory, unreadable_directory,
}
use remmina_krunner.Service.{
  RunnerService, RemoteMatch, initial, Call, asks_records, ends_session, resets, rescans, creates,
  connects, Answers, end_active_session, give_up, answer_records, search, look_up, match_kind,
  match_query, launches, run_match, teardown, config, set_activation_token, time_out, new_action_id,
  is_opaque_profile_id, error_prefix, action_prefix,
}
use remmina_krunner.Service.Events.{
  Event, matches, runs, tears_down, configures, times_out, sets_token, step, trace,
}

-- A token counts unless it is empty.
abbrev pub nonempty : Text → List Text
nonempty [] = []
nonempty (c ∷ t) = (c ∷ t) ∷ []

-- The tokens that reach the launcher, in order.
abbrev pub used : List Call → List Text
used [] = []
used (creates token ∷ calls) = nonempty token ++ used calls
used (connects id token ∷ calls) = nonempty token ++ used calls
used (asks_records instance ∷ calls) = used calls
used (ends_session ∷ calls) = used calls
used (resets ∷ calls) = used calls
used (rescans ∷ calls) = used calls

-- The tokens that are set, in order.
abbrev pub granted_by : Event → List Text
granted_by (sets_token (some token)) = nonempty token
granted_by (sets_token none) = []
granted_by (matches answers query) = []
granted_by (runs match_id action_id) = []
granted_by tears_down = []
granted_by configures = []
granted_by times_out = []

abbrev pub granted : List Event → List Text
granted [] = []
granted (e ∷ es) = granted_by e ++ granted es

used-append : (a b : List Call) → used (a ++ b) ≡ used a ++ used b
used-append [] b = refl
used-append (creates token ∷ a) b =
    ap (◌++◌ (nonempty token)) (used-append a b) ∙ sym (append_assoc (nonempty token) _ _)
used-append (connects id token ∷ a) b =
    ap (◌++◌ (nonempty token)) (used-append a b) ∙ sym (append_assoc (nonempty token) _ _)
used-append (asks_records instance ∷ a) b = used-append a b
used-append (ends_session ∷ a) b = used-append a b
used-append (resets ∷ a) b = used-append a b
used-append (rescans ∷ a) b = used-append a b

-- A call that holds no token and gives none to the launcher.
abbrev IsQuiet : RunnerService → List Call → Type 0
IsQuiet s calls = (s.activation_token ≡ []) × (used calls ≡ [])

used-end : (clear : Bool) (s : RunnerService) → used (end_active_session clear s).1 ≡ []
unfolding end_active_session
used-end clear s = if_split (λ l. used l ≡ []) s.session_active _ _ (λ _. refl) (λ _. refl)

end-IsQuiet :
    (s : RunnerService) → IsQuiet (end_active_session true s).0 (end_active_session true s).1
end-IsQuiet s = (unfold end_active_session in refl, used-end true s)

give_up-IsQuiet :
    (reply : List RemoteMatch) (calls : List Call) (s : RunnerService)
    → IsQuiet s calls
    → IsQuiet (give_up reply calls s).1 (give_up reply calls s).2
unfolding give_up
give_up-IsQuiet reply calls s h = (
  unfold end_active_session in h.0,
  used-append calls _ ∙ ap (◌++◌ (used calls)) (used-end false s) ∙ append-nil (used calls) ∙ h.1,
)

config-IsQuiet : (s : RunnerService) → IsQuiet (config s).1 (config s).2
unfolding config
config-IsQuiet s = (
  (end-IsQuiet s).0,
  used-append (end_active_session true s).1 _
      ∙ append-nil (used (end_active_session true s).1)
      ∙ used-end true s,
)

module _ (is_space : ℕ → Bool) (fold trimmed : Text → Text) where
  answer_records-IsQuiet :
      (i : RemminaInstance) (tokens : List Text) (r : Option CatalogResult) (s : RunnerService)
      → s.activation_token ≡ []
      → IsQuiet
          (answer_records is_space fold trimmed i tokens r s).1
          (answer_records is_space fold trimmed i tokens r s).2
  unfolding answer_records
  answer_records-IsQuiet i tokens none s h = give_up-IsQuiet _ _ s (h, refl)
  answer_records-IsQuiet i tokens (some (not_found no_profile_directory)) s h =
      give_up-IsQuiet _ _ s (h, refl)
  answer_records-IsQuiet i tokens (some (not_found unreadable_directory)) s h =
      give_up-IsQuiet _ _ s (h, refl)
  answer_records-IsQuiet i tokens (some (found profiles)) s h = (h, refl)

  look_up-IsQuiet :
      (answers : Answers) (o : Option RegistrySnapshot) (tokens : List Text) (s : RunnerService)
      → s.activation_token ≡ []
      → IsQuiet
          (look_up is_space fold trimmed answers o tokens s).1
          (look_up is_space fold trimmed answers o tokens s).2
  unfolding look_up
  look_up-IsQuiet answers none tokens s h = give_up-IsQuiet _ _ s (h, refl)
  look_up-IsQuiet answers (some snapshot) tokens s h = go (selected_instance snapshot)
    where
      go :
          (o : Option RemminaInstance)
          → IsQuiet
              (search is_space fold trimmed answers o tokens s).1
              (search is_space fold trimmed answers o tokens s).2
      go none = unfold search in give_up-IsQuiet _ _ s (h, refl)
      go (some i) = unfold search in answer_records-IsQuiet i tokens (answers.records i) _ h

  match_kind-IsQuiet :
      (answers : Answers) (kind : QueryKind) (tokens : List Text) (s : RunnerService)
      → s.activation_token ≡ []
      → IsQuiet
          (match_kind is_space fold trimmed answers kind tokens s).1
          (match_kind is_space fold trimmed answers kind tokens s).2
  unfolding match_kind
  match_kind-IsQuiet answers ignore tokens s h = (h, refl)
  match_kind-IsQuiet answers create tokens s h = (h, refl)
  match_kind-IsQuiet answers lookup tokens s h = look_up-IsQuiet answers answers.snapshot tokens s h

  match_query-IsQuiet :
      (answers : Answers) (query : Text) (s : RunnerService)
      → IsQuiet
          (match_query is_space fold trimmed answers query s).1
          (match_query is_space fold trimmed answers query s).2
  unfolding match_query
  match_query-IsQuiet answers query s = match_kind-IsQuiet answers _ _ _ refl

  -- What a call uses and what is left are among what it found and what it was given.
  abbrev Spends : Event → RunnerService → Type 0
  Spends e s =
      Sublist
        (used (step is_space fold trimmed e s).1
          ++ nonempty (step is_space fold trimmed e s).0.activation_token)
        (nonempty s.activation_token ++ granted_by e)

  quiet :
      (s' : RunnerService) (calls : List Call) (xs : List Text)
      → IsQuiet s' calls
      → Sublist (used calls ++ nonempty s'.activation_token) xs
  quiet s' calls xs h = subst (λ l. Sublist l xs) (sym none_used) (Sublist-nil xs)
    where
      none_used : used calls ++ nonempty s'.activation_token ≡ []
      none_used = rw (h.1, h.0)

  used-launches :
      (match_id action_id token : Text)
      → Sublist (used (launches match_id action_id token)) (nonempty token)
  unfolding launches
  used-launches match_id action_id token =
      if_split P
        (is_empty action_id && not (is_empty match_id) && not (starts_with match_id error_prefix)) _
        _
        (λ _.
          if_split P (equal match_id new_action_id) _ _ (λ _. whole)
            λ _.
              if_split P (not (starts_with match_id action_prefix) && is_opaque_profile_id match_id)
                _ _ (λ _. whole) (λ _. Sublist-nil _))
        (λ _. Sublist-nil _)
    where
      P : List Call → Type 0
      P calls = Sublist (used calls) (nonempty token)

      whole : Sublist (nonempty token ++ []) (nonempty token)
      whole =
          subst (λ l. Sublist l (nonempty token)) (sym (append-nil (nonempty token)))
            (Sublist-self _)

  run_match-Spends :
      (match_id action_id : Text) (s : RunnerService) → Spends (runs match_id action_id) s
  unfolding run_match
  run_match-Spends match_id action_id s =
      Sublist-append
        (subst (λ l. Sublist l (nonempty s.activation_token)) (sym launched)
          (used-launches match_id action_id s.activation_token))
        (unfold end_active_session in ends_nothing)
    where
      ends_nothing : Sublist {A = Text} [] []
      ends_nothing = Sublist-nil []

      launched :
          used (
            launches match_id action_id s.activation_token
            ++ (end_active_session false (record s { activation_token = [] })).1)
          ≡ used (launches match_id action_id s.activation_token)
      launched =
          used-append (launches match_id action_id s.activation_token) _
          ∙ ap (◌++◌ (used (launches match_id action_id s.activation_token))) (used-end false _)
          ∙ append-nil _

  step-Spends : (e : Event) (s : RunnerService) → Spends e s
  step-Spends (matches answers query) s =
      quiet (match_query is_space fold trimmed answers query s).1
        (match_query is_space fold trimmed answers query s).2 _
        (match_query-IsQuiet answers query s)
  step-Spends (runs match_id action_id) s = run_match-Spends match_id action_id s
  step-Spends tears_down s = unfold teardown in Sublist-nil _
  step-Spends configures s = quiet (config s).1 (config s).2 _ (config-IsQuiet s)
  step-Spends times_out s =
      unfold time_out in
      if_split
        (λ (x : RunnerService × List Call).
          Sublist (used x.1 ++ nonempty x.0.activation_token) (nonempty s.activation_token ++ []))
        s.timer_running _ _
        (λ _. quiet (end_active_session true s).0 (end_active_session true s).1 _ (end-IsQuiet s))
        (λ _.
          subst (Sublist (nonempty s.activation_token))
            (sym (append-nil (nonempty s.activation_token)))
            (Sublist-self (nonempty s.activation_token)))
  step-Spends (sets_token none) s = unfold set_activation_token in Sublist-nil _
  step-Spends (sets_token (some token)) s =
      unfold set_activation_token in
      Sublist-behind (nonempty s.activation_token) (Sublist-self (nonempty token))

  trace_from-used :
      (es : List Event) (s : RunnerService)
      → Sublist
          (used (trace is_space fold trimmed es s).1)
          (nonempty s.activation_token ++ granted es)
  unfolding trace
  trace_from-used [] s = Sublist-nil _
  trace_from-used (e ∷ es) s =
      Sublist_trans (subst (Sublist _) (append_assoc (nonempty s.activation_token) _ _) now)
        (later (trace_from-used es s'))
    where
      s' : RunnerService
      s' = (step is_space fold trimmed e s).0

      calls : List Call
      calls = (step is_space fold trimmed e s).1

      later :
          Sublist
            (used (trace is_space fold trimmed es s').1)
            (nonempty s'.activation_token ++ granted es)
          → Sublist
              (used (calls ++ (trace is_space fold trimmed es s').1))
              ((used calls ++ nonempty s'.activation_token) ++ granted es)
      later rec =
          subst (λ l. Sublist l ((used calls ++ nonempty s'.activation_token) ++ granted es))
            (sym (used-append calls _))
            (subst (Sublist _) (sym (append_assoc (used calls) _ _))
              (Sublist-append (Sublist-self (used calls)) rec))

      now :
          Sublist
            ((used calls ++ nonempty s'.activation_token) ++ granted es)
            ((nonempty s.activation_token ++ granted_by e) ++ granted es)
      now = Sublist-append (step-Spends e s) (Sublist-self (granted es))

  -- A token is spent at most once: the tokens that reach the launcher, over any calls of a new
  -- service with any answers of its dependencies, are some of those that were set, each setting
  -- used once at most and in the order of the settings.
  pub trace-used :
      (es : List Event) → Sublist (used (trace is_space fold trimmed es initial).1) (granted es)
  unfolding initial
  trace-used es = trace_from-used es initial
