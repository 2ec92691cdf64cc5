-- ===== src/Service.antt =====
-- src/dbus/runner_service.cpp: the D-Bus service. The answers of the registry and of the catalog
-- come with a call, absent where they throw; what the service asks of its dependencies is a list of
-- calls, and their exceptions are caught. Qt's case folding, `isSpace` and `trimmed` are parameters.
pub mod Events
pub mod Session
pub mod Token
pub mod Launches
use remmina_krunner.Base.{
  ℕ, Text, codes, equal, starts_with, length, List, [], ◌∷◌, ◌++◌, map, select, all, Option, none,
  some, is_empty, if◌then◌else◌, Bool, true, false, not, ◌&&◌, ◌||◌, ◌==◌, within,
}
use remmina_krunner.Instance.{RemminaInstance, RegistrySnapshot, selected_instance}
use remmina_krunner.Profile.{ProfileRecord}
use remmina_krunner.Matcher.{
  QueryKind, ignore, create, lookup, SearchMatch, parse_runner_query, match_profiles,
}
use remmina_krunner.Catalog.{
  ProfileCatalogError, no_profile_directory, unreadable_directory, CatalogResult, found, not_found,
}

pub record VisibleProperties : Type 0 where
  pub subtext : Text
  pub category : Text
  pub actions : List Text

pub record RemoteMatch : Type 0 where
  pub id : Text
  pub text : Text
  pub icon_name : Text
  pub category_relevance : ℕ
  pub relevance : ℕ
  pub properties : VisibleProperties

abbrev pub informational_match : ℕ
informational_match = 30

abbrev pub possible_match : ℕ
possible_match = 50

abbrev pub exact_match : ℕ
exact_match = 100

abbrev pub icon_name : Text
icon_name = codes "org.remmina.Remmina"

abbrev pub new_action_id : Text
new_action_id = codes "action:new"

abbrev pub action_prefix : Text
action_prefix = codes "action:"

abbrev pub error_prefix : Text
error_prefix = codes "error:"

abbrev pub visible_properties : Text → VisibleProperties
visible_properties subtext = record { subtext = subtext; category = codes "Remmina"; actions = [] }

abbrev pub error_match : Text → Text → RemoteMatch
error_match id subtext = record {
  id = id;
  text = codes "Remmina unavailable";
  icon_name = icon_name;
  category_relevance = informational_match;
  relevance = 0;
  properties = visible_properties subtext;
}

abbrev pub creation_result : List RemoteMatch
creation_result =
    record {
      id = new_action_id;
      text = codes "Create a new Remmina connection";
      icon_name = icon_name;
      category_relevance = exact_match;
      relevance = 100;
      properties = visible_properties (codes "Create a new connection profile");
    }
    ∷ []

abbrev pub no_instance_error : List RemoteMatch
no_instance_error =
    error_match (codes "error:no-instance") (codes "No Remmina installation is available") ∷ []

abbrev pub no_profiles_error : List RemoteMatch
no_profiles_error =
    error_match (codes "error:no-profiles") (codes "No Remmina profiles are available") ∷ []

abbrev pub unreadable_error : List RemoteMatch
unreadable_error =
    error_match (codes "error:unreadable") (codes "Remmina profiles cannot be read") ∷ []

abbrev pub internal_error : List RemoteMatch
internal_error =
    error_match (codes "error:internal") (codes "Unable to search Remmina profiles") ∷ []

-- The one entry of `runnerConfig`.
abbrev pub runner_config : Text
runner_config = codes "(?i)^rem(?:\\s.*)?$"

-- `components.join(separator)`
abbrev pub join : Text → List Text → Text
join separator [] = []
join separator (x ∷ []) = x
join separator (x ∷ y ∷ rest) = x ++ separator ++ join separator (y ∷ rest)

unfoldable pub profile_subtext : (Text → Text) → ProfileRecord → Text
profile_subtext trimmed profile = join (b' ' ∷ 0xB7 ∷ b' ' ∷ []) (
    select (λ value. not (is_empty value))
      (map trimmed (profile.protocol ∷ profile.server ∷ profile.labels_display ∷ [])))

unfoldable pub is_opaque_profile_id : Text → Bool
is_opaque_profile_id id =
    (length id == 64) && all (λ value. within b'0' b'9' value || within b'a' b'f' value) id

-- The members that change: whether the idle timer runs, the token, the flag of the session.
pub record RunnerService : Type 0 where
  pub timer_running : Bool
  pub activation_token : Text
  pub session_active : Bool

unfoldable pub initial : RunnerService
initial = record { timer_running = false; activation_token = []; session_active = false }

-- What the service asks of the catalog, of the registry and of the launcher.
pub data Call : Type 0 where
  asks_records : RemminaInstance → Call
  ends_session resets rescans : Call
  creates : Text → Call
  connects : Text → Text → Call

-- The answers that the registry and the catalog have for a call; `none` for an exception.
pub record Answers : Type 0 where
  pub snapshot : Option RegistrySnapshot
  pub records : RemminaInstance → Option CatalogResult

unfoldable pub end_active_session : Bool → RunnerService → RunnerService × List Call
end_active_session clear_activation_token s = (
  record {
    timer_running = false;
    activation_token = if clear_activation_token then [] else s.activation_token;
    session_active = false;
  },
  if s.session_active then ends_session ∷ [] else [],
)

-- An error is answered, behind the calls that were made.
unfoldable pub give_up :
    List RemoteMatch → List Call → RunnerService → List RemoteMatch × RunnerService × List Call
give_up reply calls s = let (s', ended) = end_active_session false s in (reply, s', calls ++ ended)

module _ (is_space : ℕ → Bool) (fold trimmed : Text → Text) where
  abbrev pub remote_match : SearchMatch → RemoteMatch
  remote_match m = record {
    id = m.profile.opaque_id;
    text = m.profile.name;
    icon_name = icon_name;
    category_relevance = possible_match;
    relevance = m.relevance;
    properties = visible_properties (profile_subtext trimmed m.profile);
  }

  -- The loop over the matches.
  unfoldable pub remote_matches : List SearchMatch → List RemoteMatch
  remote_matches [] = []
  remote_matches (m ∷ rest) =
      let later = remote_matches rest in
      if is_empty m.profile.opaque_id then later else remote_match m ∷ later

  -- What follows the call of `records`.
  unfoldable pub answer_records :
      RemminaInstance
      → List Text
      → Option CatalogResult
      → RunnerService
      → List RemoteMatch × RunnerService × List Call
  answer_records instance tokens none s = give_up internal_error (asks_records instance ∷ []) s
  answer_records instance tokens (some (not_found no_profile_directory)) s =
      give_up no_profiles_error (asks_records instance ∷ []) s
  answer_records instance tokens (some (not_found unreadable_directory)) s =
      give_up unreadable_error (asks_records instance ∷ []) s
  answer_records instance tokens (some (found profiles)) s = (
    remote_matches (match_profiles fold profiles tokens),
    record s { timer_running = true },
    asks_records instance ∷ [],
  )

  -- The search in the selected installation.
  unfoldable pub search :
      Answers
      → Option RemminaInstance
      → List Text
      → RunnerService
      → List RemoteMatch × RunnerService × List Call
  search answers none tokens s = give_up no_instance_error [] s
  search answers (some instance) tokens s =
      answer_records instance tokens (answers.records instance) (record s { session_active = true })

  unfoldable pub look_up :
      Answers
      → Option RegistrySnapshot
      → List Text
      → RunnerService
      → List RemoteMatch × RunnerService × List Call
  look_up answers none tokens s = give_up internal_error [] s
  look_up answers (some snapshot) tokens s = search answers (selected_instance snapshot) tokens s

  -- `Match` behind the parsing of the query.
  unfoldable pub match_kind :
      Answers → QueryKind → List Text → RunnerService → List RemoteMatch × RunnerService × List Call
  match_kind answers ignore tokens s = ([], s, [])
  match_kind answers create tokens s = (creation_result, s, [])
  match_kind answers lookup tokens s = look_up answers answers.snapshot tokens s

  unfoldable pub match_query :
      Answers → Text → RunnerService → List RemoteMatch × RunnerService × List Call
  match_query answers query s =
      let parsed = parse_runner_query is_space fold query in
      match_kind answers parsed.kind parsed.tokens (record s { activation_token = [] })

-- The call of the launcher in `Run`, if any.
unfoldable pub launches : Text → Text → Text → List Call
launches match_id action_id token =
    if is_empty action_id && not (is_empty match_id) && not (starts_with match_id error_prefix)
    then (if equal match_id new_action_id
        then creates token ∷ []
        else if not (starts_with match_id action_prefix) && is_opaque_profile_id match_id
        then connects match_id token ∷ []
        else [])
    else []

unfoldable pub run_match : Text → Text → RunnerService → RunnerService × List Call
run_match match_id action_id s =
    let (s', ended) = end_active_session false (record s { activation_token = [] }) in
    (s', launches match_id action_id s.activation_token ++ ended)

unfoldable pub teardown : RunnerService → RunnerService × List Call
teardown s = (
  record { timer_running = false; activation_token = []; session_active = false },
  ends_session ∷ [],
)

unfoldable pub config : RunnerService → Text × RunnerService × List Call
config s =
    let (s', ended) = end_active_session true s in
    (runner_config, s', ended ++ rescans ∷ resets ∷ [])

-- `none` where the copy of the token throws.
unfoldable pub set_activation_token : Option Text → RunnerService → RunnerService
set_activation_token none s = record s { activation_token = [] }
set_activation_token (some token) s = record s { activation_token = token }

-- The single-shot timer runs out; nothing happens while it is stopped.
unfoldable pub time_out : RunnerService → RunnerService × List Call
time_out s = if s.timer_running then end_active_session true s else (s, [])
