-- ===== src/Tests/Launcher.antt =====
-- The launcher, with an association list for the environment of the process.
use remmina_krunner.Base.{
  Text, codes, [], ◌∷◌, some, none, if◌then◌else◌, Bool, true, ◌≡◌, refl, equal, equal_refl, ◌∙◌,
  ap, is_empty, starts_with,
}
use remmina_krunner.Base.Maps.{Map, lookup, insert, remove, lookup-insert, lookup-remove}
use remmina_krunner.Instance.{RegistrySnapshot, selected_instance}
use remmina_krunner.Launcher.{
  ProcessEnvironment, Dependencies, started, start_failed, tried, notified, create, connect,
  activation_token_name, launch_environment, guarded, create_with, connect_with, connect_profile,
  launch, proceed, start, failure, valid_program, valid_arguments, bad_launch_path, contains_nul,
}
use remmina_krunner.Launcher.Outcome.{
  token_bound, Ends, Creates, create-Ends, Connects, connect-Ends,
}
use remmina_krunner.Tests.Data.{native_one, snap_one, profile}

value-remove : (k : Text) (e : Map Text) → lookup k (remove k e) ≡ none
value-remove k e = lookup-remove k k e ∙ ap (λ b. if b then none else lookup k e) (equal_refl k)

value-insert : (k v : Text) (e : Map Text) → lookup k (insert k v e) ≡ some v
value-insert k v e =
    lookup-insert k k v e ∙ ap (λ b. if b then some v else lookup k e) (equal_refl k)

abbrev table : ProcessEnvironment
table = record {
  Env = Map Text;
  inherits_from_parent = is_empty;
  system_environment = (activation_token_name, codes "old") ∷ [];
  value = lookup;
  remove = remove;
  insert = insert;
  value-remove = value-remove;
  value-insert = value-insert;
}

abbrev is_absolute : Text → Bool
is_absolute = λ t. starts_with t (codes "/")

abbrev snapshot : RegistrySnapshot
snapshot = record {
  instances = snap_one ∷ native_one ∷ [];
  selected_id = codes "native:/a";
  failed_backends = [];
}

abbrev working : Dependencies (Map Text)
working = record {
  snapshot = some snapshot;
  resolve = λ _ opaque_id. some (some (profile (codes "/home/u/web.remmina") opaque_id opaque_id));
  environment = some [];
  start_detached = λ _. some true;
}

token_bound_test :
    lookup activation_token_name (launch_environment table [] (codes "t")) ≡ some (codes "t")
token_bound_test = token_bound table [] (codes "t")

create-Ends_example :
    Ends table is_absolute working
      (Creates table is_absolute working (codes "t"))
      (create table is_absolute working (codes "t"))
create-Ends_example = create-Ends table is_absolute working (codes "t")

connect-Ends_example :
    Ends table is_absolute working
      (Connects table is_absolute working (codes "web") (codes "t"))
      (connect table is_absolute working (codes "web") (codes "t"))
connect-Ends_example = connect-Ends table is_absolute working (codes "web") (codes "t")

-- A run of `connect`.
connects : connect table is_absolute working (codes "web") [] ≡ (
  started,
  tried (record {
    program = codes "/usr/bin/remmina";
    arguments = codes "--connect" ∷ codes "/home/u/web.remmina" ∷ [];
    environment = [];
  })
      ∷ [],
)
unfolding connect guarded connect_with connect_profile launch proceed start failure
    launch_environment remove valid_program valid_arguments bad_launch_path contains_nul
    selected_instance equal starts_with
connects = refl

-- The user is notified when the environment provider throws.
provider_throws :
    create table is_absolute (record working { environment = none }) []
    ≡ (start_failed, notified ∷ [])
unfolding create guarded create_with launch proceed start failure launch_environment remove
    valid_program valid_arguments contains_nul selected_instance equal starts_with
provider_throws = refl
