-- ===== src/Tests/Catalog.antt =====
-- Calls of the catalog.
use remmina_krunner.Base.{
  Text, codes, List, [], ◌∷◌, some, none, Bool, true, false, ◌≡◌, refl, equal, starts_with,
  compare_text,
}
use remmina_krunner.Base.Sort.{sort}
use remmina_krunner.Base.Maps.{lookup, insert, remove}
use remmina_krunner.Profile.{ProfileRecord}
use remmina_krunner.Repository.{ProfileSnapshot, RepositoryLoadResult, loaded, DirectoryFingerprint}
use remmina_krunner.Snapshot.{
  clean_absolute_path, collect, join_paths, watch_files, watch_directory, watch_paths,
  same_fingerprint, same_directory_fingerprint, same_fingerprints, equivalent_snapshot, count_ids,
  keep_single, sanitize_records,
}
use remmina_krunner.Snapshot.Unique.{HasUniqueIds, sanitize_records-HasUniqueIds}
use remmina_krunner.Catalog.{
  ProfileCatalog, initial, Answer, RoundAnswers, call_back, noticed, install_clean_snapshot,
  leave_guard, install_paths, install_watches, compare_verified, after_verify, after_install,
  verify_rounds, after_load, choose, records_chosen, records_of, resolve_record, resolve,
}
use remmina_krunner.Catalog.Calls.{IsConsistent}
use remmina_krunner.Catalog.History.{asks, calls_back, ends, serve, serve-IsConsistent, Call, Asked}
use remmina_krunner.Catalog.Clean.{IsResolved, resolve-IsResolved, resolve-call_back}
use remmina_krunner.Tests.Data.{native_one, profile}

abbrev is_absolute : Text → Bool
is_absolute t = starts_with t (codes "/")

abbrev clean : Text → Text
clean t = t

abbrev web : ProfileRecord
web = profile (codes "/p/web") (codes "Web") (codes "a.example")

-- Two profiles share an id, and are dropped.
abbrev snapshot : ProfileSnapshot
snapshot = record {
  profiles =
      web ∷ profile (codes "/p/b") (codes "B") [] ∷ profile (codes "/p/b") (codes "B2") [] ∷ [];
  fingerprint = record { path = codes "/p/web"; size = 3; modified_milliseconds = 5 } ∷ [];
  directory = record { host_path = codes "/p"; launch_path = codes "/p" };
  directory_fingerprint = record {
    canonical_path = codes "/p";
    device = 1;
    inode = 2;
    symlink_parent_paths = [];
  };
}

abbrev load : Answer RepositoryLoadResult
load = record { reply = some (loaded snapshot); changes = false }

abbrev quiet_round : RoundAnswers
quiet_round = record { install = record { reply = some true; changes = false }; verify = load }

sanitize_records-HasUniqueIds_example : HasUniqueIds (sanitize_records snapshot).profiles
sanitize_records-HasUniqueIds_example = sanitize_records-HasUniqueIds snapshot

abbrev Quiet : Text → RoundAnswers → Type 0
Quiet id round = (id ≡ native_one.id) × (round ≡ quiet_round)

abbrev calls : List (Call is_absolute clean)
calls = asks native_one load quiet_round quiet_round ∷ ends ∷ calls_back 0 ∷ []

serve-IsConsistent_example :
    IsConsistent is_absolute clean
      (Asked is_absolute clean calls)
      (serve is_absolute clean calls initial)
serve-IsConsistent_example = serve-IsConsistent is_absolute clean calls

abbrev current : ProfileCatalog
current = record {
  callback_lifetime = some 0;
  lifetimes = 1;
  watched = codes "/p" ∷ codes "/p/web" ∷ [];
  records = web ∷ [];
  clean_directory = snapshot.directory;
  clean_directory_fingerprint = snapshot.directory_fingerprint;
  selected_instance_id = codes "native:/a";
  has_selected_instance = true;
  session_active = true;
  dirty = false;
  has_clean_snapshot = true;
}

-- One round with no change makes the snapshot clean.
refreshed :
    (records_of is_absolute clean native_one load quiet_round quiet_round initial).1 ≡ current
unfolding initial records_of records_chosen choose after_load verify_rounds after_install
    after_verify compare_verified install_watches install_paths leave_guard install_clean_snapshot
    noticed sanitize_records count_ids keep_single equivalent_snapshot same_fingerprints
    same_fingerprint same_directory_fingerprint watch_paths watch_directory watch_files join_paths
    collect clean_absolute_path equal starts_with compare_text sort lookup insert remove
refreshed = refl

abbrev unchanged : Text → DirectoryFingerprint → Bool
unchanged path fingerprint = true

abbrev id_of : Text → Text → Text
id_of instance_id path = path

resolve-IsResolved_example :
    IsResolved unchanged is_absolute clean id_of (codes "native:/a") (codes "/p/web") current web
unfolding resolve resolve_record equal starts_with
resolve-IsResolved_example =
    resolve-IsResolved unchanged is_absolute clean id_of (codes "native:/a") (codes "/p/web")
      current refl

resolve-call_back_test :
    resolve unchanged is_absolute clean id_of
      (codes "native:/a")
      (codes "/p/web")
      (call_back 0 current)
    ≡ none
resolve-call_back_test =
    resolve-call_back unchanged is_absolute clean id_of 0 (codes "native:/a") (codes "/p/web")
      current refl
