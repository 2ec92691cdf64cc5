-- ===== src/Catalog.antt =====
-- src/core/profile_catalog.cpp: the profiles of the selected installation, kept while the watcher
-- reports no change. The repository and the watcher answer with a value or throw, and during each
-- such call the watcher may report a change. Paths of the file system are looked at by parameters.
pub mod Watches
pub mod Refresh
pub mod Calls
pub mod History
pub mod Clean
use remmina_krunner.Base.{
  ℕ, zero, suc, ◌+◌, Text, equal, List, [], ◌∷◌, find_first, Option, none, some, is_empty,
  if◌then◌else◌, Bool, true, false, not, ◌&&◌, ◌||◌, ◌==◌,
}
use remmina_krunner.Instance.{RemminaInstance}
use remmina_krunner.Profile.{ProfileRecord}
use remmina_krunner.Repository.{
  LocatedProfileDirectory, DirectoryFingerprint, ProfileSnapshot, ProfileRepositoryError,
  RepositoryLoadResult, loaded, not_loaded,
}
use remmina_krunner.Snapshot.{watch_paths, equivalent_snapshot, sanitize_records}

pub data ProfileCatalogError : Type 0 where
  no_profile_directory unreadable_directory : ProfileCatalogError

pub data CatalogResult : Type 0 where
  found : List ProfileRecord → CatalogResult
  not_found : ProfileCatalogError → CatalogResult

unfoldable pub map_repository_error : ProfileRepositoryError → ProfileCatalogError
map_repository_error ProfileRepositoryError.unreadable_directory = unreadable_directory
map_repository_error ProfileRepositoryError.no_profile_directory = no_profile_directory

abbrev pub no_directory : LocatedProfileDirectory
no_directory = record { host_path = []; launch_path = [] }

abbrev pub no_fingerprint : DirectoryFingerprint
no_fingerprint = record { canonical_path = []; device = 0; inode = 0; symlink_parent_paths = [] }

-- The members. A lifetime of the callback is a number, and the next one is counted; `watched` is
-- what the watcher was last asked to watch.
pub record ProfileCatalog : Type 0 where
  pub callback_lifetime : Option ℕ
  pub lifetimes : ℕ
  pub watched : List Text
  pub records : List ProfileRecord
  pub clean_directory : LocatedProfileDirectory
  pub clean_directory_fingerprint : DirectoryFingerprint
  pub selected_instance_id : Text
  pub has_selected_instance : Bool
  pub session_active : Bool
  pub dirty : Bool
  pub has_clean_snapshot : Bool

unfoldable pub initial : ProfileCatalog
initial = record {
  callback_lifetime = none;
  lifetimes = 0;
  watched = [];
  records = [];
  clean_directory = no_directory;
  clean_directory_fingerprint = no_fingerprint;
  selected_instance_id = [];
  has_selected_instance = false;
  session_active = false;
  dirty = false;
  has_clean_snapshot = false;
}

-- What a dependency answers, `none` where it throws, and whether the watcher calls the callback
-- that it has meanwhile.
pub record Answer (A : Type 0) : Type 0 where
  pub reply : Option A
  pub changes : Bool

-- The answers in one round of the refresh: of `replacePaths`, and of the second `load`.
pub record RoundAnswers : Type 0 where
  pub install : Answer Bool
  pub verify : Answer RepositoryLoadResult

unfoldable pub mark_dirty : ProfileCatalog → ProfileCatalog
mark_dirty c = record c { dirty = true }

-- A call of the callback that was made with a lifetime: it does nothing once that has ended.
unfoldable pub call_back : ℕ → ProfileCatalog → ProfileCatalog
call_back lifetime c = elim c.callback_lifetime [
  | none ↦ c
  | some current ↦ if current == lifetime then mark_dirty c else c
]

-- A change that is reported to the newest callback during a call.
unfoldable pub noticed : Bool → ProfileCatalog → ProfileCatalog
noticed false c = c
noticed true c = elim c.callback_lifetime [ none ↦ c | some current ↦ mark_dirty c ]

unfoldable pub end_session : ProfileCatalog → ProfileCatalog
end_session c = record c { session_active = false }

unfoldable pub clear_snapshot_and_watches : ProfileCatalog → ProfileCatalog
clear_snapshot_and_watches c = record c {
  records = [];
  clean_directory = no_directory;
  clean_directory_fingerprint = no_fingerprint;
  has_clean_snapshot = false;
  callback_lifetime = none;
  watched = [];
}

unfoldable pub reset : ProfileCatalog → ProfileCatalog
reset c = record (clear_snapshot_and_watches c) {
  selected_instance_id = [];
  has_selected_instance = false;
  session_active = false;
  dirty = false;
}

unfoldable pub abandon_refresh : ProfileCatalog → ProfileCatalog
abandon_refresh c = record c {
  has_clean_snapshot = false;
  dirty = true;
  callback_lifetime = none;
  watched = [];
}

unfoldable pub install_clean_snapshot : ProfileSnapshot → ProfileCatalog → ProfileCatalog
install_clean_snapshot snapshot c = record c {
  clean_directory = snapshot.directory;
  clean_directory_fingerprint = snapshot.directory_fingerprint;
  has_clean_snapshot = true;
  dirty = false;
}

-- A refresh on its way out: what it returns, `none` where it throws, and whether it was committed.
pub record Refreshed : Type 0 where
  pub result : Option CatalogResult
  pub committed : Bool
  pub catalog : ProfileCatalog

-- The destructor of the guard.
unfoldable pub leave_guard : Refreshed → Option CatalogResult × ProfileCatalog
leave_guard r = (r.result, if r.committed then r.catalog else abandon_refresh r.catalog)

abbrev pub gives_up : Option CatalogResult → ProfileCatalog → Refreshed
gives_up result c = record { result = result; committed = false; catalog = c }

unfoldable pub repository_error :
    ProfileRepositoryError → RemminaInstance → ProfileCatalog → Refreshed
repository_error error instance c =
    gives_up (some (not_found (map_repository_error error)))
      (record (clear_snapshot_and_watches c) {
        selected_instance_id = instance.id;
        has_selected_instance = true;
        session_active = true;
        dirty = true;
      })

-- The end of `records` behind the loop.
unfoldable pub stop : ProfileCatalog → Refreshed
stop c =
    gives_up (some (found c.records)) (record c {
      callback_lifetime = none;
      watched = [];
      has_clean_snapshot = false;
      dirty = true;
    })

-- The installation is selected; another one than before ends the session and the watches.
unfoldable pub choose : RemminaInstance → ProfileCatalog → ProfileCatalog
choose instance c =
    if not c.has_selected_instance
    then record c { selected_instance_id = instance.id; has_selected_instance = true }
    else if not (equal c.selected_instance_id instance.id)
    then record (clear_snapshot_and_watches c) {
      selected_instance_id = instance.id;
      has_selected_instance = true;
      session_active = false;
      dirty = false;
    }
    else c

module _ (is_absolute_path : Text → Bool) (clean_path : Text → Text) where
  -- `installWatches` on the paths that `watchPaths` gives.
  unfoldable pub install_paths :
      Option (List Text) → Answer Bool → ProfileCatalog → Option Bool × ProfileCatalog
  install_paths none answer c =
      (some false, record c { callback_lifetime = none; watched = []; dirty = true })
  install_paths (some paths) answer c =
      let armed = noticed answer.changes (record c {
        callback_lifetime = some c.lifetimes;
        lifetimes = c.lifetimes + 1;
        dirty = false;
        watched = paths;
      }) in
      elim answer.reply [
        | none ↦ (none, armed)
        | some true ↦ (some true, armed)
        | some false ↦ (some false, record armed { callback_lifetime = none; dirty = true })
      ]

  unfoldable pub install_watches :
      ProfileSnapshot → Answer Bool → ProfileCatalog → Option Bool × ProfileCatalog
  install_watches snapshot answer c =
      install_paths
        (watch_paths is_absolute_path clean_path snapshot.directory snapshot.directory_fingerprint
          snapshot.fingerprint)
        answer c

  -- The comparison at the end of a round; `again` is the next round.
  unfoldable pub compare_verified :
      ProfileSnapshot
      → ProfileSnapshot
      → (ProfileSnapshot → ProfileCatalog → Refreshed)
      → ProfileCatalog
      → Refreshed
  compare_verified candidate verified again c =
      if c.dirty
      then stop c
      else if equivalent_snapshot candidate verified
      then record {
        result = some (found c.records);
        committed = true;
        catalog = install_clean_snapshot verified c;
      }
      else again verified c

  -- A round behind the second `load`.
  unfoldable pub after_verify :
      RemminaInstance
      → ProfileSnapshot
      → Option RepositoryLoadResult
      → (ProfileSnapshot → ProfileCatalog → Refreshed)
      → ProfileCatalog
      → Refreshed
  after_verify instance candidate none again c = gives_up none c
  after_verify instance candidate (some (not_loaded error)) again c =
      repository_error error instance c
  after_verify instance candidate (some (loaded snapshot)) again c =
      let verified = sanitize_records snapshot in
      compare_verified candidate verified again (record c { records = verified.profiles })

  -- A round behind `installWatches`.
  unfoldable pub after_install :
      RemminaInstance
      → ProfileSnapshot
      → Answer RepositoryLoadResult
      → (ProfileSnapshot → ProfileCatalog → Refreshed)
      → Option Bool × ProfileCatalog
      → Refreshed
  after_install instance candidate verify again (none, c) = gives_up none c
  after_install instance candidate verify again (some false, c) =
      gives_up (some (found c.records)) c
  after_install instance candidate verify again (some true, c) =
      after_verify instance candidate verify.reply again (noticed verify.changes c)

  -- The loop, one element of the list for each of its rounds.
  unfoldable pub verify_rounds :
      RemminaInstance → List RoundAnswers → ProfileSnapshot → ProfileCatalog → Refreshed
  verify_rounds instance [] candidate c = stop c
  verify_rounds instance (round ∷ rounds) candidate c =
      after_install instance candidate round.verify
        (λ verified c'. verify_rounds instance rounds verified c')
        (install_watches candidate round.install
          (record c { records = candidate.profiles; has_clean_snapshot = false }))

  -- The refresh behind the first `load`.
  unfoldable pub after_load :
      RemminaInstance → Option RepositoryLoadResult → List RoundAnswers → ProfileCatalog → Refreshed
  after_load instance none rounds c = gives_up none c
  after_load instance (some (not_loaded error)) rounds c = repository_error error instance c
  after_load instance (some (loaded snapshot)) rounds c =
      verify_rounds instance rounds (sanitize_records snapshot) c

  -- `records` behind the choice, with the answers of the first `load` and of the two rounds.
  unfoldable pub records_chosen :
      RemminaInstance
      → Answer RepositoryLoadResult
      → RoundAnswers
      → RoundAnswers
      → ProfileCatalog
      → Option CatalogResult × ProfileCatalog
  records_chosen instance load first second c =
      if c.has_clean_snapshot && c.session_active && not c.dirty
      then (some (found c.records), c)
      else leave_guard (
          after_load instance load.reply (first ∷ second ∷ [])
            (noticed load.changes (record c { session_active = true })))

  unfoldable pub records_of :
      RemminaInstance
      → Answer RepositoryLoadResult
      → RoundAnswers
      → RoundAnswers
      → ProfileCatalog
      → Option CatalogResult × ProfileCatalog
  records_of instance load first second c =
      records_chosen instance load first second (choose instance c)

-- The file system when a profile is resolved: whether the directory is still the same, and the
-- canonical path of a file, empty where there is none; `opaqueProfileId` hashes it.
module _ (directory_matches : Text → DirectoryFingerprint → Bool) (is_file : Text → Bool)
    (canonical_file_path : Text → Text) (opaque_profile_id : Text → Text → Text) where
  -- `resolve` at the record with the id.
  unfoldable pub resolve_record : ProfileCatalog → Option ProfileRecord → Option ProfileRecord
  resolve_record c none = none
  resolve_record c (some profile) =
      if not (is_file profile.source_path)
      then none
      else if is_empty (canonical_file_path profile.source_path)
      then none
      else if equal
          (opaque_profile_id c.selected_instance_id (canonical_file_path profile.source_path))
          profile.opaque_id
      then some profile
      else none

  unfoldable pub resolve : Text → Text → ProfileCatalog → Option ProfileRecord
  resolve expected_instance_id opaque_id c =
      if not c.has_selected_instance
        || not (equal c.selected_instance_id expected_instance_id)
        || c.dirty
        || not c.has_clean_snapshot
        || not (directory_matches c.clean_directory.host_path c.clean_directory_fingerprint)
      then none
      else resolve_record c (find_first (λ profile. equal profile.opaque_id opaque_id) c.records)
