-- ===== src/Repository/Loading.antt =====
-- `ProfileRepository::load` of src/core/profile_repository.cpp, with its cache of parsed files.
use remmina_krunner.Base.{
  ℕ, zero, suc, Text, equal, contains, List, [], ◌∷◌, ◌++◌, Option, none, some, if◌then◌else◌, Bool,
  true, false, not, ◌&&◌, ◌||◌,
}
use remmina_krunner.Base.Maps.{Map, lookup, insert, remove}
use remmina_krunner.Instance.{RemminaInstance}
use remmina_krunner.Profile.{ProfileRecord}
use remmina_krunner.Parser.{ProfileParseError, ProfileParseResult, parsed, refused}
use remmina_krunner.Parser
use remmina_krunner.Locator.Search.{
  ProfileLocationError, not_found, unreadable_location, ProfileLocationResult, located,
  location_error, LocatorSystem, locate_profile_directory_detailed,
}
use remmina_krunner.Repository.{
  LocatedProfileDirectory, FileFingerprint, DirectoryFingerprint, ProfileRepositoryError,
  no_profile_directory, unreadable_directory, RepositoryLoadResult, loaded, not_loaded,
}
use remmina_krunner.Repository.Hash.{cache_key, opaque_profile_id}
use remmina_krunner.Repository.Files.{FileSystem}
use remmina_krunner.Repository.Inspection.{
  InternalFileSignature, Candidate, Enumeration, same_signature, inspect_candidate,
  enumerate_candidates,
}

pub record CacheEntry : Type 0 where
  pub instance_id : Text
  pub directory : Text
  pub canonical_identity : Text
  pub fingerprint : FileFingerprint
  pub signature : InternalFileSignature
  pub result : ProfileParseResult

pub record ProfileRepository : Type 0 where
  pub cache : Map CacheEntry
  pub active_instance_id : Text
  pub active_directory : Text
  pub has_active_scope : Bool

-- The locals of the loop over the candidates, with the cache.
pub record Loading : Type 0 where
  pub cache : Map CacheEntry
  pub active_cache_keys : List Text
  pub processed_identities : List Text
  pub profiles : List ProfileRecord
  pub fingerprint : List FileFingerprint

-- The end of the two attempts at a candidate.
pub data Attempt : Type 0 where
  became_unreadable : Attempt
  gone : Attempt
  stable : Candidate → Text → ProfileParseResult → Attempt
  unstable : Candidate → Text → Attempt

unfoldable pub normalize_record : ProfileParseResult → Candidate → Text → ProfileParseResult
normalize_record (parsed profile) candidate id = parsed (record profile {
  opaque_id = id;
  source_path = candidate.source_path;
  launch_path = candidate.launch_path;
})
normalize_record (refused error) candidate id = refused error

abbrev pub with_profile : List ProfileRecord → ProfileParseResult → List ProfileRecord
with_profile profiles (parsed profile) = profiles ++ (profile ∷ [])
with_profile profiles (refused error) = profiles

-- `transientUnreadable`
abbrev pub is_transient : ProfileParseResult → Bool
is_transient (refused Parser.unreadable) = true
is_transient _ = false

-- The file is listed, with the profile if there is one.
unfoldable pub listed : Candidate → ProfileParseResult → Loading → Loading
listed candidate result l = record l {
  processed_identities = l.processed_identities ++ (candidate.canonical_identity ∷ []);
  fingerprint = l.fingerprint ++ (candidate.fingerprint ∷ []);
  profiles = with_profile l.profiles result;
}

-- The erasing loop at the end.
unfoldable pub keep_active : List Text → Map CacheEntry → Map CacheEntry
keep_active keys [] = []
keep_active keys ((key, entry) ∷ cache) =
    let rest = keep_active keys cache in if contains keys key then (key, entry) ∷ rest else rest

unfoldable pub forgotten : ProfileRepository → ProfileRepository
forgotten r = record {
  cache = [];
  active_instance_id = [];
  active_directory = [];
  has_active_scope = false;
}

unfoldable pub error_of : ProfileLocationError → ProfileRepositoryError
error_of unreadable_location = unreadable_directory
error_of not_found = no_profile_directory

-- The scope of the cache is the installation and its directory.
unfoldable pub scoped : Text → Text → ProfileRepository → ProfileRepository
scoped instance_id host_path r =
    if not r.has_active_scope
      || not (equal r.active_instance_id instance_id)
      || not (equal r.active_directory host_path)
    then record {
      cache = [];
      active_instance_id = instance_id;
      active_directory = host_path;
      has_active_scope = true;
    }
    else r

-- What the repository works with: the files, the locator at a moment, the parser that it is given, and
-- the functions of its hashes.
pub record RepositorySystem : Type 1 where
  pub files : FileSystem
  pub locator : files.World → LocatorSystem
  pub parser : Text → Text → Text → files.World → ProfileParseResult × files.World
  pub to_utf8 : Text → Text
  pub sha256_hex : Text → Text

module _ (system : RepositorySystem) where
  open system use {files, locator, parser, to_utf8, sha256_hex}
  open files use {World}

  module _ (instance_id : Text) (directory : LocatedProfileDirectory) where
    abbrev pub key_of : Text → Text
    key_of identity = cache_key to_utf8 sha256_hex instance_id directory.host_path identity

    abbrev pub id_of : Text → Text
    id_of identity = opaque_profile_id to_utf8 sha256_hex instance_id identity

    unfoldable pub is_hit : Candidate → CacheEntry → Bool
    unfolding same_signature
    is_hit candidate entry =
        equal entry.instance_id instance_id
        && equal entry.directory directory.host_path
        && equal entry.canonical_identity candidate.canonical_identity
        && same_signature entry.signature candidate.signature

    unfoldable pub cached_result : Candidate → Option CacheEntry → Option ProfileParseResult
    unfolding is_hit
    cached_result candidate none = none
    cached_result candidate (some entry) =
        if is_hit candidate entry then some entry.result else none

    -- The attempts that are left. The file is inspected after it has been parsed; when it has
    -- changed meanwhile, the next attempt is at what it is now.
    unfoldable pub attempts :
        ℕ → Candidate → Text → Map CacheEntry → World → Attempt × Map CacheEntry × World
    unfolding normalize_record same_signature remove
    attempts zero candidate key cache w = (unstable candidate key, cache, w)
    attempts (suc left) candidate key cache w =
        let id = id_of candidate.canonical_identity in
        let (result, w1) = parser candidate.source_path candidate.launch_path id w in
        let (after, w2) = inspect_candidate files directory candidate.entry_name w1 in
        if after.directory_unreadable
        then (became_unreadable, cache, w2)
        else elim after.candidate [
          | none ↦ (gone, cache, w2)
          | some changed ↦
              let key' = key_of changed.canonical_identity in
              let again = attempts left changed key' (remove key' (remove key cache)) w2 in
              if equal changed.canonical_identity candidate.canonical_identity
                && same_signature changed.signature candidate.signature
              then (stable candidate key (normalize_record result candidate id), cache, w2)
              else again
        ]

    unfoldable pub entry_for : Candidate → ProfileParseResult → CacheEntry
    entry_for candidate result = record {
      instance_id = instance_id;
      directory = directory.host_path;
      canonical_identity = candidate.canonical_identity;
      fingerprint = candidate.fingerprint;
      signature = candidate.signature;
      result = result;
    }

    -- What the attempts make of the locals; the flag tells that the directory is unreadable.
    unfoldable pub after_attempts : Attempt → Loading → Bool × Loading
    unfolding listed entry_for insert remove
    after_attempts became_unreadable l = (true, l)
    after_attempts gone l = (false, l)
    after_attempts (unstable candidate key) l =
        if contains l.processed_identities candidate.canonical_identity then (false, l) else (
          false,
          record l {
            processed_identities = l.processed_identities ++ (candidate.canonical_identity ∷ []);
            fingerprint = l.fingerprint ++ (candidate.fingerprint ∷ []);
          },
        )
    after_attempts (stable candidate key result) l =
        let l' = listed candidate result l in
        if contains l.processed_identities candidate.canonical_identity
        then (false, record l { cache = remove key l.cache })
        else (
          false,
          record l' {
            active_cache_keys = l.active_cache_keys ++ (key ∷ []);
            cache =
                if is_transient result
                then l.cache
                else insert key (entry_for candidate result) l.cache;
          },
        )

    unfoldable pub parse_candidate : Candidate → Loading → World → (Bool × Loading) × World
    unfolding attempts after_attempts remove
    parse_candidate candidate l w =
        let key = key_of candidate.canonical_identity in
        let (attempt, cache, w') = attempts 2 candidate key (remove key l.cache) w in
        (after_attempts attempt (record l { cache = cache }), w')

    -- One round of the loop over the candidates.
    unfoldable pub load_candidate : Candidate → Loading → World → (Bool × Loading) × World
    unfolding cached_result lookup normalize_record listed parse_candidate
    load_candidate candidate l w =
        let key = key_of candidate.canonical_identity in
        if contains l.processed_identities candidate.canonical_identity
        then ((false, l), w)
        else elim (cached_result candidate (lookup key l.cache)) [
          | some result ↦
              let l' =
                listed candidate
                  (normalize_record result candidate (id_of candidate.canonical_identity)) l in
              ((false, record l' { active_cache_keys = l.active_cache_keys ++ (key ∷ []) }), w)
          | none ↦ parse_candidate candidate l w
        ]

    unfoldable pub load_candidates : List Candidate → Loading → World → (Bool × Loading) × World
    unfolding load_candidate
    load_candidates [] l w = ((false, l), w)
    load_candidates (candidate ∷ rest) l w =
        let ((unreadable, l'), w') = load_candidate candidate l w in
        let later = load_candidates rest l' w' in if unreadable then ((true, l'), w') else later

    -- The result and the repository at the end of the loop.
    unfoldable pub finished :
        DirectoryFingerprint
        → Bool × Loading
        → ProfileRepository
        → RepositoryLoadResult × ProfileRepository
    unfolding keep_active
    finished directory_fingerprint (true, l) r =
        (not_loaded unreadable_directory, record r { cache = l.cache })
    finished directory_fingerprint (false, l) r = (
      loaded (record {
        profiles = l.profiles;
        fingerprint = l.fingerprint;
        directory = directory;
        directory_fingerprint = directory_fingerprint;
      }),
      record r { cache = keep_active l.active_cache_keys l.cache },
    )

    unfoldable pub load_enumerated :
        Option Enumeration
        → ProfileRepository
        → World
        → (RepositoryLoadResult × ProfileRepository) × World
    unfolding load_candidates finished
    load_enumerated none r w = ((not_loaded unreadable_directory, r), w)
    load_enumerated (some enumeration) r w =
        let start : Loading = record {
          cache = r.cache;
          active_cache_keys = [];
          processed_identities = [];
          profiles = [];
          fingerprint = [];
        } in
        let (result, w') = load_candidates enumeration.candidates start w in
        (finished enumeration.directory_fingerprint result r, w')

  unfoldable pub load_located :
      Text
      → ProfileLocationResult
      → ProfileRepository
      → World
      → (RepositoryLoadResult × ProfileRepository) × World
  unfolding error_of forgotten scoped enumerate_candidates load_enumerated
  load_located instance_id (location_error error) r w =
      ((not_loaded (error_of error), forgotten r), w)
  load_located instance_id (located directory) r w =
      let (enumeration, w') = enumerate_candidates files directory w in
      load_enumerated instance_id directory enumeration (scoped instance_id directory.host_path r)
        w'

  unfoldable pub load :
      RemminaInstance
      → ProfileRepository
      → World
      → (RepositoryLoadResult × ProfileRepository) × World
  unfolding load_located locate_profile_directory_detailed
  load instance r w =
      load_located instance.id (locate_profile_directory_detailed (locator w) instance) r w
