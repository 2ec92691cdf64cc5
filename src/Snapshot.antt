-- ===== src/Snapshot.antt =====
-- The snapshots that src/core/profile_catalog.cpp compares, cleans and has watched. Qt's test for
-- absolute paths and its `cleanPath` are parameters.
pub mod Unique
pub mod Same
pub mod Covers
use remmina_krunner.Base.{
  ℕ, zero, suc, ◌+◌, Text, equal, contains, compare_text, List, [], ◌∷◌, ◌++◌, map, Option, none,
  some, is_empty, if◌then◌else◌, Bool, true, false, not, ◌&&◌, ◌||◌, ◌==◌,
}
use remmina_krunner.Base.Sort.{sort, is_lt}
use remmina_krunner.Base.Maps.{Map, lookup, insert}
use remmina_krunner.Profile.{ProfileRecord}
use remmina_krunner.Repository.{
  LocatedProfileDirectory, FileFingerprint, DirectoryFingerprint, ProfileSnapshot,
}

-- The comparison that the paths are sorted by.
abbrev pub path_before : Text → Text → Bool
path_before left right = is_lt (compare_text left right)

abbrev pub has_value : Option Text → Bool
has_value none = false
has_value (some x) = true

module _ (is_absolute_path : Text → Bool) (clean_path : Text → Text) where
  unfoldable pub clean_absolute_path : Text → Option Text
  clean_absolute_path path =
      if is_empty path || not (is_absolute_path path)
      then none
      else if is_empty (clean_path path) || not (is_absolute_path (clean_path path))
      then none
      else some (clean_path path)

  -- The loops over the parents and over the fingerprints: the paths that were not seen, in
  -- reverse, and the paths seen; `none` where a path is refused.
  unfoldable pub collect : List Text → List Text → List Text → Option (List Text × List Text)
  collect [] seen_paths paths = some (seen_paths, paths)
  collect (path ∷ rest) seen_paths paths = elim (clean_absolute_path path) [
    | none ↦ none
    | some clean ↦
        let old = collect rest seen_paths paths in
        let new = collect rest (clean ∷ seen_paths) (clean ∷ paths) in
        if contains seen_paths clean then old else new
  ]

  -- The list of the paths, from the two loops.
  unfoldable pub join_paths : Text → List Text → Option (List Text × List Text) → Option (List Text)
  join_paths clean_directory parents none = none
  join_paths clean_directory parents (some (seen_paths, files)) =
      some (clean_directory ∷ sort path_before parents ++ sort path_before files)

  unfoldable pub watch_files :
      Text → List FileFingerprint → Option (List Text × List Text) → Option (List Text)
  watch_files clean_directory fingerprints none = none
  watch_files clean_directory fingerprints (some (seen_paths, parents)) =
      join_paths clean_directory parents (collect (map (λ f. f.path) fingerprints) seen_paths [])

  unfoldable pub watch_directory :
      Option Text
      → LocatedProfileDirectory
      → DirectoryFingerprint
      → List FileFingerprint
      → Option (List Text)
  watch_directory none directory directory_fingerprint fingerprints = none
  watch_directory (some clean_directory) directory directory_fingerprint fingerprints =
      if not (has_value (clean_absolute_path directory.launch_path))
        || not (has_value (clean_absolute_path directory_fingerprint.canonical_path))
        || (directory_fingerprint.device == 0)
        || (directory_fingerprint.inode == 0)
      then none
      else watch_files clean_directory fingerprints
          (collect directory_fingerprint.symlink_parent_paths (clean_directory ∷ []) [])

  unfoldable pub watch_paths :
      LocatedProfileDirectory → DirectoryFingerprint → List FileFingerprint → Option (List Text)
  watch_paths directory directory_fingerprint fingerprints =
      watch_directory (clean_absolute_path directory.host_path) directory directory_fingerprint
        fingerprints

unfoldable pub same_fingerprint : FileFingerprint → FileFingerprint → Bool
same_fingerprint left right =
    equal left.path right.path
    && (left.size == right.size)
    && (left.modified_milliseconds == right.modified_milliseconds)

abbrev pub same_paths : List Text → List Text → Bool
same_paths [] [] = true
same_paths (x ∷ xs) (y ∷ ys) = equal x y && same_paths xs ys
same_paths [] (y ∷ ys) = false
same_paths (x ∷ xs) [] = false

unfoldable pub same_directory_fingerprint : DirectoryFingerprint → DirectoryFingerprint → Bool
same_directory_fingerprint left right =
    equal left.canonical_path right.canonical_path
    && (left.device == right.device)
    && (left.inode == right.inode)
    && same_paths left.symlink_parent_paths right.symlink_parent_paths

-- The lengths are compared, and then the elements.
unfoldable pub same_fingerprints : List FileFingerprint → List FileFingerprint → Bool
same_fingerprints [] [] = true
same_fingerprints (x ∷ xs) (y ∷ ys) = same_fingerprint x y && same_fingerprints xs ys
same_fingerprints [] (y ∷ ys) = false
same_fingerprints (x ∷ xs) [] = false

unfoldable pub equivalent_snapshot : ProfileSnapshot → ProfileSnapshot → Bool
equivalent_snapshot left right =
    equal left.directory.host_path right.directory.host_path
    && equal left.directory.launch_path right.directory.launch_path
    && same_directory_fingerprint left.directory_fingerprint right.directory_fingerprint
    && same_fingerprints left.fingerprint right.fingerprint

-- `counts.value(id)`
abbrev pub value_or_zero : Option ℕ → ℕ
value_or_zero none = 0
value_or_zero (some n) = n

-- The loop that counts the ids.
unfoldable pub count_ids : List ProfileRecord → Map ℕ → Map ℕ
count_ids [] counts = counts
count_ids (profile ∷ rest) counts = count_ids rest (
    if is_empty profile.opaque_id
    then counts
    else insert profile.opaque_id (value_or_zero (lookup profile.opaque_id counts) + 1) counts)

-- The loop that keeps the profiles whose id is not empty and was counted once.
unfoldable pub keep_single : Map ℕ → List ProfileRecord → List ProfileRecord
keep_single counts [] = []
keep_single counts (profile ∷ rest) =
    let sanitized = keep_single counts rest in
    if not (is_empty profile.opaque_id) && (value_or_zero (lookup profile.opaque_id counts) == 1)
    then profile ∷ sanitized
    else sanitized

unfoldable pub sanitize_records : ProfileSnapshot → ProfileSnapshot
sanitize_records snapshot = record snapshot {
  profiles = keep_single (count_ids snapshot.profiles []) snapshot.profiles;
}
