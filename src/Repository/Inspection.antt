-- ===== src/Repository/Inspection.antt =====
-- The candidates of src/core/profile_repository.cpp: the files of a directory that may be profiles.
use remmina_krunner.Base.{
  ℕ, ◌+◌, ◌*◌, ◌/◌, ◌==◌, Text, codes, equal, contains, compare_text, List, [], ◌∷◌, ◌++◌, Option,
  none, some, is_empty, if◌then◌else◌, Bool, true, false, not, ◌&&◌, ◌||◌, Ordering,
}
use remmina_krunner.Base.Sort.{sort}
use remmina_krunner.Locator.Paths.{ends_with}
use remmina_krunner.Posix.{ErrorNumber, eacces, eperm, Outcome, succeeded, failed, retry}
use remmina_krunner.Repository.{LocatedProfileDirectory, FileFingerprint, DirectoryFingerprint}
use remmina_krunner.Repository.Files.{
  Metadata, FileSystem, clean_child_path, directory_accessible, canonical_identity_for_descriptor,
  fingerprint_for_descriptor,
}

pub record InternalFileSignature : Type 0 where
  pub device : ℕ
  pub inode : ℕ
  pub size : ℕ
  pub modified_seconds : ℕ
  pub modified_nanoseconds : ℕ
  pub changed_seconds : ℕ
  pub changed_nanoseconds : ℕ

pub record Candidate : Type 0 where
  pub entry_name : Text
  pub source_path : Text
  pub launch_path : Text
  pub canonical_identity : Text
  pub fingerprint : FileFingerprint
  pub signature : InternalFileSignature

pub record CandidateInspection : Type 0 where
  pub candidate : Option Candidate
  pub directory_unreadable : Bool

pub record Enumeration : Type 0 where
  pub candidates : List Candidate
  pub directory_fingerprint : DirectoryFingerprint

unfoldable pub modified_milliseconds : Metadata → ℕ
modified_milliseconds m = m.modified_seconds * 1000 + m.modified_nanoseconds / 1000000

unfoldable pub internal_signature : Metadata → InternalFileSignature
internal_signature m = record {
  device = m.device;
  inode = m.inode;
  size = m.size;
  modified_seconds = m.modified_seconds;
  modified_nanoseconds = m.modified_nanoseconds;
  changed_seconds = m.changed_seconds;
  changed_nanoseconds = m.changed_nanoseconds;
}

unfoldable pub same_signature : InternalFileSignature → InternalFileSignature → Bool
same_signature left right =
    left.device == right.device
    && left.inode == right.inode
    && left.size == right.size
    && left.modified_seconds == right.modified_seconds
    && left.modified_nanoseconds == right.modified_nanoseconds
    && left.changed_seconds == right.changed_seconds
    && left.changed_nanoseconds == right.changed_nanoseconds

-- `error == EACCES || error == EPERM`
abbrev pub is_denied : ErrorNumber → Bool
is_denied eacces = true
is_denied eperm = true
is_denied _ = false

abbrev pub nothing_there : CandidateInspection
nothing_there = record { candidate = none; directory_unreadable = false }

-- The order of the candidates: by name, then by path.
unfoldable pub stands_before : Candidate → Candidate → Bool
stands_before left right = elim (compare_text left.entry_name right.entry_name) [
  | Ordering.lt ↦ true
  | Ordering.gt ↦ false
  | Ordering.eq ↦ elim (compare_text left.source_path right.source_path) [
    | Ordering.lt ↦ true
    | Ordering.eq ↦ false
    | Ordering.gt ↦ false
  ]
]

-- The loop that keeps the first candidate of each identity.
unfoldable pub first_of_each : List Text → List Candidate → List Candidate
first_of_each seen [] = []
first_of_each seen (candidate ∷ rest) =
    let skipped = first_of_each seen rest in
    let kept = first_of_each (candidate.canonical_identity ∷ seen) rest in
    if contains seen candidate.canonical_identity then skipped else candidate ∷ kept

abbrev pub with_candidate : List Candidate → Option Candidate → List Candidate
with_candidate found none = found
with_candidate found (some candidate) = found ++ (candidate ∷ [])

unfoldable pub enumeration_of :
    Bool → Option (List Candidate) → DirectoryFingerprint → Option Enumeration
unfolding first_of_each stands_before
enumeration_of fails none fingerprint = none
enumeration_of fails (some discovered) fingerprint =
    if fails
    then none
    else some (record {
      candidates = first_of_each [] (sort stands_before discovered);
      directory_fingerprint = fingerprint;
    })

module _ (system : FileSystem) where
  open system use {
    World, clean_path, is_absolute_path, encode_name, decode_name, canonical_file_path,
    open_directory, fstat, stat_at, open_at, open_stream, read_names, close,
  }

  -- The end of `inspectCandidateAt`, with the identity that it has come to.
  unfoldable pub candidate_with :
      LocatedProfileDirectory → Text → Metadata → Text → CandidateInspection
  unfolding clean_child_path internal_signature modified_milliseconds
  candidate_with directory entry_name metadata identity =
      if is_empty identity || not (is_absolute_path identity) then nothing_there else record {
        candidate = some (record {
          entry_name = entry_name;
          source_path = clean_child_path system directory.host_path entry_name;
          launch_path = clean_child_path system directory.launch_path entry_name;
          canonical_identity = identity;
          fingerprint = record {
            path = identity;
            size = metadata.size;
            modified_milliseconds = modified_milliseconds metadata;
          };
          signature = internal_signature metadata;
        });
        directory_unreadable = false;
      }

  -- Without an identity of the descriptor the path on the disk is asked.
  unfoldable pub conclude :
      LocatedProfileDirectory → Text → Metadata → Text → World → CandidateInspection × World
  unfolding candidate_with clean_child_path
  conclude directory entry_name metadata identity w =
      let (canonical, w1) =
        canonical_file_path (clean_child_path system directory.host_path entry_name) w in
      if is_empty identity
      then (candidate_with directory entry_name metadata (clean_path canonical), w1)
      else (candidate_with directory entry_name metadata identity, w)

  -- The file is open, and has been asked what it is.
  unfoldable pub inspect_file :
      LocatedProfileDirectory → Text → ℕ → Outcome Metadata → World → CandidateInspection × World
  unfolding conclude canonical_identity_for_descriptor
  inspect_file directory entry_name file (failed error) w = (nothing_there, close file w)
  inspect_file directory entry_name file (succeeded metadata) w =
      let (identity, w1) = canonical_identity_for_descriptor system file w in
      if not metadata.is_regular
      then (nothing_there, close file w)
      else conclude directory entry_name metadata identity (close file w1)

  unfoldable pub after_open :
      ℕ
      → LocatedProfileDirectory
      → Text
      → Metadata
      → Outcome ℕ
      → World
      → CandidateInspection × World
  unfolding inspect_file conclude directory_accessible retry
  after_open descriptor directory entry_name metadata (succeeded file) w =
      let (answer, w1) = fstat file w in inspect_file directory entry_name file (retry answer) w1
  after_open descriptor directory entry_name metadata (failed error) w =
      let (accessible, w1) = directory_accessible system descriptor w in
      if not (is_denied error)
      then (nothing_there, w)
      else if not accessible
      then (record { candidate = none; directory_unreadable = true }, w1)
      else conclude directory entry_name metadata [] w1

  unfoldable pub after_stat :
      ℕ
      → LocatedProfileDirectory
      → Text
      → Text
      → Outcome Metadata
      → World
      → CandidateInspection × World
  unfolding after_open directory_accessible retry
  after_stat descriptor directory encoded_name entry_name (failed error) w =
      let (accessible, w1) = directory_accessible system descriptor w in
      if is_denied error
      then (record { candidate = none; directory_unreadable = not accessible }, w1)
      else (nothing_there, w)
  after_stat descriptor directory encoded_name entry_name (succeeded metadata) w =
      let (answer, w1) = open_at descriptor encoded_name w in
      if not metadata.is_regular
      then (nothing_there, w)
      else after_open descriptor directory entry_name metadata (retry answer) w1

  unfoldable pub inspect_candidate_at :
      ℕ → LocatedProfileDirectory → Text → Text → World → CandidateInspection × World
  unfolding after_stat retry
  inspect_candidate_at descriptor directory encoded_name entry_name w =
      let (answer, w1) = stat_at descriptor encoded_name w in
      after_stat descriptor directory encoded_name entry_name (retry answer) w1

  unfoldable pub inspect_in :
      LocatedProfileDirectory → Text → Outcome ℕ → World → CandidateInspection × World
  unfolding inspect_candidate_at directory_accessible
  inspect_in directory entry_name (failed error) w =
      (record { candidate = none; directory_unreadable = true }, w)
  inspect_in directory entry_name (succeeded descriptor) w =
      let (accessible, w1) = directory_accessible system descriptor w in
      let (inspection, w2) =
        inspect_candidate_at descriptor directory (encode_name entry_name) entry_name w1 in
      if not accessible
      then (record { candidate = none; directory_unreadable = true }, close descriptor w1)
      else (inspection, close descriptor w2)

  unfoldable pub inspect_candidate :
      LocatedProfileDirectory → Text → World → CandidateInspection × World
  unfolding inspect_in retry
  inspect_candidate directory entry_name w =
      let (answer, w1) = open_directory (encode_name directory.host_path) w in
      inspect_in directory entry_name (retry answer) w1

  -- A name that is looked at: it can be decoded, and ends in `.remmina`.
  unfoldable pub is_eligible_name : Text → Bool
  unfolding ends_with
  is_eligible_name encoded_name =
      let entry_name = decode_name encoded_name in
      not (equal encoded_name (codes "."))
      && not (equal encoded_name (codes ".."))
      && equal (encode_name entry_name) encoded_name
      && ends_with entry_name (codes ".remmina")

  -- The loop over the names; `none` when the directory has become unreadable.
  unfoldable pub discover :
      ℕ
      → LocatedProfileDirectory
      → List Text
      → List Candidate
      → World
      → Option (List Candidate) × World
  unfolding is_eligible_name inspect_candidate_at
  discover descriptor directory [] found w = (some found, w)
  discover descriptor directory (encoded_name ∷ names) found w =
      let (inspection, w1) =
        inspect_candidate_at descriptor directory encoded_name (decode_name encoded_name) w in
      let skipped = discover descriptor directory names found w in
      let rest =
        discover descriptor directory names (with_candidate found inspection.candidate) w1 in
      if not (is_eligible_name encoded_name)
      then skipped
      else if inspection.directory_unreadable
      then (none, w1)
      else rest

  -- The directory's stream, which is closed at the end.
  unfoldable pub enumerate_stream :
      ℕ → LocatedProfileDirectory → Option DirectoryFingerprint → World → Option Enumeration × World
  unfolding discover enumeration_of
  enumerate_stream descriptor directory none w = (none, close descriptor w)
  enumerate_stream descriptor directory (some fingerprint) w =
      let (opened, w1) = open_stream descriptor w in
      let ((names, fails), w2) = read_names descriptor w1 in
      let (discovered, w3) = discover descriptor directory names [] w2 in
      if not opened
      then (none, close descriptor w1)
      else (enumeration_of fails discovered fingerprint, close descriptor w3)

  unfoldable pub enumerate_in :
      LocatedProfileDirectory → Outcome ℕ → World → Option Enumeration × World
  unfolding directory_accessible fingerprint_for_descriptor enumerate_stream
  enumerate_in directory (failed error) w = (none, w)
  enumerate_in directory (succeeded descriptor) w =
      let (accessible, w1) = directory_accessible system descriptor w in
      let (fingerprint, w2) = fingerprint_for_descriptor system descriptor directory.host_path w1 in
      if not accessible
      then (none, close descriptor w1)
      else enumerate_stream descriptor directory fingerprint w2

  -- `none` is `ProfileRepositoryError::UnreadableDirectory`.
  unfoldable pub enumerate_candidates : LocatedProfileDirectory → World → Option Enumeration × World
  unfolding enumerate_in retry
  enumerate_candidates directory w =
      let (answer, w1) = open_directory (encode_name directory.host_path) w in
      enumerate_in directory (retry answer) w1
