-- ===== src/Repository.antt =====
-- src/core/profile_repository.h and profile_locator.h: what the repository answers its catalog.
pub mod Hash
pub mod Candidates
pub mod Loaded
pub mod Listing
pub mod Parents
pub mod Attempts
pub mod Loading
pub mod Inspection
pub mod Files
pub mod Unambiguous
use remmina_krunner.Base.{ℕ, Text, List}
use remmina_krunner.Profile.{ProfileRecord}

pub record LocatedProfileDirectory : Type 0 where
  pub host_path : Text
  pub launch_path : Text

pub record FileFingerprint : Type 0 where
  pub path : Text
  pub size : ℕ
  pub modified_milliseconds : ℕ

pub record DirectoryFingerprint : Type 0 where
  pub canonical_path : Text
  pub device : ℕ
  pub inode : ℕ
  pub symlink_parent_paths : List Text

pub record ProfileSnapshot : Type 0 where
  pub profiles : List ProfileRecord
  pub fingerprint : List FileFingerprint
  pub directory : LocatedProfileDirectory
  pub directory_fingerprint : DirectoryFingerprint

pub data ProfileRepositoryError : Type 0 where
  no_profile_directory unreadable_directory : ProfileRepositoryError

pub data RepositoryLoadResult : Type 0 where
  loaded : ProfileSnapshot → RepositoryLoadResult
  not_loaded : ProfileRepositoryError → RepositoryLoadResult
