-- ===== src/Locator/Status.antt =====
-- `directoryStatus` of src/core/profile_locator.cpp. The system calls are an argument.
use remmina_krunner.Base.{ℕ, Text, is_empty, if◌then◌else◌, Bool, true, false, not}
use remmina_krunner.Posix.{
  ErrorNumber, enoent, enotdir, eloop, enametoolong, Answer, Outcome, succeeded, failed, retry,
}
use remmina_krunner.Locator.Paths.{PathSystem, clean_absolute_path}

-- `QFile::encodeName`, and stat, faccessat for reading and searching, open as a directory and fstat.
-- A stat gives whether the file is a directory.
pub record DirectoryCalls : Type 0 where
  pub encode_name : Text → Text
  pub stat : Text → Answer Bool
  pub access : Text → Answer (Unit {0})
  pub open_directory : Text → Answer ℕ
  pub fstat : ℕ → Answer Bool

pub data DirectoryStatus : Type 0 where
  invalid unreadable readable : DirectoryStatus

abbrev pub is_structural_path_error : ErrorNumber → Bool
is_structural_path_error enoent = true
is_structural_path_error enotdir = true
is_structural_path_error eloop = true
is_structural_path_error enametoolong = true
is_structural_path_error _ = false

-- The status after a failed call.
unfoldable pub status_after : ErrorNumber → DirectoryStatus
status_after error = if is_structural_path_error error then invalid else unreadable

module _ (system : PathSystem) (calls : DirectoryCalls) where
  open calls use {encode_name, stat, access, open_directory, fstat}

  -- The directory is opened: what its descriptor is.
  unfoldable pub opened_status : Outcome ℕ → DirectoryStatus
  unfolding retry status_after
  opened_status (failed error) = status_after error
  opened_status (succeeded descriptor) = elim (retry (fstat descriptor)) [
    | failed error ↦ unreadable
    | succeeded is_directory ↦ if is_directory then readable else invalid
  ]

  unfoldable pub accessed_status : Text → Outcome (Unit {0}) → DirectoryStatus
  unfolding retry status_after opened_status
  accessed_status encoded (failed error) = status_after error
  accessed_status encoded (succeeded _) = opened_status (retry (open_directory encoded))

  unfoldable pub stat_status : Text → Outcome Bool → DirectoryStatus
  unfolding retry status_after accessed_status
  stat_status encoded (failed error) = status_after error
  stat_status encoded (succeeded is_directory) =
      if not is_directory then invalid else accessed_status encoded (retry (access encoded))

  unfoldable pub directory_status : Text → DirectoryStatus
  unfolding retry stat_status clean_absolute_path
  directory_status path =
      let absolute = clean_absolute_path system path in
      if is_empty absolute
      then invalid
      else stat_status (encode_name absolute) (retry (stat (encode_name absolute)))
