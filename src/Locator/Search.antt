-- ===== src/Locator/Search.antt =====
-- The search of src/core/profile_locator.cpp. A location that is looked at may set the flag
-- `sawUnreadable`, which is passed along.
use remmina_krunner.Base.{
  ℕ, Text, codes, List, [], ◌∷◌, ◌++◌, map, Option, none, some, is_empty, if◌then◌else◌, Bool, true,
  false, not, ◌&&◌, ◌||◌,
}
use remmina_krunner.Instance.{InstanceKind, native, flatpak, snap, RemminaInstance}
use remmina_krunner.KeyFile.Reader.{File, AllowedValues, read_allowed_key_file_values}
use remmina_krunner.Parser.{value_of}
use remmina_krunner.Repository.{LocatedProfileDirectory}
use remmina_krunner.Locator.Paths.{
  PathSystem, clean_absolute_path, child_path, path_below, resolved_path_for_containment,
}
use remmina_krunner.Locator.Status.{
  DirectoryCalls, DirectoryStatus, invalid, unreadable, readable, directory_status,
}
use remmina_krunner.Locator.Roots.{SandboxPathRoot, verified_sandbox_roots}

pub data ProfileLocationError : Type 0 where
  not_found unreadable_location : ProfileLocationError

pub data ProfileLocationResult : Type 0 where
  located : LocatedProfileDirectory → ProfileLocationResult
  location_error : ProfileLocationError → ProfileLocationResult

-- What the locator works with: the paths, the system calls, the opening of a key file and the
-- functions of Qt that its reader uses.
pub record LocatorSystem : Type 0 where
  pub paths : PathSystem
  pub calls : DirectoryCalls
  pub open_file : Text → Option File
  pub from_utf8 : Text → Text
  pub is_letter_or_number : ℕ → Bool

abbrev pub is_native : InstanceKind → Bool
is_native native = true
is_native flatpak = false
is_native snap = false

-- The flag and the location for the status of a directory.
unfoldable pub location_for :
    Text → Text → Bool → DirectoryStatus → Option LocatedProfileDirectory × Bool
location_for host launch saw invalid = (none, saw)
location_for host launch saw unreadable = (none, true)
location_for host launch saw readable =
    (some (record { host_path = host; launch_path = launch }), saw)

unfoldable pub has_value : Option Text → Bool
has_value none = false
has_value (some text) = true

-- What a location and the flag make of the search, which otherwise goes on.
unfoldable pub ends_or :
    Option LocatedProfileDirectory × Bool → (Bool → ProfileLocationResult) → ProfileLocationResult
ends_or (some location, saw) more = located location
ends_or (none, true) more = location_error unreadable_location
ends_or (none, false) more = more false

module _ (system : LocatorSystem) where
  open system use {paths, calls, open_file, from_utf8, is_letter_or_number}

  unfoldable pub existing_location : Text → Text → Bool → Option LocatedProfileDirectory × Bool
  unfolding location_for clean_absolute_path directory_status
  existing_location host_path launch_path saw_unreadable =
      let host = clean_absolute_path paths host_path in
      let launch = clean_absolute_path paths launch_path in
      if is_empty host || is_empty launch
      then (none, saw_unreadable)
      else location_for host launch saw_unreadable (directory_status paths calls host)

  -- The test of one sandbox root.
  unfoldable pub contains_custom : Text → Text → SandboxPathRoot → Bool
  unfolding path_below has_value
  contains_custom absolute resolved root =
      has_value (path_below paths absolute root.lexical_root)
      && has_value (path_below paths resolved root.resolved_root)

  unfoldable pub search_roots :
      Text → Text → List SandboxPathRoot → Bool → Option LocatedProfileDirectory × Bool
  unfolding contains_custom existing_location
  search_roots absolute resolved [] saw = (none, saw)
  search_roots absolute resolved (root ∷ roots) saw =
      let later = search_roots absolute resolved roots saw in
      if contains_custom absolute resolved root
      then existing_location absolute absolute saw
      else later

  unfoldable pub sandbox_custom_location :
      Text → Option (List SandboxPathRoot) → Bool → Option LocatedProfileDirectory × Bool
  unfolding clean_absolute_path resolved_path_for_containment search_roots
  sandbox_custom_location custom_path none saw = (none, saw)
  sandbox_custom_location custom_path (some roots) saw =
      let absolute = clean_absolute_path paths custom_path in
      elim (resolved_path_for_containment paths absolute) [
        | none ↦ (none, saw)
        | some resolved ↦ search_roots absolute resolved roots saw
      ]

  -- The value of the preferences, unless it is no absolute path.
  unfoldable pub custom_value : Option AllowedValues → Option Text
  custom_value none = none
  custom_value (some values) =
      let value = value_of (codes "datadir_path") values in
      if is_empty value || not (paths.is_absolute_path value) then none else some value

  unfoldable pub custom_data_directory : RemminaInstance → Option Text
  unfolding child_path custom_value read_allowed_key_file_values
  custom_data_directory instance =
      let preferences =
        child_path paths (child_path paths instance.profiles.config_home (codes "remmina"))
          (codes "remmina.pref") in
      if is_empty preferences
      then none
      else custom_value (
          read_allowed_key_file_values from_utf8 is_letter_or_number (codes "remmina_pref")
            (codes "datadir_path" ∷ []) (open_file preferences))

  unfoldable pub custom_location : RemminaInstance → Text → Option LocatedProfileDirectory × Bool
  unfolding existing_location sandbox_custom_location verified_sandbox_roots
  custom_location instance custom_path =
      if is_native instance.kind
      then existing_location custom_path custom_path false
      else sandbox_custom_location custom_path (verified_sandbox_roots paths instance) false

  unfoldable pub host_candidates : RemminaInstance → List Text
  unfolding child_path
  host_candidates instance =
      (instance.profiles.legacy_home
        ∷ child_path paths instance.profiles.data_home (codes "remmina")
        ∷ [])
      ++ (if is_native instance.kind
          then map (λ home. child_path paths home (codes "remmina"))
              instance.profiles.system_data_homes
          else [])

  unfoldable pub search_candidates : List Text → Bool → ProfileLocationResult
  unfolding ends_or existing_location
  search_candidates [] saw = location_error not_found
  search_candidates (candidate ∷ candidates) saw =
      ends_or (existing_location candidate candidate saw) (λ s. search_candidates candidates s)

  unfoldable pub locate_profile_directory_detailed : RemminaInstance → ProfileLocationResult
  unfolding custom_data_directory custom_location host_candidates search_candidates ends_or
  locate_profile_directory_detailed instance =
      let standard = λ (saw : Bool). search_candidates (host_candidates instance) saw in
      elim (custom_data_directory instance) [
        | none ↦ standard false
        | some custom_path ↦ ends_or (custom_location instance custom_path) standard
      ]

  unfoldable pub locate_profile_directory : RemminaInstance → Option LocatedProfileDirectory
  unfolding locate_profile_directory_detailed
  locate_profile_directory instance = elim (locate_profile_directory_detailed instance) [
    | located location ↦ some location
    | location_error error ↦ none
  ]
