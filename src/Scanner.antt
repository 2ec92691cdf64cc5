-- ===== src/Scanner.antt =====
-- src/core/instance_scanner.cpp: the scan for installations. What Qt tells of the files, the
-- outcome of `flatpak list`, its decoder and the profile directories of each kind are parameters.
pub mod Ids
pub mod Rows
pub mod Columns
pub mod Listed
use remmina_krunner.Base.{
  ℕ, Text, codes, equal, starts_with, contains, compare_text, any, all, map, List, [], ◌∷◌, ◌++◌,
  Ordering, Option, none, some, is_empty, if◌then◌else◌, Bool, true, false, not, ◌&&◌, ◌||◌, ◌==◌,
  ltb,
}
use remmina_krunner.Base.Sort.{sort, is_lt}
use remmina_krunner.Base.Split.{split}
use remmina_krunner.Instance.{
  native, flatpak, snap, InstanceKind, ProfileEnvironment, RemminaInstance, InstanceScanResult,
}

abbrev pub remmina_application_id : Text
remmina_application_id = codes "org.remmina.Remmina"

pub record FlatpakInstallation : Type 0 where
  pub installation : Text
  pub ref : Text

-- The end of `isRemminaApplicationRef`, on the components.
unfoldable pub is_application : List Text → Bool
is_application (id ∷ arch ∷ branch ∷ []) = equal id remmina_application_id
is_application (app ∷ id ∷ arch ∷ branch ∷ []) =
    equal app (codes "app") && equal id remmina_application_id
is_application _ = false

unfoldable pub is_remmina_application_ref : Text → Bool
is_remmina_application_ref ref =
    let components = split b'/' ref in
    all (λ component. not (is_empty component)) components && is_application components

unfoldable pub installation_group : Text → ℕ
installation_group installation =
    if equal installation (codes "user")
    then 0
    else if equal installation (codes "system")
    then 1
    else 2

-- The comparison that the installations are sorted by.
unfoldable pub installation_before : FlatpakInstallation → FlatpakInstallation → Bool
installation_before left right =
    let left_group = installation_group left.installation in
    let right_group = installation_group right.installation in
    let ref_order = is_lt (compare_text left.ref right.ref) in
    if not (left_group == right_group)
    then ltb left_group right_group
    else elim (compare_text left.installation right.installation) [
      | Ordering.lt ↦ true
      | Ordering.gt ↦ false
      | Ordering.eq ↦ ref_order
    ]

unfoldable pub flatpak_launcher_prefix : FlatpakInstallation → List Text
flatpak_launcher_prefix i =
    let selector =
      if equal i.installation (codes "user")
      then codes "--user"
      else if equal i.installation (codes "system")
      then codes "--system"
      else codes "--installation=" ++ i.installation in
    selector ∷ codes "run" ∷ i.ref ∷ []

-- The key by which a row is known again.
abbrev pub deduplication_key : FlatpakInstallation → Text
deduplication_key i = i.installation ++ 0x1F ∷ i.ref

module _ (decode : Text → Option Text) (is_control : ℕ → Bool) (trimmed : Text → Text) where
  unfoldable pub decode_flatpak_field : Text → Option Text
  decode_flatpak_field encoded_field = elim (decode encoded_field) [
    | none ↦ none
    | some field ↦
        if any is_control field
        then none
        else if is_empty (trimmed field)
        then none
        else some (trimmed field)
  ]

  -- A row with its three fields decoded.
  unfoldable pub row_of : Option Text → Option Text → Option Text → Option FlatpakInstallation
  row_of (some application) (some ref) (some installation) =
      if not (equal application remmina_application_id) || not (is_remmina_application_ref ref)
      then none
      else some (record { installation = installation; ref = ref })
  row_of _ _ _ = none

  unfoldable pub read_columns : List Text → Option FlatpakInstallation
  read_columns (a ∷ b ∷ c ∷ []) =
      row_of (decode_flatpak_field a) (decode_flatpak_field b) (decode_flatpak_field c)
  read_columns _ = none

  abbrev pub read_row : Text → Option FlatpakInstallation
  read_row line = read_columns (split b'\t' line)

  -- The loop over the lines, with the keys that were seen.
  unfoldable pub collect_rows : List Text → List Text → List FlatpakInstallation
  collect_rows [] seen = []
  collect_rows (line ∷ rest) seen = elim (read_row line) [
    | none ↦ collect_rows rest seen
    | some i ↦
        let old = collect_rows rest seen in
        let new = i ∷ collect_rows rest (deduplication_key i ∷ seen) in
        if contains seen (deduplication_key i) then old else new
  ]

  unfoldable pub parse_flatpak_installations : Text → List FlatpakInstallation
  parse_flatpak_installations output =
      sort installation_before (collect_rows (split b'\n' output) [])

-- What `QFileInfo` and `QDir` tell: `cleanPath(absoluteFilePath())`, and empty canonical paths where
-- there is no file.
pub record Files : Type 0 where
  pub is_executable_file : Text → Bool
  pub exists : Text → Bool
  pub is_sym_link : Text → Bool
  pub canonical_file_path : Text → Text
  pub clean_absolute_path : Text → Text
  pub clean_path : Text → Text
  pub file_path : Text → Text → Text

pub record ScanEnvironment : Type 0 where
  pub path_entries : List Text
  pub flatpak_executable : Text
  pub snap_launcher : Text
  pub user_home : Text
  pub snap_mount_root : Text

unfoldable pub is_under_snap_root : Text → Text → Bool
is_under_snap_root canonical_path snap_mount_root =
    if is_empty snap_mount_root
    then false
    else if equal snap_mount_root (codes "/")
    then starts_with canonical_path (codes "/")
    else equal canonical_path snap_mount_root
      || starts_with canonical_path (snap_mount_root ++ codes "/")

abbrev pub native_instance : ProfileEnvironment → Text → RemminaInstance
native_instance profiles absolute_path = record {
  id = codes "native:" ++ absolute_path;
  kind = native;
  display_name = codes "Remmina (Native: " ++ absolute_path ++ codes ")";
  executable = absolute_path;
  launcher_prefix = [];
  profiles = profiles;
}

abbrev pub flatpak_instance : ProfileEnvironment → Text → FlatpakInstallation → RemminaInstance
flatpak_instance profiles flatpak_canonical i = record {
  id = codes "flatpak:" ++ i.installation ++ codes ":" ++ i.ref;
  kind = flatpak;
  display_name = codes "Remmina (Flatpak: " ++ i.installation ++ codes ")";
  executable = flatpak_canonical;
  launcher_prefix = flatpak_launcher_prefix i;
  profiles = profiles;
}

abbrev pub snap_instance : ProfileEnvironment → Text → RemminaInstance
snap_instance profiles snap_launcher_path = record {
  id = codes "snap:remmina";
  kind = snap;
  display_name = codes "Remmina (Snap)";
  executable = snap_launcher_path;
  launcher_prefix = [];
  profiles = profiles;
}

module _ (files : Files) where
  unfoldable pub canonical_or_absolute_path : Text → Text
  canonical_or_absolute_path path =
      let canonical_path = files.canonical_file_path path in
      if is_empty path
      then []
      else if is_empty canonical_path
      then files.clean_absolute_path path
      else files.clean_path canonical_path

module _ (files : Files) (profiles : ProfileEnvironment) where
  -- Whether a candidate is left out: the Snap launcher, a file of a Snap, or one already listed.
  unfoldable pub is_left_out : Text → Text → List Text → Text → Bool
  is_left_out snap_launcher snap_mount_root seen candidate =
      let absolute_path = files.clean_absolute_path candidate in
      let canonical_path = files.canonical_file_path candidate in
      let launcher_path =
        if is_empty snap_launcher then [] else files.clean_absolute_path snap_launcher in
      let launcher_canonical = files.canonical_file_path snap_launcher in
      (not (is_empty launcher_path) && equal absolute_path launcher_path)
      || (not (is_empty launcher_canonical) && equal canonical_path launcher_canonical)
      || is_under_snap_root canonical_path snap_mount_root
      || contains seen canonical_path

  -- The loop over the entries of the path.
  unfoldable pub scan_native : Text → Text → List Text → List Text → List RemminaInstance
  scan_native snap_launcher snap_mount_root seen [] = []
  scan_native snap_launcher snap_mount_root seen (path_entry ∷ rest) =
      let candidate = files.file_path path_entry (codes "remmina") in
      let canonical_path = files.canonical_file_path candidate in
      let later = scan_native snap_launcher snap_mount_root seen rest in
      let listed = scan_native snap_launcher snap_mount_root (canonical_path ∷ seen) rest in
      if not (files.is_executable_file candidate)
      then later
      else if is_empty canonical_path
      then later
      else if is_left_out snap_launcher snap_mount_root seen candidate
      then later
      else native_instance profiles (files.clean_absolute_path candidate) ∷ listed

  -- The part for Snap: what it lists, and whether it failed.
  unfoldable pub scan_snap : Text → List RemminaInstance × Bool
  scan_snap snap_launcher =
      if is_empty snap_launcher
      then ([], false)
      else if not (files.exists snap_launcher)
      then ([], files.is_sym_link snap_launcher)
      else if not (files.is_executable_file snap_launcher)
      then ([], false)
      else if is_empty (files.canonical_file_path snap_launcher)
      then ([], true)
      else (snap_instance profiles (files.clean_absolute_path snap_launcher) ∷ [], false)

-- `addFailedBackend`, where the backend failed.
unfoldable pub add_failed : Bool → Text → List Text → List Text
add_failed failed backend failed_backends =
    if failed && not (contains failed_backends backend)
    then failed_backends ++ backend ∷ []
    else failed_backends

module _ (decode : Text → Option Text) (is_control : ℕ → Bool) (trimmed : Text → Text)
    (files : Files) (profiles : InstanceKind → ProfileEnvironment) where
  -- The part for Flatpak, with the output of the probe, absent unless its status is `Success`.
  unfoldable pub scan_flatpak : Text → Option Text → List RemminaInstance × Bool
  scan_flatpak flatpak_executable output =
      let flatpak_canonical = files.canonical_file_path flatpak_executable in
      if not (files.is_executable_file flatpak_executable) || is_empty flatpak_canonical
      then ([], false)
      else elim output [
        | none ↦ ([], true)
        | some text ↦ (
          map (flatpak_instance (profiles flatpak) flatpak_canonical)
              (parse_flatpak_installations decode is_control trimmed text),
          false,
        )
      ]

  unfoldable pub scan : ScanEnvironment → Option Text → InstanceScanResult
  scan environment output =
      let snap_mount_root = canonical_or_absolute_path files environment.snap_mount_root in
      let flatpaks = scan_flatpak environment.flatpak_executable output in
      let snaps = scan_snap files (profiles snap) environment.snap_launcher in
      record {
        instances =
            scan_native files (profiles native) environment.snap_launcher snap_mount_root []
              environment.path_entries
            ++ flatpaks.0
            ++ snaps.0;
        failed_backends =
            add_failed snaps.1 (codes "snap") (add_failed flatpaks.1 (codes "flatpak") []);
      }
