-- ===== src/Scanner/Ids.antt =====
-- The ids that the scan gives, and the backend that the registry reads off them.
use remmina_krunner.Base.{
  ℕ, Text, codes, starts_with, map, List, [], ◌∷◌, All, All-append, Option, none, some, is_empty,
  Bool, not, ◌||◌, ◌≡◌, refl, if_split,
}
use remmina_krunner.Instance.{
  native, flatpak, snap, InstanceKind, ProfileEnvironment, RemminaInstance,
}
use remmina_krunner.Registry.{backend_for_stable_id}
use remmina_krunner.Scanner.{
  FlatpakInstallation, Files, ScanEnvironment, native_instance, flatpak_instance, snap_instance,
  is_left_out, scan_native, scan_snap, scan_flatpak, scan, canonical_or_absolute_path,
}

-- The backend of a kind; a native installation has none.
abbrev pub backend_of : InstanceKind → Text
backend_of native = []
backend_of flatpak = codes "flatpak"
backend_of snap = codes "snap"

abbrev pub HasBackend : RemminaInstance → Type 0
HasBackend i = backend_for_stable_id i.id ≡ backend_of i.kind

native-HasBackend : (p : ProfileEnvironment) (path : Text) → HasBackend (native_instance p path)
unfolding backend_for_stable_id starts_with
native-HasBackend p path = refl

flatpak-HasBackend :
    (p : ProfileEnvironment) (path : Text) (i : FlatpakInstallation)
    → HasBackend (flatpak_instance p path i)
unfolding backend_for_stable_id starts_with
flatpak-HasBackend p path i = refl

snap-HasBackend : (p : ProfileEnvironment) (path : Text) → HasBackend (snap_instance p path)
unfolding backend_for_stable_id starts_with
snap-HasBackend p path = refl

module _ (files : Files) (profiles : ProfileEnvironment) where
  scan_native-HasBackend :
      (launcher root : Text) (seen entries : List Text)
      → All HasBackend (scan_native files profiles launcher root seen entries)
  unfolding scan_native
  scan_native-HasBackend launcher root seen [] = tt
  scan_native-HasBackend launcher root seen (entry ∷ entries) =
      let candidate = files.file_path entry (codes "remmina") in
      let later = scan_native-HasBackend launcher root seen entries in
      let listed =
        scan_native-HasBackend launcher root (files.canonical_file_path candidate ∷ seen) entries in
      if_split (All HasBackend) (not (files.is_executable_file candidate)) _ _ (λ _. later)
        λ _.
          if_split (All HasBackend) (is_empty (files.canonical_file_path candidate)) _ _
            (λ _. later)
            λ _.
              if_split (All HasBackend) (is_left_out files profiles launcher root seen candidate) _
                _ (λ _. later) (λ _. (native-HasBackend profiles _, listed))

  scan_snap-HasBackend : (launcher : Text) → All HasBackend (scan_snap files profiles launcher).0
  unfolding scan_snap
  scan_snap-HasBackend launcher =
      let P : List RemminaInstance × Bool → Type 0 = λ w. All HasBackend w.0 in
      if_split P (is_empty launcher) _ _ (λ _. tt)
        λ _.
          if_split P (not (files.exists launcher)) _ _ (λ _. tt)
            λ _.
              if_split P (not (files.is_executable_file launcher)) _ _ (λ _. tt)
                λ _.
                  if_split P (is_empty (files.canonical_file_path launcher)) _ _ (λ _. tt)
                    (λ _. (snap-HasBackend profiles (files.clean_absolute_path launcher), tt))

module _ (decode : Text → Option Text) (is_control : ℕ → Bool) (trimmed : Text → Text)
    (files : Files) (profiles : InstanceKind → ProfileEnvironment) where
  listed-HasBackend :
      (path : Text) (l : List FlatpakInstallation)
      → All HasBackend (map (flatpak_instance (profiles flatpak) path) l)
  listed-HasBackend path [] = tt
  listed-HasBackend path (i ∷ l) =
      (flatpak-HasBackend (profiles flatpak) path i, listed-HasBackend path l)

  scan_flatpak-HasBackend :
      (executable : Text) (output : Option Text)
      → All HasBackend (scan_flatpak decode is_control trimmed files profiles executable output).0
  unfolding scan_flatpak
  scan_flatpak-HasBackend executable none =
      if_split (λ (w : List RemminaInstance × Bool). All HasBackend w.0)
        (not (files.is_executable_file executable)
          || is_empty (files.canonical_file_path executable))
        _ _ (λ _. tt) (λ _. tt)
  scan_flatpak-HasBackend executable (some text) =
      if_split (λ (w : List RemminaInstance × Bool). All HasBackend w.0)
        (not (files.is_executable_file executable)
          || is_empty (files.canonical_file_path executable))
        _ _ (λ _. tt) (λ _. listed-HasBackend _ _)

  -- The registry reads off the id of every installation that the scan lists the backend that
  -- found it, and none for a native one, whatever the files and the output of the probe are.
  pub scan-HasBackend :
      (environment : ScanEnvironment) (output : Option Text)
      → All HasBackend (scan decode is_control trimmed files profiles environment output).instances
  unfolding scan
  scan-HasBackend environment output =
      All-append HasBackend _ _
        (All-append HasBackend _ _
          (scan_native-HasBackend files (profiles native) environment.snap_launcher
            (canonical_or_absolute_path files environment.snap_mount_root) []
            environment.path_entries)
          (scan_flatpak-HasBackend environment.flatpak_executable output))
        (scan_snap-HasBackend files (profiles snap) environment.snap_launcher)
