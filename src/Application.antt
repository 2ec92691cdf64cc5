-- ===== src/Application.antt =====
-- src/application.cpp: the command line, and the report of `--rescan`. The backend answers as an
-- argument, absent where it throws; a stream's status at the end of a report is an argument too.
-- The decimal text of a number is Qt's, and a parameter.
pub mod Report
use remmina_krunner.Base.{
  ℕ, zero, suc, Text, codes, equal, length, List, [], ◌∷◌, ◌++◌, Option, none, some, is_empty,
  if◌then◌else◌, Bool, true, false, not, ◌&&◌,
}
use remmina_krunner.Instance.{
  InstanceKind, native, flatpak, snap, RemminaInstance, RegistrySnapshot, selected_instance,
}

unfoldable pub kind_name : InstanceKind → Text
kind_name native = codes "native"
kind_name flatpak = codes "flatpak"
kind_name snap = codes "snap"

abbrev pub kind_of : Option RemminaInstance → Option InstanceKind
kind_of none = none
kind_of (some instance) = some instance.kind

unfoldable pub selected_kind : RegistrySnapshot → Option InstanceKind
selected_kind snapshot = kind_of (selected_instance snapshot)

-- The three counters of the loop.
pub record Counts : Type 0 where
  pub native_count : ℕ
  pub flatpak_count : ℕ
  pub snap_count : ℕ

abbrev pub no_counts : Counts
no_counts = record { native_count = 0; flatpak_count = 0; snap_count = 0 }

unfoldable pub count_kind : InstanceKind → Counts → Counts
count_kind native counts = record counts { native_count = suc counts.native_count }
count_kind flatpak counts = record counts { flatpak_count = suc counts.flatpak_count }
count_kind snap counts = record counts { snap_count = suc counts.snap_count }

unfoldable pub count_kinds : List RemminaInstance → Counts → Counts
count_kinds [] counts = counts
count_kinds (instance ∷ rest) counts = count_kinds rest (count_kind instance.kind counts)

unfoldable pub scan_status : RegistrySnapshot → Text
scan_status snapshot =
    if not (is_empty snapshot.failed_backends)
    then codes "partial"
    else if is_empty snapshot.instances
    then codes "empty"
    else codes "available"

abbrev pub selected_type : Option InstanceKind → Text
selected_type none = codes "none"
selected_type (some kind) = kind_name kind

-- What ends up on the standard output and the standard error, and the exit code.
pub record Exit : Type 0 where
  pub output : Text
  pub errors : Text
  pub code : ℕ

module _ (decimal : ℕ → Text) where
  unfoldable pub report_lines : RegistrySnapshot → Counts → Text
  report_lines snapshot counts =
      codes "scan_status="
      ++ scan_status snapshot
      ++ codes "\ninstances="
      ++ decimal (length snapshot.instances)
      ++ codes "\nnative="
      ++ decimal counts.native_count
      ++ codes "\nflatpak="
      ++ decimal counts.flatpak_count
      ++ codes "\nsnap="
      ++ decimal counts.snap_count
      ++ codes "\nselected_type="
      ++ selected_type (selected_kind snapshot)
      ++ codes "\n"

  -- `writes` says whether the status of the stream is `Ok` after the report.
  unfoldable pub run_rescan : Option RegistrySnapshot → Bool → Exit
  run_rescan none writes = record { output = codes "scan_status=error\n"; errors = []; code = 1 }
  run_rescan (some snapshot) writes = record {
    output = report_lines snapshot (count_kinds snapshot.instances no_counts);
    errors = [];
    code = if writes then 0 else 1;
  }

  -- The normal mode: a scan, and the service until it ends.
  unfoldable pub start_service : Option RegistrySnapshot → Option ℕ → Exit
  start_service none service = record {
    output = [];
    errors = codes "Unable to start Remmina KRunner.\n";
    code = 1;
  }
  start_service (some snapshot) none = record {
    output = [];
    errors = codes "Unable to start Remmina KRunner.\n";
    code = 1;
  }
  start_service (some snapshot) (some code) = record { output = []; errors = []; code = code }

  abbrev pub rescan_mode : List Text → Bool
  rescan_mode (program ∷ argument ∷ []) = equal argument (codes "--rescan")
  rescan_mode _ = false

  -- The backend's answers: of `rescanAndRepair`, and of `startService`, its exit code.
  unfoldable pub run_application : List Text → Option RegistrySnapshot → Option ℕ → Bool → Exit
  run_application (program ∷ []) rescanned service writes = start_service rescanned service
  run_application arguments rescanned service writes =
      if rescan_mode arguments
      then run_rescan rescanned writes
      else record { output = []; errors = codes "Usage: remmina-krunner [--rescan]\n"; code = 64 }
