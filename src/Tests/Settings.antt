-- ===== src/Tests/Settings.antt =====
-- The settings and the store of the selected id.
use remmina_krunner.Base.{
  Text, codes, List, [], ◌∷◌, Option, none, some, true, false, ◌≡◌, refl, equal, starts_with,
}
use remmina_krunner.Instance.{InstanceScanResult}
use remmina_krunner.Registry
use remmina_krunner.Selection.{validate_selection}
use remmina_krunner.Registry.{InstanceRegistry, rescan_and_repair, initial, may_be_unavailable}
use remmina_krunner.Registry.Invariant.{rescan_and_repair-IsSound}
use remmina_krunner.Settings.{
  Wording, InstanceSettingsModel, is_dirty, is_unique_available_id, select_pending, save, showing,
}
use remmina_krunner.Settings.Choice.{IsAvailable, is_unique_available_id_iff}
use remmina_krunner.Settings.Control.{registry_control, save_stores}
use remmina_krunner.Settings.State.{IsTracked, run-IsTracked}
use remmina_krunner.Settings.State
use remmina_krunner.Settings.Page.{Names}
use remmina_krunner.Settings.Page.Consistent.{IsConsistent, run-IsConsistent}
use remmina_krunner.Settings.Page.Consistent
use remmina_krunner.Settings.Page
use remmina_krunner.Settings
use remmina_krunner.KConfigStore.{
  KConfig, kconfig_store, selected_id, write_selected_id, selected_id-write_selected_id,
}
use remmina_krunner.Tests.Data.{native_one, snap_one, cell, CellState}

-- Every character is printable, and the texts are shown as they are.
abbrev plain : Wording
plain = record {
  is_print = λ c. true;
  user = codes "user";
  system = codes "system";
  identity = λ installation ref. installation;
  native_text = λ t. t;
  flatpak_text = λ t. t;
  snap_text = λ t. t;
}

abbrev scan : InstanceScanResult
scan = record { instances = snap_one ∷ native_one ∷ []; failed_backends = codes "flatpak" ∷ [] }

abbrev scans : List (Option InstanceScanResult)
scans = some scan ∷ none ∷ []

abbrev start : InstanceRegistry × CellState × List (Option InstanceScanResult)
start = (initial, ([], true), scans)

abbrev calls : List State.Call
calls =
    State.loads
    ∷ State.chooses (codes "snap:remmina")
    ∷ State.saves
    ∷ State.restores
    ∷ State.loads
    ∷ []

run-IsTracked_example :
    IsTracked plain
      (registry_control cell)
      (State.run plain (registry_control cell) calls (Settings.cleared, start)).0
      (State.run plain (registry_control cell) calls (Settings.cleared, start)).1
run-IsTracked_example = run-IsTracked plain (registry_control cell) calls start

-- The registry after its scan, and the model with another choice.
abbrev rescanned : InstanceRegistry × CellState
rescanned = rescan_and_repair cell scan initial ([], true)

abbrev chosen : InstanceSettingsModel
chosen = (select_pending (codes "snap:remmina") (showing plain rescanned.0.snapshot)).1

save_stores_example :
    ((save (registry_control cell) chosen (rescanned.0, rescanned.1, [])).1.1.0
      ≡ chosen.selected_id)
    × (is_dirty (save (registry_control cell) chosen (rescanned.0, rescanned.1, [])).0.1 ≡ false)
unfolding is_dirty select_pending showing rescan_and_repair save Registry.select equal
    validate_selection may_be_unavailable starts_with
save_stores_example =
    save_stores cell chosen rescanned.0 rescanned.1 []
      (rescan_and_repair-IsSound cell scan initial ([], true)) refl refl

is_unique_available_id_iff_example :
    ((is_unique_available_id (codes "snap:remmina") scan.instances ≡ true)
      → IsAvailable (codes "snap:remmina") scan.instances)
    × (IsAvailable (codes "snap:remmina") scan.instances
        → is_unique_available_id (codes "snap:remmina") scan.instances ≡ true)
is_unique_available_id_iff_example =
    is_unique_available_id_iff (codes "snap:remmina") scan.instances

abbrev names : Names
names = record {
  same_without_case = equal;
  flatpak_name = codes "Flatpak";
  snap_name = codes "Snap";
  native_name = codes "Native";
}

abbrev events : List Consistent.Event
events =
    Consistent.loads
    ∷ Consistent.changes (some 0)
    ∷ Consistent.changes (some 7)
    ∷ Consistent.restores false
    ∷ Consistent.saves
    ∷ []

run-IsConsistent_example :
    IsConsistent plain
      (registry_control cell)
      (Consistent.run plain (registry_control cell) names events (Page.initial, start)).0
      (Consistent.run plain (registry_control cell) names events (Page.initial, start)).1
run-IsConsistent_example = run-IsConsistent plain (registry_control cell) names events start

unsynced_file : (e f : Option Text) → true ≡ false → e ≡ f
unsynced_file e f h = cc

-- A configuration file that is its one entry.
abbrev file : KConfig
file = record {
  File = Option Text;
  entry = λ f. f;
  sync = λ e f. (true, e);
  synced = λ e f h. refl;
  unsynced = unsynced_file;
}

selected_id-write_selected_id_test :
    ((write_selected_id file (codes "snap:remmina") none).0 ≡ true
      → selected_id file (write_selected_id file (codes "snap:remmina") none).1
        ≡ codes "snap:remmina")
    × ((write_selected_id file (codes "snap:remmina") none).0 ≡ false
        → selected_id file (write_selected_id file (codes "snap:remmina") none).1
          ≡ selected_id file none)
selected_id-write_selected_id_test = selected_id-write_selected_id file (codes "snap:remmina") none

-- The registry over this file stores the native installation, which it prefers.
stores_preferred :
    (rescan_and_repair (kconfig_store file) scan initial none).1 ≡ some (codes "native:/a")
unfolding validate_selection may_be_unavailable starts_with rescan_and_repair write_selected_id
    selected_id equal initial
stores_preferred = refl
