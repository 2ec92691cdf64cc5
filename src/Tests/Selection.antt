-- ===== src/Tests/Selection.antt =====
-- The selection and the registry.
use remmina_krunner.Base.{
  Text, inl, codes, List, [], ◌∷◌, true, false, ◌≡◌, ◌≢◌, refl, equal, starts_with, some, ◌↔◌,
  ne_of_equal-false,
}
use remmina_krunner.Instance.{
  RemminaInstance, RegistrySnapshot, selected_instance, InstanceScanResult,
}
use remmina_krunner.Instance.Unique.{bearers, selected_instance_iff}
use remmina_krunner.Selection.{validate_selection}
use remmina_krunner.Selection.Policy.{
  Chooses, validate_selection-Chooses, validate_selection_stable,
}
use remmina_krunner.Registry.{rescan_and_repair, initial, InstanceRegistry}
use remmina_krunner.Registry.Operations.{rescan_keeps_unavailable, from_flatpak}
use remmina_krunner.Registry.Invariant.{IsSound, run, run-IsSound, rescans, selects, Call}
use remmina_krunner.Tests.Data.{native_one, snap_one, cell}

abbrev both : List RemminaInstance
both = snap_one ∷ native_one ∷ []

-- The native installation is preferred to the one that the scan found first.
prefers_native :
    validate_selection both [] ≡ record { selected_id = codes "native:/a"; changed = true }
unfolding validate_selection
prefers_native = refl

keeps_saved :
    validate_selection both (codes "snap:remmina")
    ≡ record { selected_id = codes "snap:remmina"; changed = false }
unfolding validate_selection equal
keeps_saved = refl

validate_selection-Chooses_example : Chooses both [] (validate_selection both [])
validate_selection-Chooses_example = validate_selection-Chooses both []

validate_selection_stable_test :
    validate_selection both (validate_selection both []).selected_id
    ≡ record { selected_id = (validate_selection both []).selected_id; changed = false }
unfolding validate_selection
validate_selection_stable_test = validate_selection_stable both [] (λ e. cc)

abbrev snapshot : RegistrySnapshot
snapshot = record { instances = both; selected_id = codes "snap:remmina"; failed_backends = [] }

finds_selected : selected_instance snapshot ≡ some snap_one
unfolding selected_instance equal
finds_selected = refl

selected_instance_iff_test :
    (selected_instance snapshot ≡ some snap_one)
    ↔ ((snapshot.selected_id ≢ []) × (bearers snapshot.selected_id both ≡ snap_one ∷ []))
selected_instance_iff_test = selected_instance_iff snapshot snap_one

abbrev scan : InstanceScanResult
scan = record { instances = both; failed_backends = [] }

abbrev without_flatpak : InstanceScanResult
without_flatpak = record { instances = both; failed_backends = codes "flatpak" ∷ [] }

abbrev history : List (Call cell)
history = rescans scan ∷ selects (codes "snap:remmina") ∷ rescans without_flatpak ∷ []

run-IsSound_example :
    IsSound cell
      (run cell history (initial, ([], true))).0
      (run cell history (initial, ([], true))).1
run-IsSound_example = run-IsSound cell history ([], true)

abbrev rescanned : InstanceRegistry
rescanned = (rescan_and_repair cell scan initial ([], true)).0

abbrev flatpak_id : Text
flatpak_id = codes "flatpak:user:r"

-- A later scan that finds the Flatpak installation too.
abbrev with_flatpak : InstanceScanResult
with_flatpak = record {
  instances = record native_one { id = flatpak_id } ∷ both;
  failed_backends = [];
}

rescan_keeps_unavailable_example :
    let first = rescan_and_repair cell without_flatpak initial (flatpak_id, true) in
    let second = rescan_and_repair cell with_flatpak first.0 first.1 in
    (first.1 ≡ (flatpak_id, true))
    × (first.0.selection_synchronized ≡ false)
    × (second.1 ≡ (flatpak_id, true))
    × (second.0.selection_synchronized ≡ true)
    × (second.0.snapshot.selected_id ≡ flatpak_id)
unfolding starts_with equal
rescan_keeps_unavailable_example =
    rescan_keeps_unavailable cell without_flatpak with_flatpak initial (flatpak_id, true)
      (from_flatpak refl (inl refl))
      ((ne_of_equal-false _ _ refl), ((ne_of_equal-false _ _ refl), tt)) (inl refl)
