-- ===== src/Settings/Page.antt =====
-- src/kcm/remmina_runner_config.cpp: the settings page over its model. The widgets are the entries
-- of the combo box, its current index, whether it is enabled, the text below it and the state of
-- the Apply button; the translated names and the comparison without case are arguments.
pub mod Consistent
pub mod Shown
use remmina_krunner.Base.{
  Text, codes, equal, contains, List, [], ◌∷◌, ◌++◌, Option, none, some, is_empty, if◌then◌else◌,
  Bool, true, false, not, ◌&&◌, ℕ, zero, suc, map,
}
use remmina_krunner.Settings.{
  ControlSource, Wording, SettingsInstanceItem, InstanceSettingsModel, is_dirty, select_pending,
}
use remmina_krunner.Settings

-- The names of the backends, and `QString::compare` without case.
pub record Names : Type 0 where
  pub same_without_case : Text → Text → Bool
  pub flatpak_name : Text
  pub snap_name : Text
  pub native_name : Text

pub data Status : Type 0 where
  no_text : Status
  scan_failed : Status
  none_found : Status
  unchecked : List Text → Status
  save_failed : Status

pub record SettingsPage : Type 0 where
  pub model : InstanceSettingsModel
  pub entries : List SettingsInstanceItem
  pub current : Option ℕ
  pub enabled : Bool
  pub status : Status
  pub needs_save : Bool
  pub populating : Bool
  pub last_scan_succeeded : Bool

-- The page as it is built: the widgets are empty, and the model has not been loaded.
unfoldable pub initial : SettingsPage
unfolding Settings.cleared
initial = record {
  model = Settings.cleared;
  entries = [];
  current = none;
  enabled = true;
  status = no_text;
  needs_save = false;
  populating = false;
  last_scan_succeeded = false;
}

-- `instanceCombo->findData`: the first entry with the id.
unfoldable pub find_data : Text → List SettingsInstanceItem → Option ℕ
find_data id [] = none
find_data id (entry ∷ rest) =
    let later = find_data id rest in
    if equal entry.id id then some 0 else elim later [ some i ↦ some (suc i) | none ↦ none ]

-- `instanceCombo->itemData`
unfoldable pub item_data : ℕ → List SettingsInstanceItem → Text
item_data i [] = []
item_data zero (entry ∷ rest) = entry.id
item_data (suc i) (entry ∷ rest) = item_data i rest

unfoldable pub restore_pending_selection : SettingsPage → SettingsPage
unfolding find_data
restore_pending_selection p = record p {
  current = if is_empty p.model.selected_id then none else find_data p.model.selected_id p.entries;
}

unfoldable pub populate : SettingsPage → SettingsPage
unfolding restore_pending_selection
populate p =
    let q = restore_pending_selection (record p { entries = p.model.items; populating = true }) in
    record q { enabled = not (is_empty q.model.instances); populating = false }

unfoldable pub set_dirty_state : SettingsPage → SettingsPage
unfolding is_dirty
set_dirty_state p = record p { needs_save = is_dirty p.model }

-- A new index with an entry; the combo box shows it already.
unfoldable pub pending_at : ℕ → SettingsPage → SettingsPage
unfolding restore_pending_selection
pending_at i p =
    let (accepted, m) = select_pending (item_data i p.entries) p.model in
    if not accepted then restore_pending_selection p else record p { model = m }

unfoldable pub with_index : Option ℕ → SettingsPage → SettingsPage
unfolding pending_at restore_pending_selection
with_index none p = restore_pending_selection p
with_index (some i) p = pending_at i p

module _ (names : Names) where
  open names use {same_without_case, flatpak_name, snap_name, native_name}

  unfoldable pub backend_name : Text → Text
  backend_name backend =
      if same_without_case backend (codes "flatpak")
      then flatpak_name
      else if same_without_case backend (codes "snap")
      then snap_name
      else if same_without_case backend (codes "native")
      then native_name
      else []

  unfoldable pub backend_names_from : List Text → List Text → List Text
  unfolding backend_name
  backend_names_from shown [] = shown
  backend_names_from shown (backend ∷ backends) =
      backend_names_from
        (if not (is_empty (backend_name backend)) && not (contains shown (backend_name backend))
          then shown ++ (backend_name backend ∷ [])
          else shown)
        backends

  unfoldable pub backend_display_names : List Text → List Text
  unfolding backend_names_from
  backend_display_names backends = backend_names_from [] backends

  unfoldable pub status_of : SettingsPage → Status
  unfolding backend_display_names
  status_of p =
      if not p.last_scan_succeeded
      then scan_failed
      else if is_empty p.model.instances
      then none_found
      else if not (is_empty (backend_display_names p.model.failed_backends))
      then unchecked (backend_display_names p.model.failed_backends)
      else no_text

  unfoldable pub update_status : SettingsPage → SettingsPage
  unfolding status_of
  update_status p = record p { status = status_of p }

  -- A page whose model has changed, with the entry, the text and the button brought up to date.
  unfoldable pub refreshed : SettingsPage → SettingsPage
  unfolding restore_pending_selection update_status set_dirty_state
  refreshed p = set_dirty_state (update_status (restore_pending_selection p))

  -- The model's call may throw before it changes anything.
  unfoldable pub defaults : Bool → SettingsPage → SettingsPage
  unfolding refreshed
  defaults thrown p =
      if thrown
      then set_dirty_state (update_status p)
      else refreshed (record p { model = Settings.defaults p.model })

  -- The user's choice of an index in the combo box, with the slot that it calls.
  unfoldable pub instance_changed : Option ℕ → SettingsPage → SettingsPage
  unfolding with_index set_dirty_state update_status
  instance_changed index p =
      let q = record p { current = index } in
      if p.populating then q else set_dirty_state (update_status (with_index index q))

  module _ (wording : Wording) (control : ControlSource) where
    open control use {State}

    unfoldable pub load : SettingsPage → State → SettingsPage × State
    unfolding populate update_status
    load p s =
        let ((succeeded, m), s') = Settings.load wording control s in
        let q =
          update_status (populate (record p { model = m; last_scan_succeeded = succeeded })) in
        (record q { needs_save = false }, s')

  module _ (control : ControlSource) where
    open control use {State}

    unfoldable pub save : SettingsPage → State → SettingsPage × State
    unfolding set_dirty_state refreshed
    save p s =
        let ((succeeded, m), s') = Settings.save control p.model s in
        let q = record p { model = m } in
        (
          if not succeeded
              then set_dirty_state (record q { status = save_failed })
              else refreshed q,
          s',
        )
