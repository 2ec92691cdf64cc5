-- ===== src/Settings.antt =====
-- src/kcm/instance_settings_model.cpp: the installations that the settings page offers, the saved
-- choice and the pending one. The registry stands behind the interface of
-- src/core/instance_registry.h; the translated texts and QChar::isPrint are arguments.
pub mod Choice
pub mod State
pub mod Control
pub mod Page
use remmina_krunner.Base.{
  Text, codes, equal, starts_with, List, [], ◌∷◌, Option, none, some, is_empty, if◌then◌else◌, Bool,
  true, false, not, ◌&&◌, ◌≡◌, ℕ, ◌+◌, ◌==◌, ltb, map, drop,
}
use remmina_krunner.Instance.{
  InstanceKind, native, flatpak, snap, RemminaInstance, RegistrySnapshot,
}
use remmina_krunner.Selection.{validate_selection}

-- `InstanceRegistryControlSource`. A call that throws gives `none`. A rescan reports the id that it
-- leaves selected; a selection that is granted is the selected id, and any other leaves the old one.
pub record ControlSource : Type 1 where
  pub State : Type 0
  pub selected : State → Text
  pub rescan_and_repair : State → Option RegistrySnapshot × State
  pub select : Text → State → Option Bool × State
  pub reported :
      (s : State) (snapshot : RegistrySnapshot)
      → (rescan_and_repair s).0 ≡ some snapshot
      → snapshot.selected_id ≡ selected (rescan_and_repair s).1
  pub granted :
      (id : Text) (s : State) → (select id s).0 ≡ some true → selected (select id s).1 ≡ id
  pub refused :
      (id : Text) (s : State) → (select id s).0 ≡ some false → selected (select id s).1 ≡ selected s
  pub thrown :
      (id : Text) (s : State) → (select id s).0 ≡ none → selected (select id s).1 ≡ selected s

-- The translated texts, each a function of what it shows.
pub record Wording : Type 0 where
  pub is_print : ℕ → Bool
  pub user : Text
  pub system : Text
  pub identity : Text → Text → Text
  pub native_text : Text → Text
  pub flatpak_text : Text → Text
  pub snap_text : Text → Text

pub record SettingsInstanceItem : Type 0 where
  pub id : Text
  pub display_text : Text
  pub kind : InstanceKind

pub record InstanceSettingsModel : Type 0 where
  pub instances : List RemminaInstance
  pub items : List SettingsInstanceItem
  pub selected_id : Text
  pub persisted_id : Text
  pub failed_backends : List Text

module _ (wording : Wording) where
  open wording use {is_print, user, system, identity, native_text, flatpak_text, snap_text}

  unfoldable pub one_line : Text → Text
  one_line [] = []
  one_line (c ∷ text) = (if is_print c then c else b' ') ∷ one_line text

  -- The installation of one round of the loop over the arguments.
  unfoldable pub installation_of : Text → Text → Text
  unfolding one_line
  installation_of installation argument =
      if equal argument (codes "--user")
      then user
      else if equal argument (codes "--system")
      then system
      else if starts_with argument (codes "--installation=")
      then one_line (drop 15 argument)
      else installation

  -- The ref of one round: what follows the word `run`.
  unfoldable pub ref_of : Text → Text → List Text → Text
  unfolding one_line
  ref_of ref argument [] = ref
  ref_of ref argument (next ∷ _) = if equal argument (codes "run") then one_line next else ref

  unfoldable pub identity_from : Text → Text → List Text → Text × Text
  unfolding installation_of ref_of
  identity_from installation ref [] = (installation, ref)
  identity_from installation ref (argument ∷ rest) =
      identity_from (installation_of installation argument) (ref_of ref argument rest) rest

  -- `constLast()`, of a list that is not empty.
  unfoldable pub last : List Text → Text
  last [] = []
  last (argument ∷ []) = argument
  last (argument ∷ next ∷ rest) = last (next ∷ rest)

  unfoldable pub flatpak_identity : RemminaInstance → Text
  unfolding identity_from last one_line
  flatpak_identity instance =
      let (installation, found) = identity_from [] [] instance.launcher_prefix in
      let ref =
        if is_empty found && not (is_empty instance.launcher_prefix)
        then one_line (last instance.launcher_prefix)
        else found in
      if is_empty installation
      then ref
      else if is_empty ref
      then installation
      else identity installation ref

  -- `switch (instance.kind)`
  unfoldable pub text_of_kind : InstanceKind → RemminaInstance → Text
  unfolding flatpak_identity one_line
  text_of_kind native instance = native_text (one_line instance.executable)
  text_of_kind flatpak instance = flatpak_text (flatpak_identity instance)
  text_of_kind snap instance = snap_text (one_line instance.executable)

  unfoldable pub display_text : RemminaInstance → Text
  unfolding text_of_kind
  display_text instance = text_of_kind instance.kind instance

  unfoldable pub item_of : RemminaInstance → SettingsInstanceItem
  unfolding display_text
  item_of instance = record {
    id = instance.id;
    display_text = display_text instance;
    kind = instance.kind;
  }

-- The loop with its counter: a second hit ends it.
unfoldable pub unique_from : Text → ℕ → List RemminaInstance → Bool
unique_from id matches [] = matches == 1
unique_from id matches (instance ∷ rest) =
    let hit = equal instance.id id in
    let later = unique_from id (if hit then matches + 1 else matches) rest in
    if hit && ltb 1 (matches + 1) then false else later

unfoldable pub is_unique_available_id : Text → List RemminaInstance → Bool
unfolding unique_from
is_unique_available_id id instances = if is_empty id then false else unique_from id 0 instances

unfoldable pub cleared : InstanceSettingsModel
cleared = record {
  instances = [];
  items = [];
  selected_id = [];
  persisted_id = [];
  failed_backends = [];
}

unfoldable pub is_dirty : InstanceSettingsModel → Bool
is_dirty m = not (equal m.selected_id m.persisted_id)

unfoldable pub select_pending : Text → InstanceSettingsModel → Bool × InstanceSettingsModel
unfolding is_unique_available_id
select_pending id m =
    if not (is_unique_available_id id m.instances)
    then (false, m)
    else (true, record m { selected_id = id })

unfoldable pub defaults : InstanceSettingsModel → InstanceSettingsModel
defaults m =
    if is_empty m.instances
    then record m { selected_id = [] }
    else record m { selected_id = (validate_selection m.instances []).selected_id }

module _ (wording : Wording) where
  -- The model that a rescan leaves.
  unfoldable pub showing : RegistrySnapshot → InstanceSettingsModel
  unfolding is_unique_available_id item_of
  showing snapshot =
      let persisted =
        if is_unique_available_id snapshot.selected_id snapshot.instances
        then snapshot.selected_id
        else [] in
      record {
        instances = snapshot.instances;
        items = map (item_of wording) snapshot.instances;
        selected_id = persisted;
        persisted_id = persisted;
        failed_backends = snapshot.failed_backends;
      }

  unfoldable pub loaded : Option RegistrySnapshot → Bool × InstanceSettingsModel
  unfolding showing cleared
  loaded none = (false, cleared)
  loaded (some snapshot) = (true, showing snapshot)

  module _ (control : ControlSource) where
    open control use {State, rescan_and_repair}

    unfoldable pub load : State → (Bool × InstanceSettingsModel) × State
    unfolding loaded
    load s = let (result, s') = rescan_and_repair s in (loaded result, s')

-- What the registry's answer to the selection makes of a save.
unfoldable pub saved : Option Bool → InstanceSettingsModel → Bool × InstanceSettingsModel
saved (some true) m = (true, record m { persisted_id = m.selected_id })
saved (some false) m = (false, m)
saved none m = (false, m)

module _ (control : ControlSource) where
  open control use {State, select}

  unfoldable pub save : InstanceSettingsModel → State → (Bool × InstanceSettingsModel) × State
  unfolding is_dirty is_unique_available_id saved
  save m s =
      if not (is_dirty m)
      then ((true, m), s)
      else if not (is_unique_available_id m.selected_id m.instances)
      then ((false, m), s)
      else let (answer, s') = select m.selected_id s in (saved answer m, s')
