-- ===== src/Registry.antt =====
-- src/core/instance_registry.cpp: the list of installations with the persisted selection. The
-- scan's result is an argument; the store is the interface of src/core/selection_store.h.
pub mod Invariant
pub mod Operations
use remmina_krunner.Base.{
  Text, codes, equal, starts_with, contains, List, [], ◌∷◌, is_empty, if◌then◌else◌, Bool, true,
  false, not, ◌&&◌, ◌||◌, ◌≡◌, any,
}
use remmina_krunner.Instance.{RegistrySnapshot, InstanceScanResult, has_id}
use remmina_krunner.Selection.{SelectionDecision, validate_selection}

-- A store that persists one id. A write that reports success is read back, and one that fails
-- leaves the old id in place.
pub record SelectionStore : Type 1 where
  pub State : Type 0
  pub selected_id : State → Text
  pub write_selected_id : Text → State → Bool × State
  pub written :
      (id : Text) (s : State)
      → (write_selected_id id s).0 ≡ true
      → selected_id (write_selected_id id s).1 ≡ id
  pub refused :
      (id : Text) (s : State)
      → (write_selected_id id s).0 ≡ false
      → selected_id (write_selected_id id s).1 ≡ selected_id s

pub record InstanceRegistry : Type 0 where
  pub snapshot : RegistrySnapshot
  pub selection_synchronized : Bool

unfoldable pub initial : InstanceRegistry
initial = record {
  snapshot = record { instances = []; selected_id = []; failed_backends = [] };
  selection_synchronized = false;
}

unfoldable pub backend_for_stable_id : Text → Text
backend_for_stable_id id =
    if starts_with id (codes "flatpak:")
    then codes "flatpak"
    else if starts_with id (codes "snap:")
    then codes "snap"
    else []

-- `savedSelectionMayBeTemporarilyUnavailable`
unfoldable pub may_be_unavailable : Text → List Text → Bool
unfolding backend_for_stable_id
may_be_unavailable saved_id failed_backends =
    not (is_empty (backend_for_stable_id saved_id))
    && contains failed_backends (backend_for_stable_id saved_id)

module _ (store : SelectionStore) where
  open store use {State, selected_id, write_selected_id}

  -- The new synchronisation flag, and the store after it.
  unfoldable pub repair : InstanceScanResult → Text → SelectionDecision → State → Bool × State
  repair scan saved_id selection s =
      if not selection.changed
      then (true, s)
      else if may_be_unavailable saved_id scan.failed_backends
      then (false, s)
      else write_selected_id selection.selected_id s

  unfoldable pub rescan_and_repair :
      InstanceScanResult → InstanceRegistry → State → InstanceRegistry × State
  unfolding repair
  rescan_and_repair scan registry s =
      let saved_id = selected_id s in
      let selection = validate_selection scan.instances saved_id in
      let (synchronized, s') = repair scan saved_id selection s in
      (
        record {
          snapshot = record {
            instances = scan.instances;
            selected_id = selection.selected_id;
            failed_backends = scan.failed_backends;
          };
          selection_synchronized = synchronized;
        },
        s',
      )

  -- The write at the end of `select`.
  unfoldable pub persist : Text → InstanceRegistry → Bool × State → Bool × InstanceRegistry × State
  persist id registry (false, s') = (false, registry, s')
  persist id registry (true, s') = (
    true,
    record registry {
      snapshot = record registry.snapshot { selected_id = id };
      selection_synchronized = true;
    },
    s',
  )

  unfoldable pub select : Text → InstanceRegistry → State → Bool × InstanceRegistry × State
  unfolding persist
  select id registry s =
      if is_empty id
      then (false, registry, s)
      else if not (any (has_id id) registry.snapshot.instances)
      then (false, registry, s)
      else if equal registry.snapshot.selected_id id && registry.selection_synchronized
      then (true, registry, s)
      else persist id registry (write_selected_id id s)
