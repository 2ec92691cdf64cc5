-- ===== src/Instance.antt =====
-- src/core/remmina_instance.h, the result types of src/core/instance_scanner.h and
-- src/core/instance_registry.h, and the loop by which src/core/remmina_launcher.cpp,
-- src/dbus/runner_service.cpp and src/application.cpp look up the selected installation.
pub mod Unique
use remmina_krunner.Base.{
  Text, equal, List, [], ◌∷◌, Option, none, some, is_empty, if◌then◌else◌, Bool, true, false,
}

pub data InstanceKind : Type 0 where
  native flatpak snap : InstanceKind

pub record ProfileEnvironment : Type 0 where
  pub config_home : Text
  pub data_home : Text
  pub legacy_home : Text
  pub system_data_homes : List Text

pub record RemminaInstance : Type 0 where
  pub id : Text
  pub kind : InstanceKind
  pub display_name : Text
  pub executable : Text
  pub launcher_prefix : List Text
  pub profiles : ProfileEnvironment

pub record InstanceScanResult : Type 0 where
  pub instances : List RemminaInstance
  pub failed_backends : List Text

pub record RegistrySnapshot : Type 0 where
  pub instances : List RemminaInstance
  pub selected_id : Text
  pub failed_backends : List Text

abbrev pub has_id : Text → RemminaInstance → Bool
has_id id instance = equal instance.id id

-- The loop with its pointer `selected`; a second hit returns at once with nothing.
unfoldable pub scan_unique :
    Text → Option RemminaInstance → List RemminaInstance → Option RemminaInstance
scan_unique id selected [] = selected
scan_unique id none (instance ∷ rest) =
    scan_unique id (if equal instance.id id then some instance else none) rest
scan_unique id (some s) (instance ∷ rest) =
    let later = scan_unique id (some s) rest in if equal instance.id id then none else later

-- `selectedInstance` of the launcher and of the service.
unfoldable pub selected_instance : RegistrySnapshot → Option RemminaInstance
unfolding scan_unique
selected_instance snapshot =
    if is_empty snapshot.selected_id
    then none
    else scan_unique snapshot.selected_id none snapshot.instances
