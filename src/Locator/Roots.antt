-- ===== src/Locator/Roots.antt =====
-- The sandbox roots of src/core/profile_locator.cpp: the directories in which a sandboxed
-- installation may keep its profiles.
use remmina_krunner.Base.{
  Text, codes, equal, contains_text, List, [], ◌∷◌, Option, none, some, is_empty, if◌then◌else◌,
  Bool, false, not, ◌||◌,
}
use remmina_krunner.Instance.{
  InstanceKind, native, flatpak, snap, RemminaInstance, ProfileEnvironment,
}
use remmina_krunner.Locator.Paths.{
  PathSystem, ends_with, child_path, path_below, resolved_path_for_containment, root_before_suffix,
}

pub record SandboxPathRoot : Type 0 where
  pub lexical_root : Text
  pub resolved_root : Text

abbrev pub flatpak_application_root : Text
flatpak_application_root = codes "/.var/app/org.remmina.Remmina"

abbrev pub snap_application_root : Text
snap_application_root = codes "/snap/remmina/current"

-- The directories of the profiles with the suffix that each has below the root.
unfoldable pub modeled_roots : InstanceKind → ProfileEnvironment → List (Text × Text)
modeled_roots native profiles = []
modeled_roots flatpak profiles =
    (profiles.config_home, codes "/config")
    ∷ (profiles.data_home, codes "/data")
    ∷ (profiles.legacy_home, codes "/.remmina")
    ∷ []
modeled_roots snap profiles =
    (profiles.config_home, codes "/.config")
    ∷ (profiles.data_home, codes "/.local/share")
    ∷ (profiles.legacy_home, codes "/.remmina")
    ∷ []

unfoldable pub expected_root_suffix : InstanceKind → Text
expected_root_suffix native = []
expected_root_suffix flatpak = flatpak_application_root
expected_root_suffix snap = snap_application_root

unfoldable pub differs : Option Text → Text → Bool
differs none candidate = false
differs (some common) candidate = not (equal common candidate)

unfoldable pub is_bad_revision : Text → Bool
is_bad_revision revision =
    is_empty revision || contains_text revision (codes "/") || equal revision (codes "common")

module _ (system : PathSystem) where
  open system use {absolute_path}

  -- The loop over the directories, with the common root so far.
  unfoldable pub common_root_from : Text → Option Text → List (Text × Text) → Option Text
  unfolding root_before_suffix ends_with differs
  common_root_from expected common [] = common
  common_root_from expected common ((root, suffix) ∷ roots) =
      elim (root_before_suffix system root suffix) [
        | none ↦ none
        | some candidate ↦
            let later = common_root_from expected (some candidate) roots in
            if not (ends_with candidate expected) || differs common candidate then none else later
      ]

  unfoldable pub consistent_modeled_sandbox_root : RemminaInstance → Option Text
  unfolding common_root_from modeled_roots expected_root_suffix
  consistent_modeled_sandbox_root instance =
      common_root_from (expected_root_suffix instance.kind) none
        (modeled_roots instance.kind instance.profiles)

  -- The list of roots, without the second if it is the first.
  unfoldable pub snap_roots : Text → Text → Text → Text → Text → List SandboxPathRoot
  snap_roots modeled resolved active common resolved_common =
      let first : SandboxPathRoot = record { lexical_root = modeled; resolved_root = resolved } in
      let last : SandboxPathRoot = record {
        lexical_root = common;
        resolved_root = resolved_common;
      } in
      if equal modeled active
      then first ∷ last ∷ []
      else first ∷ record { lexical_root = active; resolved_root = resolved } ∷ last ∷ []

  -- The checks of a snap's directory for the data that all its revisions share.
  unfoldable pub with_common_root : Text → Text → Text → Text → Text → Option (List SandboxPathRoot)
  unfolding snap_roots child_path resolved_path_for_containment path_below
  with_common_root modeled resolved snap_root resolved_snap revision =
      let active = child_path system snap_root revision in
      let common = child_path system snap_root (codes "common") in
      elim (resolved_path_for_containment system common) [
        | none ↦ none
        | some resolved_common ↦ elim (path_below system resolved_common resolved_snap) [
          | none ↦ none
          | some relative ↦
              if not (equal relative (codes "common"))
              then none
              else some (snap_roots modeled resolved active common resolved_common)
        ]
      ]

  unfoldable pub verified_snap_roots : Text → Text → Option (List SandboxPathRoot)
  unfolding with_common_root resolved_path_for_containment path_below is_bad_revision
  verified_snap_roots modeled resolved =
      let snap_root = absolute_path modeled in
      elim (resolved_path_for_containment system snap_root) [
        | none ↦ none
        | some resolved_snap ↦ elim (path_below system resolved resolved_snap) [
          | none ↦ none
          | some revision ↦
              if is_bad_revision revision
              then none
              else with_common_root modeled resolved snap_root resolved_snap revision
        ]
      ]

  unfoldable pub roots_of_kind : InstanceKind → Text → Text → Option (List SandboxPathRoot)
  unfolding verified_snap_roots
  roots_of_kind flatpak modeled resolved =
      some (record { lexical_root = modeled; resolved_root = resolved } ∷ [])
  roots_of_kind _ modeled resolved = verified_snap_roots modeled resolved

  unfoldable pub verified_sandbox_roots : RemminaInstance → Option (List SandboxPathRoot)
  unfolding consistent_modeled_sandbox_root resolved_path_for_containment roots_of_kind
  verified_sandbox_roots instance = elim (consistent_modeled_sandbox_root instance) [
    | none ↦ none
    | some modeled ↦ elim (resolved_path_for_containment system modeled) [
      | none ↦ none
      | some resolved ↦ roots_of_kind instance.kind modeled resolved
    ]
  ]
