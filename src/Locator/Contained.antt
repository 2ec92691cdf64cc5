-- ===== src/Locator/Contained.antt =====
-- A custom directory of a sandboxed installation lies in its sandbox.
use remmina_krunner.Base.{Text, List, [], ◌++◌, some, true, any, In, Some, ◌≡◌, ◌≢◌, ◌⊎◌}
use remmina_krunner.Instance.{RemminaInstance}
use remmina_krunner.Repository.{LocatedProfileDirectory}
use remmina_krunner.Locator.Paths.{prefix_of, resolved_path_for_containment}
use remmina_krunner.Locator.Roots.{SandboxPathRoot, verified_sandbox_roots}
use remmina_krunner.Locator.Search.{
  LocatorSystem, contains_custom, custom_data_directory, host_candidates,
}
use remmina_krunner.Locator.Candidates.{cleaned}

-- The path is the root, or it continues the root behind a slash.
abbrev pub IsBelow : Text → Text → Type 0
IsBelow path root =
    (path ≢ []) × ((path ≡ root) ⊎ ((rest : Text) × (path ≡ prefix_of root ++ rest)))

module _ (system : LocatorSystem) where
  open system use {paths}

  -- The custom path of the installation, and the verified root in which it lies: as it is written,
  -- and after its symbolic links have been followed.
  pub record IsContained (instance : RemminaInstance) (candidate : Text) : Type 0 where
    pub custom : Text
    pub chosen : custom_data_directory system instance ≡ some custom
    pub is_custom : candidate ≡ cleaned system custom
    pub roots : List SandboxPathRoot
    pub verified : verified_sandbox_roots paths instance ≡ some roots
    pub root : SandboxPathRoot
    pub is_root : Some (λ r. r ≡ root) roots
    pub resolved : Text
    pub followed : resolved_path_for_containment paths candidate ≡ some resolved
    pub below : IsBelow (cleaned system candidate) (cleaned system root.lexical_root)
    pub resolved_below : IsBelow (cleaned system resolved) (cleaned system root.resolved_root)

  -- Why a location is allowed.
  Reason : Text → Text → List SandboxPathRoot → Type 0
  Reason c custom roots =
      (resolved : Text) × (resolved_path_for_containment paths (cleaned system custom)
        ≡ some resolved)
      × (any (contains_custom system (cleaned system custom) resolved) roots ≡ true)
      × (c ≡ cleaned system custom)

  -- The directory is one of the standard ones, or a contained custom one.
  abbrev pub Permitted : RemminaInstance → LocatedProfileDirectory → Type 0
  Permitted instance d =
      (candidate : Text) × (d.host_path ≡ cleaned system candidate)
      × (d.launch_path ≡ d.host_path)
      × (In candidate (host_candidates system instance) ⊎ IsContained instance candidate)
