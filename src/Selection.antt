-- ===== src/Selection.antt =====
-- src/core/selection_policy.cpp: which installation is selected after a scan.
pub mod Policy
use remmina_krunner.Base.{
  Text, equal, List, [], ◌∷◌, Option, none, some, is_empty, if◌then◌else◌, Bool, true, false, not,
  find_first,
}
use remmina_krunner.Instance.{InstanceKind, native, flatpak, snap, RemminaInstance, has_id}

pub record SelectionDecision : Type 0 where
  pub selected_id : Text
  pub changed : Bool

-- `instance.kind == kind`
abbrev pub same_kind : InstanceKind → InstanceKind → Bool
same_kind native native = true
same_kind flatpak flatpak = true
same_kind snap snap = true
same_kind _ _ = false

abbrev pub priority : List InstanceKind
priority = native ∷ flatpak ∷ snap ∷ []

-- The first loop: the saved id, unless it is empty.
unfoldable pub find_saved : List RemminaInstance → Text → Option RemminaInstance
find_saved instances saved_id =
    if is_empty saved_id then none else find_first (has_id saved_id) instances

-- The nested loops over the priorities and the instances.
unfoldable pub find_preferred : List RemminaInstance → List InstanceKind → Option RemminaInstance
find_preferred instances [] = none
find_preferred instances (kind ∷ kinds) =
    let later = find_preferred instances kinds in
    elim (find_first (λ instance. same_kind instance.kind kind) instances) [
      | some instance ↦ some instance
      | none ↦ later
    ]

unfoldable pub validate_selection : List RemminaInstance → Text → SelectionDecision
unfolding find_saved find_preferred
validate_selection instances saved_id = elim (find_saved instances saved_id) [
  | some instance ↦ record { selected_id = instance.id; changed = false }
  | none ↦ elim (find_preferred instances priority) [
    | some instance ↦ record { selected_id = instance.id; changed = true }
    | none ↦ record { selected_id = []; changed = not (is_empty saved_id) }
  ]
]
