-- ===== src/Instance/Unique.antt =====
-- The selected installation is the only one that bears the selected id.
use remmina_krunner.Base.{
  Text, List, [], ◌∷◌, Option, none, some, is_empty, if◌then◌else◌, ◌≡◌, ◌≢◌, ◌↔◌, ◌∙◌, refl, arith,
  select,
}
use remmina_krunner.Instance.{
  RemminaInstance, RegistrySnapshot, has_id, scan_unique, selected_instance,
}

-- The instances that bear an id.
abbrev pub bearers : Text → List RemminaInstance → List RemminaInstance
bearers id = select (has_id id)

-- What exactly one bearer means: the list is that one.
abbrev pub sole : List RemminaInstance → Option RemminaInstance
sole [] = none
sole (x ∷ []) = some x
sole (x ∷ y ∷ rest) = none

scan_unique-some :
    (id : Text) (s : RemminaInstance) (l : List RemminaInstance)
    → scan_unique id (some s) l ≡ sole (s ∷ bearers id l)
unfolding scan_unique
scan_unique-some id s [] = refl
scan_unique-some id s (x ∷ l) = ground (arith, scan_unique-some id s l)

pub scan_unique-none :
    (id : Text) (l : List RemminaInstance) → scan_unique id none l ≡ sole (bearers id l)
unfolding scan_unique
scan_unique-none id [] = refl
scan_unique-none id (x ∷ l) = ground (arith, scan_unique-none id l, scan_unique-some id x l)

sole_iff : (l : List RemminaInstance) (x : RemminaInstance) → (sole l ≡ some x) ↔ (l ≡ x ∷ [])
sole_iff [] x = (λ e. cc, λ e. cc)
sole_iff (y ∷ []) x = (λ e. cc, λ e. cc)
sole_iff (y ∷ z ∷ l) x = (λ e. cc, λ e. cc)

unique_iff :
    (id : Text) (l : List RemminaInstance) (x : RemminaInstance)
    → ((if is_empty id then none else scan_unique id none l) ≡ some x)
      ↔ ((id ≢ []) × (bearers id l ≡ x ∷ []))
unique_iff [] l x = (λ e. cc, λ h. absurd (h.0 refl))
unique_iff (c ∷ id) l x = (
  λ e. (λ z. cc, (sole_iff _ x).0 (rw scan_unique-none at e)),
  λ h. scan_unique-none (c ∷ id) l ∙ (sole_iff _ x).1 h.1,
)

-- The lookup answers exactly when the selected id is not empty and one installation alone bears
-- it, and then with that installation.
pub selected_instance_iff :
    (snapshot : RegistrySnapshot) (instance : RemminaInstance)
    → (selected_instance snapshot ≡ some instance) ↔ (
        (snapshot.selected_id ≢ [])
        × (bearers snapshot.selected_id snapshot.instances ≡ instance ∷ []))
unfolding selected_instance
selected_instance_iff snapshot instance =
    unique_iff snapshot.selected_id snapshot.instances instance
