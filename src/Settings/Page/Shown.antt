-- ===== src/Settings/Page/Shown.antt =====
-- The entry that the combo box shows for an id.
use remmina_krunner.Base.{
  Text, equal, equal_iff, equal_refl, List, [], ◌∷◌, Option, none, some, false, not, is_empty,
  if◌then◌else◌, ◌≡◌, ◌≢◌, refl, ap, inl, inr, Bool-cases, map, Some, ℕ, suc,
}
use remmina_krunner.Instance.{RemminaInstance, RegistrySnapshot}
use remmina_krunner.Registry.Invariant.{IsListed}
use remmina_krunner.Settings.{Wording, SettingsInstanceItem, item_of, is_dirty, loaded}
use remmina_krunner.Settings.Page.{find_data, item_data}

-- The search for an id ends at an entry that has it.
abbrev Finds : Text → List SettingsInstanceItem → Type 0
Finds id entries = (i : ℕ) × (find_data id entries ≡ some i) × (item_data i entries ≡ id)

later-Finds :
    (id : Text) (e : SettingsInstanceItem) (entries : List SettingsInstanceItem)
    → equal e.id id ≡ false
    → Finds id entries
    → Finds id (e ∷ entries)
unfolding find_data item_data
later-Finds id e entries miss (i, f, d) = (suc i, rw (miss, f), d)

listed-Finds :
    (id : Text) (entries : List SettingsInstanceItem)
    → Some (λ e. e.id ≡ id) entries
    → Finds id entries
unfolding find_data item_data
listed-Finds id [] s = absurd s
listed-Finds id (e ∷ entries) (inl h) = (0, rw ((equal_iff e.id id).1 h), h)
listed-Finds id (e ∷ entries) (inr r) = elim (Bool-cases (equal e.id id)) [
  | inl hit ↦ (0, rw hit, (equal_iff e.id id).0 hit)
  | inr miss ↦ later-Finds id e entries miss (listed-Finds id entries r)
]

-- The combo box shows an entry with the pending id, or none when no id is pending.
abbrev pub Shows : Option ℕ → Text → List SettingsInstanceItem → Type 0
Shows none id entries = id ≡ []
Shows (some i) id entries = (id ≢ []) × (item_data i entries ≡ id)

found-Shows :
    (id : Text) (entries : List SettingsInstanceItem)
    → id ≢ []
    → Finds id entries
    → Shows (find_data id entries) id entries
found-Shows id entries n (i, f, d) = rw f (n, d)

pub result_clean :
    (wording : Wording) (result : Option RegistrySnapshot)
    → is_dirty (loaded wording result).1 ≡ false
unfolding is_dirty loaded
result_clean wording none = ap not (equal_refl [])
result_clean wording (some snapshot) = ap not (equal_refl _)

module _ (wording : Wording) where
  items-listed :
      (id : Text) (l : List RemminaInstance)
      → Some (λ i. i.id ≡ id) l
      → Some (λ e. e.id ≡ id) (map (item_of wording) l)
  unfolding item_of
  items-listed id [] s = s
  items-listed id (x ∷ l) (inl h) = inl h
  items-listed id (x ∷ l) (inr r) = inr (items-listed id l r)

  pub listed-Shows :
      (id : Text) (l : List RemminaInstance)
      → IsListed id l
      → Shows
          (if is_empty id then none else find_data id (map (item_of wording) l))
          id
          (map (item_of wording) l)
  listed-Shows [] l h = refl
  listed-Shows (c ∷ id) l (inl e) = cc
  listed-Shows (c ∷ id) l (inr s) =
      found-Shows (c ∷ id) _ (λ z. cc) (listed-Finds (c ∷ id) _ (items-listed (c ∷ id) l s))
