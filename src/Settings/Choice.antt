-- ===== src/Settings/Choice.antt =====
-- The check of an id: exactly one installation bears it.
use remmina_krunner.Base.{
  ℕ, ◌≤◌, ◌+◌, ◌==◌, ==_iff, Text, List, [], ◌∷◌, true, ◌≡◌, ◌≢◌, ◌↔◌, ◌∙◌, ap, refl, arith, length,
  Bool-cases, inl, inr,
}
use remmina_krunner.Instance.{RemminaInstance, has_id}
use remmina_krunner.Instance.Unique.{bearers}
use remmina_krunner.Settings.{unique_from, is_unique_available_id}

-- The id is not empty, and one installation alone bears it.
abbrev pub IsAvailable : Text → List RemminaInstance → Type 0
IsAvailable id instances = (id ≢ []) × ((i : RemminaInstance) × (bearers id instances ≡ i ∷ []))

unique_from-length :
    (id : Text) (n : ℕ) (l : List RemminaInstance)
    → n ≤ 1
    → unique_from id n l ≡ (n + length (bearers id l) == 1)
unfolding unique_from
unique_from-length id n [] h = ground arith
unique_from-length id n (x ∷ l) h = elim (Bool-cases (has_id id x)) [
  | inl hit ↦ rw hit (ground (arith, unique_from-length id (n + 1) l))
  | inr miss ↦ rw miss (unique_from-length id n l h)
]

singleton_of_length :
    (l : List RemminaInstance) → length l ≡ 1 → (i : RemminaInstance) × (l ≡ i ∷ [])
singleton_of_length [] h = absurd (omega arith)
singleton_of_length (i ∷ []) h = (i, refl)
singleton_of_length (i ∷ j ∷ l) h = absurd (omega arith)

-- The check grants an id exactly when it is not empty and one installation alone bears it.
pub is_unique_available_id_iff :
    (id : Text) (l : List RemminaInstance) → (is_unique_available_id id l ≡ true) ↔ IsAvailable id l
unfolding is_unique_available_id
is_unique_available_id_iff [] l = (λ e. cc, λ h. absurd (h.0 refl))
is_unique_available_id_iff (c ∷ id) l = (
  λ e. (λ z. cc, singleton_of_length _ (ground (arith, unique_from-length (c ∷ id) 0 l))),
  λ h.
      unique_from-length (c ∷ id) 0 l (omega arith)
      ∙ (==_iff _ 1).1 (omega (arith, ap length h.1.1)),
)
