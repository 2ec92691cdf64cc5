-- ===== src/Locator/Links.antt =====
-- The symbolic links of a path are followed, up to forty.
use remmina_krunner.Base.{ℕ, suc, ◌≤◌, Text, codes, List, [], ◌∷◌, false, ◌≡◌, ◌≢◌, All}
use remmina_krunner.Locator.Paths.{
  PathSystem, Walk, link_at, clean_absolute_path, child_path, components_of, walk,
  append_components, settled,
}

module _ (system : PathSystem) where
  open system use {is_symbolic_link, symlink_target}

  -- The paths from the root to each of the components.
  abbrev pub steps_of : Text → List Text → List Text
  steps_of current [] = []
  steps_of current (component ∷ rest) =
      child_path system current component ∷ steps_of (child_path system current component) rest

  abbrev pub HasNoLink : Text → Type 0
  HasNoLink path =
      All (λ step. is_symbolic_link step ≡ false) (steps_of (codes "/") (components_of system path))

  -- One link is followed: the first one of the path is replaced by its target.
  abbrev pub Replaces : Text → Text → Type 0
  Replaces path next =
      (here : Text) × (rest : List Text) × (walk system (codes "/") (components_of system path)
        ≡ link_at here rest)
      × (clean_absolute_path system (symlink_target here) ≢ [])
      × (next ≡ append_components system (clean_absolute_path system (symlink_target here)) rest)

  -- So many links lead from a path to one that has none.
  pub data Leads : ℕ → Text → Text → Type 0 where
    at_end : {path last : Text} → HasNoLink path → last ≡ path → Leads 0 path last
    by_link :
        {n : ℕ} {path last : Text} (next : Text)
        → Replaces path next
        → Leads n next last
        → Leads (suc n) path last

  abbrev pub LeadsWithin : ℕ → Text → Text → Type 0
  LeadsWithin links path result =
      (n : ℕ) × (last : Text) × (n ≤ links) × Leads n path last × (result ≡ settled system last)

  walk_at : Text → Walk
  walk_at path = walk system (codes "/") (components_of system path)
