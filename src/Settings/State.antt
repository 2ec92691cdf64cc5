-- ===== src/Settings/State.antt =====
-- What holds of the model of the settings and its registry, whatever the page asks for.
use remmina_krunner.Base.{
  Text, equal, equal_iff, ne_of_equal-false, List, [], ◌∷◌, Option, none, some, Bool, true, false,
  is_empty, if_split, ◌≡◌, ◌≢◌, refl, sym, ap, ◌∙◌, arith, ◌⊎◌, inl, inr, Bool-cases, map, Some,
  ◌∷◌,
}
use remmina_krunner.Instance.{RemminaInstance, RegistrySnapshot}
use remmina_krunner.Instance.Unique.{bearers}
use remmina_krunner.Registry.Invariant.{IsListed, decision-IsListed}
use remmina_krunner.Settings.{
  ControlSource, Wording, InstanceSettingsModel, item_of, is_unique_available_id, cleared, is_dirty,
  select_pending, defaults, showing, loaded, load, saved, save,
}
use remmina_krunner.Settings.Choice.{IsAvailable, is_unique_available_id_iff}

bearers-listed :
    (id : Text) (l : List RemminaInstance) (i : RemminaInstance) (rest : List RemminaInstance)
    → bearers id l ≡ i ∷ rest
    → Some (λ j. j.id ≡ id) l
bearers-listed id [] i rest e = cc
bearers-listed id (x ∷ l) i rest e = ground (arith, equal_iff x.id id, bearers-listed id l i rest)

pub available-IsListed :
    (id : Text) (l : List RemminaInstance) → is_unique_available_id id l ≡ true → IsListed id l
available-IsListed id l e =
    let (i, b) = ((is_unique_available_id_iff id l).0 e).1 in inr (bearers-listed id l i [] b)

-- What the page asks of the model.
pub data Call : Type 0 where
  loads saves restores : Call
  chooses : Text → Call

module _ (wording : Wording) (control : ControlSource) where
  open control use {State, selected, reported, granted, refused, thrown}

  -- The saved id is empty, or it is the id that the registry has selected and one installation
  -- alone bears it. The pending id is empty or one of a listed installation. There is one item for
  -- each installation, in order.
  pub record IsTracked (m : InstanceSettingsModel) (s : State) : Type 0 where
    pub persisted :
        (m.persisted_id ≡ [])
        ⊎ ((m.persisted_id ≡ selected s) × IsAvailable m.persisted_id m.instances)
    pub pending : IsListed m.selected_id m.instances
    pub shown : m.items ≡ map (item_of wording) m.instances

  pub cleared-IsTracked : (s : State) → IsTracked cleared s
  unfolding cleared
  cleared-IsTracked s = record { persisted = inl refl; pending = inl refl; shown = refl }

  showing-IsTracked :
      (snapshot : RegistrySnapshot) (s : State)
      → snapshot.selected_id ≡ selected s
      → IsTracked (showing wording snapshot) s
  unfolding showing
  showing-IsTracked snapshot s e =
      elim (Bool-cases (is_unique_available_id snapshot.selected_id snapshot.instances)) [
        | inl u ↦ record {
          persisted = inr (rw u (e, (is_unique_available_id_iff _ _).0 u));
          pending = rw u (available-IsListed _ _ u);
          shown = refl;
        }
        | inr u ↦ record { persisted = inl (rw u); pending = inl (rw u); shown = refl }
      ]

  pub load-IsTracked :
      (s : State) → IsTracked (load wording control s).0.1 (load wording control s).1
  unfolding load
  load-IsTracked s = go (control.rescan_and_repair s) refl
    where
      go :
          (r : Option RegistrySnapshot × State)
          → control.rescan_and_repair s ≡ r
          → IsTracked (loaded wording r.0).1 r.1
      go (none, s') e = cleared-IsTracked s'
      go (some snapshot, s') e =
          showing-IsTracked snapshot s'
            (reported s snapshot (ap (λ r. r.0) e) ∙ ap (λ r. selected r.1) e)

  pub select_pending-IsTracked :
      (id : Text) (m : InstanceSettingsModel) (s : State)
      → IsTracked m s
      → IsTracked (select_pending id m).1 s
  unfolding select_pending
  select_pending-IsTracked id m s v = elim (Bool-cases (is_unique_available_id id m.instances)) [
    | inl u ↦ rw u (record {
      persisted = v.persisted;
      pending = available-IsListed id m.instances u;
      shown = v.shown;
    })
    | inr u ↦ rw u v
  ]

  pub defaults-IsTracked :
      (m : InstanceSettingsModel) (s : State) → IsTracked m s → IsTracked (defaults m) s
  unfolding defaults
  defaults-IsTracked m s v =
      if_split (λ n. IsTracked n s) (is_empty m.instances) _ _
        (λ _. record { persisted = v.persisted; pending = inl refl; shown = v.shown })
        (λ _. record {
          persisted = v.persisted;
          pending = decision-IsListed m.instances [];
          shown = v.shown;
        })

  -- The ends of a save: nothing to do, an id that may not be saved, a registry that refuses or
  -- throws, and the id granted.
  pub data Saves (m : InstanceSettingsModel) (s : State)
      (res : (Bool × InstanceSettingsModel) × State) : Type 0 where
    clean : m.selected_id ≡ m.persisted_id → res ≡ ((true, m), s) → Saves m s res
    ambiguous :
        m.selected_id ≢ m.persisted_id
        → ¬ IsAvailable m.selected_id m.instances
        → res ≡ ((false, m), s)
        → Saves m s res
    denied :
        (s' : State)
        → m.selected_id ≢ m.persisted_id
        → selected s' ≡ selected s
        → res ≡ ((false, m), s')
        → Saves m s res
    accepted :
        (s' : State)
        → m.selected_id ≢ m.persisted_id
        → IsAvailable m.selected_id m.instances
        → selected s' ≡ m.selected_id
        → res ≡ ((true, record m { persisted_id = m.selected_id }), s')
        → Saves m s res

  -- A save that fails keeps the model, and none changes the items.
  pub refused_model :
      (m : InstanceSettingsModel) (s : State) (m' : InstanceSettingsModel) (s' : State)
      → Saves m s ((false, m'), s')
      → m' ≡ m
  refused_model m s m' s' (clean _ e) = cc (ap (λ r. r.0.0) e)
  refused_model m s m' s' (ambiguous _ _ e) = ap (λ r. r.0.1) e
  refused_model m s m' s' (denied _ _ _ e) = ap (λ r. r.0.1) e
  refused_model m s m' s' (accepted _ _ _ _ e) = cc (ap (λ r. r.0.0) e)

  pub saved_items :
      (m : InstanceSettingsModel) (s : State) (res : (Bool × InstanceSettingsModel) × State)
      → Saves m s res
      → res.0.1.items ≡ m.items
  saved_items m s res (clean _ e) = ap (λ r. r.0.1.items) e
  saved_items m s res (ambiguous _ _ e) = ap (λ r. r.0.1.items) e
  saved_items m s res (denied _ _ _ e) = ap (λ r. r.0.1.items) e
  saved_items m s res (accepted _ _ _ _ e) = ap (λ r. r.0.1.items) e

  pub save-Saves : (m : InstanceSettingsModel) (s : State) → Saves m s (save control m s)
  unfolding save is_dirty saved
  save-Saves m s = elim (Bool-cases (equal m.selected_id m.persisted_id)) [
    | inl d ↦ rw d (clean ((equal_iff _ _).0 d) refl)
    | inr d ↦ elim (Bool-cases (is_unique_available_id m.selected_id m.instances)) [
      | inl u ↦
          rw (d, u)
            (go (ne_of_equal-false _ _ d) ((is_unique_available_id_iff _ _).0 u)
              (control.select m.selected_id s) refl)
      | inr u ↦
          rw (d, u)
            (ambiguous (ne_of_equal-false _ _ d) (λ a. cc ((is_unique_available_id_iff _ _).1 a, u))
              refl)
    ]
  ]
    where
      go :
          m.selected_id ≢ m.persisted_id
          → IsAvailable m.selected_id m.instances
          → (r : Option Bool × State) → control.select m.selected_id s ≡ r
          → Saves m s (saved r.0 m, r.1)
      go d a (some true, s') e =
          accepted s' d a
            (ap (λ r. selected r.1) (sym e) ∙ granted m.selected_id s (ap (λ r. r.0) e)) refl
      go d a (some false, s') e =
          denied s' d (ap (λ r. selected r.1) (sym e) ∙ refused m.selected_id s (ap (λ r. r.0) e))
            refl
      go d a (none, s') e =
          denied s' d (ap (λ r. selected r.1) (sym e) ∙ thrown m.selected_id s (ap (λ r. r.0) e))
            refl

  Saves-IsTracked :
      (m : InstanceSettingsModel) (s : State) (res : (Bool × InstanceSettingsModel) × State)
      → IsTracked m s
      → Saves m s res
      → IsTracked res.0.1 res.1
  Saves-IsTracked m s res v (clean _ e) = rw e v
  Saves-IsTracked m s res v (ambiguous _ _ e) = rw e v
  Saves-IsTracked m s res v (denied s' _ k e) =
      rw e (record { persisted = rw k v.persisted; pending = v.pending; shown = v.shown })
  Saves-IsTracked m s res v (accepted s' _ a k e) =
      rw e (record { persisted = inr (sym k, a); pending = v.pending; shown = v.shown })

  pub save-IsTracked :
      (m : InstanceSettingsModel) (s : State)
      → IsTracked m s
      → IsTracked (save control m s).0.1 (save control m s).1
  save-IsTracked m s v = Saves-IsTracked m s _ v (save-Saves m s)

  pub step : Call → InstanceSettingsModel × State → InstanceSettingsModel × State
  step loads (m, s) = ((load wording control s).0.1, (load wording control s).1)
  step saves (m, s) = ((save control m s).0.1, (save control m s).1)
  step restores (m, s) = (defaults m, s)
  step (chooses id) (m, s) = ((select_pending id m).1, s)

  pub run : List Call → InstanceSettingsModel × State → InstanceSettingsModel × State
  unfolding step
  run [] w = w
  run (c ∷ cs) w = run cs (step c w)

  step-IsTracked :
      (c : Call) (m : InstanceSettingsModel) (s : State)
      → IsTracked m s
      → IsTracked (step c (m, s)).0 (step c (m, s)).1
  unfolding step
  step-IsTracked loads m s v = load-IsTracked s
  step-IsTracked saves m s v = save-IsTracked m s v
  step-IsTracked restores m s v = defaults-IsTracked m s v
  step-IsTracked (chooses id) m s v = select_pending-IsTracked id m s v

  run_from-IsTracked :
      (cs : List Call) (m : InstanceSettingsModel) (s : State)
      → IsTracked m s
      → IsTracked (run cs (m, s)).0 (run cs (m, s)).1
  unfolding run
  run_from-IsTracked [] m s v = v
  run_from-IsTracked (c ∷ cs) m s v = run_from-IsTracked cs _ _ (step-IsTracked c m s v)

  -- After any loads, choices, saves and resets of a new model, with any answers of the registry and
  -- any call of it that throws: the saved id is empty, or it is the id that the registry has
  -- selected and one listed installation alone bears it; the pending id is empty or one of a listed
  -- installation; and there is one item for each installation, in order.
  pub run-IsTracked :
      (cs : List Call) (s : State) → IsTracked (run cs (cleared, s)).0 (run cs (cleared, s)).1
  run-IsTracked cs s = run_from-IsTracked cs cleared s (cleared-IsTracked s)
