-- ===== src/Settings/Page/Consistent.antt =====
-- The settings page shows its model: the entry, the Apply button and the model keep together.
use remmina_krunner.Base.{
  equal_refl, List, [], ◌∷◌, Option, none, some, Bool, true, false, not, is_empty, if◌then◌else◌,
  if_split, ◌≡◌, refl, sym, ap, ◌∙◌, arith, inl, inr, Bool-cases, ℕ, subst,
}
use remmina_krunner.Settings.{
  ControlSource, Wording, SettingsInstanceItem, InstanceSettingsModel, item_of, cleared, is_dirty,
  is_unique_available_id, select_pending, loaded,
}
use remmina_krunner.Settings.Choice.{is_unique_available_id_iff}
use remmina_krunner.Settings.State.{
  IsTracked, cleared-IsTracked, load-IsTracked, defaults-IsTracked, save-IsTracked, Saves,
  save-Saves, refused_model, saved_items, available-IsListed,
}
use remmina_krunner.Settings
use remmina_krunner.Settings.Page.{
  Names, SettingsPage, find_data, item_data, restore_pending_selection, populate, set_dirty_state,
  update_status, refreshed, save_failed, pending_at, with_index, instance_changed, defaults,
  initial, load, save,
}
use remmina_krunner.Settings.Page.Shown.{Shows, listed-Shows, result_clean}

-- What the user does on the page.
pub data Event : Type 0 where
  loads saves : Event
  restores : Bool → Event
  changes : Option ℕ → Event

module _ (wording : Wording) (control : ControlSource) where
  open control use {State}

  restored-Shows :
      (p : SettingsPage) (s : State)
      → IsTracked wording control p.model s
      → p.entries ≡ p.model.items
      → Shows (restore_pending_selection p).current p.model.selected_id p.entries
  unfolding restore_pending_selection
  restored-Shows p s v e =
      subst
        (λ es.
          Shows (if is_empty p.model.selected_id then none else find_data p.model.selected_id es)
            p.model.selected_id es)
        (sym (e ∙ v.shown)) (listed-Shows wording p.model.selected_id p.model.instances v.pending)

  -- The model is sound, the entries are its items, the entry that is shown is the pending choice,
  -- and the Apply button is active exactly when there is a change to save.
  pub record IsConsistent (p : SettingsPage) (s : State) : Type 0 where
    pub tracked : IsTracked wording control p.model s
    pub listing : p.entries ≡ p.model.items
    pub showing : Shows p.current p.model.selected_id p.entries
    pub button : p.needs_save ≡ is_dirty p.model
    pub settled : p.populating ≡ false

  initial-IsConsistent : (s : State) → IsConsistent initial s
  unfolding initial is_dirty cleared
  initial-IsConsistent s = record {
    tracked = cleared-IsTracked wording control s;
    listing = refl;
    showing = refl;
    button = ap not (sym (equal_refl []));
    settled = refl;
  }

  refreshed-IsConsistent :
      (names : Names) (p : SettingsPage) (s : State)
      → IsTracked wording control p.model s
      → p.entries ≡ p.model.items
      → p.populating ≡ false
      → IsConsistent (refreshed names p) s
  unfolding refreshed
  refreshed-IsConsistent names p s v e f = record {
    tracked = v;
    listing = e;
    showing = unfold restore_pending_selection in restored-Shows p s v e;
    button = refl;
    settled = f;
  }

  loaded_clean : (s : State) → is_dirty (Settings.load wording control s).0.1 ≡ false
  unfolding Settings.load
  loaded_clean s = result_clean wording (control.rescan_and_repair s).0

  load-IsConsistent :
      (names : Names) (p : SettingsPage) (s : State)
      → IsConsistent (load names wording control p s).0 (load names wording control p s).1
  unfolding load populate update_status
  load-IsConsistent names p s =
      let v = load-IsTracked wording control s in
      let q = record p { model = (Settings.load wording control s).0.1 } in
      record {
        tracked = v;
        listing = refl;
        showing =
            unfold restore_pending_selection in
            restored-Shows (record q { entries = q.model.items }) _ v refl;
        button = sym (loaded_clean s);
        settled = refl;
      }

  saved-IsConsistent :
      (names : Names) (p : SettingsPage) (s : State) (res : (Bool × InstanceSettingsModel) × State)
      → IsConsistent p s
      → IsTracked wording control res.0.1 res.1
      → Saves wording control p.model s res
      → IsConsistent
          (if not res.0.0
            then set_dirty_state (record p { model = res.0.1; status = save_failed })
            else refreshed names (record p { model = res.0.1 }))
          res.1
  unfolding set_dirty_state
  saved-IsConsistent names p s ((false, m), t) v k o =
      let same : m ≡ p.model = refused_model wording control p.model s m t o in
      record {
        tracked = k;
        listing = v.listing ∙ ap (λ n. n.items) (sym same);
        showing = subst (λ n. Shows p.current n.selected_id p.entries) (sym same) v.showing;
        button = refl;
        settled = v.settled;
      }
  saved-IsConsistent names p s ((true, m), t) v k o =
      refreshed-IsConsistent names (record p { model = m }) t k
        (v.listing ∙ sym (saved_items wording control p.model s _ o)) v.settled

  save-IsConsistent :
      (names : Names) (p : SettingsPage) (s : State)
      → IsConsistent p s
      → IsConsistent (save names control p s).0 (save names control p s).1
  unfolding save
  save-IsConsistent names p s v =
      saved-IsConsistent names p s (Settings.save control p.model s) v
        (save-IsTracked wording control p.model s v.tracked) (save-Saves wording control p.model s)

  defaults_items : (m : InstanceSettingsModel) → (Settings.defaults m).items ≡ m.items
  unfolding Settings.defaults
  defaults_items m = ground arith

  defaults-IsConsistent :
      (names : Names) (thrown : Bool) (p : SettingsPage) (s : State)
      → IsConsistent p s
      → IsConsistent (defaults names thrown p) s
  unfolding defaults set_dirty_state update_status
  defaults-IsConsistent names true p s v = record {
    tracked = v.tracked;
    listing = v.listing;
    showing = v.showing;
    button = refl;
    settled = v.settled;
  }
  defaults-IsConsistent names false p s v =
      refreshed-IsConsistent names (record p { model = Settings.defaults p.model }) s
        (defaults-IsTracked wording control p.model s v.tracked)
        (v.listing ∙ sym (defaults_items p.model)) v.settled

  -- What the user's choice leaves before the text and the button are brought up to date.
  IsShown : SettingsPage → State → Type 0
  IsShown p s =
      IsTracked wording control p.model s
      × (p.entries ≡ p.model.items)
      × Shows p.current p.model.selected_id p.entries
      × (p.populating ≡ false)

  restored-IsShown :
      (p : SettingsPage) (s : State)
      → IsTracked wording control p.model s
      → p.entries ≡ p.model.items
      → p.populating ≡ false
      → IsShown (restore_pending_selection p) s
  unfolding restore_pending_selection IsShown
  restored-IsShown p s v e f =
      (v, e, (unfold restore_pending_selection in restored-Shows p s v e), f)

  pending_at-IsShown :
      (i : ℕ) (p : SettingsPage) (s : State)
      → IsTracked wording control p.model s
      → p.entries ≡ p.model.items
      → p.populating ≡ false
      → p.current ≡ some i
      → IsShown (pending_at i p) s
  unfolding pending_at select_pending IsShown
  pending_at-IsShown i p s v e f c =
      elim (Bool-cases (is_unique_available_id (item_data i p.entries) p.model.instances)) [
        | inl u ↦ rw u (
          record { persisted = v.persisted; pending = available-IsListed _ _ u; shown = v.shown },
          e,
          (rw c (((is_unique_available_id_iff _ _).0 u).0, refl)),
          f,
        )
        | inr u ↦ rw u (restored-IsShown p s v e f)
      ]

  with_index-IsShown :
      (index : Option ℕ) (p : SettingsPage) (s : State)
      → IsTracked wording control p.model s
      → p.entries ≡ p.model.items
      → p.populating ≡ false
      → p.current ≡ index
      → IsShown (with_index index p) s
  unfolding with_index
  with_index-IsShown none p s v e f c = restored-IsShown p s v e f
  with_index-IsShown (some i) p s v e f c = pending_at-IsShown i p s v e f c

  instance_changed-IsConsistent :
      (names : Names) (index : Option ℕ) (p : SettingsPage) (s : State)
      → IsConsistent p s
      → IsConsistent (instance_changed names index p) s
  unfolding instance_changed set_dirty_state update_status IsShown
  instance_changed-IsConsistent names index p s v =
      let q = record p { current = index } in
      let (k, e, h, f) = with_index-IsShown index q s v.tracked v.listing v.settled refl in
      if_split (λ (r : SettingsPage). IsConsistent r s) p.populating _ _ (λ y. cc (y, v.settled))
        (λ _. record { tracked = k; listing = e; showing = h; button = refl; settled = f })

  module _ (names : Names) where
    pub step : Event → SettingsPage × State → SettingsPage × State
    step loads (p, s) = load names wording control p s
    step saves (p, s) = save names control p s
    step (restores thrown) (p, s) = (defaults names thrown p, s)
    step (changes index) (p, s) = (instance_changed names index p, s)

    pub run : List Event → SettingsPage × State → SettingsPage × State
    unfolding step
    run [] w = w
    run (e ∷ es) w = run es (step e w)

    step-IsConsistent :
        (e : Event) (p : SettingsPage) (s : State)
        → IsConsistent p s
        → IsConsistent (step e (p, s)).0 (step e (p, s)).1
    unfolding step
    step-IsConsistent loads p s v = load-IsConsistent names p s
    step-IsConsistent saves p s v = save-IsConsistent names p s v
    step-IsConsistent (restores thrown) p s v = defaults-IsConsistent names thrown p s v
    step-IsConsistent (changes index) p s v = instance_changed-IsConsistent names index p s v

    run_from-IsConsistent :
        (es : List Event) (p : SettingsPage) (s : State)
        → IsConsistent p s
        → IsConsistent (run es (p, s)).0 (run es (p, s)).1
    unfolding run
    run_from-IsConsistent [] p s v = v
    run_from-IsConsistent (e ∷ es) p s v = run_from-IsConsistent es _ _ (step-IsConsistent e p s v)

    -- After any loads, saves, resets and choices on a new page, with any answers of the registry
    -- and any call of it that throws: the saved and the pending id are sound, the combo box lists
    -- the installations that were found and shows the pending one, or nothing when none is
    -- pending, and the Apply button is active exactly when the pending choice differs from the saved one.
    pub run-IsConsistent :
        (es : List Event) (s : State) → IsConsistent (run es (initial, s)).0 (run es (initial, s)).1
    run-IsConsistent es s = run_from-IsConsistent es initial s (initial-IsConsistent s)
