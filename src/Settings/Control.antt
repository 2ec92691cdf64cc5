-- ===== src/Settings/Control.antt =====
-- The registry of src/core/instance_registry.cpp as the control source of the settings. What the
-- scanner will answer is a list, in which a scan that throws is `none`.
use remmina_krunner.Base.{
  Text, List, [], ◌∷◌, Option, none, some, Bool, true, false, ◌≡◌, refl, ap, ◌∙◌, arith, not, inl,
  inr, Bool-cases, equal_refl,
}
use remmina_krunner.Instance.{InstanceScanResult, RegistrySnapshot}
use remmina_krunner.Registry.{SelectionStore, InstanceRegistry, rescan_and_repair, select}
use remmina_krunner.Registry.Operations.{Selects, unknown, already, stored, failed, select-Selects}
use remmina_krunner.Registry.Invariant.{IsSound}
use remmina_krunner.Settings.{
  ControlSource, InstanceSettingsModel, is_dirty, is_unique_available_id, save, saved,
}

module _ (store : SelectionStore) where
  open store use {State, selected_id}

  -- The registry, its store and the scans to come.
  abbrev pub Held : Type 0
  Held = InstanceRegistry × State × List (Option InstanceScanResult)

  abbrev pub rescan_held : Held → Option RegistrySnapshot × Held
  rescan_held (r, s, []) = (none, (r, s, []))
  rescan_held (r, s, none ∷ scans) = (none, (r, s, scans))
  rescan_held (r, s, some scan ∷ scans) =
      let (r', s') = rescan_and_repair store scan r s in (some r'.snapshot, (r', s', scans))

  abbrev pub select_held : Text → Held → Option Bool × Held
  select_held id (r, s, scans) =
      let (answer, r', s') = select store id r s in (some answer, (r', s', scans))

  pub reported_held :
      (h : Held) (snapshot : RegistrySnapshot)
      → (rescan_held h).0 ≡ some snapshot
      → snapshot.selected_id ≡ (rescan_held h).1.0.snapshot.selected_id
  reported_held (r, s, []) snapshot e = cc
  reported_held (r, s, none ∷ scans) snapshot e = cc
  reported_held (r, s, some scan ∷ scans) snapshot e = ground arith

  granted_at :
      (id : Text) (r : InstanceRegistry) (s : State) (res : Bool × InstanceRegistry × State)
      → Selects store id r s res
      → res.0 ≡ true
      → res.1.snapshot.selected_id ≡ id
  granted_at id r s res (unknown _ e) h = cc (h, ap (λ x. x.0) e)
  granted_at id r s res (already _ k _ e) h = ap (λ x. x.1.snapshot.selected_id) e ∙ k
  granted_at id r s res (stored s' _ _ e) h = ap (λ x. x.1.snapshot.selected_id) e
  granted_at id r s res (failed s' _ _ e) h = cc (h, ap (λ x. x.0) e)

  refused_at :
      (id : Text) (r : InstanceRegistry) (s : State) (res : Bool × InstanceRegistry × State)
      → Selects store id r s res
      → res.0 ≡ false
      → res.1.snapshot.selected_id ≡ r.snapshot.selected_id
  refused_at id r s res (unknown _ e) h = ap (λ x. x.1.snapshot.selected_id) e
  refused_at id r s res (already _ k _ e) h = ap (λ x. x.1.snapshot.selected_id) e
  refused_at id r s res (stored s' _ _ e) h = cc (ap (λ x. x.0) e)
  refused_at id r s res (failed s' _ _ e) h = ap (λ x. x.1.snapshot.selected_id) e

  pub granted_held :
      (id : Text) (h : Held)
      → (select_held id h).0 ≡ some true
      → (select_held id h).1.0.snapshot.selected_id ≡ id
  granted_held id (r, s, scans) e = granted_at id r s _ (select-Selects store id r s) (ground arith)

  pub refused_held :
      (id : Text) (h : Held)
      → (select_held id h).0 ≡ some false
      → (select_held id h).1.0.snapshot.selected_id ≡ h.0.snapshot.selected_id
  refused_held id (r, s, scans) e = refused_at id r s _ (select-Selects store id r s) (ground arith)

  pub thrown_held :
      (id : Text) (h : Held)
      → (select_held id h).0 ≡ none
      → (select_held id h).1.0.snapshot.selected_id ≡ h.0.snapshot.selected_id
  thrown_held id (r, s, scans) e = cc

  abbrev pub registry_control : ControlSource
  registry_control = record {
    State = Held;
    selected = λ h. h.0.snapshot.selected_id;
    rescan_and_repair = rescan_held;
    select = select_held;
    reported = reported_held;
    granted = granted_held;
    refused = refused_held;
    thrown = thrown_held;
  }

  stored_at :
      (id : Text) (r : InstanceRegistry) (s : State) (res : Bool × InstanceRegistry × State)
      → IsSound store r s
      → Selects store id r s res
      → res.0 ≡ true
      → selected_id res.2 ≡ id
  stored_at id r s res v (unknown _ e) h = cc (h, ap (λ x. x.0) e)
  stored_at id r s res v (already _ k y e) h = ap (λ x. selected_id x.2) e ∙ v.synchronized y ∙ k
  stored_at id r s res v (stored s' _ k e) h = ap (λ x. selected_id x.2) e ∙ k
  stored_at id r s res v (failed s' _ _ e) h = cc (h, ap (λ x. x.0) e)

  granted_save :
      (m : InstanceSettingsModel) (r : InstanceRegistry) (s : State)
      (res : Bool × InstanceRegistry × State)
      → IsSound store r s
      → Selects store m.selected_id r s res
      → (saved (some res.0) m).0 ≡ true
      → (selected_id res.2 ≡ m.selected_id) × (is_dirty (saved (some res.0) m).1 ≡ false)
  unfolding saved is_dirty
  granted_save m r s (true, r', s') v c e =
      (stored_at m.selected_id r s _ v c refl, ap not (equal_refl m.selected_id))
  granted_save m r s (false, r', s') v c e = cc

  -- When the registry and its store are consistent and a changed choice is saved successfully, the
  -- store holds the chosen id, and the model is no longer changed.
  pub save_stores :
      (m : InstanceSettingsModel) (r : InstanceRegistry) (s : State)
      (scans : List (Option InstanceScanResult))
      → IsSound store r s
      → is_dirty m ≡ true
      → (save registry_control m (r, s, scans)).0.0 ≡ true
      → (selected_id (save registry_control m (r, s, scans)).1.1 ≡ m.selected_id)
        × (is_dirty (save registry_control m (r, s, scans)).0.1 ≡ false)
  unfolding save
  save_stores m r s scans v d e =
      elim (Bool-cases (is_unique_available_id m.selected_id m.instances)) [
        | inl u ↦
            rw (d, u)
              (granted_save m r s _ v (select-Selects store m.selected_id r s) (rw (d, u) at e))
        | inr u ↦ let no : false ≡ true = rw (d, u) at e in cc no
      ]
