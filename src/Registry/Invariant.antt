-- ===== src/Registry/Invariant.antt =====
-- What holds of the registry and its store between two calls.
use remmina_krunner.Base.{
  Text, List, [], ◌∷◌, is_empty, Bool, true, false, not, ◌≡◌, refl, sym, ◌∙◌, ap, arith, inl, inr,
  ◌⊎◌, Some, Some-map, In,
}
use remmina_krunner.Instance.{InstanceScanResult, RemminaInstance}
use remmina_krunner.Selection.{SelectionDecision, validate_selection}
use remmina_krunner.Selection.Policy.{
  Chooses, kept, replaced, none_left, validate_selection-Chooses,
}
use remmina_krunner.Registry.Operations.{Selects, unknown, already, stored, failed, select-Selects}
use remmina_krunner.Registry.{
  SelectionStore, InstanceRegistry, initial, repair, rescan_and_repair, select,
}

-- The selected id is empty or one of a listed installation.
abbrev pub IsListed : Text → List RemminaInstance → Type 0
IsListed id instances = (id ≡ []) ⊎ Some (λ i. i.id ≡ id) instances

In→Some :
    (l : List RemminaInstance) (i : RemminaInstance) {t : Text}
    → In i l
    → i.id ≡ t
    → Some (λ j. j.id ≡ t) l
In→Some l i m e = Some-map (λ j h. ap (λ k. k.id) h ∙ e) l m

pub decision-IsListed :
    (l : List RemminaInstance) (saved : Text) → IsListed (validate_selection l saved).selected_id l
decision-IsListed l saved = go (validate_selection l saved) (validate_selection-Chooses l saved)
  where
    go : (d : SelectionDecision) → Chooses l saved d → IsListed d.selected_id l
    go d (kept i _ m h e) = inr (In→Some l i m (h ∙ sym (ap (λ x. x.selected_id) e)))
    go d (replaced i m _ _ e) = inr (In→Some l i m (sym (ap (λ x. x.selected_id) e)))
    go d (none_left _ e) = inl (ap (λ x. x.selected_id) e)

-- A decision that changes nothing is the saved id.
pub unchanged_saved :
    (l : List RemminaInstance) (saved : Text)
    → (validate_selection l saved).changed ≡ false
    → saved ≡ (validate_selection l saved).selected_id
unchanged_saved l saved = go (validate_selection l saved) (validate_selection-Chooses l saved)
  where
    empty : (t : Text) → not (is_empty t) ≡ false → t ≡ []
    empty [] h = refl
    empty (c ∷ t) h = cc

    go : (d : SelectionDecision) → Chooses l saved d → d.changed ≡ false → saved ≡ d.selected_id
    go d (kept i _ m h e) c = sym (ap (λ x. x.selected_id) e)
    go d (replaced i m _ _ e) c = cc (c, ap (λ x. x.changed) e)
    go d (none_left _ e) c =
        empty saved (sym (ap (λ x. x.changed) e) ∙ c) ∙ sym (ap (λ x. x.selected_id) e)

module _ (store : SelectionStore) where
  open store use {State, selected_id, write_selected_id, written, refused}

  -- A registry that believes itself synchronised has the stored id selected.
  pub record IsSound (r : InstanceRegistry) (s : State) : Type 0 where
    pub synchronized : r.selection_synchronized ≡ true → selected_id s ≡ r.snapshot.selected_id
    pub listed : IsListed r.snapshot.selected_id r.snapshot.instances

  pub initial-IsSound : (s : State) → IsSound initial s
  unfolding initial
  initial-IsSound s = record { synchronized = λ e. cc; listed = inl refl }

  repair_synchronized :
      (scan : InstanceScanResult) (d : SelectionDecision) (s : State)
      → (d.changed ≡ false → selected_id s ≡ d.selected_id)
      → (repair store scan (selected_id s) d s).0 ≡ true
      → selected_id (repair store scan (selected_id s) d s).1 ≡ d.selected_id
  unfolding repair
  repair_synchronized scan d s h e = ground (arith, written d.selected_id s)

  pub rescan_and_repair-IsSound :
      (scan : InstanceScanResult) (r : InstanceRegistry) (s : State)
      → IsSound (rescan_and_repair store scan r s).0 (rescan_and_repair store scan r s).1
  unfolding rescan_and_repair
  rescan_and_repair-IsSound scan r s = record {
    synchronized = repair_synchronized scan _ s (unchanged_saved scan.instances (selected_id s));
    listed = decision-IsListed scan.instances (selected_id s);
  }

  Selects-IsSound :
      (id : Text) (r : InstanceRegistry) (s : State) (res : Bool × InstanceRegistry × State)
      → IsSound r s
      → Selects store id r s res
      → IsSound res.1 res.2
  Selects-IsSound id r s res v (unknown _ e) = rw e v
  Selects-IsSound id r s res v (already _ _ _ e) = rw e v
  Selects-IsSound id r s res v (stored s' a k e) =
      rw e (record { synchronized = λ _. k; listed = inr a })
  Selects-IsSound id r s res v (failed s' a k e) =
      rw e (record { synchronized = λ y. k ∙ v.synchronized y; listed = v.listed })

  pub select-IsSound :
      (id : Text) (r : InstanceRegistry) (s : State)
      → IsSound r s
      → IsSound (select store id r s).1 (select store id r s).2
  select-IsSound id r s v = Selects-IsSound id r s _ v (select-Selects store id r s)

  -- The calls that its owner makes, in any order.
  pub data Call : Type 0 where
    rescans : InstanceScanResult → Call
    selects : Text → Call

  pub step : Call → InstanceRegistry × State → InstanceRegistry × State
  step (rescans scan) (r, s) = rescan_and_repair store scan r s
  step (selects id) (r, s) = ((select store id r s).1, (select store id r s).2)

  pub run : List Call → InstanceRegistry × State → InstanceRegistry × State
  unfolding step
  run [] w = w
  run (c ∷ cs) w = run cs (step c w)

  run_from-IsSound :
      (cs : List Call) (r : InstanceRegistry) (s : State)
      → IsSound r s
      → IsSound (run cs (r, s)).0 (run cs (r, s)).1
  unfolding run
  run_from-IsSound [] r s v = v
  run_from-IsSound (rescans scan ∷ cs) r s v =
      run_from-IsSound cs _ _ (rescan_and_repair-IsSound scan r s)
  run_from-IsSound (selects id ∷ cs) r s v = run_from-IsSound cs _ _ (select-IsSound id r s v)

  -- After any calls of a new registry, in any order and with any scan results and any failed
  -- writes, the selected id is empty or one of the listed installations, and whenever the registry
  -- counts itself synchronised the store holds the selected id.
  pub run-IsSound :
      (cs : List Call) (s : State) → IsSound (run cs (initial, s)).0 (run cs (initial, s)).1
  run-IsSound cs s = run_from-IsSound cs initial s (initial-IsSound s)
