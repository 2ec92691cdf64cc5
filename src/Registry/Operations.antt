-- ===== src/Registry/Operations.antt =====
-- What each call of the registry does, on every branch.
use remmina_krunner.Base.{
  Text, codes, contains_iff, In, equal, equal_iff, starts_with, List, [], ◌∷◌, is_empty,
  if◌then◌else◌, Bool, true, false, not, ◌&&◌, ◌≡◌, ◌≢◌, any, refl, sym, ◌∙◌, ap, arith, inl, inr,
  ◌⊎◌, Some, Some-map, All, All-map, All-In, Bool-cases, any-true, any-false,
}
use remmina_krunner.Instance.{InstanceScanResult, RemminaInstance, has_id}
use remmina_krunner.Selection.{SelectionDecision, validate_selection}
use remmina_krunner.Selection.Policy.{
  Chooses, kept, replaced, none_left, validate_selection-Chooses,
}
use remmina_krunner.Registry.{
  SelectionStore, InstanceRegistry, repair, rescan_and_repair, persist, select, may_be_unavailable,
  backend_for_stable_id,
}

abbrev pub Available : Text → List RemminaInstance → Type 0
Available id = Some λ i. i.id ≡ id

any-has_id : (id : Text) (l : List RemminaInstance) → any (has_id id) l ≡ true → Available id l
any-has_id id l e = Some-map (λ i h. (equal_iff i.id id).0 h) l (any-true (has_id id) l e)

none-has_id :
    (id : Text) (l : List RemminaInstance) → any (has_id id) l ≡ false → All (λ i. i.id ≢ id) l
none-has_id id l e =
    All-map (λ i h z. cc ((equal_iff i.id id).1 z, h)) l (any-false (has_id id) l e)

unavailable-ne : (id : Text) (failed : List Text) → may_be_unavailable id failed ≡ true → id ≢ []
unfolding may_be_unavailable starts_with
unavailable-ne [] failed h = cc
unavailable-ne (c ∷ id) failed h = λ z. cc

-- The decision for a saved id that no installation bears.
gone-changed :
    (l : List RemminaInstance) (saved : Text)
    → saved ≢ []
    → All (λ i. i.id ≢ saved) l
    → (validate_selection l saved).changed ≡ true
gone-changed l saved n gone = go (validate_selection l saved) (validate_selection-Chooses l saved)
  where
    full : (t : Text) → t ≢ [] → not (is_empty t) ≡ true
    full [] h = absurd (h refl)
    full (c ∷ t) h = refl

    go : (d : SelectionDecision) → Chooses l saved d → d.changed ≡ true
    go d (kept i _ m h e) = absurd (All-In (λ i. i.id ≢ saved) l gone m h)
    go d (replaced i m _ _ e) = ap (λ x. x.changed) e
    go d (none_left _ e) = ap (λ x. x.changed) e ∙ full saved n

-- The decision for a saved id that some installation bears.
found-kept :
    (l : List RemminaInstance) (saved : Text)
    → saved ≢ []
    → Available saved l
    → validate_selection l saved ≡ record { selected_id = saved; changed = false }
found-kept l saved n a = go (validate_selection l saved) (validate_selection-Chooses l saved)
  where
    missing : (l : List RemminaInstance) → Available saved l → All (λ i. i.id ≢ saved) l → ⊥
    missing [] (h) m = absurd h
    missing (i ∷ l) (inl e) m = m.0 e
    missing (i ∷ l) (inr h) m = missing l h m.1

    go :
        (d : SelectionDecision)
        → Chooses l saved d
        → d ≡ record { selected_id = saved; changed = false }
    go d (kept i _ m h e) = e
    go d (replaced i m (inl e) _ _) = absurd (n e)
    go d (replaced i m (inr gone) _ _) = absurd (missing l a gone)
    go d (none_left e _) = absurd (nowhere l e a)
      where
        nowhere : (l : List RemminaInstance) → l ≡ [] → Available saved l → ⊥
        nowhere [] e h = absurd h
        nowhere (i ∷ l) e h = cc

-- The id has the form that one backend gives, and this backend is among the failed ones.
pub data IsFromFailed (id : Text) (failed : List Text) : Type 0 where
  from_flatpak :
      starts_with id (codes "flatpak:") ≡ true
      → In (codes "flatpak") failed
      → IsFromFailed id failed
  from_snap :
      starts_with id (codes "snap:") ≡ true → In (codes "snap") failed → IsFromFailed id failed

not_flatpak :
    (id : Text) → starts_with id (codes "snap:") ≡ true → starts_with id (codes "flatpak:") ≡ false
unfolding starts_with
not_flatpak [] p = cc
not_flatpak (c ∷ id) p = ground arith

may_be_unavailable-of_IsFromFailed :
    (id : Text) (failed : List Text) → IsFromFailed id failed → may_be_unavailable id failed ≡ true
unfolding may_be_unavailable backend_for_stable_id
may_be_unavailable-of_IsFromFailed id failed (from_flatpak p i) =
    rw (p, (contains_iff failed (codes "flatpak")).1 i) refl
may_be_unavailable-of_IsFromFailed id failed (from_snap p i) =
    rw (not_flatpak id p, p, (contains_iff failed (codes "snap")).1 i) refl

module _ (store : SelectionStore) where
  open store use {State, selected_id, write_selected_id, written, refused}

  -- The outcomes of `select`, each with the registry and the store that it leaves.
  pub data Selects (id : Text) (r : InstanceRegistry) (s : State)
      (res : Bool × InstanceRegistry × State) : Type 0 where
    unknown :
        (id ≡ []) ⊎ All (λ i. i.id ≢ id) r.snapshot.instances
        → res ≡ (false, r, s)
        → Selects id r s res
    already :
        Available id r.snapshot.instances
        → r.snapshot.selected_id ≡ id
        → r.selection_synchronized ≡ true
        → res ≡ (true, r, s)
        → Selects id r s res
    stored :
        (s' : State)
        → Available id r.snapshot.instances
        → selected_id s' ≡ id
        → res ≡ (
          true,
          record r {
            snapshot = record r.snapshot { selected_id = id };
            selection_synchronized = true;
          },
          s',
        )
        → Selects id r s res
    failed :
        (s' : State)
        → Available id r.snapshot.instances
        → selected_id s' ≡ selected_id s
        → res ≡ (false, r, s')
        → Selects id r s res

  persist-Selects :
      (id : Text) (r : InstanceRegistry) (s : State) (w : Bool × State)
      → write_selected_id id s ≡ w
      → Available id r.snapshot.instances
      → Selects id r s (persist store id r w)
  unfolding persist
  persist-Selects id r s (true, s') e a =
      stored s' a (ap (λ w. selected_id w.1) (sym e) ∙ written id s (ap (λ w. w.0) e)) refl
  persist-Selects id r s (false, s') e a =
      failed s' a (ap (λ w. selected_id w.1) (sym e) ∙ refused id s (ap (λ w. w.0) e)) refl

  known-Selects :
      (id : Text) (r : InstanceRegistry) (s : State)
      → Available id r.snapshot.instances
      → Selects id r s (
          if equal r.snapshot.selected_id id && r.selection_synchronized
          then (true, r, s)
          else persist store id r (write_selected_id id s))
  known-Selects id r s a =
      elim (Bool-cases (equal r.snapshot.selected_id id && r.selection_synchronized)) [
        | inl e ↦ rw e (already a ((equal_iff _ _).0 (ground arith)) (ground arith) refl)
        | inr e ↦ rw e (persist-Selects id r s _ refl a)
      ]

  pub select-Selects :
      (id : Text) (r : InstanceRegistry) (s : State) → Selects id r s (select store id r s)
  unfolding select
  select-Selects [] r s = unknown (inl refl) refl
  select-Selects (c ∷ id) r s = elim (Bool-cases (any (has_id (c ∷ id)) r.snapshot.instances)) [
    | inl e ↦ rw e (known-Selects (c ∷ id) r s (any-has_id _ _ e))
    | inr e ↦ rw e (unknown (inr (none-has_id _ _ e)) refl)
  ]

  repair_unavailable :
      (scan : InstanceScanResult) (saved : Text) (d : SelectionDecision) (s : State)
      → may_be_unavailable saved scan.failed_backends ≡ true
      → d.changed ≡ true
      → repair store scan saved d s ≡ (false, s)
  unfolding repair
  repair_unavailable scan saved d s h c = rw (c, h)

  -- A saved id whose backend could not be scanned, Flatpak or Snap, and which no found installation
  -- bears, is not overwritten: the store stays as it was and the registry counts as not synchronised.
  -- Once a later rescan finds an installation with that id, whatever it finds besides and whatever
  -- fails, that id is selected again, and the registry is synchronised with the same store.
  pub rescan_keeps_unavailable :
      (scan later : InstanceScanResult) (r : InstanceRegistry) (s : State)
      → IsFromFailed (selected_id s) scan.failed_backends
      → All (λ i. i.id ≢ selected_id s) scan.instances
      → Available (selected_id s) later.instances
      → let first = rescan_and_repair store scan r s in
        let second = rescan_and_repair store later first.0 first.1 in
        (first.1 ≡ s)
        × (first.0.selection_synchronized ≡ false)
        × (second.1 ≡ s)
        × (second.0.selection_synchronized ≡ true)
        × (second.0.snapshot.selected_id ≡ selected_id s)
  unfolding rescan_and_repair
  rescan_keeps_unavailable scan later r s h gone back =
      rw (repaired, confirmed) (refl, refl, refl, refl, refl)
    where
      unavailable : may_be_unavailable (selected_id s) scan.failed_backends ≡ true
      unavailable = may_be_unavailable-of_IsFromFailed _ _ h

      repaired :
          repair store scan (selected_id s) (validate_selection scan.instances (selected_id s)) s
          ≡ (false, s)
      repaired =
          repair_unavailable scan (selected_id s) _ s unavailable
            (gone-changed scan.instances (selected_id s) (unavailable-ne _ _ unavailable) gone)

      confirmed :
          validate_selection later.instances (selected_id s)
          ≡ record { selected_id = selected_id s; changed = false }
      confirmed = found-kept later.instances (selected_id s) (unavailable-ne _ _ unavailable) back
