-- ===== src/Catalog/Calls.antt =====
-- What one call of `records` leaves.
use remmina_krunner.Base.{
  Text, equal, equal_iff, List, Option, some, Bool, true, false, not, ◌&&◌, ◌≡◌, refl, arith,
  if_split, Bool-cases, inl, inr, ◌⊎◌,
}
use remmina_krunner.Instance.{RemminaInstance}
use remmina_krunner.Profile.{ProfileRecord}
use remmina_krunner.Repository.{RepositoryLoadResult}
use remmina_krunner.Snapshot.Unique.{HasUniqueIds}
use remmina_krunner.Catalog.{
  ProfileCatalog, CatalogResult, found, Answer, RoundAnswers, Refreshed, clear_snapshot_and_watches,
  abandon_refresh, leave_guard, choose, records_chosen, records_of,
}
use remmina_krunner.Catalog.Watches.{IsWatched, IsFor, noticed-IsFor}
use remmina_krunner.Catalog.Refresh.{IsGood, after_load-IsGood}

module _ (is_absolute_path : Text → Bool) (clean_path : Text → Text)
    (from : Text → RoundAnswers → Type 0) where
  -- What holds between two calls: no two profiles share an id, and a clean snapshot goes with
  -- a selected installation, is watched, and was loaded while it was.
  pub record IsConsistent (c : ProfileCatalog) : Type 0 where
    pub unique : HasUniqueIds c.records
    pub selected : c.has_clean_snapshot ≡ true → c.has_selected_instance ≡ true
    pub watched : c.has_clean_snapshot ≡ true → IsWatched is_absolute_path clean_path from c

  -- What `records` leaves: the installation is selected, a list is the one kept, without doubled
  -- ids, and either the snapshot is clean or the next call refreshes it.
  pub record Leaves (instance' : RemminaInstance) (w : Option CatalogResult × ProfileCatalog)
      : Type 0 where
    pub consistent : IsConsistent w.1
    pub selected_id : w.1.selected_instance_id ≡ instance'.id
    pub answered : (l : List ProfileRecord) → w.0 ≡ some (found l) → l ≡ w.1.records
    pub settled :
        ((w.1.has_clean_snapshot ≡ true) × (w.1.dirty ≡ false))
        ⊎ ((w.1.has_clean_snapshot ≡ false) × (w.1.dirty ≡ true))

  leave_guard-Leaves :
      (instance' : RemminaInstance) (r : Refreshed)
      → IsGood is_absolute_path clean_path from instance' r
      → Leaves instance' (leave_guard r)
  unfolding leave_guard
  leave_guard-Leaves instance' r g = elim (Bool-cases r.committed) [
    | inl e ↦ simp e (record {
      consistent = record {
        unique = g.kept.unique;
        selected = λ _. g.kept.selected;
        watched = λ _. g.watched e;
      };
      selected_id = g.kept.selected_id;
      answered = g.answered;
      settled = inl (g.clean e);
    })
    | inr e ↦ simp e (abandoned r g)
  ]
    where
      abandoned :
          (r : Refreshed)
          → IsGood is_absolute_path clean_path from instance' r
          → Leaves instance' (r.result, abandon_refresh r.catalog)
      abandoned r g =
          unfold abandon_refresh in
          record {
            consistent = record { unique = g.kept.unique; selected = λ z. cc; watched = λ z. cc };
            selected_id = g.kept.selected_id;
            answered = g.answered;
            settled = inr (refl, refl);
          }

  -- The choice of an installation.
  record IsChosen (instance' : RemminaInstance) (c : ProfileCatalog) : Type 0 where
    consistent : IsConsistent c
    for : IsFor instance' c

  choose-IsChosen :
      (instance' : RemminaInstance) (c : ProfileCatalog)
      → IsConsistent c
      → IsChosen instance' (choose instance' c)
  unfolding choose clear_snapshot_and_watches
  choose-IsChosen instance' c h =
      if_split (IsChosen instance') (not c.has_selected_instance) _ _
        (λ e. record {
          consistent = record {
            unique = h.unique;
            selected = λ _. refl;
            watched = λ k. cc (h.selected k, e);
          };
          for = record { unique = h.unique; selected = refl; selected_id = refl };
        })
        λ e.
          if_split (IsChosen instance') (not (equal c.selected_instance_id instance'.id)) _ _
            (λ _. record {
              consistent = record { unique = tt; selected = λ _. refl; watched = λ k. cc };
              for = record { unique = tt; selected = refl; selected_id = refl };
            })
            λ k. record {
              consistent = h;
              for = record {
                unique = h.unique;
                selected = ground arith;
                selected_id = (equal_iff _ _).0 (ground arith);
              };
            }

  pub records_of-Leaves :
      (instance' : RemminaInstance) (load : Answer RepositoryLoadResult)
      (first second : RoundAnswers) (c : ProfileCatalog)
      → from instance'.id first
      → from instance'.id second
      → IsConsistent c
      → Leaves instance' (records_of is_absolute_path clean_path instance' load first second c)
  unfolding records_of records_chosen
  records_of-Leaves instance' load first second c f g h =
      chosen (choose instance' c) (choose-IsChosen instance' c h)
    where
      chosen :
          (c : ProfileCatalog)
          → IsChosen instance' c
          → Leaves instance'
              (records_chosen is_absolute_path clean_path instance' load first second c)
      chosen c k =
          if_split (Leaves instance') (c.has_clean_snapshot && c.session_active && not c.dirty) _ _
            (λ e. record {
              consistent = k.consistent;
              selected_id = k.for.selected_id;
              answered = λ l z. cc;
              settled = inl (ground arith, ground arith);
            })
            (λ _. leave_guard-Leaves instance' _ (
              after_load-IsGood is_absolute_path clean_path from instance' load.reply _ _
                (f, (g, tt))
                (noticed-IsFor is_absolute_path clean_path instance' load.changes _ (record {
                  unique = k.for.unique;
                  selected = k.for.selected;
                  selected_id = k.for.selected_id;
                }))))
