-- ===== src/Catalog/Refresh.antt =====
-- What a refresh leaves, on every path through it.
use remmina_krunner.Base.{
  Text, List, [], ◌∷◌, Option, none, some, Bool, true, false, ◌≡◌, refl, if_split, subst, sym, All,
}
use remmina_krunner.Instance.{RemminaInstance}
use remmina_krunner.Profile.{ProfileRecord}
use remmina_krunner.Repository.{
  ProfileSnapshot, ProfileRepositoryError, RepositoryLoadResult, loaded, not_loaded,
}
use remmina_krunner.Snapshot.{equivalent_snapshot, sanitize_records, watch_paths}
use remmina_krunner.Snapshot.Same.{equivalent_snapshot_same}
use remmina_krunner.Snapshot.Covers.{watch_paths-Covers}
use remmina_krunner.Snapshot.Unique.{HasUniqueIds, sanitize_records-HasUniqueIds}
use remmina_krunner.Catalog.{
  ProfileCatalog, found, RoundAnswers, Refreshed, clear_snapshot_and_watches,
  install_clean_snapshot, gives_up, repository_error, stop, compare_verified, after_verify,
  after_install, verify_rounds, after_load,
}
use remmina_krunner.Catalog.Watches.{
  IsArmed, IsWatched, IsFor, IsInstalled, noticed-IsFor, noticed-IsArmed, noticed_quiet,
  install_watches-IsInstalled,
}

module _ (is_absolute_path : Text → Bool) (clean_path : Text → Text)
    (from : Text → RoundAnswers → Type 0) (instance' : RemminaInstance) where
  -- How a refresh may end: a list is the one that the catalog keeps, and a commit is watched.
  pub record IsGood (r : Refreshed) : Type 0 where
    pub kept : IsFor instance' r.catalog
    pub answered : (l : List ProfileRecord) → r.result ≡ some (found l) → l ≡ r.catalog.records
    pub watched : r.committed ≡ true → IsWatched is_absolute_path clean_path from r.catalog
    pub clean :
        r.committed ≡ true → (r.catalog.has_clean_snapshot ≡ true) × (r.catalog.dirty ≡ false)

  gives_up-IsGood : (c : ProfileCatalog) → IsFor instance' c → IsGood (gives_up none c)
  gives_up-IsGood c h = record {
    kept = h;
    answered = λ l e. cc;
    watched = λ e. cc;
    clean = λ e. cc;
  }

  stop-IsGood : (c : ProfileCatalog) → IsFor instance' c → IsGood (stop c)
  unfolding stop
  stop-IsGood c h = record {
    kept = record { unique = h.unique; selected = h.selected; selected_id = h.selected_id };
    answered = λ l e. cc;
    watched = λ e. cc;
    clean = λ e. cc;
  }

  repository_error-IsGood :
      (error : ProfileRepositoryError) (c : ProfileCatalog)
      → IsGood (repository_error error instance' c)
  unfolding repository_error clear_snapshot_and_watches
  repository_error-IsGood error c = record {
    kept = record { unique = tt; selected = refl; selected_id = refl };
    answered = λ l e. cc;
    watched = λ e. cc;
    clean = λ e. cc;
  }

  -- The next round is good for every snapshot without doubled ids.
  abbrev Continues : (ProfileSnapshot → ProfileCatalog → Refreshed) → Type 0
  Continues again =
      (v : ProfileSnapshot) (c : ProfileCatalog)
      → HasUniqueIds v.profiles
      → IsFor instance' c
      → IsGood (again v c)

  -- The second `load` of a round gave the snapshot, behind the installation of the watches; what
  -- changed meanwhile has left its mark.
  record IsBehind (round : RoundAnswers) (snapshot : ProfileSnapshot) (c : ProfileCatalog)
      : Type 0 where
    asked : from instance'.id round
    placed : round.install.reply ≡ some true
    loaded_behind : round.verify.reply ≡ some (loaded snapshot)
    quiet : c.dirty ≡ false → (round.install.changes ≡ false) × (round.verify.changes ≡ false)

  compare_verified-IsGood :
      (candidate snapshot : ProfileSnapshot) (round : RoundAnswers)
      (again : ProfileSnapshot → ProfileCatalog → Refreshed) (c : ProfileCatalog)
      → Continues again
      → IsFor instance' c
      → IsArmed is_absolute_path clean_path candidate c
      → IsBehind round snapshot c
      → c.records ≡ (sanitize_records snapshot).profiles
      → IsGood (
          compare_verified is_absolute_path clean_path candidate
            (sanitize_records snapshot)
            again
            c)
  unfolding compare_verified
  compare_verified-IsGood candidate snapshot round again c next h a b e =
      if_split IsGood c.dirty _ _ (λ _. stop-IsGood c h)
        λ d.
          if_split IsGood (equivalent_snapshot candidate (sanitize_records snapshot)) _ _ (commit d)
            (λ _. next (sanitize_records snapshot) c (sanitize_records-HasUniqueIds snapshot) h)
    where
      paths_of :
          (candidate.directory ≡ snapshot.directory)
            × (candidate.directory_fingerprint ≡ snapshot.directory_fingerprint)
            × (candidate.fingerprint ≡ snapshot.fingerprint)
          → watch_paths is_absolute_path clean_path snapshot.directory
              snapshot.directory_fingerprint snapshot.fingerprint
            ≡ some c.watched
      paths_of (d, f, g) = rw (← d, ← f, ← g) a.paths

      commit :
          c.dirty ≡ false
          → equivalent_snapshot candidate (sanitize_records snapshot) ≡ true
          → IsGood (record {
            result = some (found c.records);
            committed = true;
            catalog = install_clean_snapshot (sanitize_records snapshot) c;
          })
      commit d s =
          unfold install_clean_snapshot sanitize_records in
          record {
            kept = record { unique = h.unique; selected = h.selected; selected_id = h.selected_id };
            answered = λ l z. cc;
            watched = λ _. record {
              round = round;
              snapshot = snapshot;
              asked = subst (λ id. from id round) (sym h.selected_id) b.asked;
              placed = b.placed;
              quiet = b.quiet d;
              loaded_behind = b.loaded_behind;
              covers =
                  watch_paths-Covers is_absolute_path clean_path snapshot c.watched
                    (paths_of (equivalent_snapshot_same candidate (sanitize_records snapshot) s));
              armed = record {
                lifetime = a.lifetime;
                current = a.current;
                paths = paths_of (equivalent_snapshot_same candidate (sanitize_records snapshot) s);
              };
              directory = refl;
              fingerprint = refl;
              profiles = e;
            };
            clean = λ _. (refl, refl);
          }

  after_verify-IsGood :
      (candidate : ProfileSnapshot) (round : RoundAnswers) (reply : Option RepositoryLoadResult)
      (again : ProfileSnapshot → ProfileCatalog → Refreshed) (c : ProfileCatalog)
      → round.verify.reply ≡ reply
      → Continues again
      → IsFor instance' c
      → IsArmed is_absolute_path clean_path candidate c
      → ((snapshot : ProfileSnapshot)
          → round.verify.reply ≡ some (loaded snapshot)
          → IsBehind round snapshot c)
      → IsGood (after_verify is_absolute_path clean_path instance' candidate reply again c)
  unfolding after_verify
  after_verify-IsGood candidate round none again c r next h a b = gives_up-IsGood c h
  after_verify-IsGood candidate round (some (not_loaded error)) again c r next h a b =
      repository_error-IsGood error c
  after_verify-IsGood candidate round (some (loaded snapshot)) again c r next h a b =
      let behind = b snapshot r in
      compare_verified-IsGood candidate snapshot round again _ next
        (record {
          unique = sanitize_records-HasUniqueIds snapshot;
          selected = h.selected;
          selected_id = h.selected_id;
        })
        (record { lifetime = a.lifetime; current = a.current; paths = a.paths })
        (record {
          asked = behind.asked;
          placed = behind.placed;
          loaded_behind = behind.loaded_behind;
          quiet = behind.quiet;
        })
        refl

  after_install-IsGood :
      (candidate : ProfileSnapshot) (round : RoundAnswers)
      (again : ProfileSnapshot → ProfileCatalog → Refreshed) (w : Option Bool × ProfileCatalog)
      → from instance'.id round
      → Continues again
      → IsInstalled is_absolute_path clean_path instance' candidate round.install w
      → IsGood (after_install is_absolute_path clean_path instance' candidate round.verify again w)
  unfolding after_install
  after_install-IsGood candidate round again (none, c) f next h = gives_up-IsGood c h
  after_install-IsGood candidate round again (some false, c) f next h = record {
    kept = h;
    answered = λ l e. cc;
    watched = λ e. cc;
    clean = λ e. cc;
  }
  after_install-IsGood candidate round again (some true, c) f next (h, a, placed, quiet) =
      let changes = round.verify.changes in
      after_verify-IsGood candidate round round.verify.reply again _ refl next
        (noticed-IsFor is_absolute_path clean_path instance' changes c h)
        (noticed-IsArmed is_absolute_path clean_path instance' candidate changes c a)
        (λ snapshot r. record {
          asked = f;
          placed = placed;
          loaded_behind = r;
          quiet = λ d.
              let (unchanged, before) = noticed_quiet changes c a.lifetime a.current d in
              (quiet before, unchanged);
        })

  verify_rounds-IsGood :
      (rounds : List RoundAnswers) (candidate : ProfileSnapshot) (c : ProfileCatalog)
      → All (from instance'.id) rounds
      → HasUniqueIds candidate.profiles
      → IsFor instance' c
      → IsGood (verify_rounds is_absolute_path clean_path instance' rounds candidate c)
  unfolding verify_rounds
  verify_rounds-IsGood [] candidate c f u h = stop-IsGood c h
  verify_rounds-IsGood (round ∷ rounds) candidate c f u h =
      after_install-IsGood candidate round _ _ f.0
        (λ v c' u' h'. verify_rounds-IsGood rounds v c' f.1 u' h')
        (install_watches-IsInstalled is_absolute_path clean_path instance' candidate round.install _
          (record { unique = u; selected = h.selected; selected_id = h.selected_id }))

  pub after_load-IsGood :
      (reply : Option RepositoryLoadResult) (rounds : List RoundAnswers) (c : ProfileCatalog)
      → All (from instance'.id) rounds
      → IsFor instance' c
      → IsGood (after_load is_absolute_path clean_path instance' reply rounds c)
  unfolding after_load
  after_load-IsGood none rounds c f h = gives_up-IsGood c h
  after_load-IsGood (some (not_loaded error)) rounds c f h = repository_error-IsGood error c
  after_load-IsGood (some (loaded snapshot)) rounds c f h =
      verify_rounds-IsGood rounds _ c f (sanitize_records-HasUniqueIds snapshot) h
