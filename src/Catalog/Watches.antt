-- ===== src/Catalog/Watches.antt =====
-- The installation of the watches, and what holds once they are in place.
use remmina_krunner.Base.{ℕ, ◌+◌, Text, List, Option, none, some, Bool, true, false, ◌≡◌, refl}
use remmina_krunner.Instance.{RemminaInstance}
use remmina_krunner.Repository.{ProfileSnapshot, loaded}
use remmina_krunner.Snapshot.{watch_paths, sanitize_records}
use remmina_krunner.Snapshot.Covers.{Covers}
use remmina_krunner.Snapshot.Unique.{HasUniqueIds}
use remmina_krunner.Catalog.{
  ProfileCatalog, Answer, RoundAnswers, mark_dirty, noticed, install_paths, install_watches,
}

pub noticed_keeps :
    (P : ProfileCatalog → Type 0) (b : Bool) (c : ProfileCatalog)
    → P c
    → P (mark_dirty c)
    → P (noticed b c)
unfolding noticed
noticed_keeps P false c h k = h
noticed_keeps P true c h k = go c.callback_lifetime
  where
    go : (o : Option ℕ) → P (elim o [ none ↦ c | some current ↦ mark_dirty c ])
    go none = h
    go (some n) = k

-- With a callback in place a change during a call does not go unnoticed.
pub noticed_quiet :
    (b : Bool) (c : ProfileCatalog) (lifetime : ℕ)
    → c.callback_lifetime ≡ some lifetime
    → (noticed b c).dirty ≡ false
    → (b ≡ false) × (c.dirty ≡ false)
unfolding noticed mark_dirty
noticed_quiet false c lifetime e d = (refl, d)
noticed_quiet true c lifetime e d = absurd (cc (rw e at d))

module _ (is_absolute_path : Text → Bool) (clean_path : Text → Text) where
  -- The watcher was asked to watch what belongs to a snapshot, and a callback is in place.
  pub record IsArmed (candidate : ProfileSnapshot) (c : ProfileCatalog) : Type 0 where
    pub lifetime : ℕ
    pub current : c.callback_lifetime ≡ some lifetime
    pub paths :
        watch_paths is_absolute_path clean_path candidate.directory candidate.directory_fingerprint
          candidate.fingerprint
        ≡ some c.watched

  -- The clean snapshot is what the second `load` of a round gave: in that round the watches for its
  -- paths were put in place before, they are the ones in place now, and no change was reported during
  -- either call. The round is one of those `from` which a refresh for the selected installation had
  -- its answers.
  pub record IsWatched (from : Text → RoundAnswers → Type 0) (c : ProfileCatalog) : Type 0 where
    pub round : RoundAnswers
    pub snapshot : ProfileSnapshot
    pub asked : from c.selected_instance_id round
    pub placed : round.install.reply ≡ some true
    pub quiet : (round.install.changes ≡ false) × (round.verify.changes ≡ false)
    pub loaded_behind : round.verify.reply ≡ some (loaded snapshot)
    pub armed : IsArmed snapshot c
    pub covers : Covers is_absolute_path clean_path snapshot c.watched
    pub directory : c.clean_directory ≡ snapshot.directory
    pub fingerprint : c.clean_directory_fingerprint ≡ snapshot.directory_fingerprint
    pub profiles : c.records ≡ (sanitize_records snapshot).profiles

module _ (instance' : RemminaInstance) where
  -- What holds all along a refresh for an installation.
  pub record IsFor (c : ProfileCatalog) : Type 0 where
    pub unique : HasUniqueIds c.records
    pub selected : c.has_selected_instance ≡ true
    pub selected_id : c.selected_instance_id ≡ instance'.id

module _ (is_absolute_path : Text → Bool) (clean_path : Text → Text)
    (instance' : RemminaInstance) where
  -- An installation of watches that succeeds, fails or throws.
  abbrev pub IsInstalled : ProfileSnapshot → Answer Bool → Option Bool × ProfileCatalog → Type 0
  IsInstalled candidate answer (none, c) = IsFor instance' c
  IsInstalled candidate answer (some false, c) = IsFor instance' c
  IsInstalled candidate answer (some true, c) =
      IsFor instance' c
      × IsArmed is_absolute_path clean_path candidate c
      × (answer.reply ≡ some true)
      × (c.dirty ≡ false → answer.changes ≡ false)

  dirty-IsFor : (c : ProfileCatalog) → IsFor instance' c → IsFor instance' (mark_dirty c)
  unfolding mark_dirty
  dirty-IsFor c h = record { unique = h.unique; selected = h.selected; selected_id = h.selected_id }

  dirty-IsArmed :
      (candidate : ProfileSnapshot) (c : ProfileCatalog)
      → IsArmed is_absolute_path clean_path candidate c
      → IsArmed is_absolute_path clean_path candidate (mark_dirty c)
  unfolding mark_dirty
  dirty-IsArmed candidate c a = record {
    lifetime = a.lifetime;
    current = a.current;
    paths = a.paths;
  }

  pub noticed-IsFor :
      (b : Bool) (c : ProfileCatalog) → IsFor instance' c → IsFor instance' (noticed b c)
  noticed-IsFor b c h = noticed_keeps (IsFor instance') b c h (dirty-IsFor c h)

  pub noticed-IsArmed :
      (candidate : ProfileSnapshot) (b : Bool) (c : ProfileCatalog)
      → IsArmed is_absolute_path clean_path candidate c
      → IsArmed is_absolute_path clean_path candidate (noticed b c)
  noticed-IsArmed candidate b c a =
      noticed_keeps (IsArmed is_absolute_path clean_path candidate) b c a
        (dirty-IsArmed candidate c a)

  pub install_watches-IsInstalled :
      (candidate : ProfileSnapshot) (answer : Answer Bool) (c : ProfileCatalog)
      → IsFor instance' c
      → IsInstalled candidate answer
          (install_watches is_absolute_path clean_path candidate answer c)
  unfolding install_watches
  install_watches-IsInstalled candidate answer c h = go _ refl
    where
      armed : List Text → ProfileCatalog
      armed paths = noticed answer.changes (record c {
        callback_lifetime = some c.lifetimes;
        lifetimes = c.lifetimes + 1;
        dirty = false;
        watched = paths;
      })

      kept : (paths : List Text) → IsFor instance' (armed paths)
      kept paths =
          noticed-IsFor answer.changes _
            (record { unique = h.unique; selected = h.selected; selected_id = h.selected_id })

      replied :
          (paths : List Text)
          → watch_paths is_absolute_path clean_path candidate.directory
              candidate.directory_fingerprint candidate.fingerprint
            ≡ some paths
          → (o : Option Bool) → answer.reply ≡ o
          → IsInstalled candidate answer (elim o [
            | none ↦ (none, armed paths)
            | some true ↦ (some true, armed paths)
            | some false ↦
                (some false, record (armed paths) { callback_lifetime = none; dirty = true })
          ])
      replied paths e none r = kept paths
      replied paths e (some true) r = (
        kept paths,
        noticed-IsArmed candidate answer.changes _
            (record { lifetime = c.lifetimes; current = refl; paths = e }),
        r,
        λ d. (noticed_quiet answer.changes _ c.lifetimes refl d).0,
      )
      replied paths e (some false) r = record {
        unique = (kept paths).unique;
        selected = (kept paths).selected;
        selected_id = (kept paths).selected_id;
      }

      go :
          (o : Option (List Text))
          → watch_paths is_absolute_path clean_path candidate.directory
              candidate.directory_fingerprint candidate.fingerprint
            ≡ o
          → IsInstalled candidate answer (install_paths is_absolute_path clean_path o answer c)
      go none e =
          unfold install_paths in
          record { unique = h.unique; selected = h.selected; selected_id = h.selected_id }
      go (some paths) e = unfold install_paths in replied paths e answer.reply refl
