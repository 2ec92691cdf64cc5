-- ===== src/ProfileWatcher.antt =====
-- src/platform/qt_profile_watcher.cpp: one callback for the changes of a set of paths.
-- QFileSystemWatcher and the path functions of QDir are arguments; a callback is a value of any
-- type, and the empty std::function is `none`.
pub mod Calls
pub mod Stale
use remmina_krunner.Base.{
  Text, contains, List, [], ◌∷◌, ◌++◌, Option, none, some, is_empty, if◌then◌else◌, Bool, true,
  false, not, ◌&&◌, ◌||◌, ◌≡◌, ◌↔◌, ℕ, ◌+◌, ◌%◌, ◌==◌, In,
}

-- Paths that are all removed are no longer watched, and after an addition that reports no failed
-- path exactly the added ones are, where none was before.
pub record FileSystemWatcher : Type 1 where
  pub State : Type 0
  pub files : State → List Text
  pub directories : State → List Text
  pub add_paths : List Text → State → List Text × State
  pub remove_paths : List Text → State → State
  pub removed :
      (s : State)
      → (files (remove_paths (files s ++ directories s) s) ≡ [])
        × (directories (remove_paths (files s ++ directories s) s) ≡ [])
  pub added :
      (paths : List Text) (s : State)
      → files s ≡ []
      → directories s ≡ []
      → (add_paths paths s).0 ≡ []
      → (path : Text)
      → In path (files (add_paths paths s).1 ++ directories (add_paths paths s).1) ↔ In path paths

-- `quint64`
abbrev pub generations : ℕ
generations = 18446744073709551616

module _ (is_absolute_path : Text → Bool) (clean_path : Text → Text) where
  -- The loop over the paths, with the paths kept so far; `none` is its `return false`.
  unfoldable pub normalize_from : List Text → List Text → Option (List Text)
  normalize_from kept [] = some kept
  normalize_from kept (path ∷ paths) =
      let normalized = clean_path path in
      let rest =
        normalize_from (if contains kept normalized then kept else kept ++ (normalized ∷ []))
          paths in
      if is_empty path || not (is_absolute_path path)
      then none
      else if is_empty normalized || not (is_absolute_path normalized)
      then none
      else rest

  unfoldable pub normalize : List Text → Option (List Text)
  unfolding normalize_from
  normalize paths = normalize_from [] paths

-- A connection holds the generation that its slot has captured.
pub record QtProfileWatcher (State Callback : Type 0) : Type 0 where
  pub watcher : State
  pub callback : Option Callback
  pub directory_connection : Option ℕ
  pub file_connection : Option ℕ
  pub generation : ℕ

module _ (system : FileSystemWatcher) (Callback : Type 0) where
  open system use {State, files, directories, add_paths, remove_paths}

  abbrev pub Watcher : Type 0
  Watcher = QtProfileWatcher State Callback

  unfoldable pub clear : Watcher → Watcher
  clear w =
      let watched = files w.watcher ++ directories w.watcher in
      record {
        watcher = if not (is_empty watched) then remove_paths watched w.watcher else w.watcher;
        callback = none;
        directory_connection = none;
        file_connection = none;
        generation = (w.generation + 1) % generations;
      }

  -- The end of `replacePaths`, behind its checks of the paths.
  unfoldable pub install : List Text → Callback → Watcher → Bool × Watcher
  unfolding clear
  install paths callback w =
      let (failed_paths, s) = add_paths paths w.watcher in
      if not (is_empty failed_paths) then (false, clear (record w { watcher = s })) else (
        true,
        record w {
          watcher = s;
          callback = some callback;
          directory_connection = some w.generation;
          file_connection = some w.generation;
        },
      )

  unfoldable pub install_normalized : Option (List Text) → Callback → Watcher → Bool × Watcher
  unfolding install
  install_normalized none callback w = (false, w)
  install_normalized (some []) callback w = (false, w)
  install_normalized (some (path ∷ paths)) callback w = install (path ∷ paths) callback w

  -- The slot of a connection: the callback that it runs.
  unfoldable pub slot : ℕ → Watcher → Option Callback
  slot installed w = if installed == w.generation then w.callback else none

  unfoldable pub emit : Option ℕ → Watcher → Option Callback
  unfolding slot
  emit none w = none
  emit (some installed) w = slot installed w

  unfoldable pub directory_changed : Watcher → Option Callback
  unfolding emit
  directory_changed w = emit w.directory_connection w

  unfoldable pub file_changed : Watcher → Option Callback
  unfolding emit
  file_changed w = emit w.file_connection w

  module _ (is_absolute_path : Text → Bool) (clean_path : Text → Text) where
    unfoldable pub replace_paths : List Text → Option Callback → Watcher → Bool × Watcher
    unfolding clear normalize install_normalized
    replace_paths paths none w = (false, clear w)
    replace_paths [] (some callback) w = (false, clear w)
    replace_paths (path ∷ paths) (some callback) w =
        install_normalized (normalize is_absolute_path clean_path (path ∷ paths)) callback (clear w)
