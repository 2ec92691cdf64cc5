-- ===== src/ProfileWatcher/Calls.antt =====
-- What is watched and which callback runs after the calls of the watcher.
use remmina_krunner.Base.{
  Text, contains, contains_iff, In-append, List, [], ◌∷◌, ◌++◌, Option, none, some, is_empty,
  if◌then◌else◌, Bool, true, false, not, ◌≡◌, ◌≢◌, ◌↔◌, ◌⊎◌, ℕ, ==_iff, In, inl, inr, refl, ap, ◌∙◌,
  arith, map, subst, Bool-cases, All,
}
use remmina_krunner.ProfileWatcher.{
  FileSystemWatcher, normalize_from, normalize, Watcher, clear, install, install_normalized, slot,
  emit, directory_changed, file_changed, replace_paths,
}

module _ (is_absolute_path : Text → Bool) (clean_path : Text → Text) where
  -- The list keeps a path or adds it behind.
  kept_or_added :
      (kept : List Text) (path x : Text)
      → In x (if contains kept path then kept else kept ++ (path ∷ [])) ↔ (In x kept ⊎ (path ≡ x))
  kept_or_added kept path x = elim (Bool-cases (contains kept path)) [
    | inl y ↦
        rw y
          (λ h. inl h, λ h. elim h [ inl k ↦ k | inr e ↦ rw e at ((contains_iff kept path).0 y) ])
    | inr n ↦ rw n (
      λ h. elim ((In-append x kept (path ∷ [])).0 h) [
        | inl k ↦ inl k
        | inr (inl e) ↦ inr e
        | inr (inr z) ↦ absurd z
      ],
      λ h. elim h [
        | inl k ↦ (In-append x kept (path ∷ [])).1 (inl k)
        | inr e ↦ (In-append x kept (path ∷ [])).1 (inr (inl e))
      ],
    )
  ]

  -- The paths that come out are the cleaned ones, and every given path is absolute.
  normalize_from-some :
      (kept paths out : List Text)
      → normalize_from is_absolute_path clean_path kept paths ≡ some out
      → ((x : Text) → In x out ↔ (In x kept ⊎ In x (map clean_path paths)))
        × All (λ p. (is_absolute_path p ≡ true) × (is_absolute_path (clean_path p) ≡ true)) paths
  unfolding normalize_from
  normalize_from-some kept [] out e =
      let same : kept ≡ out = cc in
      (λ x. rw (← same) (λ h. inl h, λ h. elim h [ inl k ↦ k | inr n ↦ absurd n ]), tt)
  normalize_from-some kept (path ∷ paths) out e =
      let next = if contains kept (clean_path path) then kept else kept ++ (clean_path path ∷ []) in
      let (ins, abs) = normalize_from-some next paths out (ground arith) in
      (
        λ x. join x (kept_or_added kept (clean_path path) x) (ins x),
        ((ground arith, ground arith), abs),
      )
    where
      join :
          (x : Text) {P : Type 0}
          → P ↔ (In x kept ⊎ (clean_path path ≡ x))
          → In x out ↔ (P ⊎ In x (map clean_path paths))
          → In x out ↔ (In x kept ⊎ In x (map clean_path (path ∷ paths)))
      join x k o = (
        λ h. elim (o.0 h) [
          | inl a ↦ elim (k.0 a) [ inl b ↦ inl b | inr b ↦ inr (inl b) ]
          | inr a ↦ inr (inr a)
        ],
        λ h. elim h [
          | inl b ↦ o.1 (inl (k.1 (inl b)))
          | inr (inl b) ↦ o.1 (inl (k.1 (inr b)))
          | inr (inr a) ↦ o.1 (inr a)
        ],
      )

  -- Paths that pass the checks.
  abbrev pub AreAbsolute : List Text → Type 0
  AreAbsolute = All λ p. (is_absolute_path p ≡ true) × (is_absolute_path (clean_path p) ≡ true)

module _ (system : FileSystemWatcher) (Callback : Type 0) where
  open system use {State, files, directories, add_paths, remove_paths, removed, added}

  -- Nothing is watched, and no signal runs a callback.
  pub record IsIdle (w : Watcher system Callback) : Type 0 where
    pub no_files : files w.watcher ≡ []
    pub no_directories : directories w.watcher ≡ []
    pub no_callback : w.callback ≡ none
    pub directory_silent : directory_changed system Callback w ≡ none
    pub file_silent : file_changed system Callback w ≡ none

  append_empty : (a b : List Text) → is_empty (a ++ b) ≡ true → (a ≡ []) × (b ≡ [])
  append_empty [] b h = (refl, empty b h)
    where
      empty : (l : List Text) → is_empty l ≡ true → l ≡ []
      empty [] h = refl
      empty (x ∷ l) h = cc
  append_empty (x ∷ a) b h = cc

  cleared :
      (s : State)
      → let watched = files s ++ directories s in
        let s' = if not (is_empty watched) then remove_paths watched s else s in
        (files s' ≡ []) × (directories s' ≡ [])
  cleared s = elim (Bool-cases (is_empty (files s ++ directories s))) [
    | inl y ↦ rw y (append_empty (files s) (directories s) y)
    | inr n ↦ rw n (removed s)
  ]

  clear-IsIdle : (w : Watcher system Callback) → IsIdle (clear system Callback w)
  unfolding clear directory_changed file_changed
  clear-IsIdle w = record {
    no_files = (cleared w.watcher).0;
    no_directories = (cleared w.watcher).1;
    no_callback = refl;
    directory_silent = refl;
    file_silent = refl;
  }

  same_generation :
      (g : ℕ) (w : Watcher system Callback)
      → w.generation ≡ g
      → slot system Callback g w ≡ w.callback
  unfolding slot
  same_generation g w e = rw (e, (==_iff g g).1 refl)

  connected :
      (w : Watcher system Callback) (g : ℕ) (c : Callback)
      → w.generation ≡ g
      → w.directory_connection ≡ some g
      → w.file_connection ≡ some g
      → w.callback ≡ some c
      → (directory_changed system Callback w ≡ some c) × (file_changed system Callback w ≡ some c)
  unfolding directory_changed file_changed
  connected w g c e d f h = (
    ap (λ o. emit system Callback o w) d ∙ same_generation g w e ∙ h,
    ap (λ o. emit system Callback o w) f ∙ same_generation g w e ∙ h,
  )

  module _ (is_absolute_path : Text → Bool) (clean_path : Text → Text) where
    -- The ends of `replacePaths`: nothing is watched and no callback is installed, or the cleaned
    -- paths are watched, all of them absolute, and every signal runs the callback.
    pub data Replaces (paths : List Text) (callback : Option Callback)
        (res : Bool × Watcher system Callback) : Type 0 where
      refused : res.0 ≡ false → IsIdle res.1 → Replaces paths callback res
      installed :
          (c : Callback)
          → callback ≡ some c
          → paths ≢ []
          → res.0 ≡ true
          → AreAbsolute is_absolute_path clean_path paths
          → ((path : Text)
              → In path (files res.1.watcher ++ directories res.1.watcher)
                ↔ In path (map clean_path paths))
          → directory_changed system Callback res.1 ≡ some c
          → file_changed system Callback res.1 ≡ some c
          → Replaces paths callback res

    install-Replaces :
        (paths normalized : List Text) (c : Callback) (w : Watcher system Callback)
        → IsIdle w
        → paths ≢ []
        → AreAbsolute is_absolute_path clean_path paths
        → ((x : Text) → In x normalized ↔ In x (map clean_path paths))
        → Replaces paths (some c) (install system Callback normalized c w)
    unfolding install
    install-Replaces paths normalized c w v n a ins = go (add_paths normalized w.watcher) refl
      where
        watches :
            (s : State)
            → add_paths normalized w.watcher ≡ ([], s)
            → (path : Text) → In path (files s ++ directories s) ↔ In path (map clean_path paths)
        watches s e path =
            let now =
              subst (λ r. In path (files r.1 ++ directories r.1) ↔ In path normalized) e
                (added normalized w.watcher v.no_files v.no_directories (ap (λ r. r.0) e) path) in
            (λ h. (ins path).0 (now.0 h), λ h. now.1 ((ins path).1 h))

        go :
            (r : List Text × State)
            → add_paths normalized w.watcher ≡ r
            → Replaces paths (some c) (
                if not (is_empty r.0)
                then (false, clear system Callback (record w { watcher = r.1 }))
                else (
                  true,
                  record w {
                    watcher = r.1;
                    callback = some c;
                    directory_connection = some w.generation;
                    file_connection = some w.generation;
                  },
                ))
        go (p ∷ ps, s) e = refused refl (clear-IsIdle (record w { watcher = s }))
        go ([], s) e =
            let armed : Watcher system Callback = record w {
              watcher = s;
              callback = some c;
              directory_connection = some w.generation;
              file_connection = some w.generation;
            } in
            let (d, f) = connected armed w.generation c refl refl refl refl in
            installed c refl n refl a (λ path. watches s e path) d f

    normalized-Replaces :
        (paths : List Text) (c : Callback) (w : Watcher system Callback) (n : Option (List Text))
        → IsIdle w
        → paths ≢ []
        → normalize is_absolute_path clean_path paths ≡ n
        → Replaces paths (some c) (install_normalized system Callback n c w)
    unfolding install_normalized normalize
    normalized-Replaces paths c w none v n e = refused refl v
    normalized-Replaces paths c w (some []) v n e = refused refl v
    normalized-Replaces paths c w (some (x ∷ xs)) v n e =
        let (ins, abs) = normalize_from-some is_absolute_path clean_path [] paths (x ∷ xs) e in
        install-Replaces paths (x ∷ xs) c w v n abs
          (λ y. (λ h. elim ((ins y).0 h) [ inl z ↦ absurd z | inr k ↦ k ], λ h. (ins y).1 (inr h)))

    -- Every call of `replacePaths` ends in one of two ways: it reports false, nothing is watched any
    -- more and no signal runs a callback; or it reports true, the given paths are absolute, exactly
    -- the cleaned ones are watched, and a signal of either kind runs the given callback.
    pub replace_paths-Replaces :
        (paths : List Text) (callback : Option Callback) (w : Watcher system Callback)
        → Replaces paths callback
            (replace_paths system Callback is_absolute_path clean_path paths callback w)
    unfolding replace_paths
    replace_paths-Replaces paths none w = refused refl (clear-IsIdle w)
    replace_paths-Replaces [] (some c) w = refused refl (clear-IsIdle w)
    replace_paths-Replaces (p ∷ ps) (some c) w =
        normalized-Replaces (p ∷ ps) c (clear system Callback w)
          (normalize is_absolute_path clean_path (p ∷ ps)) (clear-IsIdle w) (λ z. cc) refl
