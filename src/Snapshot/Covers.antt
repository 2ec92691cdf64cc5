-- ===== src/Snapshot/Covers.antt =====
-- Which paths are watched for a snapshot.
use remmina_krunner.Base.{
  Text, contains, contains_iff, List, [], ◌∷◌, ◌++◌, map, Option, Option-cases, none, some, Bool,
  Bool-cases, ◌≡◌, refl, arith, sym, subst, ◌⊎◌, inl, inr, In, In-append, All, All-map,
}
use remmina_krunner.Base.Sort.{In-sort, sort}
use remmina_krunner.Repository.{FileFingerprint, ProfileSnapshot}
use remmina_krunner.Snapshot.{
  path_before, clean_absolute_path, collect, join_paths, watch_files, watch_directory, watch_paths,
}

module _ (is_absolute_path : Text → Bool) (clean_path : Text → Text) where
  clean_absolute_path-clean :
      (path clean : Text)
      → clean_absolute_path is_absolute_path clean_path path ≡ some clean
      → clean_path path ≡ clean
  unfolding clean_absolute_path
  clean_absolute_path-clean path clean e = ground arith

  -- What the loop over some paths has seen and listed.
  record Collects (l seen paths seen' paths' : List Text) : Type 0 where
    found : All (λ p. In (clean_path p) seen') l
    kept : (x : Text) → In x seen → In x seen'
    listed : (x : Text) → In x seen' → In x seen ⊎ In x paths'
    grown : (x : Text) → In x paths → In x paths'

  Collects-old :
      (path clean : Text) (l seen paths seen' paths' : List Text)
      → clean_path path ≡ clean
      → In clean seen
      → Collects l seen paths seen' paths'
      → Collects (path ∷ l) seen paths seen' paths'
  Collects-old path clean l seen paths seen' paths' same i h = record {
    found = (subst (λ x. In x seen') (sym same) (h.kept clean i), h.found);
    kept = h.kept;
    listed = h.listed;
    grown = h.grown;
  }

  Collects-new :
      (path clean : Text) (l seen paths seen' paths' : List Text)
      → clean_path path ≡ clean
      → Collects l (clean ∷ seen) (clean ∷ paths) seen' paths'
      → Collects (path ∷ l) seen paths seen' paths'
  Collects-new path clean l seen paths seen' paths' same h = record {
    found = (subst (λ x. In x seen') (sym same) (h.kept clean (inl refl)), h.found);
    kept = λ x i. h.kept x (inr i);
    listed = λ x i. elim (h.listed x i) [
      | inl (inl k) ↦ inr (h.grown x (inl k))
      | inl (inr k) ↦ inl k
      | inr k ↦ inr k
    ];
    grown = λ x i. h.grown x (inr i);
  }

  collect-Collects :
      (l seen paths seen' paths' : List Text)
      → collect is_absolute_path clean_path l seen paths ≡ some (seen', paths')
      → Collects l seen paths seen' paths'
  unfolding collect
  collect-Collects [] seen paths seen' paths' e =
      let p : seen ≡ seen' = cc in
      let q : paths ≡ paths' = cc in
      rw (← p, ← q)
        (record { found = tt; kept = λ x i. i; listed = λ x i. inl i; grown = λ x i. i })
  collect-Collects (path ∷ l) seen paths seen' paths' e =
      elim (Option-cases (clean_absolute_path is_absolute_path clean_path path)) [
        | inl n ↦ absurd (cc (rw (collect, n) at e))
        | inr (clean, n) ↦
            let same = clean_absolute_path-clean path clean n in
            elim (Bool-cases (contains seen clean)) [
              | inl c ↦
                  Collects-old path clean l seen paths seen' paths' same
                    ((contains_iff seen clean).0 c)
                    (collect-Collects l seen paths seen' paths' (rw (collect, n, c) at e))
              | inr c ↦ Collects-new path clean l seen paths seen' paths' same (
                  collect-Collects l (clean ∷ seen) (clean ∷ paths) seen' paths'
                    (rw (collect, n, c) at e))
            ]
      ]

  -- The watched paths have the directory, the parents of the links that lead to it, and every file of
  -- the snapshot among them, all cleaned.
  pub record Covers (snapshot : ProfileSnapshot) (watched : List Text) : Type 0 where
    pub directory : In (clean_path snapshot.directory.host_path) watched
    pub parents :
        All (λ p. In (clean_path p) watched) snapshot.directory_fingerprint.symlink_parent_paths
    pub files : All (λ f. In (clean_path f.path) watched) snapshot.fingerprint

  All-paths :
      (P : Text → Type 0) (l : List FileFingerprint)
      → All P (map (λ f. f.path) l)
      → All (λ f. P f.path) l
  All-paths P [] h = tt
  All-paths P (f ∷ l) h = (h.0, All-paths P l h.1)

  -- All that was seen by both loops is in the list of the paths.
  joined :
      (clean_directory x : Text) (seen parents files seen' : List Text)
      → ((x : Text) → In x seen → In x (clean_directory ∷ []) ⊎ In x parents)
      → ((x : Text) → In x seen' → In x seen ⊎ In x files)
      → In x seen'
      → In x (clean_directory ∷ sort path_before parents ++ sort path_before files)
  joined d x seen parents files seen' p q i = elim (q x i) [
    | inr k ↦ inr ((In-append x _ _).1 (inr ((In-sort path_before x files).1 k)))
    | inl j ↦ elim (p x j) [
      | inl (inl e) ↦ inl e
      | inl (inr n) ↦ absurd n
      | inr k ↦ inr ((In-append x _ _).1 (inl ((In-sort path_before x parents).1 k)))
    ]
  ]

  watch_files-Covers :
      (snapshot : ProfileSnapshot) (clean_directory : Text) (watched : List Text)
      (o : Option (List Text × List Text))
      → clean_path snapshot.directory.host_path ≡ clean_directory
      → collect is_absolute_path clean_path snapshot.directory_fingerprint.symlink_parent_paths
          (clean_directory ∷ [])
          []
        ≡ o
      → watch_files is_absolute_path clean_path clean_directory snapshot.fingerprint o
        ≡ some watched
      → Covers snapshot watched
  unfolding watch_files join_paths
  watch_files-Covers snapshot clean_directory watched none d c e = absurd (cc)
  watch_files-Covers snapshot clean_directory watched (some (seen, parents)) d c e =
      elim (Option-cases
        (collect is_absolute_path clean_path (map (λ f. f.path) snapshot.fingerprint) seen [])) [
          | inl n ↦ absurd (cc (rw n at e))
          | inr ((seen', files), n) ↦
              covered seen' files (collect-Collects _ _ _ _ _ n) (cc (rw n at e))
        ]
    where
      covered :
          (seen' files : List Text)
          → Collects (map (λ f. f.path) snapshot.fingerprint) seen [] seen' files
          → clean_directory ∷ sort path_before parents ++ sort path_before files ≡ watched
          → Covers snapshot watched
      covered seen' files h e =
          let g = collect-Collects _ _ _ _ _ c in
          let all = λ (x : Text) (i : In x seen').
            subst (In x) e
              (joined clean_directory x seen parents files seen' g.listed h.listed i) in
          record {
            directory = subst (λ x. In x watched) (sym d) (subst (In clean_directory) e (inl refl));
            parents = All-map (λ p i. all (clean_path p) (h.kept (clean_path p) i)) _ g.found;
            files =
                All-map (λ f i. all (clean_path f.path) i) _
                  (All-paths (λ p. In (clean_path p) seen') snapshot.fingerprint h.found);
          }

  watch_directory-Covers :
      (snapshot : ProfileSnapshot) (watched : List Text) (o : Option Text)
      → clean_absolute_path is_absolute_path clean_path snapshot.directory.host_path ≡ o
      → watch_directory is_absolute_path clean_path o snapshot.directory
          snapshot.directory_fingerprint snapshot.fingerprint
        ≡ some watched
      → Covers snapshot watched
  unfolding watch_directory
  watch_directory-Covers snapshot watched none c e = absurd (cc)
  watch_directory-Covers snapshot watched (some clean_directory) c e =
      watch_files-Covers snapshot clean_directory watched _
        (clean_absolute_path-clean snapshot.directory.host_path clean_directory c) refl
        (ground arith)

  -- The paths that `watchPaths` gives for a snapshot cover it.
  pub watch_paths-Covers :
      (snapshot : ProfileSnapshot) (watched : List Text)
      → watch_paths is_absolute_path clean_path snapshot.directory snapshot.directory_fingerprint
          snapshot.fingerprint
        ≡ some watched
      → Covers snapshot watched
  unfolding watch_paths
  watch_paths-Covers snapshot watched e = watch_directory-Covers snapshot watched _ refl e
