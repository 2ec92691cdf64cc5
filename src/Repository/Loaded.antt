-- ===== src/Repository/Loaded.antt =====
-- What a load answers, and what holds of the cache that it leaves.
use remmina_krunner.Base.{
  Text, equal, equal_iff, contains, In, List, [], ◌∷◌, ◌++◌, map, Option, none, some, if_split,
  Bool, true, false, not, ◌||◌, ◌≡◌, refl, sym, ap, ◌∙◌, arith, All, Bool-cases, inl, inr, subst,
}
use remmina_krunner.Base.Distinct.{Distinct}
use remmina_krunner.Base.Maps.{Map}
use remmina_krunner.Base.Sublists.{Sublist, ends}
use remmina_krunner.Parser.{ProfileParseResult}
use remmina_krunner.Instance.{RemminaInstance}
use remmina_krunner.Locator.Search.{
  ProfileLocationResult, located, location_error, locate_profile_directory_detailed,
}
use remmina_krunner.Repository.{
  LocatedProfileDirectory, FileFingerprint, DirectoryFingerprint, ProfileSnapshot,
  RepositoryLoadResult, loaded, not_loaded, unreadable_directory,
}
use remmina_krunner.Repository.Inspection.{Candidate, Enumeration, enumerate_candidates}
use remmina_krunner.Repository.Candidates.{IsIn, Enumerated, enumerate_candidates-Enumerates}
use remmina_krunner.Repository.Loading.{
  RepositorySystem, CacheEntry, ProfileRepository, Loading, normalize_record, listed, keep_active,
  parse_candidate, load_candidate, load_candidates, finished, load_enumerated, scoped, forgotten,
  error_of, load_located, load,
}
use remmina_krunner.Repository.Listing
use remmina_krunner.Repository.Attempts

module _ (system : RepositorySystem) where
  open system use {files, locator, parser, to_utf8, sha256_hex}
  open files use {World}

  module _ (instance_id : Text) (directory : LocatedProfileDirectory) where
    abbrev key : Text → Text
    key = Listing.key system instance_id directory

    abbrev id : Text → Text
    id = Listing.id system instance_id directory

    abbrev Own : Text × CacheEntry → Type 0
    Own = Listing.Own system instance_id directory

    abbrev IsGood : Loading → Type 0
    IsGood = Listing.IsGood system instance_id directory

    -- One round, with what the cache holds for the file.
    cached-IsGood :
        (c : Candidate) (l : Loading) (w : World) (o : Option ProfileParseResult)
        → IsIn files directory c
        → IsGood l
        → ¬ In c.canonical_identity l.processed_identities
        → IsGood (
            let r : (Bool × Loading) × World = elim o [
              | some result ↦
                  let l' = listed c (normalize_record result c (id c.canonical_identity)) l in
                  (
                    (
                      false,
                      record l' {
                        active_cache_keys = l.active_cache_keys ++ (key c.canonical_identity ∷ []);
                      },
                    ),
                    w,
                  )
              | none ↦ parse_candidate system instance_id directory c l w
            ] in
            r.0.1)
    cached-IsGood c l w none i v n =
        Attempts.parse_candidate-IsGood system instance_id directory c l w i v
    cached-IsGood c l w (some result) i v n =
        let g =
          Listing.listed-IsGood system instance_id directory c
            (normalize_record result c (id c.canonical_identity)) l v i
            (Listing.normalize_record-IsFor system instance_id directory c result i) n in
        record {
          own = g.own;
          distinct = g.distinct;
          listing = g.listing;
          identified = g.identified;
          placed = g.placed;
        }

    load_candidate-IsGood :
        (c : Candidate) (l : Loading) (w : World)
        → IsIn files directory c
        → IsGood l
        → IsGood (load_candidate system instance_id directory c l w).0.1
    unfolding load_candidate
    load_candidate-IsGood c l w i v =
        elim (Bool-cases (contains l.processed_identities c.canonical_identity)) [
          | inl y ↦ rw y v
          | inr n ↦
              rw n (cached-IsGood c l w _ i v (Attempts.absent system instance_id directory _ _ n))
        ]

    load_candidates-IsGood :
        (cs : List Candidate) (l : Loading) (w : World)
        → All (IsIn files directory) cs
        → IsGood l
        → IsGood (load_candidates system instance_id directory cs l w).0.1
    unfolding load_candidates
    load_candidates-IsGood [] l w a v = v
    load_candidates-IsGood (c ∷ cs) l w a v =
        let r = load_candidate system instance_id directory c l w in
        let g = load_candidate-IsGood c l w a.0 v in
        elim (Bool-cases r.0.0) [
          | inl y ↦ rw y g
          | inr n ↦ rw n (load_candidates-IsGood cs r.0.1 r.1 a.1 g)
        ]

    -- The profiles of a snapshot are in the directory, and each has the id of a listed file of its
    -- own, in the order of the files, of which no two are the same.
    pub record IsListing (s : ProfileSnapshot) : Type 0 where
      pub in_directory : s.directory ≡ directory
      pub distinct : Distinct (map (λ f. f.path) s.fingerprint)
      pub identified :
          Sublist (map (λ p. p.opaque_id) s.profiles) (map (λ f. id f.path) s.fingerprint)
      pub placed : All (Listing.IsPlaced system instance_id directory) s.profiles

    abbrev pub Listed : RepositoryLoadResult → Type 0
    Listed (loaded s) = IsListing s
    Listed (not_loaded error) = error ≡ unreadable_directory

    keep_active-Own :
        (keys : List Text) (cache : Map CacheEntry)
        → All Own cache
        → All Own (keep_active keys cache)
    unfolding keep_active
    keep_active-Own keys [] a = tt
    keep_active-Own keys ((k, entry) ∷ cache) a =
        if_split (λ (l : Map CacheEntry). All Own l) (contains keys k) _ _
          (λ _. (a.0, keep_active-Own keys cache a.1)) (λ _. keep_active-Own keys cache a.1)

    map-path : (l : List FileFingerprint) → map (λ f. id f.path) l ≡ map id (map (λ f. f.path) l)
    map-path [] = refl
    map-path (f ∷ l) = ap (λ k. id f.path ∷ k) (map-path l)

    finished-Listed :
        (d : DirectoryFingerprint) (r : Bool × Loading) (repository : ProfileRepository)
        → IsGood r.1
        → let f = finished system instance_id directory d r repository in
          Listed f.0 × All Own f.1.cache
    unfolding finished
    finished-Listed d (true, l) repository v = (refl, v.own)
    finished-Listed d (false, l) repository v = (
      record {
        in_directory = refl;
        distinct = rw v.listing v.distinct;
        identified =
            subst (λ t. Sublist (map (λ p. p.opaque_id) l.profiles) t)
              (ap (map id) (sym v.listing) ∙ sym (map-path l.fingerprint)) v.identified;
        placed = v.placed;
      },
      keep_active-Own l.active_cache_keys l.cache v.own,
    )

    start-IsGood :
        (cache : Map CacheEntry)
        → All Own cache
        → IsGood (record {
          cache = cache;
          active_cache_keys = [];
          processed_identities = [];
          profiles = [];
          fingerprint = [];
        })
    start-IsGood cache a = record {
      own = a;
      distinct = tt;
      listing = refl;
      identified = ends;
      placed = tt;
    }

    load_enumerated-Listed :
        (e : Option Enumeration) (r : ProfileRepository) (w : World)
        → Enumerated files directory e
        → All Own r.cache
        → let f = load_enumerated system instance_id directory e r w in
          Listed f.0.0 × All Own f.0.1.cache
    unfolding load_enumerated
    load_enumerated-Listed none r w a v = (refl, v)
    load_enumerated-Listed (some e) r w a v =
        finished-Listed e.directory_fingerprint _ r
          (load_candidates-IsGood e.candidates _ w a (start-IsGood r.cache v))

  abbrev pub IsOwn : Text → Text → Text × CacheEntry → Type 0
  IsOwn = Listing.IsOwn system

  -- The cache belongs to the active scope of the repository.
  abbrev pub IsScoped : ProfileRepository → Type 0
  IsScoped r = All (IsOwn r.active_instance_id r.active_directory) r.cache

  -- What a load answers for the location of the directory.
  abbrev pub Answers : Text → ProfileLocationResult → RepositoryLoadResult → Type 0
  Answers instance_id (location_error error) result = result ≡ not_loaded (error_of error)
  Answers instance_id (located directory) result = Listed instance_id directory result

  same_scope :
      (r : ProfileRepository) (instance_id host_path : Text)
      → (not r.has_active_scope
          || not (equal r.active_instance_id instance_id)
          || not (equal r.active_directory host_path))
        ≡ false
      → (r.active_instance_id ≡ instance_id) × (r.active_directory ≡ host_path)
  same_scope r instance_id host_path n =
      ground
        (arith, equal_iff r.active_instance_id instance_id, equal_iff r.active_directory host_path)

  scoped_active :
      (instance_id host_path : Text) (r : ProfileRepository)
      → ((scoped instance_id host_path r).active_instance_id ≡ instance_id)
        × ((scoped instance_id host_path r).active_directory ≡ host_path)
  unfolding scoped
  scoped_active instance_id host_path r =
      if_split
        (λ (q : ProfileRepository).
          (q.active_instance_id ≡ instance_id) × (q.active_directory ≡ host_path))
        (not r.has_active_scope
          || not (equal r.active_instance_id instance_id)
          || not (equal r.active_directory host_path))
        _ _ (λ _. (refl, refl)) (same_scope r instance_id host_path)

  scoped-Own :
      (instance_id host_path : Text) (r : ProfileRepository)
      → IsScoped r
      → All (IsOwn instance_id host_path) (scoped instance_id host_path r).cache
  unfolding scoped
  scoped-Own instance_id host_path r v =
      if_split (λ (q : ProfileRepository). All (IsOwn instance_id host_path) q.cache)
        (not r.has_active_scope
          || not (equal r.active_instance_id instance_id)
          || not (equal r.active_directory host_path))
        _ _ (λ _. tt)
        (λ n.
          let (same_id, same_path) = same_scope r instance_id host_path n in
          subst (λ h. All (IsOwn instance_id h) r.cache) same_path
            (subst (λ i. All (IsOwn i r.active_directory) r.cache) same_id v))

  finished_active :
      (instance_id : Text) (directory : LocatedProfileDirectory) (d : DirectoryFingerprint)
      (x : Bool × Loading) (r : ProfileRepository)
      → let f = finished system instance_id directory d x r in
        (f.1.active_instance_id ≡ r.active_instance_id)
        × (f.1.active_directory ≡ r.active_directory)
  unfolding finished
  finished_active instance_id directory d (true, l) r = (refl, refl)
  finished_active instance_id directory d (false, l) r = (refl, refl)

  enumerated_active :
      (instance_id : Text) (directory : LocatedProfileDirectory) (e : Option Enumeration)
      (r : ProfileRepository) (w : World)
      → let f = load_enumerated system instance_id directory e r w in
        (f.0.1.active_instance_id ≡ r.active_instance_id)
        × (f.0.1.active_directory ≡ r.active_directory)
  unfolding load_enumerated
  enumerated_active instance_id directory none r w = (refl, refl)
  enumerated_active instance_id directory (some e) r w =
      finished_active instance_id directory e.directory_fingerprint _ r

  rescoped :
      (q : ProfileRepository) (instance_id host_path : Text)
      → q.active_instance_id ≡ instance_id
      → q.active_directory ≡ host_path
      → All (IsOwn instance_id host_path) q.cache
      → IsScoped q
  rescoped q instance_id host_path e h own =
      subst (λ h'. All (IsOwn q.active_instance_id h') q.cache) (sym h)
        (subst (λ i. All (IsOwn i host_path) q.cache) (sym e) own)

  load_located-Answers :
      (instance_id : Text) (location : ProfileLocationResult) (r : ProfileRepository) (w : World)
      → IsScoped r
      → let f = load_located system instance_id location r w in
        Answers instance_id location f.0.0 × IsScoped f.0.1
  unfolding load_located forgotten
  load_located-Answers instance_id (location_error error) r w v = (refl, tt)
  load_located-Answers instance_id (located directory) r w v =
      let (e, w') = enumerate_candidates files directory w in
      let q = scoped instance_id directory.host_path r in
      let (listing, own) =
        load_enumerated-Listed instance_id directory e q w'
          (enumerate_candidates-Enumerates files directory w).enumerated
          (scoped-Own instance_id directory.host_path r v) in
      let (same_id, same_path) = enumerated_active instance_id directory e q w' in
      let (now_id, now_path) = scoped_active instance_id directory.host_path r in
      let left = load_enumerated system instance_id directory e q w' in
      (
        listing,
        rescoped left.0.1 instance_id directory.host_path (same_id ∙ now_id) (same_path ∙ now_path)
            own,
      )

  -- The repository's cache stays within its scope: every binding is of the active installation and
  -- directory and stands under the key of its own file, and no file that could not be read is
  -- remembered. A load reports the error of the locator, or it lists the directory that was
  -- located, or reports that this cannot be read. A listing has no file twice; its profiles have the
  -- ids of the listed files, in their order and each of a file of its own, and paths in that
  -- directory. So it is whatever the files, their changes meanwhile and the parser are.
  pub load-Answers :
      (instance : RemminaInstance) (r : ProfileRepository) (w : World)
      → IsScoped r
      → let f = load system instance r w in
        Answers instance.id (locate_profile_directory_detailed (locator w) instance) f.0.0
        × IsScoped f.0.1
  unfolding load
  load-Answers instance r w v =
      load_located-Answers instance.id (locate_profile_directory_detailed (locator w) instance) r w
        v
