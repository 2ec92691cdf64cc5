-- ===== src/Repository/Listing.antt =====
-- What holds of the files and profiles that a load has listed so far.
use remmina_krunner.Base.{
  Text, In, List, [], ◌∷◌, ◌++◌, map, false, ◌≡◌, refl, ap, ◌∙◌, All, All-append, subst,
}
use mathlib.Core.List.{append-nil}
use remmina_krunner.Base.Distinct.{Distinct, Distinct-append}
use remmina_krunner.Base.Sublists.{Sublist, ends, drops, keeps, Sublist-append}
use remmina_krunner.Profile.{ProfileRecord}
use remmina_krunner.Parser.{ProfileParseResult, parsed, refused}
use remmina_krunner.Repository.{LocatedProfileDirectory, FileFingerprint}
use remmina_krunner.Repository.Hash.{cache_key}
use remmina_krunner.Repository.Files.{clean_child_path}
use remmina_krunner.Repository.Inspection.{Candidate}
use remmina_krunner.Repository.Candidates.{IsIn}
use remmina_krunner.Repository.Loading.{
  RepositorySystem, CacheEntry, Loading, normalize_record, with_profile, is_transient, listed,
  key_of, id_of,
}

module _ (system : RepositorySystem) where
  open system use {files, locator, parser, to_utf8, sha256_hex}
  open files use {World}

  -- A binding of the cache belongs to the scope, stands under its own key, and no file that could not
  -- be read is remembered.
  pub record IsOwn (instance_id host_path : Text) (binding : Text × CacheEntry) : Type 0 where
    pub under :
        binding.0 ≡ cache_key to_utf8 sha256_hex instance_id host_path binding.1.canonical_identity
    pub installed : binding.1.instance_id ≡ instance_id
    pub placed : binding.1.directory ≡ host_path
    pub lasting : is_transient binding.1.result ≡ false

  module _ (instance_id : Text) (directory : LocatedProfileDirectory) where
    -- The functions of the repository for this installation and directory.
    abbrev pub key : Text → Text
    key = key_of system instance_id directory

    abbrev pub id : Text → Text
    id = id_of system instance_id directory

    abbrev pub Own : Text × CacheEntry → Type 0
    Own = IsOwn instance_id directory.host_path

    -- The paths of a profile are those of one name in the directory.
    abbrev pub IsPlaced : ProfileRecord → Type 0
    IsPlaced profile =
        (name : Text) × (profile.source_path ≡ clean_child_path files directory.host_path name)
        × (profile.launch_path ≡ clean_child_path files directory.launch_path name)

    -- What holds of the locals before each round.
    pub record IsGood (l : Loading) : Type 0 where
      pub own : All Own l.cache
      pub distinct : Distinct l.processed_identities
      pub listing : map (λ f. f.path) l.fingerprint ≡ l.processed_identities
      pub identified : Sublist (map (λ p. p.opaque_id) l.profiles) (map id l.processed_identities)
      pub placed : All IsPlaced l.profiles

    -- A result that has been normalised for a candidate.
    abbrev pub IsFor : Candidate → ProfileParseResult → Type 0
    IsFor c (refused error) = Unit {0}
    IsFor c (parsed profile) = (profile.opaque_id ≡ id c.canonical_identity) × IsPlaced profile

    pub normalize_record-IsFor :
        (c : Candidate) (result : ProfileParseResult)
        → IsIn files directory c
        → IsFor c (normalize_record result c (id c.canonical_identity))
    unfolding normalize_record
    normalize_record-IsFor c (refused error) i = tt
    normalize_record-IsFor c (parsed profile) i = (refl, (c.entry_name, i.source, i.launch))

    map-append_one :
        {A B : Type 0} (f : A → B) (l : List A) (x : A)
        → map f (l ++ (x ∷ [])) ≡ map f l ++ (f x ∷ [])
    map-append_one f [] x = refl
    map-append_one f (y ∷ l) x = ap (λ k. f y ∷ k) (map-append_one f l x)

    listed-identified :
        (c : Candidate) (result : ProfileParseResult) (l : Loading)
        → IsFor c result
        → Sublist (map (λ p. p.opaque_id) l.profiles) (map id l.processed_identities)
        → Sublist
            (map (λ p. p.opaque_id) (with_profile l.profiles result))
            (map id (l.processed_identities ++ (c.canonical_identity ∷ [])))
    listed-identified c (refused error) l f s =
        rw (map-append_one id l.processed_identities c.canonical_identity) (
          subst (λ t. Sublist t (map id l.processed_identities ++ (id c.canonical_identity ∷ [])))
            (append-nil (map (λ p. p.opaque_id) l.profiles)) (Sublist-append s (drops ends)))
    listed-identified c (parsed profile) l f s =
        rw
          (
            map-append_one id l.processed_identities c.canonical_identity,
            map-append_one (λ (p : ProfileRecord). p.opaque_id) l.profiles profile,
            f.0,
          )
          (Sublist-append s (keeps ends))

    listed-IsPlaced :
        (c : Candidate) (result : ProfileParseResult) (l : Loading)
        → IsFor c result
        → All IsPlaced l.profiles
        → All IsPlaced (with_profile l.profiles result)
    listed-IsPlaced c (refused error) l f a = a
    listed-IsPlaced c (parsed profile) l f a =
        All-append IsPlaced l.profiles (profile ∷ []) a (f.1, tt)

    -- A file is listed that has not been processed yet.
    pub listed-IsGood :
        (c : Candidate) (result : ProfileParseResult) (l : Loading)
        → IsGood l
        → IsIn files directory c
        → IsFor c result
        → ¬ In c.canonical_identity l.processed_identities
        → IsGood (listed c result l)
    unfolding listed
    listed-IsGood c result l v i f n = record {
      own = v.own;
      distinct = Distinct-append l.processed_identities c.canonical_identity v.distinct n;
      listing =
          map-append_one (λ (x : FileFingerprint). x.path) l.fingerprint c.fingerprint
          ∙ ap (λ t. t ++ (c.fingerprint.path ∷ [])) v.listing
          ∙ ap (λ t. l.processed_identities ++ (t ∷ [])) i.path;
      identified = listed-identified c result l f v.identified;
      placed = listed-IsPlaced c result l f v.placed;
    }
