-- ===== src/Repository/Attempts.antt =====
-- The two attempts at a file, and what the loop makes of them.
use remmina_krunner.Base.{
  ℕ, zero, suc, Text, equal, contains, contains_iff, In, List, Option, none, some, if◌then◌else◌,
  if_split, false, ◌&&◌, ◌≡◌, refl, All, Bool-cases, inl, inr,
}
use remmina_krunner.Base.Maps.{Map, insert, remove, All-remove}
use remmina_krunner.Parser.{ProfileParseError, ProfileParseResult, parsed, refused}
use remmina_krunner.Parser
use remmina_krunner.Repository.{LocatedProfileDirectory}
use remmina_krunner.Repository.Inspection.{Candidate, same_signature, inspect_candidate}
use remmina_krunner.Repository.Candidates.{IsIn, Given, inspect_candidate-Inspects}
use remmina_krunner.Repository.Loading.{
  RepositorySystem, CacheEntry, Loading, Attempt, became_unreadable, gone, stable, unstable,
  normalize_record, is_transient, listed, attempts, entry_for, after_attempts, parse_candidate,
}
use remmina_krunner.Repository.Listing

module _ (system : RepositorySystem) where
  open system use {files, locator, parser, to_utf8, sha256_hex}
  open files use {World}

  module _ (instance_id : Text) (directory : LocatedProfileDirectory) where
    abbrev key : Text → Text
    key = Listing.key system instance_id directory

    abbrev id : Text → Text
    id = Listing.id system instance_id directory

    abbrev Own : Text × CacheEntry → Type 0
    Own = Listing.Own system instance_id directory

    abbrev IsGood : Loading → Type 0
    IsGood = Listing.IsGood system instance_id directory

    abbrev IsFor : Candidate → ProfileParseResult → Type 0
    IsFor = Listing.IsFor system instance_id directory

    -- What the attempts end with, and the cache behind them.
    abbrev Settles : Attempt → Type 0
    Settles became_unreadable = Unit {0}
    Settles gone = Unit {0}
    Settles (unstable c k) = IsIn files directory c
    Settles (stable c k result) =
        IsIn files directory c × (k ≡ key c.canonical_identity) × IsFor c result

    record Tries (r : Attempt × Map CacheEntry × World) : Type 0 where
      settles : Settles r.0
      kept : All Own r.1

    -- The decision after a file has been inspected again.
    inspected-Tries :
        (c : Candidate) (k : Text) (result : ProfileParseResult) (cache : Map CacheEntry)
        (w : World) (again : Candidate → Attempt × Map CacheEntry × World) (o : Option Candidate)
        → IsIn files directory c
        → k ≡ key c.canonical_identity
        → IsFor c result
        → All Own cache
        → Given files directory o
        → ((d : Candidate) → IsIn files directory d → Tries (again d))
        → Tries (elim o [
          | none ↦ (gone, cache, w)
          | some d ↦
              if equal d.canonical_identity c.canonical_identity
                && same_signature d.signature c.signature
              then (stable c k result, cache, w)
              else again d
        ])
    inspected-Tries c k result cache w again none i e f a g h = record { settles = tt; kept = a }
    inspected-Tries c k result cache w again (some d) i e f a g h =
        if_split Tries
          (equal d.canonical_identity c.canonical_identity
            && same_signature d.signature c.signature)
          _ _ (λ _. record { settles = (i, e, f); kept = a }) (λ _. h d g)

    attempts-Tries :
        (left : ℕ) (c : Candidate) (k : Text) (cache : Map CacheEntry) (w : World)
        → IsIn files directory c
        → k ≡ key c.canonical_identity
        → All Own cache
        → Tries (attempts system instance_id directory left c k cache w)
    unfolding attempts
    attempts-Tries zero c k cache w i e a = record { settles = i; kept = a }
    attempts-Tries (suc left) c k cache w i e a =
        let (result, w1) = parser c.source_path c.launch_path (id c.canonical_identity) w in
        let (after, w2) = inspect_candidate files directory c.entry_name w1 in
        if_split Tries after.directory_unreadable _ _ (λ _. record { settles = tt; kept = a })
          (λ _.
            inspected-Tries c k (normalize_record result c (id c.canonical_identity)) cache w2 _
              after.candidate i e
              (Listing.normalize_record-IsFor system instance_id directory c result i) a
              (inspect_candidate-Inspects files directory c.entry_name w1).given
              (λ d j.
                attempts-Tries left d (key d.canonical_identity) _ w2 j refl
                  (All-remove Own _ _ (All-remove Own k cache a))))

    pub absent : (x : Text) (l : List Text) → contains l x ≡ false → ¬ In x l
    absent x l n i = cc ((contains_iff l x).1 i, n)

    -- The cache with the result of a file, unless it could not be read.
    remembered :
        (c : Candidate) (k : Text) (result : ProfileParseResult) (cache : Map CacheEntry)
        → k ≡ key c.canonical_identity
        → All Own cache
        → All Own (
            if is_transient result
            then cache
            else insert k (entry_for system instance_id directory c result) cache)
    unfolding entry_for insert
    remembered c k result cache e a = elim (Bool-cases (is_transient result)) [
      | inl y ↦ rw y a
      | inr n ↦ rw n (
        record { under = e; installed = refl; placed = refl; lasting = n },
        All-remove Own k cache a,
      )
    ]

    after_attempts-IsGood :
        (a : Attempt) (l : Loading)
        → Settles a
        → IsGood l
        → IsGood (after_attempts system instance_id directory a l).1
    unfolding after_attempts listed
    after_attempts-IsGood became_unreadable l s v = v
    after_attempts-IsGood gone l s v = v
    after_attempts-IsGood (unstable c k) l s v =
        elim (Bool-cases (contains l.processed_identities c.canonical_identity)) [
          | inl y ↦ rw y v
          | inr n ↦ rw n (
              Listing.listed-IsGood system instance_id directory c (refused Parser.unreadable) l v s
                tt (absent c.canonical_identity l.processed_identities n))
        ]
    after_attempts-IsGood (stable c k result) l (i, e, f) v =
        elim (Bool-cases (contains l.processed_identities c.canonical_identity)) [
          | inl y ↦ rw y (record {
            own = All-remove Own k l.cache v.own;
            distinct = v.distinct;
            listing = v.listing;
            identified = v.identified;
            placed = v.placed;
          })
          | inr n ↦
              let g =
                Listing.listed-IsGood system instance_id directory c result l v i f
                  (absent c.canonical_identity l.processed_identities n) in
              rw n (record {
                own = remembered c k result l.cache e v.own;
                distinct = g.distinct;
                listing = g.listing;
                identified = g.identified;
                placed = g.placed;
              })
        ]

    pub parse_candidate-IsGood :
        (c : Candidate) (l : Loading) (w : World)
        → IsIn files directory c
        → IsGood l
        → IsGood (parse_candidate system instance_id directory c l w).0.1
    unfolding parse_candidate
    parse_candidate-IsGood c l w i v =
        let k = key c.canonical_identity in
        let t = attempts-Tries 2 c k (remove k l.cache) w i refl (All-remove Own k l.cache v.own) in
        after_attempts-IsGood _ _ t.settles (record {
          own = t.kept;
          distinct = v.distinct;
          listing = v.listing;
          identified = v.identified;
          placed = v.placed;
        })
