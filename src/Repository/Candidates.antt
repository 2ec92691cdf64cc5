-- ===== src/Repository/Candidates.antt =====
-- What holds of every candidate that an inspection or an enumeration gives.
use remmina_krunner.Base.{
  Text, contains, List, [], ◌∷◌, Option, none, some, if_split, Bool, true, false, not, ◌≡◌, ◌≢◌,
  refl, All, All-append, Bool-cases, inl, inr, ℕ,
}
use remmina_krunner.Base.Sort.{sort, insert}
use remmina_krunner.Posix.{Outcome, succeeded, failed}
use remmina_krunner.Repository.{LocatedProfileDirectory, DirectoryFingerprint}
use remmina_krunner.Repository.Files.{Metadata, FileSystem, clean_child_path, directory_accessible}
use remmina_krunner.Repository.Inspection.{
  Candidate, CandidateInspection, Enumeration, is_denied, is_eligible_name, stands_before,
  first_of_each, candidate_with, conclude, inspect_file, after_open, after_stat,
  inspect_candidate_at, inspect_in, inspect_candidate, with_candidate, discover, enumeration_of,
  enumerate_stream, enumerate_in, enumerate_candidates,
}

module _ (system : FileSystem) (directory : LocatedProfileDirectory) where
  open system use {World, is_absolute_path, encode_name, decode_name}

  -- Its paths are those of its name in the directory, and its fingerprint bears its identity.
  pub record IsIn (c : Candidate) : Type 0 where
    pub source : c.source_path ≡ clean_child_path system directory.host_path c.entry_name
    pub launch : c.launch_path ≡ clean_child_path system directory.launch_path c.entry_name
    pub path : c.fingerprint.path ≡ c.canonical_identity
    pub named : c.canonical_identity ≢ []
    pub absolute : is_absolute_path c.canonical_identity ≡ true

  abbrev pub Given : Option Candidate → Type 0
  Given none = Unit {0}
  Given (some c) = IsIn c

  pub record Inspects (r : CandidateInspection × World) : Type 0 where
    pub given : Given r.0.candidate

  candidate_with-Given :
      (name : Text) (m : Metadata) (identity : Text)
      → Given (candidate_with system directory name m identity).candidate
  unfolding candidate_with
  candidate_with-Given name m [] = tt
  candidate_with-Given name m (c ∷ identity) = elim (Bool-cases (is_absolute_path (c ∷ identity))) [
    | inl y ↦
        rw y (record { source = refl; launch = refl; path = refl; named = λ z. cc; absolute = y })
    | inr n ↦ rw n tt
  ]

  conclude-Inspects :
      (name : Text) (m : Metadata) (identity : Text) (w : World)
      → Inspects (conclude system directory name m identity w)
  unfolding conclude
  conclude-Inspects name m [] w = record { given = candidate_with-Given name m _ }
  conclude-Inspects name m (c ∷ identity) w = record {
    given = candidate_with-Given name m (c ∷ identity);
  }

  inspect_file-Inspects :
      (name : Text) (file : ℕ) (o : Outcome Metadata) (w : World)
      → Inspects (inspect_file system directory name file o w)
  unfolding inspect_file
  inspect_file-Inspects name file (failed error) w = record { given = tt }
  inspect_file-Inspects name file (succeeded m) w =
      if_split Inspects (not m.is_regular) _ _ (λ _. record { given = tt })
        (λ _. conclude-Inspects name m _ _)

  after_open-Inspects :
      (descriptor : ℕ) (name : Text) (m : Metadata) (o : Outcome ℕ) (w : World)
      → Inspects (after_open system descriptor directory name m o w)
  unfolding after_open
  after_open-Inspects descriptor name m (succeeded file) w = inspect_file-Inspects name file _ _
  after_open-Inspects descriptor name m (failed error) w =
      if_split Inspects (not (is_denied error)) _ _ (λ _. record { given = tt })
        (λ _.
          if_split Inspects (not (directory_accessible system descriptor w).0) _ _
            (λ _. record { given = tt }) (λ _. conclude-Inspects name m [] _))

  after_stat-Inspects :
      (descriptor : ℕ) (encoded name : Text) (o : Outcome Metadata) (w : World)
      → Inspects (after_stat system descriptor directory encoded name o w)
  unfolding after_stat
  after_stat-Inspects descriptor encoded name (failed error) w =
      if_split Inspects (is_denied error) _ _ (λ _. record { given = tt })
        (λ _. record { given = tt })
  after_stat-Inspects descriptor encoded name (succeeded m) w =
      if_split Inspects (not m.is_regular) _ _ (λ _. record { given = tt })
        (λ _. after_open-Inspects descriptor name m _ _)

  inspect_candidate_at-Inspects :
      (descriptor : ℕ) (encoded name : Text) (w : World)
      → Inspects (inspect_candidate_at system descriptor directory encoded name w)
  unfolding inspect_candidate_at
  inspect_candidate_at-Inspects descriptor encoded name w =
      after_stat-Inspects descriptor encoded name _ _

  inspect_in-Inspects :
      (name : Text) (o : Outcome ℕ) (w : World) → Inspects (inspect_in system directory name o w)
  unfolding inspect_in
  inspect_in-Inspects name (failed error) w = record { given = tt }
  inspect_in-Inspects name (succeeded descriptor) w =
      if_split Inspects (not (directory_accessible system descriptor w).0) _ _
        (λ _. record { given = tt })
        (λ _. record {
          given = (inspect_candidate_at-Inspects descriptor (encode_name name) name _).given;
        })

  -- A file that is inspected again is a candidate in the directory, if it is one at all.
  pub inspect_candidate-Inspects :
      (name : Text) (w : World) → Inspects (inspect_candidate system directory name w)
  unfolding inspect_candidate
  inspect_candidate-Inspects name w = inspect_in-Inspects name _ _

  with_candidate-IsIn :
      (found : List Candidate) (o : Option Candidate)
      → All IsIn found
      → Given o
      → All IsIn (with_candidate found o)
  with_candidate-IsIn found none a g = a
  with_candidate-IsIn found (some c) a g = All-append IsIn found (c ∷ []) a (g, tt)

  abbrev Discovered : Option (List Candidate) → Type 0
  Discovered none = Unit {0}
  Discovered (some l) = All IsIn l

  record Discovers (r : Option (List Candidate) × World) : Type 0 where
    discovered : Discovered r.0

  discover-Discovers :
      (descriptor : ℕ) (names : List Text) (found : List Candidate) (w : World)
      → All IsIn found
      → Discovers (discover system descriptor directory names found w)
  unfolding discover
  discover-Discovers descriptor [] found w a = record { discovered = a }
  discover-Discovers descriptor (name ∷ names) found w a =
      if_split Discovers (not (is_eligible_name system name)) _ _
        (λ _. discover-Discovers descriptor names found w a)
        (λ _.
          if_split Discovers
            ((inspect_candidate_at system descriptor directory name (decode_name name)
              w).0.directory_unreadable)
            _ _ (λ _. record { discovered = tt })
            (λ _. discover-Discovers descriptor names _ _ (
              with_candidate-IsIn found _ a
                (inspect_candidate_at-Inspects descriptor name (decode_name name) w).given)))

  insert-IsIn :
      (c : Candidate) (l : List Candidate)
      → IsIn c
      → All IsIn l
      → All IsIn (insert stands_before c l)
  unfolding insert
  insert-IsIn c [] i a = (i, tt)
  insert-IsIn c (d ∷ l) i a =
      if_split (All IsIn) (stands_before d c) _ _ (λ _. (a.0, insert-IsIn c l i a.1)) (λ _. (i, a))

  sort-IsIn : (l : List Candidate) → All IsIn l → All IsIn (sort stands_before l)
  unfolding sort
  sort-IsIn [] a = tt
  sort-IsIn (c ∷ l) a = insert-IsIn c (sort stands_before l) a.0 (sort-IsIn l a.1)

  first_of_each-IsIn :
      (seen : List Text) (l : List Candidate) → All IsIn l → All IsIn (first_of_each seen l)
  unfolding first_of_each
  first_of_each-IsIn seen [] a = tt
  first_of_each-IsIn seen (c ∷ l) a =
      if_split (All IsIn) (contains seen c.canonical_identity) _ _
        (λ _. first_of_each-IsIn seen l a.1)
        (λ _. (a.0, first_of_each-IsIn (c.canonical_identity ∷ seen) l a.1))

  abbrev pub Enumerated : Option Enumeration → Type 0
  Enumerated none = Unit {0}
  Enumerated (some e) = All IsIn e.candidates

  pub record Enumerates (r : Option Enumeration × World) : Type 0 where
    pub enumerated : Enumerated r.0

  enumeration_of-Enumerated :
      (fails : Bool) (o : Option (List Candidate)) (fingerprint : DirectoryFingerprint)
      → Discovered o
      → Enumerated (enumeration_of fails o fingerprint)
  unfolding enumeration_of
  enumeration_of-Enumerated fails none fingerprint d = tt
  enumeration_of-Enumerated true (some l) fingerprint d = tt
  enumeration_of-Enumerated false (some l) fingerprint d =
      first_of_each-IsIn [] (sort stands_before l) (sort-IsIn l d)

  enumerate_stream-Enumerates :
      (descriptor : ℕ) (o : Option DirectoryFingerprint) (w : World)
      → Enumerates (enumerate_stream system descriptor directory o w)
  unfolding enumerate_stream
  enumerate_stream-Enumerates descriptor none w = record { enumerated = tt }
  enumerate_stream-Enumerates descriptor (some fingerprint) w =
      if_split Enumerates (not (system.open_stream descriptor w).0) _ _
        (λ _. record { enumerated = tt })
        (λ _. record {
          enumerated =
              enumeration_of-Enumerated _ _ fingerprint
                (discover-Discovers descriptor _ [] _ tt).discovered;
        })

  enumerate_in-Enumerates :
      (o : Outcome ℕ) (w : World) → Enumerates (enumerate_in system directory o w)
  unfolding enumerate_in
  enumerate_in-Enumerates (failed error) w = record { enumerated = tt }
  enumerate_in-Enumerates (succeeded descriptor) w =
      if_split Enumerates (not (directory_accessible system descriptor w).0) _ _
        (λ _. record { enumerated = tt }) (λ _. enumerate_stream-Enumerates descriptor _ _)

  -- Every candidate of an enumeration is one in the directory.
  pub enumerate_candidates-Enumerates :
      (w : World) → Enumerates (enumerate_candidates system directory w)
  unfolding enumerate_candidates
  enumerate_candidates-Enumerates w = enumerate_in-Enumerates _ _
