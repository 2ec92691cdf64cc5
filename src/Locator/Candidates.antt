-- ===== src/Locator/Candidates.antt =====
-- The locator against a plain description: the first of its candidates that is not invalid decides.
use remmina_krunner.Base.{
  Text, List, [], ◌∷◌, ◌++◌, Option, none, some, is_empty, if◌then◌else◌, Bool, true, false, any,
  ◌≡◌, refl, ap, arith, inl, inr, Bool-cases, All,
}
use remmina_krunner.Instance.{RemminaInstance}
use remmina_krunner.Locator.Paths.{clean_absolute_path, resolved_path_for_containment}
use remmina_krunner.Locator.Status.{
  DirectoryStatus, invalid, unreadable, readable, directory_status,
}
use remmina_krunner.Locator.Roots.{SandboxPathRoot, verified_sandbox_roots}
use remmina_krunner.Locator.Search.{
  not_found, unreadable_location, ProfileLocationResult, located, location_error, LocatorSystem,
  is_native, location_for, existing_location, contains_custom, search_roots,
  sandbox_custom_location, custom_data_directory, custom_location, host_candidates, ends_or,
  search_candidates, locate_profile_directory_detailed,
}

module _ (system : LocatorSystem) where
  open system use {paths, calls}

  -- A candidate as the locator takes it, and its status.
  abbrev pub cleaned : Text → Text
  cleaned = clean_absolute_path paths

  abbrev pub status : Text → DirectoryStatus
  status candidate = directory_status paths calls (cleaned candidate)

  -- Every location that the installation's sandbox, if it has one, allows for a custom path.
  abbrev pub allowed_in : Text → Option (List SandboxPathRoot) → List Text
  allowed_in custom none = []
  allowed_in custom (some roots) = elim (resolved_path_for_containment paths (cleaned custom)) [
    | none ↦ []
    | some resolved ↦
        if any (contains_custom system (cleaned custom) resolved) roots
        then cleaned custom ∷ []
        else []
  ]

  abbrev pub custom_candidates : RemminaInstance → List Text
  custom_candidates instance = elim (custom_data_directory system instance) [
    | none ↦ []
    | some custom ↦
        if is_native instance.kind
        then custom ∷ []
        else allowed_in custom (verified_sandbox_roots paths instance)
  ]

  -- All candidates, in their order.
  abbrev pub candidates : RemminaInstance → List Text
  candidates instance = custom_candidates instance ++ host_candidates system instance

  abbrev pub Invalid : Text → Type 0
  Invalid candidate = status candidate ≡ invalid

  -- What the search of a list of candidates may find.
  pub data Finds (l : List Text) (result : ProfileLocationResult) : Type 0 where
    found :
        (before after : List Text) (candidate : Text)
        → l ≡ before ++ (candidate ∷ after)
        → All Invalid before
        → status candidate ≡ readable
        → result
          ≡ located (record { host_path = cleaned candidate; launch_path = cleaned candidate })
        → Finds l result
    blocked :
        (before after : List Text) (candidate : Text)
        → l ≡ before ++ (candidate ∷ after)
        → All Invalid before
        → status candidate ≡ unreadable
        → result ≡ location_error unreadable_location
        → Finds l result
    nowhere : All Invalid l → result ≡ location_error not_found → Finds l result

  existing_location_lem :
      (c : Text) (saw : Bool)
      → existing_location system c c saw ≡ location_for (cleaned c) (cleaned c) saw (status c)
  unfolding existing_location location_for
  existing_location_lem c saw = elim (Bool-cases (is_empty (cleaned c))) [
    | inl y ↦ rw y
    | inr n ↦ rw n
  ]

  -- A search that is preceded by invalid candidates.
  later-Finds :
      (c : Text) (l : List Text) (result : ProfileLocationResult)
      → status c ≡ invalid
      → Finds l result
      → Finds (c ∷ l) result
  later-Finds c l result h (found before after d e a s r) =
      found (c ∷ before) after d (ap (λ (k : List Text). c ∷ k) e) (h, a) s r
  later-Finds c l result h (blocked before after d e a s r) =
      blocked (c ∷ before) after d (ap (λ (k : List Text). c ∷ k) e) (h, a) s r
  later-Finds c l result h (nowhere a r) = nowhere (h, a) r

  -- One candidate and what is done behind it.
  first-Finds :
      (c : Text) (l : List Text) (s : DirectoryStatus) (more : Bool → ProfileLocationResult)
      → status c ≡ s
      → Finds l (more false)
      → Finds (c ∷ l) (ends_or (location_for (cleaned c) (cleaned c) false s) more)
  unfolding ends_or location_for
  first-Finds c l invalid more e f = later-Finds c l _ e f
  first-Finds c l unreadable more e f = blocked [] l c refl tt e refl
  first-Finds c l readable more e f = found [] l c refl tt e refl

  location-Finds :
      (c : Text) (l : List Text) (more : Bool → ProfileLocationResult)
      → Finds l (more false)
      → Finds (c ∷ l) (ends_or (existing_location system c c false) more)
  location-Finds c l more f =
      rw (existing_location_lem c false) (first-Finds c l (status c) more refl f)

  search_candidates-Finds : (l : List Text) → Finds l (search_candidates system l false)
  unfolding search_candidates
  search_candidates-Finds [] = nowhere tt refl
  search_candidates-Finds (c ∷ l) = location-Finds c l _ (search_candidates-Finds l)

  search_roots_lem :
      (absolute resolved : Text) (roots : List SandboxPathRoot)
      → search_roots system absolute resolved roots false ≡ (
          if any (contains_custom system absolute resolved) roots
          then existing_location system absolute absolute false
          else (none, false))
  unfolding search_roots
  search_roots_lem absolute resolved [] = refl
  search_roots_lem absolute resolved (root ∷ roots) =
      ground (arith, search_roots_lem absolute resolved roots)

  sandboxed-Finds :
      (custom : Text) (roots : Option (List SandboxPathRoot)) (l : List Text)
      (more : Bool → ProfileLocationResult)
      → Finds l (more false)
      → Finds
          (allowed_in custom roots ++ l)
          (ends_or (sandbox_custom_location system custom roots false) more)
  unfolding sandbox_custom_location ends_or
  sandboxed-Finds custom none l more f = f
  sandboxed-Finds custom (some roots) l more f =
      go (resolved_path_for_containment paths (cleaned custom))
    where
      within :
          (resolved : Text) (b : Bool)
          → Finds ((if b then cleaned custom ∷ [] else []) ++ l) (
              ends_or
                (if b
                  then existing_location system (cleaned custom) (cleaned custom) false
                  else (none, false))
                more)
      within resolved true = location-Finds (cleaned custom) l more f
      within resolved false = f

      go :
          (o : Option Text)
          → Finds
              ((elim o [
                | none ↦ []
                | some resolved ↦
                    if any (contains_custom system (cleaned custom) resolved) roots
                    then cleaned custom ∷ []
                    else []
              ])
                ++ l)
              (ends_or
                (elim o [
                  | none ↦ (none, false)
                  | some resolved ↦ search_roots system (cleaned custom) resolved roots false
                ])
                more)
      go none = f
      go (some resolved) =
          rw (search_roots_lem (cleaned custom) resolved roots)
            (within resolved (any (contains_custom system (cleaned custom) resolved) roots))

  custom-Finds :
      (instance : RemminaInstance) (custom : Text) (l : List Text)
      (more : Bool → ProfileLocationResult)
      → Finds l (more false)
      → Finds
          ((if is_native instance.kind
              then custom ∷ []
              else allowed_in custom (verified_sandbox_roots paths instance))
            ++ l)
          (ends_or (custom_location system instance custom) more)
  unfolding custom_location
  custom-Finds instance custom l more f = elim (Bool-cases (is_native instance.kind)) [
    | inl y ↦ rw y (location-Finds custom l more f)
    | inr n ↦ rw n (sandboxed-Finds custom (verified_sandbox_roots paths instance) l more f)
  ]

  -- The candidates are the custom path, if there is one and the sandbox allows it, and the standard
  -- directories. The first one that is not invalid decides: a readable one is the location, and an
  -- unreadable one ends the search with an error; nothing is found only if all are invalid.
  pub locate-Finds :
      (instance : RemminaInstance)
      → Finds (candidates instance) (locate_profile_directory_detailed system instance)
  unfolding locate_profile_directory_detailed
  locate-Finds instance = go (custom_data_directory system instance)
    where
      standard : Bool → ProfileLocationResult
      standard saw = search_candidates system (host_candidates system instance) saw

      go :
          (o : Option Text)
          → Finds
              ((elim o [
                | none ↦ []
                | some custom ↦
                    if is_native instance.kind
                    then custom ∷ []
                    else allowed_in custom (verified_sandbox_roots paths instance)
              ])
                ++ host_candidates system instance)
              (elim o [
                | none ↦ standard false
                | some custom ↦ ends_or (custom_location system instance custom) standard
              ])
      go none = search_candidates-Finds (host_candidates system instance)
      go (some custom) =
          custom-Finds instance custom _ standard
            (search_candidates-Finds (host_candidates system instance))
