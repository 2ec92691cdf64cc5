-- ===== src/Catalog/Clean.antt =====
-- What `resolve` hands out.
use remmina_krunner.Base.{
  ℕ, Text, equal, equal_iff, In, find_first, find_first-some, Option, none, some, Bool, true, false,
  not, ◌||◌, ◌≡◌, sym, ◌∙◌, ap, arith, Bool-cases, inl, inr,
}
use remmina_krunner.Profile.{ProfileRecord}
use remmina_krunner.Repository.{DirectoryFingerprint}
use remmina_krunner.Catalog.{ProfileCatalog, mark_dirty, call_back, resolve_record, resolve}

module _ (directory_matches : Text → DirectoryFingerprint → Bool) (is_file : Text → Bool)
    (canonical_file_path : Text → Text) (opaque_profile_id : Text → Text → Text) where
  -- What a resolved profile is to be.
  pub record IsResolved (expected_instance_id opaque_id : Text) (c : ProfileCatalog)
      (profile : ProfileRecord) : Type 0 where
    pub listed : In profile c.records
    pub has_id : profile.opaque_id ≡ opaque_id
    pub instance_selected : c.selected_instance_id ≡ expected_instance_id
    pub unchanged : c.dirty ≡ false
    pub clean : c.has_clean_snapshot ≡ true
    pub directory :
        directory_matches c.clean_directory.host_path c.clean_directory_fingerprint ≡ true
    pub file : is_file profile.source_path ≡ true
    pub same_file :
        opaque_profile_id expected_instance_id (canonical_file_path profile.source_path) ≡ opaque_id

  resolve_record-parts :
      (c : ProfileCatalog) (o : Option ProfileRecord) (profile : ProfileRecord)
      → resolve_record directory_matches is_file canonical_file_path opaque_profile_id c o
        ≡ some profile
      → (o ≡ some profile)
        × (is_file profile.source_path ≡ true)
        × (equal
              (opaque_profile_id c.selected_instance_id (canonical_file_path profile.source_path))
              profile.opaque_id
            ≡ true)
  unfolding resolve_record
  resolve_record-parts c none profile e = absurd (cc)
  resolve_record-parts c (some p) profile e = elim (Bool-cases (is_file p.source_path)) [
    | inr f ↦ absurd (ground arith)
    | inl f ↦
        elim (Bool-cases (
          equal (opaque_profile_id c.selected_instance_id (canonical_file_path p.source_path))
            p.opaque_id)) [
              | inr g ↦ absurd (ground arith)
              | inl g ↦
                  let same : p ≡ profile = ground arith in
                  (ap some same, rw same at f, rw same at g)
            ]
  ]

  -- A profile is handed out only by a catalog that has a clean snapshot of the expected
  -- installation with no change reported since, whose directory is unchanged, and only if the
  -- profile is listed under the id and the id is still that of the file behind its path.
  pub resolve-IsResolved :
      (expected_instance_id opaque_id : Text) (c : ProfileCatalog) {profile : ProfileRecord}
      → resolve directory_matches is_file canonical_file_path opaque_profile_id expected_instance_id
          opaque_id c
        ≡ some profile
      → IsResolved expected_instance_id opaque_id c profile
  resolve-IsResolved expected_instance_id opaque_id c {profile} e = elim (Bool-cases refused) [
    | inl r ↦ absurd (refuses r)
    | inr r ↦
        let (a, b, d) = resolve_record-parts c _ profile (accepts r) in
        let (i, k) = find_first-some (λ p. equal p.opaque_id opaque_id) c.records profile a in
        let id = (equal_iff profile.opaque_id opaque_id).0 k in
        let selected = (equal_iff c.selected_instance_id expected_instance_id).0 (ground arith) in
        record {
          listed = i;
          has_id = id;
          instance_selected = selected;
          unchanged = ground arith;
          clean = ground arith;
          directory = ground arith;
          file = b;
          same_file =
              ap (λ t. opaque_profile_id t (canonical_file_path profile.source_path)) (sym selected)
              ∙ (equal_iff _ _).0 d
              ∙ id;
        }
  ]
    where
      refused : Bool
      refused =
          not c.has_selected_instance
          || not (equal c.selected_instance_id expected_instance_id)
          || c.dirty
          || not c.has_clean_snapshot
          || not (directory_matches c.clean_directory.host_path c.clean_directory_fingerprint)

      refuses : refused ≡ true → ⊥
      refuses r = no (unfold resolve in rw r at e)
        where
          no : none ≡ some profile → ⊥
          no z = cc

      accepts :
          refused ≡ false
          → resolve_record directory_matches is_file canonical_file_path opaque_profile_id c
              (find_first (λ p. equal p.opaque_id opaque_id) c.records)
            ≡ some profile
      accepts r = unfold resolve in rw r at e

  -- Once the live callback has reported a change, nothing is resolved before the next refresh.
  pub resolve-call_back :
      (lifetime : ℕ) (expected_instance_id opaque_id : Text) (c : ProfileCatalog)
      → c.callback_lifetime ≡ some lifetime
      → resolve directory_matches is_file canonical_file_path opaque_profile_id expected_instance_id
          opaque_id
          (call_back lifetime c)
        ≡ none
  unfolding resolve call_back mark_dirty
  resolve-call_back lifetime expected_instance_id opaque_id c h = rw h (ground arith)
