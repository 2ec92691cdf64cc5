-- ===== src/Repository/Files.antt =====
-- Directories as src/core/profile_repository.cpp sees them. The file system and its changes are an
-- argument: each call answers from a world and leaves another one.
use remmina_krunner.Base.{
  ℕ, zero, suc, ◌==◌, Text, codes, equal, contains, List, [], ◌∷◌, ◌++◌, length, select, Option,
  none, some, is_empty, if◌then◌else◌, Bool, true, false, not, ◌&&◌, ◌||◌,
}
use remmina_krunner.Base.Split.{split}
use remmina_krunner.Locator.Paths.{ends_with}
use remmina_krunner.Posix.{Answer, Outcome, succeeded, failed, retry}
use remmina_krunner.Repository.{DirectoryFingerprint}

-- `struct stat`; the times are those since 1970.
pub record Metadata : Type 0 where
  pub is_regular : Bool
  pub is_directory : Bool
  pub is_link : Bool
  pub device : ℕ
  pub inode : ℕ
  pub size : ℕ
  pub modified_seconds : ℕ
  pub modified_nanoseconds : ℕ
  pub changed_seconds : ℕ
  pub changed_nanoseconds : ℕ

-- The path functions of Qt, and the calls. A link is read as the bytes of its target, and a
-- directory as the names that `readdir` gives, with a flag that tells whether it fails at the end.
pub record FileSystem : Type 1 where
  pub World : Type 0
  pub clean_path : Text → Text
  pub is_absolute_path : Text → Bool
  pub file_path : Text → Text → Text
  pub absolute_path : Text → Text
  pub encode_name : Text → Text
  pub decode_name : Text → Text
  pub canonical_file_path : Text → World → Text × World
  pub open_directory : Text → World → Answer ℕ × World
  pub directory_access : ℕ → World → Answer (Unit {0}) × World
  pub fstat : ℕ → World → Answer Metadata × World
  pub stat_at : ℕ → Text → World → Answer Metadata × World
  pub open_at : ℕ → Text → World → Answer ℕ × World
  pub read_descriptor_link : ℕ → World → Answer Text × World
  pub lstat : Text → World → Answer Metadata × World
  pub read_link : Text → World → Answer Text × World
  pub open_stream : ℕ → World → Bool × World
  pub read_names : ℕ → World → (List Text × Bool) × World
  pub close : ℕ → World → World

abbrev pub maximum_link_bytes : ℕ
maximum_link_bytes = 4096

abbrev pub maximum_symbolic_links : ℕ
maximum_symbolic_links = 40

-- The state of the loop over the components: the directory so far and the parents of links.
pub record Trail : Type 0 where
  pub current : Text
  pub parents : List Text

module _ (system : FileSystem) where
  open system use {
    World, clean_path, is_absolute_path, file_path, absolute_path, encode_name, decode_name,
    directory_access, open_directory, fstat, read_descriptor_link, lstat, read_link, close,
  }

  unfoldable pub clean_child_path : Text → Text → Text
  clean_child_path directory entry_name = clean_path (file_path directory entry_name)

  unfoldable pub succeeds : {A : Type 0} → Outcome A → Bool
  succeeds (succeeded a) = true
  succeeds (failed error) = false

  unfoldable pub directory_accessible : ℕ → World → Bool × World
  unfolding retry succeeds
  directory_accessible descriptor w =
      let (answer, w1) = directory_access descriptor w in (succeeds (retry answer), w1)

  -- The identity for the bytes of the link.
  unfoldable pub identity_of : Outcome Text → Text
  unfolding ends_with
  identity_of (failed error) = []
  identity_of (succeeded resolved) =
      let identity = decode_name resolved in
      if length resolved == maximum_link_bytes
      then []
      else if ends_with identity (codes " (deleted)") || not (is_absolute_path identity)
      then []
      else clean_path identity

  unfoldable pub canonical_identity_for_descriptor : ℕ → World → Text × World
  unfolding retry identity_of
  canonical_identity_for_descriptor descriptor w =
      let (answer, w1) = read_descriptor_link descriptor w in (identity_of (retry answer), w1)

  -- The target that was read, `none` where the source gives up.
  unfoldable pub target_of : Outcome Text → Option Text
  target_of (failed error) = none
  target_of (succeeded encoded) =
      let target = decode_name encoded in
      if is_empty encoded || length encoded == maximum_link_bytes
      then none
      else if is_empty target || not (equal (encode_name target) encoded)
      then none
      else some target

  unfoldable pub split_path : Text → List Text
  unfolding split
  split_path path = select (λ part. not (is_empty part)) (split b'/' path)

  -- The trail behind a link with this target.
  unfoldable pub redirect : Text → Trail → Trail
  redirect target t = record {
    current = if is_absolute_path target then codes "/" else t.current;
    parents = if contains t.parents t.current then t.parents else t.parents ++ (t.current ∷ []);
  }

  -- What `lstat` says of the candidate for the next component.
  pub data Component : Type 0 where
    missing : Component
    plain : Component
    link_to : Option Text → Component

  -- A link that may not be followed is not read.
  unfoldable pub component_for : Bool → Text → Outcome Metadata → World → Component × World
  unfolding retry target_of
  component_for may_follow candidate (failed error) w = (missing, w)
  component_for may_follow candidate (succeeded metadata) w =
      if not metadata.is_link
      then (plain, w)
      else if not may_follow
      then (link_to none, w)
      else let (answer, w1) = read_link (encode_name candidate) w in
        (link_to (target_of (retry answer)), w1)

  -- One component that is neither empty nor `.` or `..`.
  unfoldable pub look_at : Bool → Text → World → Component × World
  unfolding component_for retry
  look_at may_follow candidate w =
      let (answer, w1) = lstat (encode_name candidate) w in
      component_for may_follow candidate (retry answer) w1

  -- The loop over the pending components, with the links that may still be followed.
  unfoldable pub walk_parents : ℕ → List Text → Trail → World → Option (List Text) × World
  unfolding clean_child_path look_at redirect split_path
  walk_parents links [] t w = (some t.parents, w)
  walk_parents zero (component ∷ pending) t w =
      let candidate = clean_child_path t.current component in
      let (found, w1) = look_at false candidate w in
      let skipped = walk_parents zero pending t w in
      let above = walk_parents zero pending (record t { current = absolute_path t.current }) w in
      let below = walk_parents zero pending (record t { current = candidate }) w1 in
      if is_empty component || equal component (codes ".")
      then skipped
      else if equal component (codes "..")
      then above
      else elim found [ missing ↦ (none, w1) | plain ↦ below | link_to target ↦ (none, w1) ]
  walk_parents (suc links) (component ∷ pending) t w =
      let candidate = clean_child_path t.current component in
      let (found, w1) = look_at true candidate w in
      let skipped = walk_parents (suc links) pending t w in
      let above =
        walk_parents (suc links) pending (record t { current = absolute_path t.current }) w in
      let below = walk_parents (suc links) pending (record t { current = candidate }) w1 in
      if is_empty component || equal component (codes ".")
      then skipped
      else if equal component (codes "..")
      then above
      else elim found [
        | missing ↦ (none, w1)
        | plain ↦ below
        | link_to none ↦ (none, w1)
        | link_to (some target) ↦
            walk_parents links (split_path target ++ pending) (redirect target t) w1
      ]

  unfoldable pub symlink_parent_paths : Text → World → Option (List Text) × World
  unfolding walk_parents split_path
  symlink_parent_paths lexical_path w =
      let cleaned = clean_path lexical_path in
      if is_empty cleaned || not (is_absolute_path cleaned)
      then (none, w)
      else walk_parents maximum_symbolic_links (split_path cleaned)
          (record { current = codes "/"; parents = [] }) w

  -- The fingerprint once the parents of the links are known.
  unfoldable pub with_parents : Metadata → Text → Option (List Text) → Option DirectoryFingerprint
  with_parents metadata canonical none = none
  with_parents metadata canonical (some parents) = some (record {
    canonical_path = canonical;
    device = metadata.device;
    inode = metadata.inode;
    symlink_parent_paths = parents;
  })

  unfoldable pub fingerprint_after :
      ℕ → Text → Outcome Metadata → World → Option DirectoryFingerprint × World
  unfolding canonical_identity_for_descriptor symlink_parent_paths with_parents
  fingerprint_after descriptor lexical_path (failed error) w = (none, w)
  fingerprint_after descriptor lexical_path (succeeded metadata) w =
      let (canonical, w1) = canonical_identity_for_descriptor descriptor w in
      let (parents, w2) = symlink_parent_paths lexical_path w1 in
      if not metadata.is_directory
      then (none, w)
      else if is_empty canonical
      then (none, w1)
      else (with_parents metadata canonical parents, w2)

  unfoldable pub fingerprint_for_descriptor : ℕ → Text → World → Option DirectoryFingerprint × World
  unfolding fingerprint_after retry
  fingerprint_for_descriptor descriptor lexical_path w =
      let (answer, w1) = fstat descriptor w in
      fingerprint_after descriptor lexical_path (retry answer) w1

  unfoldable pub inspect_opened : Text → Outcome ℕ → World → Option DirectoryFingerprint × World
  unfolding fingerprint_for_descriptor
  inspect_opened cleaned (failed error) w = (none, w)
  inspect_opened cleaned (succeeded descriptor) w =
      let (fingerprint, w1) = fingerprint_for_descriptor descriptor cleaned w in
      (fingerprint, close descriptor w1)

  unfoldable pub inspect_directory : Text → World → Option DirectoryFingerprint × World
  unfolding inspect_opened retry
  inspect_directory lexical_path w =
      let cleaned = clean_path lexical_path in
      let (answer, w1) = open_directory (encode_name cleaned) w in
      if is_empty cleaned || not (is_absolute_path cleaned)
      then (none, w)
      else inspect_opened cleaned (retry answer) w1

  unfoldable pub same_directory : DirectoryFingerprint → Option DirectoryFingerprint → Bool
  same_directory fingerprint none = false
  same_directory fingerprint (some current) =
      equal current.canonical_path fingerprint.canonical_path
      && current.device == fingerprint.device
      && current.inode == fingerprint.inode

  unfoldable pub directory_matches : Text → DirectoryFingerprint → World → Bool × World
  unfolding inspect_directory same_directory
  directory_matches lexical_path fingerprint w =
      let (current, w1) = inspect_directory lexical_path w in
      (same_directory fingerprint current, w1)
