-- ===== src/Locator/Paths.antt =====
-- The paths of src/core/profile_locator.cpp. The functions of QDir and QFileInfo are an argument.
use remmina_krunner.Base.{
  Text, codes, equal, starts_with, List, [], ◌∷◌, ◌++◌, Option, none, some, is_empty, if◌then◌else◌,
  Bool, not, ◌&&◌, ◌||◌, ℕ, zero, suc, ◌-◌, length, take, drop, select, leb,
}
use remmina_krunner.Base.Split.{split}

-- QDir::isAbsolutePath, QDir::cleanPath, QFileInfo::absoluteFilePath, QDir::filePath and
-- QFileInfo::absolutePath; a path as it is on the disk: QFileInfo::isSymbolicLink, symLinkTarget and
-- canonicalFilePath.
pub record PathSystem : Type 0 where
  pub is_absolute_path : Text → Bool
  pub clean_path : Text → Text
  pub absolute_file_path : Text → Text
  pub file_path : Text → Text → Text
  pub absolute_path : Text → Text
  pub is_symbolic_link : Text → Bool
  pub symlink_target : Text → Text
  pub canonical_file_path : Text → Text

-- `text.endsWith(suffix)`
unfoldable pub ends_with : Text → Text → Bool
ends_with text suffix =
    leb (length suffix) (length text) && equal (drop (length text - length suffix) text) suffix

-- Where the walk along the components of a path stops: at no link, or at one, with the components
-- behind it.
pub data Walk : Type 0 where
  no_link : Walk
  link_at : Text → List Text → Walk

abbrev pub maximum_symbolic_links : ℕ
maximum_symbolic_links = 40

-- The prefix that a path below the root has.
unfoldable pub prefix_of : Text → Text
prefix_of root = if equal root (codes "/") then root else root ++ codes "/"

module _ (system : PathSystem) where
  open system use {
    is_absolute_path, clean_path, absolute_file_path, file_path, is_symbolic_link, symlink_target,
    canonical_file_path,
  }

  unfoldable pub clean_absolute_path : Text → Text
  clean_absolute_path path =
      if is_empty path || not (is_absolute_path path)
      then []
      else clean_path (absolute_file_path path)

  unfoldable pub child_path : Text → Text → Text
  unfolding clean_absolute_path
  child_path parent child =
      let absolute_parent = clean_absolute_path parent in
      if is_empty absolute_parent then [] else clean_path (file_path absolute_parent child)

  unfoldable pub path_below : Text → Text → Option Text
  unfolding clean_absolute_path prefix_of
  path_below path root =
      let absolute = clean_absolute_path path in
      let absolute_root = clean_absolute_path root in
      if is_empty absolute || is_empty absolute_root
      then none
      else if equal absolute absolute_root
      then some []
      else if not (starts_with absolute (prefix_of absolute_root))
      then none
      else some (drop (length (prefix_of absolute_root)) absolute)

  -- `path.split('/', Qt::SkipEmptyParts)`
  unfoldable pub components_of : Text → List Text
  unfolding split
  components_of path = select (λ part. not (is_empty part)) (split b'/' path)

  -- The loop over the components up to the first link.
  unfoldable pub walk : Text → List Text → Walk
  unfolding child_path
  walk current [] = no_link
  walk current (component ∷ rest) =
      let here = child_path current component in
      let later = walk here rest in if not (is_symbolic_link here) then later else link_at here rest

  -- The loop that appends the components behind a link to its target.
  unfoldable pub append_components : Text → List Text → Text
  unfolding child_path
  append_components target [] = target
  append_components target (component ∷ rest) = append_components (child_path target component) rest

  -- The result for a path with no link in it.
  unfoldable pub settled : Text → Text
  unfolding clean_absolute_path
  settled path =
      let canonical = canonical_file_path path in
      if is_empty canonical then path else clean_absolute_path canonical

  -- The outer loop, with the links that may still be followed.
  unfoldable pub follow : ℕ → Text → Option Text
  unfolding walk components_of append_components settled clean_absolute_path
  follow zero path = elim (walk (codes "/") (components_of path)) [
    | no_link ↦ some (settled path)
    | link_at here rest ↦ none
  ]
  follow (suc links) path = elim (walk (codes "/") (components_of path)) [
    | no_link ↦ some (settled path)
    | link_at here rest ↦
        let target = clean_absolute_path (symlink_target here) in
        let followed = follow links (append_components target rest) in
        if is_empty target then none else followed
  ]

  unfoldable pub resolved_path_for_containment : Text → Option Text
  unfolding follow clean_absolute_path
  resolved_path_for_containment path =
      let absolute = clean_absolute_path path in
      if is_empty absolute then none else follow maximum_symbolic_links absolute

  unfoldable pub root_before_suffix : Text → Text → Option Text
  unfolding clean_absolute_path ends_with
  root_before_suffix path suffix =
      let absolute = clean_absolute_path path in
      let root = take (length absolute - length suffix) absolute in
      if leb (length absolute) (length suffix) || not (ends_with absolute suffix)
      then none
      else if is_empty root || not (is_absolute_path root)
      then none
      else some root
