-- ===== src/Snapshot/Same.antt =====
-- What equivalent snapshots have in common.
use remmina_krunner.Base.{Text, equal_iff, List, [], ◌∷◌, true, ==_iff, ◌≡◌, refl, arith}
use remmina_krunner.Repository.{FileFingerprint, DirectoryFingerprint, ProfileSnapshot}
use remmina_krunner.Snapshot.{
  same_fingerprint, same_paths, same_directory_fingerprint, same_fingerprints, equivalent_snapshot,
}

same_paths_eq : (a b : List Text) → same_paths a b ≡ true → a ≡ b
same_paths_eq [] [] h = refl
same_paths_eq [] (y ∷ b) h = cc
same_paths_eq (x ∷ a) [] h = cc
same_paths_eq (x ∷ a) (y ∷ b) h =
    cc ((equal_iff x y).0 (ground arith), same_paths_eq a b (ground arith))

same_fingerprint_eq : (a b : FileFingerprint) → same_fingerprint a b ≡ true → a ≡ b
unfolding same_fingerprint
same_fingerprint_eq a b h =
    let path = (equal_iff a.path b.path).0 (ground arith) in
    let size = (==_iff a.size b.size).0 (ground arith) in
    let modified = (==_iff a.modified_milliseconds b.modified_milliseconds).0 (ground arith) in
    λ i. record { path = path i; size = size i; modified_milliseconds = modified i }

same_fingerprints_eq : (a b : List FileFingerprint) → same_fingerprints a b ≡ true → a ≡ b
unfolding same_fingerprints
same_fingerprints_eq [] [] h = refl
same_fingerprints_eq [] (y ∷ b) h = cc
same_fingerprints_eq (x ∷ a) [] h = cc
same_fingerprints_eq (x ∷ a) (y ∷ b) h =
    cc (same_fingerprint_eq x y (ground arith), same_fingerprints_eq a b (ground arith))

same_directory_fingerprint_eq :
    (a b : DirectoryFingerprint) → same_directory_fingerprint a b ≡ true → a ≡ b
unfolding same_directory_fingerprint
same_directory_fingerprint_eq a b h =
    let canonical = (equal_iff a.canonical_path b.canonical_path).0 (ground arith) in
    let device = (==_iff a.device b.device).0 (ground arith) in
    let inode = (==_iff a.inode b.inode).0 (ground arith) in
    let parents = same_paths_eq a.symlink_parent_paths b.symlink_parent_paths (ground arith) in
    λ i. record {
      canonical_path = canonical i;
      device = device i;
      inode = inode i;
      symlink_parent_paths = parents i;
    }

-- Equivalent snapshots have the same directory and the same files with the same sizes and times.
pub equivalent_snapshot_same :
    (a b : ProfileSnapshot)
    → equivalent_snapshot a b ≡ true
    → (a.directory ≡ b.directory)
      × (a.directory_fingerprint ≡ b.directory_fingerprint)
      × (a.fingerprint ≡ b.fingerprint)
unfolding equivalent_snapshot
equivalent_snapshot_same a b h =
    let host = (equal_iff a.directory.host_path b.directory.host_path).0 (ground arith) in
    let launch = (equal_iff a.directory.launch_path b.directory.launch_path).0 (ground arith) in
    (
      λ i. record { host_path = host i; launch_path = launch i },
      same_directory_fingerprint_eq _ _ (ground arith),
      same_fingerprints_eq _ _ (ground arith),
    )
