-- ===== src/Tests/Repository.antt =====
-- The repository on a directory with one profile.
use remmina_krunner.Base.{
  ℕ, ◌==◌, Text, codes, equal, starts_with, List, [], ◌∷◌, ◌++◌, map, Bool, true, false, not, ◌≡◌,
  refl, arith, if◌then◌else◌, ◌||◌, some, length, ◌≤◌,
}
use remmina_krunner.Parser.{ProfileParseResult, parsed}
use remmina_krunner.Posix.{answered}
use remmina_krunner.Locator.Search.{located, locate_profile_directory_detailed}
use remmina_krunner.Repository.{LocatedProfileDirectory, RepositoryLoadResult, loaded, not_loaded}
use remmina_krunner.Repository.Hash.{tuple_bytes}
use remmina_krunner.Base.Sort.{sort}
use remmina_krunner.Repository.Inspection.{inspect_candidate}
use remmina_krunner.Repository.Unambiguous.{tuple_bytes_unique}
use remmina_krunner.Repository.Files.{
  Metadata, FileSystem, walk_parents, symlink_parent_paths, maximum_symbolic_links,
}
use remmina_krunner.Repository.Parents.{symlink_parent_paths-Parents}
use remmina_krunner.Base.Distinct.{Distinct}
use remmina_krunner.Repository.Loading.{RepositorySystem, ProfileRepository, load, load_located}
use remmina_krunner.Repository.Loaded.{Answers, IsScoped, load-Answers}
use remmina_krunner.Tests.Data.{profile}
use remmina_krunner.Tests.Locator.{system, in_flatpak, root}

abbrev metadata : Bool → Metadata
metadata regular = record {
  is_regular = regular;
  is_directory = not regular;
  is_link = false;
  device = 1;
  inode = 7;
  size = 20;
  modified_seconds = 10;
  modified_nanoseconds = 0;
  changed_seconds = 10;
  changed_nanoseconds = 0;
}

-- The world counts the calls that read a file's metadata. The directory is the descriptor 3, its one
-- profile the descriptor 4.
abbrev files : FileSystem
files = record {
  World = ℕ;
  clean_path = λ p. p;
  is_absolute_path = λ p. starts_with p (codes "/");
  file_path = λ parent child. parent ++ (codes "/" ++ child);
  absolute_path = λ p. p;
  encode_name = λ p. p;
  decode_name = λ p. p;
  canonical_file_path = λ p w. (p, w);
  open_directory = λ p w. (answered 3, w);
  directory_access = λ d w. (answered tt, w);
  fstat = λ d w. (answered (metadata (equal (d ∷ []) (4 ∷ []))), w);
  stat_at = λ d p w. (answered (metadata true), w);
  open_at = λ d p w. (answered 4, w);
  read_descriptor_link = λ d w. (answered (root ++ codes "/p/a.remmina"), w);
  lstat = λ p w. (answered (metadata false), w);
  read_link = λ p w. (answered [], w);
  open_stream = λ d w. (true, w);
  read_names = λ d w. ((codes "." ∷ codes "a.remmina" ∷ codes "b.txt" ∷ [], false), w);
  close = λ d w. w;
}

abbrev parse : Text → Text → Text → ℕ → ProfileParseResult × ℕ
parse source launch id w = (parsed (profile id (codes "Web") (codes "host")), w)

abbrev listing : RepositorySystem
listing = record {
  files = files;
  locator = λ w. system;
  parser = parse;
  to_utf8 = λ t. t;
  sha256_hex = λ t. t;
}

abbrev empty : ProfileRepository
empty = record {
  cache = [];
  active_instance_id = [];
  active_directory = [];
  has_active_scope = false;
}

load-Answers_example :
    Answers listing in_flatpak.id
      (locate_profile_directory_detailed system in_flatpak)
      (load listing in_flatpak empty 0).0.0
    × IsScoped listing (load listing in_flatpak empty 0).0.1
load-Answers_example = load-Answers listing in_flatpak empty 0 tt

-- An encoder that puts a question mark for a lone surrogate.
abbrev encode : Text → Text
encode = map λ c. if c == 55296 then b'?' else c

same_bytes : tuple_bytes encode ((55296 ∷ []) ∷ []) ≡ tuple_bytes encode (codes "?" ∷ [])
unfolding tuple_bytes
same_bytes = refl

tuple_bytes_unique_example : map encode ((55296 ∷ []) ∷ []) ≡ map encode (codes "?" ∷ [])
tuple_bytes_unique_example =
    tuple_bytes_unique encode ((55296 ∷ []) ∷ []) (codes "?" ∷ []) (omega arith) (omega arith)
      (omega arith) (omega arith) same_bytes

-- The directory that the locator finds, and a load of it.
abbrev directory : LocatedProfileDirectory
directory = record { host_path = root ++ codes "/p"; launch_path = root ++ codes "/p" }

abbrev names_loaded : RepositoryLoadResult → List Text
names_loaded (loaded s) = map (λ p. p.source_path) s.profiles
names_loaded (not_loaded error) = []

loads_one :
    names_loaded (load_located listing in_flatpak.id (located directory) empty 0).0.0
    ≡ (root ++ codes "/p/a.remmina") ∷ []
unfolding load_located inspect_candidate sort equal starts_with
loads_one = refl

-- Both `/a` and `/b` are links, the first to `b/c` beside it.
abbrev linked : FileSystem
linked = record files {
  lstat = λ p w. (
    answered (record (metadata false) { is_link = equal p (codes "//a") || equal p (codes "//b") }),
    w,
  );
  read_link = λ p w. (answered (if equal p (codes "//a") then codes "b/c" else codes "/d"), w);
}

finds_parents : (symlink_parent_paths linked (codes "/a") 0).0 ≡ some (codes "/" ∷ [])
unfolding symlink_parent_paths walk_parents starts_with equal
finds_parents = refl

symlink_parent_paths-Parents_example :
    Distinct (codes "/" ∷ []) × (length (codes "/" ∷ []) ≤ maximum_symbolic_links)
symlink_parent_paths-Parents_example =
    symlink_parent_paths-Parents linked (codes "/a") 0 (codes "/" ∷ []) finds_parents
