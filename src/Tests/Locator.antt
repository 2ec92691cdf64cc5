-- ===== src/Tests/Locator.antt =====
-- The locator, on a small tree of paths.
use remmina_krunner.Base.{
  Text, codes, equal, starts_with, [], ◌++◌, some, true, false, ◌≡◌, refl, if◌then◌else◌,
}
use remmina_krunner.Instance.{flatpak, RemminaInstance}
use remmina_krunner.Repository.{LocatedProfileDirectory}
use remmina_krunner.Locator.Paths.{PathSystem, resolved_path_for_containment}
use remmina_krunner.Posix.{answered, failed_with, interrupted, enoent}
use remmina_krunner.Locator.Search.{LocatorSystem, locate_profile_directory_detailed}
use remmina_krunner.Locator.Candidates.{candidates, Finds, locate-Finds}
use remmina_krunner.Tests.Data.{installed, is_alphanumeric}

abbrev pub root : Text
root = codes "/h/.var/app/org.remmina.Remmina"

-- /h/.var/app/org.remmina.Remmina/p is a link to the directory q beside it.
abbrev tree : PathSystem
tree = record {
  is_absolute_path = λ p. starts_with p (codes "/");
  clean_path = λ p. p;
  absolute_file_path = λ p. p;
  file_path = λ parent child.
      if equal parent (codes "/") then parent ++ child else parent ++ (codes "/" ++ child);
  absolute_path = λ p. p;
  is_symbolic_link = λ p. equal p (root ++ codes "/p");
  symlink_target = λ p. root ++ codes "/q";
  canonical_file_path = λ p. p;
}

abbrev pub system : LocatorSystem
system = record {
  paths = tree;
  calls = record {
    encode_name = λ p. p;
    stat = λ p. if starts_with p root then interrupted (answered true) else failed_with enoent;
    access = λ p. answered tt;
    open_directory = λ p. answered 3;
    fstat = λ d. answered true;
  };
  open_file = λ p. some (record {
    bytes = codes "[remmina_pref]\ndatadir_path=" ++ (root ++ codes "/p");
    fails = false;
  });
  from_utf8 = λ t. t;
  is_letter_or_number = is_alphanumeric;
}

abbrev pub in_flatpak : RemminaInstance
in_flatpak = record (installed (codes "flatpak:user:org.remmina.Remmina") flatpak) {
  profiles = record {
    config_home = root ++ codes "/config";
    data_home = root ++ codes "/data";
    legacy_home = root ++ codes "/.remmina";
    system_data_homes = [];
  };
}

abbrev custom : LocatedProfileDirectory
custom = record { host_path = root ++ codes "/p"; launch_path = root ++ codes "/p" }

locate-Finds_example :
    Finds system
      (candidates system in_flatpak)
      (locate_profile_directory_detailed system in_flatpak)
locate-Finds_example = locate-Finds system in_flatpak

follows_link : resolved_path_for_containment tree (root ++ codes "/p") ≡ some (root ++ codes "/q")
unfolding resolved_path_for_containment equal starts_with
follows_link = refl
