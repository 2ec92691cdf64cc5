-- ===== src/Tests/Scanner.antt =====
-- A scan of a system with all three kinds of installation.
use remmina_krunner.Base.{
  ℕ, Text, codes, equal, starts_with, compare_text, List, [], ◌∷◌, ◌++◌, All, Some, In, Option,
  some, Bool, true, false, ◌≡◌, ◌↔◌, refl, inl, ltb,
}
use remmina_krunner.Base.Sort.{sort}
use remmina_krunner.Base.Split.{split}
use remmina_krunner.Instance.{InstanceKind, ProfileEnvironment, RemminaInstance}
use remmina_krunner.Scanner.{
  FlatpakInstallation, Files, ScanEnvironment, is_application, is_remmina_application_ref,
  installation_group, installation_before, decode_flatpak_field, row_of, read_columns, collect_rows,
  parse_flatpak_installations, is_under_snap_root, canonical_or_absolute_path, is_left_out,
  scan_native, scan_snap, add_failed, scan_flatpak, scan,
}
use remmina_krunner.Scanner.Ids.{HasBackend, scan-HasBackend}
use remmina_krunner.Scanner.Rows.{IsRow, IsDistinct, parse_flatpak_installations-rows}
use remmina_krunner.Scanner.Columns.{StandsFor}
use remmina_krunner.Scanner.Listed.{parse_flatpak_installations-lists}
use remmina_krunner.Tests.Data.{no_profiles}

abbrev decode : Text → Option Text
decode t = some t

abbrev same : Text → Text
same t = t

abbrev is_control : ℕ → Bool
is_control c = ltb c 32

-- Every file is there, and its own canonical path.
abbrev files : Files
files = record {
  is_executable_file = λ path. true;
  exists = λ path. true;
  is_sym_link = λ path. false;
  canonical_file_path = same;
  clean_absolute_path = same;
  clean_path = same;
  file_path = λ directory name. directory ++ codes "/" ++ name;
}

abbrev environment : ScanEnvironment
environment = record {
  path_entries = codes "/snap/bin" ∷ codes "/usr/bin" ∷ codes "/usr/bin" ∷ [];
  flatpak_executable = codes "/usr/bin/flatpak";
  snap_launcher = codes "/snap/bin/remmina";
  user_home = codes "/home/u";
  snap_mount_root = codes "/snap";
}

abbrev row : Text
row = codes "org.remmina.Remmina\torg.remmina.Remmina/x86_64/stable\tuser"

abbrev flatpaks : Text
flatpaks = row ++ codes "\n" ++ row ++ codes "\nother\tother\tuser\n"

abbrev profiles : InstanceKind → ProfileEnvironment
profiles kind = no_profiles

abbrev ids : List RemminaInstance → List Text
ids [] = []
ids (i ∷ l) = i.id ∷ ids l

finds_three :
    ids (scan decode is_control same files profiles environment (some flatpaks)).instances
    ≡ codes "native:/usr/bin/remmina"
      ∷ codes "flatpak:user:org.remmina.Remmina/x86_64/stable"
      ∷ codes "snap:remmina"
      ∷ []
unfolding scan scan_native scan_flatpak scan_snap is_left_out is_under_snap_root
    canonical_or_absolute_path parse_flatpak_installations collect_rows read_columns row_of
    decode_flatpak_field is_remmina_application_ref is_application installation_before
    installation_group add_failed split sort equal starts_with compare_text
finds_three = refl

scan-HasBackend_example :
    All HasBackend
      (scan decode is_control same files profiles environment (some flatpaks)).instances
scan-HasBackend_example =
    scan-HasBackend decode is_control same files profiles environment (some flatpaks)

abbrev of_user : FlatpakInstallation
of_user = record { installation = codes "user"; ref = codes "org.remmina.Remmina/x86_64/stable" }

parse_flatpak_installations-rows_test :
    Some (IsRow decode is_control same of_user) (split b'\n' flatpaks)
unfolding parse_flatpak_installations collect_rows read_columns row_of decode_flatpak_field
    is_remmina_application_ref is_application installation_before split sort equal
parse_flatpak_installations-rows_test =
    parse_flatpak_installations-rows decode is_control same flatpaks of_user (inl refl)

parse_flatpak_installations-lists_example :
    ((i : FlatpakInstallation)
      → In i (parse_flatpak_installations decode is_control same flatpaks)
        ↔ Some (StandsFor decode is_control same i) (split b'\n' flatpaks))
    × IsDistinct (parse_flatpak_installations decode is_control same flatpaks)
parse_flatpak_installations-lists_example =
    parse_flatpak_installations-lists decode is_control same refl (λ t c i. i) flatpaks
