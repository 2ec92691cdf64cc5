-- ===== src/Tests/Application.antt =====
-- Runs of the program, and profiles parsed from files.
use remmina_krunner.Base.{
  ℕ, ◌+◌, Text, codes, List, [], ◌∷◌, Option, some, none, true, false, ◌≡◌, refl, equal,
}
use remmina_krunner.Base.Maps.{lookup, insert, remove}
use remmina_krunner.Instance.{RegistrySnapshot, selected_instance}
use remmina_krunner.Profile.{ProfileRecord}
use remmina_krunner.KeyFile.Reader.{
  File, read_allowed_key_file_values_with_error, read_line, drop_key, without_ending, exceeds,
  store_value, finish, read_header, read_entry_at, read_content, read_round, read_lines,
}
use remmina_krunner.KeyFile.Values.{decode_value, decode_from, unescape}
use remmina_krunner.KeyFile.Utf8.{
  is_valid_utf8, valid_from, has_continuation_bytes, is_continuation_byte,
}
use remmina_krunner.KeyFile.Names.{
  index_of, is_locale_character, valid_locale, is_valid_key_name, bad_group_byte,
  is_valid_group_name, is_syntactic_whitespace, trim_start, trim_end, left_trimmed, trimmed_key,
  trimmed_group_header,
}
use remmina_krunner.Base.Split.{split}
use remmina_krunner.Parser.{parse_remmina_profile, parse_result, profile_of, labels_in, parsed}
use remmina_krunner.Parser.Parsed.{Parses, IsDisplayed, read_of, parse_remmina_profile-Parses}
use remmina_krunner.Application.{
  run_application, run_rescan, report_lines, count_kinds, count_kind, scan_status, selected_kind,
  kind_name,
}
use remmina_krunner.Application.Report.{Exits, run_application-Exits}
use remmina_krunner.Tests.Data.{native_one, snap_one, is_alphanumeric}

abbrev digit : ℕ → Text
digit n = (48 + n) ∷ []

abbrev snapshot : RegistrySnapshot
snapshot = record {
  instances = snap_one ∷ native_one ∷ [];
  selected_id = codes "snap:remmina";
  failed_backends = [];
}

abbrev rescan : List Text
rescan = codes "remmina-krunner" ∷ codes "--rescan" ∷ []

run_application-Exits_example :
    Exits digit rescan
      (some snapshot)
      none
      true
      (run_application digit rescan (some snapshot) none true)
run_application-Exits_example = run_application-Exits digit rescan (some snapshot) none true

reports :
    (run_application digit rescan (some snapshot) none true).output
    ≡ codes "scan_status=available\ninstances=2\nnative=1\nflatpak=0\nsnap=1\nselected_type=snap\n"
unfolding run_application run_rescan report_lines count_kinds count_kind scan_status selected_kind
    kind_name selected_instance equal
reports = refl

abbrev same : Text → Text
same t = t

abbrev file : Option File
file = some (record { bytes = codes "[remmina]\nname=Web\nlabels=a,,b\n"; fails = false })

abbrev web : ProfileRecord
web = record {
  opaque_id = codes "1";
  source_path = codes "/p";
  launch_path = codes "/q";
  name = codes "Web";
  server = [];
  labels = codes "a" ∷ codes "b" ∷ [];
  labels_display = codes "a,,b";
  protocol = [];
}

parses :
    parse_remmina_profile same is_alphanumeric same file (codes "/p") (codes "/q") (codes "1")
    ≡ parsed web
unfolding parse_remmina_profile parse_result profile_of labels_in split lookup
    read_allowed_key_file_values_with_error read_lines read_round read_content read_entry_at
    read_header finish store_value exceeds without_ending drop_key read_line insert remove
    decode_value decode_from unescape trimmed_group_header trimmed_key left_trimmed trim_end
    trim_start is_syntactic_whitespace is_valid_group_name bad_group_byte is_valid_key_name
    valid_locale is_locale_character index_of is_valid_utf8 valid_from has_continuation_bytes
    is_continuation_byte equal
parses = refl

parse_remmina_profile-Parses_example :
    Parses same
      (codes "/p")
      (codes "/q")
      (codes "1")
      (read_of same is_alphanumeric same file)
      (parse_remmina_profile same is_alphanumeric same file (codes "/p") (codes "/q") (codes "1"))
    × IsDisplayed same is_alphanumeric same (read_of same is_alphanumeric same file)
parse_remmina_profile-Parses_example =
    parse_remmina_profile-Parses same is_alphanumeric same file (codes "/p") (codes "/q")
      (codes "1")
