-- ===== src/Tests/Data.antt =====
-- Installations, stores and characters for the tests.
use remmina_krunner.Base.{
  ℕ, Text, codes, [], ◌∷◌, map, if◌then◌else◌, Bool, true, false, ◌&&◌, ◌||◌, ◌≡◌, arith, leb, ◌==◌,
  ◌+◌,
}
use remmina_krunner.Instance.{native, snap, InstanceKind, RemminaInstance, ProfileEnvironment}
use remmina_krunner.Profile.{ProfileRecord}
use remmina_krunner.Registry.{SelectionStore}

abbrev pub no_profiles : ProfileEnvironment
no_profiles = record { config_home = []; data_home = []; legacy_home = []; system_data_homes = [] }

abbrev pub installed : Text → InstanceKind → RemminaInstance
installed id kind = record {
  id = id;
  kind = kind;
  display_name = id;
  executable = codes "/usr/bin/remmina";
  launcher_prefix = [];
  profiles = no_profiles;
}

abbrev pub native_one : RemminaInstance
native_one = installed (codes "native:/a") native

abbrev pub snap_one : RemminaInstance
snap_one = installed (codes "snap:remmina") snap

-- A store that is one text, and that can be read-only.
abbrev pub CellState : Type 0
CellState = Text × Bool

abbrev write_cell : Text → CellState → Bool × CellState
write_cell id (old, writable) = (writable, (if writable then id else old, writable))

pub written_cell :
    (id : Text) (s : CellState) → (write_cell id s).0 ≡ true → (write_cell id s).1.0 ≡ id
written_cell id (old, writable) h = ground arith

pub refused_cell :
    (id : Text) (s : CellState) → (write_cell id s).0 ≡ false → (write_cell id s).1.0 ≡ s.0
refused_cell id (old, writable) h = ground arith

abbrev pub cell : SelectionStore
cell = record {
  State = CellState;
  selected_id = λ s. s.0;
  write_selected_id = write_cell;
  written = written_cell;
  refused = refused_cell;
}

-- ASCII stand-ins for Qt's character functions.
abbrev pub is_blank : ℕ → Bool
is_blank c = c == 32 || c == 9

abbrev lower_code : ℕ → ℕ
lower_code c = if leb b'A' c && leb c b'Z' then c + 32 else c

abbrev pub lower : Text → Text
lower = map lower_code

abbrev pub is_alphanumeric : ℕ → Bool
is_alphanumeric c =
    (leb b'a' c && leb c b'z') || (leb b'A' c && leb c b'Z') || (leb b'0' c && leb c b'9')

abbrev pub profile : Text → Text → Text → ProfileRecord
profile id name server = record {
  opaque_id = id;
  source_path = id;
  launch_path = id;
  name = name;
  server = server;
  labels = codes "Office" ∷ [];
  labels_display = codes "Office";
  protocol = codes "RDP";
}
