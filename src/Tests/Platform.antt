-- ===== src/Tests/Platform.antt =====
-- The watcher of paths and the probe of a child process.
use remmina_krunner.Base.{
  ℕ, zero, suc, ◌+◌, Text, codes, List, [], ◌∷◌, ◌++◌, none, some, Bool, true, false, ◌≡◌, ◌↔◌,
  refl, arith, In, starts_with,
}
use mathlib.Core.List.{append-nil}
use remmina_krunner.ProcessProbe.{
  maximum_standard_output_bytes, success, Round, arrived, ended, ChildProcess, untouched, run,
}
use remmina_krunner.ProcessProbe.Output.{Succeeds, run_iff}
use remmina_krunner.ProcessProbe.Termination.{Returns, run-Returns}
use remmina_krunner.ProfileWatcher.{FileSystemWatcher, Watcher, replace_paths, slot}
use remmina_krunner.ProfileWatcher.Calls.{Replaces, replace_paths-Replaces}
use remmina_krunner.ProfileWatcher.Stale.{Call, clears, replaces, slot_stale}
use remmina_krunner.ProfileWatcher.Stale

-- The output of `flatpak list` in two parts.
abbrev two_parts : ℕ → Round
two_parts zero = arrived b'o' (codes "rg") true
two_parts (suc i) = ended (codes ".remmina")

abbrev listing : ChildProcess
listing = record {
  supported = true;
  started = true;
  start_expired = false;
  running_unstarted = false;
  early = codes "x ";
  running = true;
  rounds = two_parts;
  exited_normally = true;
  exit_code_zero = true;
  reaped_in_time = true;
}

-- A process that writes one byte after the other and never ends.
abbrev endless : ChildProcess
endless = record listing { rounds = λ i. arrived b'a' [] true }

reads_both : run listing 100 ≡ some (success (codes "x org.remmina"), untouched)
unfolding run
reads_both = refl

run_iff_example :
    (run listing (maximum_standard_output_bytes + 2)
      ≡ some (success (codes "x org.remmina"), untouched))
    ↔ Succeeds listing (codes "x org.remmina")
run_iff_example =
    run_iff listing (maximum_standard_output_bytes + 2) (codes "x org.remmina") (omega arith)

run-Returns_example : Returns (run endless (maximum_standard_output_bytes + 2))
run-Returns_example = run-Returns endless (maximum_standard_output_bytes + 2) (omega arith)

-- A watcher that watches everything as a file, if the first path does not stand below /missing.
abbrev add_all : List Text → List Text → List Text × List Text
add_all paths s = ([], s ++ paths)

added_all :
    (paths s : List Text)
    → s ≡ []
    → (d : List Text) → d ≡ []
    → (path : Text) → In path ((s ++ paths) ++ []) ↔ In path paths
added_all paths s e d _ path = rw (e, append-nil) (λ h. h, λ h. h)

abbrev system : FileSystemWatcher
system = record {
  State = List Text;
  files = λ s. s;
  directories = λ s. [];
  add_paths = add_all;
  remove_paths = λ paths s. [];
  removed = λ s. (refl, refl);
  added = λ paths s e d _. added_all paths s e [] d;
}

abbrev is_absolute : Text → Bool
is_absolute path = starts_with path (codes "/")

abbrev fresh : Watcher system ℕ
fresh = record {
  watcher = codes "/old" ∷ [];
  callback = some 1;
  directory_connection = some 0;
  file_connection = some 0;
  generation = 0;
}

abbrev both_paths : List Text
both_paths = codes "/a" ∷ codes "/b" ∷ codes "/a" ∷ []

replace_paths-Replaces_example :
    Replaces system ℕ is_absolute
      (λ p. p)
      both_paths
      (some 2)
      (replace_paths system ℕ is_absolute (λ p. p) both_paths (some 2) fresh)
replace_paths-Replaces_example =
    replace_paths-Replaces system ℕ is_absolute (λ p. p) both_paths (some 2) fresh

slot_stale_example :
    slot system ℕ 0
      (Stale.run system ℕ is_absolute (λ p. p) (replaces both_paths (some 2) ∷ clears ∷ []) fresh)
    ≡ none
slot_stale_example =
    slot_stale system ℕ is_absolute (λ p. p) (replaces both_paths (some 2) ∷ clears ∷ []) fresh
      (omega arith) (λ z. cc) (omega arith)
