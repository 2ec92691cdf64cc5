-- ===== src/ProcessProbe.antt =====
-- src/platform/qt_process_probe.cpp: the output of a child process, read up to a bound and a
-- deadline. QProcess and the deadline are an argument: what each wait of the loop finds.
pub mod Output
pub mod Termination
use remmina_krunner.Base.{
  Text, List, [], ◌∷◌, ◌++◌, Option, none, some, if◌then◌else◌, Bool, true, false, not, ◌&&◌, ℕ,
  zero, suc, ◌+◌, ◌-◌, ltb, length, take, drop,
}

abbrev pub maximum_standard_output_bytes : ℕ
maximum_standard_output_bytes = 65536

pub data ProbeResult : Type 0 where
  success : Text → ProbeResult
  failed timed_out output_too_large : ProbeResult

-- What a round of the loop finds behind its read. `waitForReadyRead` returns true only when new
-- bytes have arrived.
pub data Round : Type 0 where
  -- No time remains.
  out_of_time : Round
  -- Bytes have arrived, at least one; the flag tells whether the process still runs.
  arrived : ℕ → Text → Bool → Round
  -- Nothing more was waited for, and the process has ended; these bytes are left to read.
  ended : Text → Round
  -- The wait failed while the process runs; the flag tells whether the deadline has expired.
  silent : Bool → Round

pub record ChildProcess : Type 0 where
  -- The caller is on the thread of an application that is not closing down.
  pub supported : Bool
  -- It was started in time; if not, whether the deadline had expired, and whether it is running.
  pub started : Bool
  pub start_expired : Bool
  pub running_unstarted : Bool
  -- The bytes that the first read finds, and whether it runs then.
  pub early : Text
  pub running : Bool
  pub rounds : ℕ → Round
  -- `exitStatus() == NormalExit`, and `exitCode() == 0`
  pub exited_normally : Bool
  pub exit_code_zero : Bool
  -- A kill ends it within the period of grace.
  pub reaped_in_time : Bool

-- What became of the process: nothing was to be done, it was killed and reaped, or it was left to
-- be deleted when it ends.
pub data Fate : Type 0 where
  untouched killed deferred : Fate

-- The read of a round: whether it stayed within the bound, the bytes that are left and the output.
unfoldable pub append_bounded_standard_output : Text → Text → Bool × Text × Text
append_bounded_standard_output pending output =
    let remaining = maximum_standard_output_bytes - length output in
    let chunk = take (remaining + 1) pending in
    let left = drop (remaining + 1) pending in
    if ltb remaining (length chunk) then (false, left, output) else (true, left, output ++ chunk)

module _ (p : ChildProcess) where
  unfoldable pub kill_and_reap_or_defer : Bool → Fate
  kill_and_reap_or_defer running =
      if not running then untouched else if p.reaped_in_time then killed else deferred

  unfoldable pub stopped_probe_result : ProbeResult → Bool → ProbeResult × Fate
  unfolding kill_and_reap_or_defer
  stopped_probe_result status running = (status, kill_and_reap_or_defer running)

  -- Behind the loop: the last read, and the exit code.
  unfoldable pub finish : Text → Text → ProbeResult × Fate
  unfolding append_bounded_standard_output stopped_probe_result
  finish pending output =
      let (within, left, whole) = append_bounded_standard_output pending output in
      if not within
      then stopped_probe_result output_too_large false
      else if not (p.exited_normally && p.exit_code_zero)
      then (failed, untouched)
      else (success whole, untouched)

  -- The wait of a round; `again` goes on with the bytes to read and whether the process runs.
  unfoldable pub after_wait :
      Round → Text → (Text → Bool → Option (ProbeResult × Fate)) → Option (ProbeResult × Fate)
  unfolding stopped_probe_result
  after_wait out_of_time left again = some (stopped_probe_result timed_out true)
  after_wait (arrived byte bytes running) left again = again (left ++ byte ∷ bytes) running
  after_wait (ended bytes) left again = again (left ++ bytes) false
  after_wait (silent true) left again = some (stopped_probe_result timed_out true)
  after_wait (silent false) left again = some (stopped_probe_result failed true)

  -- The loop, from a round on. `none` means that the fuel ran out.
  unfoldable pub read_output : ℕ → ℕ → Text → Bool → Text → Option (ProbeResult × Fate)
  unfolding finish append_bounded_standard_output stopped_probe_result after_wait
  read_output zero i pending running output = none
  read_output (suc fuel) i pending false output = some (finish pending output)
  read_output (suc fuel) i pending true output =
      let (within, left, whole) = append_bounded_standard_output pending output in
      let rest =
        after_wait (p.rounds i) left
          (λ next running. read_output fuel (suc i) next running whole) in
      if not within then some (stopped_probe_result output_too_large true) else rest

  unfoldable pub run : ℕ → Option (ProbeResult × Fate)
  unfolding read_output stopped_probe_result
  run fuel =
      if not p.supported
      then some (failed, untouched)
      else if not p.started
      then some
          (stopped_probe_result (if p.start_expired then timed_out else failed) p.running_unstarted)
      else read_output fuel 0 p.early p.running []
