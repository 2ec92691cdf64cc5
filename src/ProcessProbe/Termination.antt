-- ===== src/ProcessProbe/Termination.antt =====
-- The loop over the output ends, however long the process runs.
use remmina_krunner.Base.{
  Text, [], ◌∷◌, ◌++◌, Option, some, Bool, true, false, ℕ, zero, suc, ◌+◌, ◌≤◌, length,
  length-append, ◌≡◌, refl, arith, inl, inr, Bool-cases,
}
use remmina_krunner.ProcessProbe.{
  maximum_standard_output_bytes, ProbeResult, Round, out_of_time, arrived, ended, silent,
  ChildProcess, Fate, finish, after_wait, read_output, run,
}
use remmina_krunner.ProcessProbe.Output.{append_cases, read_output_step}

-- There is a result, so the fuel has not run out.
abbrev pub Returns : Option (ProbeResult × Fate) → Type 0
Returns o = (r : ProbeResult × Fate) × (o ≡ some r)

module _ (p : ChildProcess) where
  closed-Returns :
      (fuel i : ℕ) (pending output : Text)
      → 1 ≤ fuel
      → Returns (read_output p fuel i pending false output)
  unfolding read_output
  closed-Returns zero i pending output f = absurd (omega arith)
  closed-Returns (suc fuel) i pending output f = (finish p pending output, refl)

  after_wait-Returns :
      (r : Round) (again : Text → Bool → Option (ProbeResult × Fate))
      → ((byte : ℕ) (bytes : Text) (still : Bool) → Returns (again (byte ∷ bytes) still))
      → ((bytes : Text) → Returns (again bytes false))
      → Returns (after_wait p r [] again)
  unfolding after_wait
  after_wait-Returns out_of_time again a e = (_, refl)
  after_wait-Returns (arrived byte bytes still) again a e = a byte bytes still
  after_wait-Returns (ended bytes) again a e = e bytes
  after_wait-Returns (silent true) again a e = (_, refl)
  after_wait-Returns (silent false) again a e = (_, refl)

  step-Returns :
      (fuel i : ℕ) (pending output : Text)
      → length output ≤ maximum_standard_output_bytes
      → ((byte : ℕ) (bytes : Text) (still : Bool)
          → length (output ++ pending) ≤ maximum_standard_output_bytes
          → Returns (read_output p fuel (suc i) (byte ∷ bytes) still (output ++ pending)))
      → (length (output ++ pending) ≤ maximum_standard_output_bytes → 1 ≤ fuel)
      → Returns (read_output p (suc fuel) i pending true output)
  unfolding read_output
  step-Returns fuel i pending output h a f = elim (append_cases pending output h) [
    | inl (fits, _) ↦ rw (read_output_step p fuel i pending output fits) (
        after_wait-Returns (p.rounds i) _ (λ byte bytes still. a byte bytes still (room fits))
          (λ bytes. closed-Returns fuel (suc i) bytes (output ++ pending) (f (room fits))))
    | inr (over, n) ↦ rw n (_, refl)
  ]
    where
      room :
          length output + length pending ≤ maximum_standard_output_bytes
          → length (output ++ pending) ≤ maximum_standard_output_bytes
      room fits = omega (arith, length-append output pending)

  -- Each later round finds a byte to read, and the output has room for so many.
  busy-Returns :
      (fuel i : ℕ) (pending : Text) (running : Bool) (output : Text)
      → 1 ≤ length pending
      → length output ≤ maximum_standard_output_bytes
      → maximum_standard_output_bytes + 1 ≤ fuel + length output
      → Returns (read_output p fuel i pending running output)
  unfolding read_output
  busy-Returns zero i pending running output l h f = absurd (omega arith)
  busy-Returns (suc fuel) i pending false output l h f =
      closed-Returns (suc fuel) i pending output (omega arith)
  busy-Returns (suc fuel) i pending true output l h f =
      step-Returns fuel i pending output h
        (λ byte bytes still b.
          busy-Returns fuel (suc i) (byte ∷ bytes) still (output ++ pending) (omega arith) b
            (omega (arith, length-append output pending)))
        (λ b. omega (arith, length-append output pending))

  first-Returns :
      (fuel : ℕ) (running : Bool)
      → maximum_standard_output_bytes + 2 ≤ fuel
      → Returns (read_output p fuel 0 p.early running [])
  first-Returns zero running f = absurd (omega arith)
  first-Returns (suc fuel) false f = closed-Returns (suc fuel) 0 p.early [] (omega arith)
  first-Returns (suc fuel) true f =
      step-Returns fuel 0 p.early [] (omega arith)
        (λ byte bytes still b.
          busy-Returns fuel 1 (byte ∷ bytes) still p.early (omega arith) b (omega arith))
        (λ b. omega arith)

  -- With fuel for one round more than the bound and one the run has a result, whatever the process
  -- writes and for however long.
  pub run-Returns : (fuel : ℕ) → maximum_standard_output_bytes + 2 ≤ fuel → Returns (run p fuel)
  unfolding run
  run-Returns fuel f = elim (Bool-cases p.supported) [
    | inr n ↦ rw n (_, refl)
    | inl y ↦ elim (Bool-cases p.started) [
      | inr n ↦ rw (y, n) (_, refl)
      | inl z ↦ rw (y, z) (first-Returns fuel p.running f)
    ]
  ]
