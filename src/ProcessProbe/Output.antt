-- ===== src/ProcessProbe/Output.antt =====
-- The output of a successful run is all that the process wrote.
use remmina_krunner.Base.{
  Text, [], ◌∷◌, ◌++◌, Option, some, Bool, true, false, ◌&&◌, ℕ, zero, suc, ◌+◌, ◌-◌, ◌≤◌, ◌<◌, ltb,
  length, take, drop, length-append, ◌≡◌, ◌≢◌, refl, sym, ap, ◌∙◌, arith, ◌⊎◌, inl, inr, ◌↔◌,
  Bool-cases,
}
use mathlib.Core.List.{append_assoc, append-nil}
use remmina_krunner.ProcessProbe.{
  maximum_standard_output_bytes, ProbeResult, success, output_too_large, Round, out_of_time,
  arrived, ended, silent, ChildProcess, Fate, untouched, append_bounded_standard_output, finish,
  after_wait, read_output, run, stopped_probe_result,
}

take_all : (n : ℕ) (xs : Text) → length xs ≤ n → (take n xs ≡ xs) × (drop n xs ≡ [])
take_all zero [] h = (refl, refl)
take_all zero (x ∷ xs) h = absurd (omega arith)
take_all (suc n) [] h = (refl, refl)
take_all (suc n) (x ∷ xs) h =
    let (t, d) = take_all n xs (omega arith) in (ap (λ (l : Text). x ∷ l) t, d)

length-take : (n : ℕ) (xs : Text) → n ≤ length xs → length (take n xs) ≡ n
length-take zero xs h = refl
length-take (suc n) [] h = absurd (omega arith)
length-take (suc n) (x ∷ xs) h = ap suc (length-take n xs (omega arith))

-- The read takes all that is there, or the bound is exceeded.
pub append_cases :
    (pending output : Text)
    → length output ≤ maximum_standard_output_bytes
    → ((length output + length pending ≤ maximum_standard_output_bytes)
        × (append_bounded_standard_output pending output ≡ (true, [], output ++ pending)))
      ⊎ ((maximum_standard_output_bytes < length output + length pending)
          × ((append_bounded_standard_output pending output).0 ≡ false))
unfolding append_bounded_standard_output
append_cases pending output h =
    elim (Bool-cases (ltb (maximum_standard_output_bytes - length output) (length pending))) [
      | inl over ↦ inr (
        ground arith,
        ground (arith, length-take (maximum_standard_output_bytes - length output + 1) pending),
      )
      | inr fits ↦
          let (t, d) =
            take_all (maximum_standard_output_bytes - length output + 1) pending (ground arith) in
          inl (ground arith, rw (t, d, fits))
    ]

too_large_ne :
    (out : Text) (fate other : Fate)
    → ◌≢◌ {A = Option (ProbeResult × Fate)}
        (some (output_too_large, other))
        (some (success out, fate))
too_large_ne out fate other e = cc

module _ (p : ChildProcess) where
  -- What the process still writes from a round on, until it has ended.
  pub data Writes : ℕ → Bool → Text → Type 0 where
    closed :
        {i : ℕ} {running : Bool} {rest : Text} → running ≡ false → rest ≡ [] → Writes i running rest
    continued :
        {i : ℕ} {running : Bool} {rest : Text} (byte : ℕ) (bytes later : Text) (still : Bool)
        → running ≡ true
        → p.rounds i ≡ arrived byte bytes still
        → Writes (suc i) still later
        → rest ≡ byte ∷ (bytes ++ later)
        → Writes i running rest
    last :
        {i : ℕ} {running : Bool} {rest : Text}
        → running ≡ true
        → p.rounds i ≡ ended rest
        → Writes i running rest

  -- It exits normally with the code 0.
  abbrev pub Exits : Type 0
  Exits = (p.exited_normally ≡ true) × (p.exit_code_zero ≡ true)

  finish_sound :
      (pending output out : Text) (fate : Fate)
      → length output ≤ maximum_standard_output_bytes
      → finish p pending output ≡ (success out, fate)
      → (out ≡ output ++ pending) × (length out ≤ maximum_standard_output_bytes) × Exits
  unfolding finish
  finish_sound pending output out fate h e = elim (append_cases pending output h) [
    | inl (fits, a) ↦
        let f = rw a at e in
        elim (Bool-cases (p.exited_normally && p.exit_code_zero)) [
          | inl z ↦
              let same : out ≡ output ++ pending = ground arith in
              (same, omega (arith, ap length same, length-append output pending), ground arith)
          | inr z ↦ ground arith
        ]
    | inr (over, a) ↦ ground arith
  ]

  finish_complete :
      (pending output : Text)
      → length output + length pending ≤ maximum_standard_output_bytes
      → Exits
      → finish p pending output ≡ (success (output ++ pending), untouched)
  unfolding finish
  finish_complete pending output h x = elim (append_cases pending output (omega arith)) [
    | inl (fits, a) ↦ rw (a, x.0, x.1)
    | inr (over, a) ↦ absurd (omega arith)
  ]

  -- The rest of the run, cut into what this round still reads and the later rounds.
  Split : ℕ → Bool → Text → Text → Text → Type 0
  Split i running output pending out =
      (rest : Text) × Writes i running rest × (out ≡ output ++ (pending ++ rest))

  -- What holds of a run that succeeds, from a round on.
  Reads : ℕ → Bool → Text → Text → Text → Type 0
  Reads i running output pending out =
      Split i running output pending out × (length out ≤ maximum_standard_output_bytes) × Exits

  nothing_later : (i : ℕ) (rest : Text) → Writes i false rest → rest ≡ []
  nothing_later i rest (closed _ e) = e
  nothing_later i rest (continued _ _ _ _ e _ _ _) = cc
  nothing_later i rest (last e _) = cc

  after_wait_sound :
      (fuel i : ℕ) (pending output out : Text) (fate : Fate) (r : Round)
      → p.rounds i ≡ r
      → ((next : Text) (still : Bool)
          → read_output p fuel (suc i) next still (output ++ pending) ≡ some (success out, fate)
          → Reads (suc i) still (output ++ pending) next out)
      → after_wait p r [] (λ next still. read_output p fuel (suc i) next still (output ++ pending))
        ≡ some (success out, fate)
      → Reads i true output pending out
  unfolding after_wait stopped_probe_result Reads Split
  after_wait_sound fuel i pending output out fate out_of_time q ih e = cc
  after_wait_sound fuel i pending output out fate (silent true) q ih e = cc
  after_wait_sound fuel i pending output out fate (silent false) q ih e = cc
  after_wait_sound fuel i pending output out fate (arrived byte bytes still) q ih e =
      let ((rest, w, same), bound, x) = ih (byte ∷ bytes) still e in
      (
        (
          byte ∷ (bytes ++ rest),
          continued byte bytes rest still refl q w refl,
          same ∙ append_assoc output pending (byte ∷ (bytes ++ rest)),
        ),
        bound,
        x,
      )
  after_wait_sound fuel i pending output out fate (ended bytes) q ih e =
      let ((rest, w, same), bound, x) = ih bytes false e in
      let none_left : rest ≡ [] = nothing_later (suc i) rest w in
      (
        (
          bytes,
          last refl q,
          same
              ∙ ap (λ (t : Text). (output ++ pending) ++ (bytes ++ t)) none_left
              ∙ simp (append-nil, append_assoc),
        ),
        bound,
        x,
      )

  read_output_sound :
      (fuel i : ℕ) (pending : Text) (running : Bool) (output out : Text) (fate : Fate)
      → length output ≤ maximum_standard_output_bytes
      → read_output p fuel i pending running output ≡ some (success out, fate)
      → Reads i running output pending out
  unfolding read_output stopped_probe_result Split Reads
  read_output_sound zero i pending running output out fate h e = cc
  read_output_sound (suc fuel) i pending false output out fate h e =
      let (same, bound, x) = finish_sound pending output out fate h (ground arith) in
      (
        ([], closed refl refl, same ∙ ap (λ (t : Text). output ++ t) (sym (append-nil pending))),
        bound,
        x,
      )
  read_output_sound (suc fuel) i pending true output out fate h e =
      elim (append_cases pending output h) [
        | inl (fits, a) ↦
            after_wait_sound fuel i pending output out fate (p.rounds i) refl
              (λ next still k.
                read_output_sound fuel (suc i) next still (output ++ pending) out fate
                  (omega (arith, length-append output pending)) k)
              (rw a at e)
        | inr (over, a) ↦ absurd (too_large_ne out fate _ (rw a at e))
      ]

  pub read_output_step :
      (fuel i : ℕ) (pending output : Text)
      → length output + length pending ≤ maximum_standard_output_bytes
      → read_output p (suc fuel) i pending true output
        ≡ after_wait p
            (p.rounds i)
            []
            (λ next still. read_output p fuel (suc i) next still (output ++ pending))
  unfolding read_output
  read_output_step fuel i pending output h = elim (append_cases pending output (omega arith)) [
    | inl (fits, a) ↦ rw a
    | inr (over, a) ↦ absurd (omega arith)
  ]

  ended_output :
      (fuel i : ℕ) (pending output : Text)
      → length output + length pending ≤ maximum_standard_output_bytes
      → 1 ≤ fuel
      → Exits
      → read_output p fuel i pending false output ≡ some (success (output ++ pending), untouched)
  unfolding read_output
  ended_output zero i pending output b f x = absurd (omega arith)
  ended_output (suc fuel) i pending output b f x = ap some (finish_complete pending output b x)

  read_output_complete :
      (fuel i : ℕ) (pending : Text) (running : Bool) (output rest : Text)
      → Writes i running rest
      → length output + length pending + length rest ≤ maximum_standard_output_bytes
      → length rest + 2 ≤ fuel
      → Exits
      → read_output p fuel i pending running output
        ≡ some (success (output ++ (pending ++ rest)), untouched)
  unfolding read_output after_wait
  read_output_complete zero i pending running output rest w b f x = absurd (omega arith)
  read_output_complete (suc fuel) i pending running output rest (closed s e) b f x =
      rw (s, e, append-nil) (ap some (finish_complete pending output (omega arith) x))
  read_output_complete (suc fuel) i pending running output rest
        (continued byte bytes later still s q w e) b f x =
      let size : length rest ≡ suc (length bytes + length later) =
        ap length e ∙ ap suc (length-append bytes later) in
      rw (s, read_output_step fuel i pending output (omega arith), q)
        (read_output_complete fuel (suc i) (byte ∷ bytes) still (output ++ pending) later w
            (omega (arith, length-append output pending)) (omega arith) x
          ∙ ap (λ (t : Text). some (success t, untouched))
              (append_assoc output pending (byte ∷ (bytes ++ later))
                ∙ ap (λ (t : Text). output ++ (pending ++ t)) (sym e)))
  read_output_complete (suc fuel) i pending running output rest (last s q) b f x =
      rw (s, read_output_step fuel i pending output (omega arith), q)
        (ended_output fuel (suc i) rest (output ++ pending)
            (omega (arith, length-append output pending)) (omega arith) x
          ∙ ap (λ (t : Text). some (success t, untouched)) (append_assoc output pending rest))

  -- What a run with this output says of the process.
  abbrev pub Succeeds : Text → Type 0
  Succeeds out =
      (p.supported ≡ true)
      × (p.started ≡ true)
      × ((rest : Text) × Writes 0 p.running rest × (out ≡ p.early ++ rest))
      × (length out ≤ maximum_standard_output_bytes)
      × Exits

  run_sound : (fuel : ℕ) (out : Text) → run p fuel ≡ some (success out, untouched) → Succeeds out
  unfolding run stopped_probe_result Split Reads
  run_sound fuel out e = elim (Bool-cases p.supported) [
    | inr n ↦ ground arith
    | inl y ↦ elim (Bool-cases p.started) [
      | inr n ↦ ground arith
      | inl z ↦
          let ((rest, w, same), bound, x) =
            read_output_sound fuel 0 p.early p.running [] out untouched (omega arith)
              (simp (y, z) at e) in
          (y, z, (rest, w, same), bound, x)
    ]
  ]

  run_complete :
      (fuel : ℕ) (out : Text)
      → maximum_standard_output_bytes + 2 ≤ fuel
      → Succeeds out
      → run p fuel ≡ some (success out, untouched)
  unfolding run
  run_complete fuel out f (y, z, (rest, w, same), bound, x) =
      let size : length out ≡ length p.early + length rest =
        ap length same ∙ length-append p.early rest in
      rw (y, z)
        (read_output_complete fuel 0 p.early p.running [] rest w (omega arith) (omega arith) x
          ∙ ap (λ (t : Text). some (success t, untouched)) (sym same))

  -- With fuel for one round more than the bound and one, a run succeeds with an output exactly when
  -- the process was started, the output is all that it wrote until it ended, at most 64 KiB, and
  -- it exited normally with the code 0.
  pub run_iff :
      (fuel : ℕ) (out : Text)
      → maximum_standard_output_bytes + 2 ≤ fuel
      → (run p fuel ≡ some (success out, untouched)) ↔ Succeeds out
  run_iff fuel out f = (run_sound fuel out, run_complete fuel out f)
