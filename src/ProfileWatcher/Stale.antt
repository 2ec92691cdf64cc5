-- ===== src/ProfileWatcher/Stale.antt =====
-- A slot that belongs to an earlier generation runs nothing.
use remmina_krunner.Base.{
  Text, List, [], ◌∷◌, Option, none, some, Bool, false, is_empty, ◌≡◌, ◌≢◌, ℕ, ◌+◌, ◌%◌, ◌*◌, ◌<◌,
  ◌≤◌, ◌==◌, refl, ap, ◌∙◌, arith, length, Bool-cases, inl, inr, ◌⊎◌,
}
use remmina_krunner.ProfileWatcher.{
  FileSystemWatcher, generations, normalize, Watcher, clear, install, install_normalized, slot,
  replace_paths,
}

-- The calls that replace what is watched.
pub data Call (Callback : Type 0) : Type 0 where
  clears : Call Callback
  replaces : List Text → Option Callback → Call Callback

module _ (system : FileSystemWatcher) (Callback : Type 0) (is_absolute_path : Text → Bool)
    (clean_path : Text → Text) where
  open system use {State, add_paths}

  -- Between two watchers the generation has gone up by at least one and at most two, modulo 2^64.
  abbrev Moves : Watcher system Callback → Watcher system Callback → Type 0
  Moves w v =
      (v.generation ≡ (w.generation + 1) % generations)
      ⊎ (v.generation ≡ (w.generation + 2) % generations)

  pub step : Call Callback → Watcher system Callback → Watcher system Callback
  step clears w = clear system Callback w
  step (replaces paths callback) w =
      (replace_paths system Callback is_absolute_path clean_path paths callback w).1

  pub run : List (Call Callback) → Watcher system Callback → Watcher system Callback
  unfolding step
  run [] w = w
  run (c ∷ cs) w = run cs (step c w)

  clear-generation :
      (w : Watcher system Callback)
      → (clear system Callback w).generation ≡ (w.generation + 1) % generations
  unfolding clear
  clear-generation w = refl

  install-generation :
      (paths : List Text) (c : Callback) (w : Watcher system Callback)
      → ((install system Callback paths c w).1.generation ≡ w.generation)
        ⊎ ((install system Callback paths c w).1.generation ≡ (w.generation + 1) % generations)
  unfolding install clear
  install-generation paths c w = elim (Bool-cases (is_empty (add_paths paths w.watcher).0)) [
    | inl y ↦ rw y (inl refl)
    | inr n ↦ rw n (inr refl)
  ]

  normalized-generation :
      (n : Option (List Text)) (c : Callback) (w : Watcher system Callback)
      → ((install_normalized system Callback n c w).1.generation ≡ w.generation)
        ⊎ ((install_normalized system Callback n c w).1.generation
            ≡ (w.generation + 1) % generations)
  unfolding install_normalized
  normalized-generation none c w = inl refl
  normalized-generation (some []) c w = inl refl
  normalized-generation (some (x ∷ xs)) c w = install-generation (x ∷ xs) c w

  twice : (g : ℕ) → ((g + 1) % generations + 1) % generations ≡ (g + 2) % generations
  twice g = omega arith

  step-Moves : (c : Call Callback) (w : Watcher system Callback) → Moves w (step c w)
  unfolding step replace_paths
  step-Moves clears w = inl (clear-generation w)
  step-Moves (replaces paths none) w = inl (clear-generation w)
  step-Moves (replaces [] (some c)) w = inl (clear-generation w)
  step-Moves (replaces (p ∷ ps) (some c)) w =
      elim (normalized-generation (normalize is_absolute_path clean_path (p ∷ ps)) c
        (clear system Callback w)) [
          | inl e ↦ inl (e ∙ clear-generation w)
          | inr e ↦
              inr (e ∙ ap (λ g. (g + 1) % generations) (clear-generation w) ∙ twice w.generation)
        ]

  -- How far the generation has gone up.
  run-generation :
      (cs : List (Call Callback)) (w : Watcher system Callback)
      → w.generation < generations
      → (k : ℕ) × (length cs ≤ k)
        × (k ≤ length cs * 2)
        × ((run cs w).generation ≡ (w.generation + k) % generations)
  unfolding run
  run-generation [] w h = (0, omega arith, omega arith, omega arith)
  run-generation (c ∷ cs) w h = elim (step-Moves c w) [
    | inl e ↦
        let (k, lo, hi, g) = run-generation cs (step c w) (omega arith) in
        (k + 1, omega arith, omega arith, omega arith)
    | inr e ↦
        let (k, lo, hi, g) = run-generation cs (step c w) (omega arith) in
        (k + 2, omega arith, omega arith, omega arith)
  ]

  -- A slot that has captured the present generation runs nothing once there has been a call that
  -- replaces or clears what is watched, as long as there have been fewer than 2^63 of them.
  pub slot_stale :
      (cs : List (Call Callback)) (w : Watcher system Callback)
      → w.generation < generations
      → cs ≢ []
      → length cs * 2 < generations
      → slot system Callback w.generation (run cs w) ≡ none
  unfolding slot
  slot_stale [] w h n b = absurd (n refl)
  slot_stale (c ∷ cs) w h n b =
      let (k, lo, hi, g) = run-generation (c ∷ cs) w h in
      let apart : (w.generation == (run (c ∷ cs) w).generation) ≡ false = ground arith in rw apart
