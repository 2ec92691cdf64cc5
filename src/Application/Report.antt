-- ===== src/Application/Report.antt =====
-- The exit code and the counts of the report.
use remmina_krunner.Base.{
  ℕ, suc, ◌+◌, Text, codes, equal, equal_iff, length, List, [], ◌∷◌, Option, none, some,
  if◌then◌else◌, Bool, false, ◌≡◌, ◌≢◌, refl, ap, arith, inl, inr, ◌⊎◌, Bool-cases,
  ne_of_equal-false,
}
use remmina_krunner.Instance.{
  InstanceKind, native, flatpak, snap, RemminaInstance, RegistrySnapshot,
}
use remmina_krunner.Application.{
  Counts, count_kind, count_kinds, no_counts, Exit, report_lines, run_rescan, start_service,
  run_application,
}

abbrev pub total : Counts → ℕ
total counts = counts.native_count + counts.flatpak_count + counts.snap_count

count_kind-total : (k : InstanceKind) (c : Counts) → total (count_kind k c) ≡ suc (total c)
unfolding count_kind
count_kind-total native c = omega arith
count_kind-total flatpak c = omega arith
count_kind-total snap c = omega arith

-- The counts of the report add up to the number of installations, whatever was counted before.
pub total-count_kinds :
    (l : List RemminaInstance) (c : Counts) → total (count_kinds l c) ≡ total c + length l
unfolding count_kinds
total-count_kinds [] c = omega arith
total-count_kinds (i ∷ l) c =
    omega (arith, total-count_kinds l (count_kind i.kind c), count_kind-total i.kind c)

total-all : (l : List RemminaInstance) → total (count_kinds l no_counts) ≡ length l
total-all l = omega (arith, total-count_kinds l no_counts)

module _ (decimal : ℕ → Text) where
  -- The ways in which the program may end.
  pub data Exits (arguments : List Text) (rescanned : Option RegistrySnapshot) (service : Option ℕ)
      (writes : Bool) (e : Exit) : Type 0 where
    wrong_usage :
        ((p : Text) → arguments ≢ p ∷ [])
        → ((p : Text) → arguments ≢ p ∷ codes "--rescan" ∷ [])
        → e.output ≡ []
        → e.code ≡ 64
        → Exits arguments rescanned service writes e
    reported :
        (p : Text) (snapshot : RegistrySnapshot) (counts : Counts)
        → arguments ≡ p ∷ codes "--rescan" ∷ []
        → rescanned ≡ some snapshot
        → total counts ≡ length snapshot.instances
        → e ≡ record {
          output = report_lines decimal snapshot counts;
          errors = [];
          code = if writes then 0 else 1;
        }
        → Exits arguments rescanned service writes e
    not_rescanned :
        (p : Text)
        → arguments ≡ p ∷ codes "--rescan" ∷ []
        → rescanned ≡ none
        → e.code ≡ 1
        → Exits arguments rescanned service writes e
    served :
        (p : Text) (snapshot : RegistrySnapshot) (code : ℕ)
        → arguments ≡ p ∷ []
        → rescanned ≡ some snapshot
        → service ≡ some code
        → e ≡ record { output = []; errors = []; code = code }
        → Exits arguments rescanned service writes e
    not_started :
        (p : Text)
        → arguments ≡ p ∷ []
        → (rescanned ≡ none) ⊎ (service ≡ none)
        → e.code ≡ 1
        → Exits arguments rescanned service writes e

  -- Every run of the program ends in one of these ways, by its arguments and by what the backend
  -- answered or threw; the three counts of a report add up to the number of installations.
  pub run_application-Exits :
      (arguments : List Text) (rescanned : Option RegistrySnapshot) (service : Option ℕ)
      (writes : Bool)
      → Exits arguments rescanned service writes
          (run_application decimal arguments rescanned service writes)
  unfolding run_application start_service run_rescan
  run_application-Exits [] rescanned service writes = wrong_usage (λ p e. cc) (λ p e. cc) refl refl
  run_application-Exits (p ∷ []) none service writes = not_started p refl (inl refl) refl
  run_application-Exits (p ∷ []) (some snapshot) none writes = not_started p refl (inr refl) refl
  run_application-Exits (p ∷ []) (some snapshot) (some code) writes =
      served p snapshot code refl refl refl refl
  run_application-Exits (p ∷ a ∷ []) rescanned service writes =
      elim (Bool-cases (equal a (codes "--rescan"))) [
        | inl e ↦ rw e (rescan rescanned ((equal_iff a (codes "--rescan")).0 e))
        | inr e ↦ rw e (wrong_usage (λ q z. cc) (λ q z. differs e z) refl refl)
      ]
    where
      differs :
          {q : Text}
          → equal a (codes "--rescan") ≡ false
          → (p ∷ a ∷ []) ≡ (q ∷ codes "--rescan" ∷ [])
          → ⊥
      differs e z = ne_of_equal-false a (codes "--rescan") e (cc z)

      rescan :
          (o : Option RegistrySnapshot)
          → a ≡ codes "--rescan"
          → Exits (p ∷ a ∷ []) o service writes (run_rescan decimal o writes)
      rescan none h = not_rescanned p (ap (λ t. p ∷ t ∷ []) h) refl refl
      rescan (some snapshot) h =
          reported p snapshot (count_kinds snapshot.instances no_counts) (ap (λ t. p ∷ t ∷ []) h)
            refl (total-all snapshot.instances) refl
  run_application-Exits (p ∷ a ∷ b ∷ l) rescanned service writes =
      wrong_usage (λ q e. cc) (λ q e. cc) refl refl
