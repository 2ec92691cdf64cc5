-- ===== src/Base/Distinct.antt =====
-- Lists of texts in which none stands twice.
use mathlib.Core.Path.{sym}
use mathlib.Core.Logic.{inl, inr}
use mathlib.Core.List.{List, [], ◌∷◌, ◌++◌}
use remmina_krunner.Base.Lists.{In}
use remmina_krunner.Base.Texts.{Text}
use remmina_krunner.Base.Search.{In-append}

-- No text stands twice.
abbrev pub Distinct : List Text → Type 0
Distinct [] = Unit {0}
Distinct (x ∷ l) = (¬ In x l) × Distinct l

pub Distinct-append : (l : List Text) (x : Text) → Distinct l → ¬ In x l → Distinct (l ++ (x ∷ []))
Distinct-append [] x d n = ((λ i. i), tt)
Distinct-append (y ∷ l) x d n = (
  λ i. elim ((In-append y l (x ∷ [])).0 i) [
    | inl k ↦ d.0 k
    | inr (inl e) ↦ n (inl (sym e))
    | inr (inr z) ↦ z
  ],
  Distinct-append l x d.1 (λ i. n (inr i)),
)
