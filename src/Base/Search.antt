-- ===== src/Base/Search.antt =====
-- What the Boolean searches over lists find.
use mathlib.Core.Path.{◌≡◌, subst}
use mathlib.Core.Logic.{◌↔◌, ◌⊎◌, inl, inr}
use mathlib.Core.Bool.{Bool, true, false}
use mathlib.Core.List.{List, [], ◌∷◌, ◌++◌}
use mathlib.Core.Option.{none, some}
use native.Mathlib.Omega.{arith}
use remmina_krunner.Base.Tests.{Bool-cases}
use remmina_krunner.Base.Lists.{find_first, All, Some, In, any}
use remmina_krunner.Base.Texts.{Text, equal_iff, contains}

module _ {A : Type 0} (p : A → Bool) where
  pub find_first-some : (l : List A) (x : A) → find_first p l ≡ some x → In x l × (p x ≡ true)
  find_first-some [] x e = cc
  find_first-some (y ∷ l) x e = elim (Bool-cases (p y)) [
    | inl hit ↦ let same : y ≡ x = ground arith in (inl same, rw same at hit)
    | inr miss ↦ let (i, h) = find_first-some l x (ground arith) in (inr i, h)
  ]

  pub find_first-none : (l : List A) → find_first p l ≡ none → All (λ y. p y ≡ false) l
  find_first-none [] e = tt
  find_first-none (y ∷ l) e = elim (Bool-cases (p y)) [
    | inl hit ↦ ground arith
    | inr miss ↦ (miss, find_first-none l (ground arith))
  ]

module _ {ℓ κ ι} {A : Type ℓ} {P : A → Type κ} {Q : A → Type ι} where
  pub All-map : (f : (x : A) → P x → Q x) (l : List A) → All P l → All Q l
  All-map f [] h = tt
  All-map f (x ∷ l) h = (f x h.0, All-map f l h.1)

module _ {ℓ κ ι} {A : Type ℓ} (P : A → Type κ) (Q : A → Type ι) where
  pub All-zip : (l : List A) → All P l → All Q l → All (λ x. P x × Q x) l
  All-zip [] h k = tt
  All-zip (x ∷ l) h k = ((h.0, k.0), All-zip l h.1 k.1)

pub All-trivial {ℓ} : {A : Type ℓ} (l : List A) → All (λ _. Unit {0}) l
All-trivial [] = tt
All-trivial (x ∷ l) = (tt, All-trivial l)

module _ {ℓ} {A : Type ℓ} {P Q : A → Type 0} where
  pub Some-map : (f : (x : A) → P x → Q x) (l : List A) → Some P l → Some Q l
  Some-map f [] s = absurd s
  Some-map f (x ∷ l) (inl h) = inl (f x h)
  Some-map f (x ∷ l) (inr s) = inr (Some-map f l s)

module _ {κ} {A : Type 0} (P : A → Type κ) where
  pub All-In : (l : List A) {x : A} → All P l → In x l → P x
  All-In [] h i = absurd i
  All-In (y ∷ l) h (inl e) = subst P e h.0
  All-In (y ∷ l) h (inr i) = All-In l h.1 i

pub In-append : (x : Text) (a b : List Text) → In x (a ++ b) ↔ (In x a ⊎ In x b)
In-append x [] b = (λ h. inr h, λ h. elim h [ inl n ↦ absurd n | inr k ↦ k ])
In-append x (y ∷ a) b = (
  λ h. elim h [
    | inl e ↦ inl (inl e)
    | inr r ↦ elim ((In-append x a b).0 r) [ inl k ↦ inl (inr k) | inr k ↦ inr k ]
  ],
  λ h. elim h [
    | inl (inl e) ↦ inl e
    | inl (inr r) ↦ inr ((In-append x a b).1 (inl r))
    | inr k ↦ inr ((In-append x a b).1 (inr k))
  ],
)

-- `contains` of a list of texts finds exactly the texts that stand in it.
pub contains_iff : (xs : List Text) (a : Text) → (contains xs a ≡ true) ↔ In a xs
contains_iff [] a = (λ e. cc, λ s. absurd s)
contains_iff (x ∷ xs) a = (
  λ e. ground (arith, equal_iff x a, contains_iff xs a),
  λ s. ground (arith, equal_iff x a, contains_iff xs a),
)

module _ {A : Type 0} (p : A → Bool) where
  pub any-true : (l : List A) → any p l ≡ true → Some (λ x. p x ≡ true) l
  any-true [] e = cc
  any-true (x ∷ l) e = elim (Bool-cases (p x)) [
    | inl hit ↦ inl hit
    | inr miss ↦ inr (any-true l (ground arith))
  ]

  pub any-false : (l : List A) → any p l ≡ false → All (λ x. p x ≡ false) l
  any-false [] e = tt
  any-false (x ∷ l) e = (ground arith, any-false l (ground arith))
