-- ===== src/Base/Sort.antt =====
-- `std::stable_sort` and `std::sort` by a comparison function: insertion from the back, by which
-- an element stays in front of those that it is not behind.
use Prim.Native.Nat.{Ordering}
use mathlib.Core.Path.{◌≡◌, refl, ◌∙◌}
use mathlib.Core.Logic.{◌↔◌, inl, inr, ◌⊎◌}
use mathlib.Core.Bool.{Bool, true, false}
use mathlib.Core.List.{List, [], ◌∷◌, Perm}
use mathlib.Core.List.Perm
use native.Mathlib.Omega.{arith}
use remmina_krunner.Base.Tests.{if◌then◌else◌, Bool-cases}
use remmina_krunner.Base.Lists.{All, select, In}
use remmina_krunner.Base.Order.{IsOrder}

module _ {ℓ} {A : Type ℓ} (before : A → A → Bool) where
  unfoldable pub insert : A → List A → List A
  insert x [] = x ∷ []
  insert x (y ∷ ys) = if before y x then y ∷ insert x ys else x ∷ y ∷ ys

  unfoldable pub sort : List A → List A
  unfolding insert
  sort [] = []
  sort (x ∷ xs) = insert x (sort xs)

  insert-perm : (x : A) (l : List A) → Perm (insert x l) (x ∷ l)
  unfolding insert
  insert-perm x [] = Perm.refl (x ∷ [])
  insert-perm x (y ∷ l) = elim (Bool-cases (before y x)) [
    | inl h ↦ rw h (Perm.trans (Perm.cons y (insert-perm x l)) (Perm.swap x y l))
    | inr h ↦ rw h (Perm.refl (x ∷ y ∷ l))
  ]

  pub sort-perm : (l : List A) → Perm (sort l) l
  unfolding sort
  sort-perm [] = Perm.refl []
  sort-perm (x ∷ l) = Perm.trans (insert-perm x (sort l)) (Perm.cons x (sort-perm l))

  -- No element is to stand before an earlier one.
  abbrev pub IsSorted : List A → Type ℓ
  IsSorted [] = Unit
  IsSorted (x ∷ l) = All (λ y. before y x ≡ false) l × IsSorted l

-- The order that a three-way comparison gives.
abbrev pub is_lt : Ordering → Bool
is_lt Ordering.lt = true
is_lt Ordering.eq = false
is_lt Ordering.gt = false

module _ {A : Type 0} {cmp : A → A → Ordering} (O : IsOrder cmp) where
  abbrev less : A → A → Bool
  less a b = is_lt (cmp a b)

  below_trans : (x y z : A) → less y x ≡ false → less z y ≡ false → less z x ≡ false
  below_trans x y z p q = ground (
    arith,
    O.trans z x y,
    O.trans y z x,
    O.cong z x y,
    O.cong y x z,
    O.swap x y,
    O.swap y z,
    O.swap x z,
  )

  All-insert : (P : A → Type 0) (x : A) (l : List A) → P x → All P l → All P (insert less x l)
  unfolding insert
  All-insert P x [] p h = (p, tt)
  All-insert P x (y ∷ l) p h = elim (Bool-cases (less y x)) [
    | inl e ↦ rw e (h.0, All-insert P x l p h.1)
    | inr e ↦ rw e (p, h)
  ]

  All-below :
      (x y : A) (l : List A)
      → less y x ≡ false
      → All (λ z. less z y ≡ false) l
      → All (λ z. less z x ≡ false) l
  All-below x y [] p h = tt
  All-below x y (z ∷ l) p h = (below_trans x y z p h.0, All-below x y l p h.1)

  insert-IsSorted : (x : A) (l : List A) → IsSorted less l → IsSorted less (insert less x l)
  unfolding insert
  insert-IsSorted x [] h = (tt, tt)
  insert-IsSorted x (y ∷ l) h = elim (Bool-cases (less y x)) [
    | inl e ↦ rw e (
      All-insert (λ z. less z y ≡ false) x l (ground (arith, O.swap x y)) h.0,
      insert-IsSorted x l h.1,
    )
    | inr e ↦ rw e ((e, All-below x y l e h.0), h)
  ]

  -- The result is in order, also between elements that are not neighbours.
  pub sort-IsSorted : (l : List A) → IsSorted less (sort less l)
  unfolding sort
  sort-IsSorted [] = tt
  sort-IsSorted (x ∷ l) = insert-IsSorted x (sort less l) (sort-IsSorted l)

abbrev pub is_eq : Ordering → Bool
is_eq Ordering.eq = true
is_eq Ordering.lt = false
is_eq Ordering.gt = false

module _ {A : Type 0} {cmp : A → A → Ordering} (O : IsOrder cmp) where
  select-insert :
      (e x : A) (l : List A)
      → select (λ y. is_eq (cmp y e)) (insert (λ a b. is_lt (cmp a b)) x l)
        ≡ select (λ y. is_eq (cmp y e)) (x ∷ l)
  unfolding insert
  select-insert e x [] = refl
  select-insert e x (y ∷ l) =
      ground (arith, select-insert e x l, O.cong x e y, O.swap e y, O.swap x y)

  -- Elements that compare equal keep their order.
  pub sort_stable :
      (e : A) (l : List A)
      → select (λ y. is_eq (cmp y e)) (sort (λ a b. is_lt (cmp a b)) l)
        ≡ select (λ y. is_eq (cmp y e)) l
  unfolding sort
  sort_stable e [] = refl
  sort_stable e (x ∷ l) = select-insert e x (sort _ l) ∙ ground (arith, sort_stable e l)

module _ {A : Type 0} (before : A → A → Bool) where
  pub In-insert : (a x : A) (l : List A) → In a (insert before x l) ↔ ((x ≡ a) ⊎ In a l)
  unfolding insert
  In-insert a x [] = (λ i. i, λ i. i)
  In-insert a x (y ∷ l) = elim (Bool-cases (before y x)) [
    | inl h ↦
        rw h (λ i. ground (arith, (In-insert a x l).0), λ i. ground (arith, (In-insert a x l).1))
    | inr h ↦ rw h (λ i. i, λ i. i)
  ]

  -- Sorting neither loses nor adds an element.
  pub In-sort : (a : A) (l : List A) → In a (sort before l) ↔ In a l
  unfolding sort
  In-sort a [] = (λ i. i, λ i. i)
  In-sort a (x ∷ l) = (
    λ i. ground (arith, (In-insert a x (sort before l)).0 i, (In-sort a l).0),
    λ i. (In-insert a x (sort before l)).1 (ground (arith, (In-sort a l).1)),
  )
