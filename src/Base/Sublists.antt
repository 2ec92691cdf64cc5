-- ===== src/Base/Sublists.antt =====
-- The lists that are left when elements of a list are dropped.
use mathlib.Core.List.{List, [], ◌∷◌, ◌++◌}

pub data Sublist {A : Type 0} : List A → List A → Type 0 where
  ends : Sublist [] []
  drops : {x : A} {xs ys : List A} → Sublist xs ys → Sublist xs (x ∷ ys)
  keeps : {x : A} {xs ys : List A} → Sublist xs ys → Sublist (x ∷ xs) (x ∷ ys)

module _ {A : Type 0} where
  pub Sublist-nil : (ys : List A) → Sublist [] ys
  Sublist-nil [] = ends
  Sublist-nil (y ∷ ys) = drops (Sublist-nil ys)

  pub Sublist-self : (ys : List A) → Sublist ys ys
  Sublist-self [] = ends
  Sublist-self (y ∷ ys) = keeps (Sublist-self ys)

  pub Sublist-behind : (xs : List A) {ys zs : List A} → Sublist ys zs → Sublist ys (xs ++ zs)
  Sublist-behind [] h = h
  Sublist-behind (x ∷ xs) h = drops (Sublist-behind xs h)

  pub Sublist-append :
      {ps qs xs ys : List A} → Sublist ps qs → Sublist xs ys → Sublist (ps ++ xs) (qs ++ ys)
  Sublist-append ends k = k
  Sublist-append (drops h) k = drops (Sublist-append h k)
  Sublist-append (keeps h) k = keeps (Sublist-append h k)

  pub Sublist_trans :
      {ys zs : List A} → Sublist ys zs → {xs : List A} → Sublist xs ys → Sublist xs zs
  Sublist_trans ends h = h
  Sublist_trans (drops k) h = drops (Sublist_trans k h)
  Sublist_trans (keeps k) (drops h) = drops (Sublist_trans k h)
  Sublist_trans (keeps k) (keeps h) = keeps (Sublist_trans k h)
