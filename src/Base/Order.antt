-- ===== src/Base/Order.antt =====
-- Three-way comparisons: what makes one an order, the lexicographic combination of two, and the
-- order of texts by their code units.
use Prim.Native.Nat.{compare, Ordering}
use mathlib.Core.Path.{◌≡◌, refl}
use mathlib.Core.List.{[], ◌∷◌}
use native.Mathlib.Omega.{arith}
use remmina_krunner.Base.Texts.{Text, compare_text}

abbrev pub flip : Ordering → Ordering
flip Ordering.lt = Ordering.gt
flip Ordering.eq = Ordering.eq
flip Ordering.gt = Ordering.lt

-- The first comparison decides, unless it says equal.
abbrev pub then_by : Ordering → Ordering → Ordering
then_by Ordering.eq o = o
then_by Ordering.lt o = Ordering.lt
then_by Ordering.gt o = Ordering.gt

pub record IsOrder {ℓ} {A : Type ℓ} (cmp : A → A → Ordering) : Type ℓ where
  pub swap : (a b : A) → cmp b a ≡ flip (cmp a b)
  pub trans : (a b c : A) → cmp a b ≡ Ordering.lt → cmp b c ≡ Ordering.lt → cmp a c ≡ Ordering.lt
  pub cong : (a b c : A) → cmp a b ≡ Ordering.eq → cmp a c ≡ cmp b c

module _ {ℓ} {A : Type ℓ} {f g : A → A → Ordering} (F : IsOrder f) (G : IsOrder g) where
  then_by_trans :
      (a b c : A)
      → then_by (f a b) (g a b) ≡ Ordering.lt
      → then_by (f b c) (g b c) ≡ Ordering.lt
      → then_by (f a c) (g a c) ≡ Ordering.lt
  then_by_trans a b c p q = ground (
    arith,
    F.trans a b c,
    F.cong a b c,
    F.cong c b a,
    F.swap b c,
    F.swap a b,
    F.swap a c,
    G.trans a b c,
  )

  pub then_by-IsOrder : IsOrder (λ a b. then_by (f a b) (g a b))
  then_by-IsOrder = record {
    swap = λ a b. ground (arith, F.swap a b, G.swap a b);
    trans = then_by_trans;
    cong = λ a b c p. ground (arith, F.cong a b c, G.cong a b c);
  }

pub compare-IsOrder : IsOrder compare
compare-IsOrder = record {
  swap = λ a b. ground arith;
  trans = λ a b c p q. ground arith;
  cong = λ a b c p. ground arith;
}

-- A comparison by a key.
pub on-IsOrder {ℓ κ} :
    {A : Type ℓ} {B : Type κ} {f : B → B → Ordering} (key : A → B)
    → IsOrder f
    → IsOrder (λ a b. f (key a) (key b))
on-IsOrder key F = record {
  swap = λ a b. F.swap (key a) (key b);
  trans = λ a b c. F.trans (key a) (key b) (key c);
  cong = λ a b c. F.cong (key a) (key b) (key c);
}

-- The order turned round.
pub reverse-IsOrder {ℓ} : {A : Type ℓ} {f : A → A → Ordering} → IsOrder f → IsOrder (λ a b. f b a)
reverse-IsOrder {f} F = record {
  swap = λ a b. F.swap b a;
  trans = λ a b c p q. F.trans c b a q p;
  cong = λ a b c p. ground (arith, F.cong a b c, F.swap a b, F.swap a c, F.swap b c);
}

compare_text-swap : (a b : Text) → compare_text b a ≡ flip (compare_text a b)
unfolding compare_text
compare_text-swap [] [] = refl
compare_text-swap [] (y ∷ b) = refl
compare_text-swap (x ∷ a) [] = refl
compare_text-swap (x ∷ a) (y ∷ b) = ground (arith, compare_text-swap a b)

compare_text_trans :
    (a b c : Text)
    → compare_text a b ≡ Ordering.lt
    → compare_text b c ≡ Ordering.lt
    → compare_text a c ≡ Ordering.lt
unfolding compare_text
compare_text_trans (x ∷ a) (y ∷ b) (z ∷ c) p q = ground (arith, compare_text_trans a b c)
compare_text_trans _ _ _ p q = ground arith

compare_text-cong :
    (a b c : Text) → compare_text a b ≡ Ordering.eq → compare_text a c ≡ compare_text b c
unfolding compare_text
compare_text-cong (x ∷ a) (y ∷ b) (z ∷ c) p = ground (arith, compare_text-cong a b c)
compare_text-cong _ _ _ p = ground arith

pub compare_text-IsOrder : IsOrder compare_text
compare_text-IsOrder = record {
  swap = compare_text-swap;
  trans = compare_text_trans;
  cong = compare_text-cong;
}

-- Texts that compare equal are equal.
pub compare_text-eq : (a b : Text) → compare_text a b ≡ Ordering.eq → a ≡ b
unfolding compare_text
compare_text-eq (x ∷ a) (y ∷ b) p = ground (arith, compare_text-eq a b)
compare_text-eq _ _ p = ground arith
