-- ===== src/Parser/Labels.antt =====
-- The labels of a profile, from the text that lists them.
use remmina_krunner.Base.{
  ℕ, Text, List, [], ◌∷◌, ◌++◌, map, select, is_empty, not, ◌==◌, ==_iff, if_split, ◌≡◌, ◌≢◌, refl,
  All, ◌∙◌, ap, subst,
}
use remmina_krunner.Base.Split.{split, add_first}
use remmina_krunner.Parser.{labels_in}

-- The parts, with a comma between any two of them.
abbrev pub joined : List Text → Text
joined [] = []
joined (part ∷ []) = part
joined (part ∷ next ∷ parts) = part ++ b',' ∷ joined (next ∷ parts)

module _ (trimmed : Text → Text) where
  -- The labels are the parts that are not empty when trimmed, trimmed and in order.
  pub data Kept : List Text → List Text → Type 0 where
    done : Kept [] []
    dropped :
        {part : Text} {parts labels : List Text}
        → trimmed part ≡ []
        → Kept parts labels
        → Kept (part ∷ parts) labels
    kept :
        {part : Text} {parts labels : List Text}
        → trimmed part ≢ []
        → Kept parts labels
        → Kept (part ∷ parts) (trimmed part ∷ labels)

  -- The text is some parts without commas, joined by commas, and the labels are made of them.
  pub record AreLabels (text : Text) (labels : List Text) : Type 0 where
    pub parts : List Text
    pub listed : joined parts ≡ text
    pub apart : All (λ part. All (λ c. c ≢ b',') part) parts
    pub kept_parts : Kept parts labels

  Kept-select :
      (parts : List Text) → Kept parts (select (λ label. not (is_empty label)) (map trimmed parts))
  Kept-select [] = done
  Kept-select (part ∷ parts) = go (trimmed part) refl (Kept-select parts)
    where
      go :
          (t : Text)
          → trimmed part ≡ t
          → Kept parts (select (λ label. not (is_empty label)) (map trimmed parts))
          → Kept (part ∷ parts) (select (λ label. not (is_empty label)) (t ∷ map trimmed parts))
      go [] e k = dropped e k
      go (c ∷ t) e k =
          subst
            (λ x.
              Kept (part ∷ parts) (x ∷ select (λ label. not (is_empty label)) (map trimmed parts)))
            e (kept (λ z. cc) k)

joined-add_first : (c : ℕ) (parts : List Text) → joined (add_first c parts) ≡ c ∷ joined parts
joined-add_first c [] = refl
joined-add_first c (part ∷ []) = refl
joined-add_first c (part ∷ next ∷ parts) = refl

joined-empty : (parts : List Text) → parts ≢ [] → joined ([] ∷ parts) ≡ b',' ∷ joined parts
joined-empty [] n = absurd (n refl)
joined-empty (part ∷ parts) n = refl

add_first-nonempty : (c : ℕ) (parts : List Text) → add_first c parts ≢ []
add_first-nonempty c [] = λ e. cc
add_first-nonempty c (part ∷ parts) = λ e. cc

split-nonempty : (text : Text) → split b',' text ≢ []
unfolding split
split-nonempty [] = λ e. cc
split-nonempty (c ∷ text) =
    if_split (λ l. l ≢ []) (c == b',') _ _ (λ _ e. cc) (λ _. add_first-nonempty c (split b',' text))

-- The parts that a text is split into, joined again, are the text.
joined-split : (text : Text) → joined (split b',' text) ≡ text
unfolding split
joined-split [] = refl
joined-split (c ∷ text) =
    let rest = joined-split text in
    if_split (λ l. joined l ≡ c ∷ text) (c == b',') _ _
      (λ e. joined-empty (split b',' text) (split-nonempty text) ∙ cc (rest, (==_iff c b',').0 e))
      (λ _. joined-add_first c (split b',' text) ∙ ap (λ t. c ∷ t) rest)

abbrev Apart : List Text → Type 0
Apart = All (λ part. All (λ c. c ≢ b',') part)

add_first-Apart : (c : ℕ) (parts : List Text) → c ≢ b',' → Apart parts → Apart (add_first c parts)
add_first-Apart c [] n h = ((n, tt), tt)
add_first-Apart c (part ∷ parts) n h = ((n, h.0), h.1)

split-Apart : (text : Text) → Apart (split b',' text)
unfolding split
split-Apart [] = (tt, tt)
split-Apart (c ∷ text) =
    let rest = split-Apart text in
    if_split Apart (c == b',') _ _ (λ _. (tt, rest))
      (λ e. add_first-Apart c (split b',' text) (λ z. cc ((==_iff c b',').1 z, e)) rest)

module _ (trimmed : Text → Text) where
  -- The labels that the parser takes from a text.
  pub labels_in-AreLabels : (text : Text) → AreLabels trimmed text (labels_in trimmed text)
  unfolding labels_in
  labels_in-AreLabels text = record {
    parts = split b',' text;
    listed = joined-split text;
    apart = split-Apart text;
    kept_parts = Kept-select trimmed (split b',' text);
  }
