-- ===== src/Selection/Policy.antt =====
-- What the selection policy promises, as a relation, and that the code keeps to it.
use remmina_krunner.Base.{
  Text, equal_iff, List, [], ◌∷◌, Option, none, some, is_empty, true, false, not, ℕ, ◌≤◌, ◌≡◌, ◌≢◌,
  ◌⊎◌, inl, inr, refl, arith, find_first, Option-cases, All, In, All-map, All-In, All-zip,
  All-trivial, ap, find_first-some, find_first-none, subst, sym, ◌∙◌,
}
use remmina_krunner.Instance.{InstanceKind, native, flatpak, snap, RemminaInstance, has_id}
use remmina_krunner.Selection.{
  SelectionDecision, same_kind, priority, find_saved, find_preferred, validate_selection,
}

-- The place of a packaging kind in the order of preference.
abbrev pub rank : InstanceKind → ℕ
rank native = 0
rank flatpak = 1
rank snap = 2

-- The decision that the policy allows for a saved id.
pub data Chooses (instances : List RemminaInstance) (saved : Text) (d : SelectionDecision)
    : Type 0 where
  -- The saved id is kept while an installation bears it.
  kept :
      (i : RemminaInstance)
      → saved ≢ []
      → In i instances
      → i.id ≡ saved
      → d ≡ record { selected_id = saved; changed = false }
      → Chooses instances saved d
  -- Otherwise an installation of the best rank is chosen.
  replaced :
      (i : RemminaInstance)
      → In i instances
      → (saved ≡ []) ⊎ All (λ j. j.id ≢ saved) instances
      → All (λ j. rank i.kind ≤ rank j.kind) instances
      → d ≡ record { selected_id = i.id; changed = true }
      → Chooses instances saved d
  -- With no installation the selection is empty.
  none_left :
      instances ≡ []
      → d ≡ record { selected_id = []; changed = not (is_empty saved) }
      → Chooses instances saved d

same_kind-eq : (a b : InstanceKind) → same_kind a b ≡ true → a ≡ b
same_kind-eq native native h = refl
same_kind-eq flatpak flatpak h = refl
same_kind-eq snap snap h = refl
same_kind-eq _ _ h = ground arith

abbrev first : InstanceKind → List RemminaInstance → Option RemminaInstance
first k = find_first (λ x. same_kind x.kind k)

-- A hit of the search for one kind; what a failed search says of each installation.
hit :
    (k : InstanceKind) (l : List RemminaInstance) (i : RemminaInstance)
    → first k l ≡ some i
    → In i l × (i.kind ≡ k)
hit k l i e =
    let (m, h) = find_first-some (λ x. same_kind x.kind k) l i e in (m, same_kind-eq i.kind k h)

miss :
    (k : InstanceKind) (l : List RemminaInstance)
    → first k l ≡ none
    → All (λ x. same_kind x.kind k ≡ false) l
miss k l = find_first-none (λ x. same_kind x.kind k) l

rank_of_native : (j : InstanceKind) → same_kind j native ≡ false → 1 ≤ rank j
rank_of_native native h = cc
rank_of_native _ h = omega arith

rank_of_rest : (j : InstanceKind) → same_kind j flatpak ≡ false → 1 ≤ rank j → 2 ≤ rank j
rank_of_rest flatpak h k = cc
rank_of_rest native h k = absurd (omega arith)
rank_of_rest snap h k = omega arith

-- The nested loops find an installation of the best rank.
preferred_best :
    (l : List RemminaInstance) (i : RemminaInstance)
    → find_preferred l priority ≡ some i
    → In i l × All (λ j. rank i.kind ≤ rank j.kind) l
unfolding find_preferred
preferred_best l i e = elim (Option-cases (first native l)) [
  | inr (x, n) ↦
      let (m, k) = hit native l i (ground arith) in
      (m, All-map (λ j _. rw k (omega arith)) l (All-trivial l))
  | inl n ↦ elim (Option-cases (first flatpak l)) [
    | inr (x, f) ↦
        let (m, k) = hit flatpak l i (ground arith) in
        (m, All-map (λ j h. rw k (rank_of_native j.kind h)) l (miss native l n))
    | inl f ↦
        let (m, k) = hit snap l i (ground arith) in
        (
          m,
          All-map (λ j h. rw k (rank_of_rest j.kind h.0 (rank_of_native j.kind h.1))) l
              (All-zip _ _ l (miss flatpak l f) (miss native l n)),
        )
  ]
]

preferred_none_at :
    (x : RemminaInstance) (l : List RemminaInstance) (k : InstanceKind)
    → x.kind ≡ k
    → find_preferred (x ∷ l) priority ≡ none
    → x ∷ l ≡ []
unfolding find_preferred
preferred_none_at x l native h e = ground arith
preferred_none_at x l _ h e = ground arith

-- They find nothing in the empty list only.
preferred_none : (l : List RemminaInstance) → find_preferred l priority ≡ none → l ≡ []
unfolding find_preferred
preferred_none [] e = refl
preferred_none (x ∷ l) e = preferred_none_at x l x.kind refl e

saved_cases :
    (l : List RemminaInstance) (saved : Text)
    → ((i : RemminaInstance) × (find_saved l saved ≡ some i)
        × (saved ≢ [])
        × In i l
        × (i.id ≡ saved))
      ⊎ ((find_saved l saved ≡ none) × ((saved ≡ []) ⊎ All (λ j. j.id ≢ saved) l))
unfolding find_saved
saved_cases l [] = inr (refl, inl refl)
saved_cases l (c ∷ s) = elim (Option-cases (find_first (has_id (c ∷ s)) l)) [
  | inl e ↦ inr (
    e,
    inr (All-map (λ x h. λ z. cc ((equal_iff x.id (c ∷ s)).1 z, h)) l (find_first-none _ l e)),
  )
  | inr (i, e) ↦
      let (m, h) = find_first-some (has_id (c ∷ s)) l i e in
      inl (i, e, (λ z. cc), m, (equal_iff _ _).0 h)
]

-- The decision of the code is one that the policy allows, for every list and every saved id.
pub validate_selection-Chooses :
    (instances : List RemminaInstance) (saved : Text)
    → Chooses instances saved (validate_selection instances saved)
unfolding validate_selection
validate_selection-Chooses instances saved = elim (saved_cases instances saved) [
  | inl (i, e, n, m, h) ↦
      kept i n m h
        (rw (e, validate_selection) (ap (λ t. record { selected_id = t; changed = false }) h))
  | inr (e, gone) ↦ elim (Option-cases (find_preferred instances priority)) [
    | inl f ↦ none_left (preferred_none instances f) (rw (e, validate_selection, f))
    | inr (i, f) ↦
        let (m, best) = preferred_best instances i f in
        replaced i m gone best (rw (e, validate_selection, f))
  ]
]

-- The id of a listed installation is kept.
known_kept :
    (l : List RemminaInstance) (i : RemminaInstance)
    → In i l
    → i.id ≢ []
    → validate_selection l i.id ≡ record { selected_id = i.id; changed = false }
known_kept l i m n = go (validate_selection-Chooses l i.id)
  where
    go :
        Chooses l i.id (validate_selection l i.id)
        → validate_selection l i.id ≡ record { selected_id = i.id; changed = false }
    go (kept j _ _ _ e) = e
    go (replaced j _ (inl z) _ _) = absurd (n z)
    go (replaced j _ (inr gone) _ _) = absurd (All-In (λ j. j.id ≢ i.id) l gone m refl)
    go (none_left z _) = absurd (subst (In i) z m)

listed_kept :
    (l : List RemminaInstance) (i : RemminaInstance) {t : Text}
    → In i l
    → i.id ≡ t
    → t ≢ []
    → validate_selection l t ≡ record { selected_id = t; changed = false }
listed_kept l i m h n =
    subst (λ t. t ≢ [] → validate_selection l t ≡ record { selected_id = t; changed = false }) h
      (known_kept l i m) n

-- Asking again with a non-empty answer confirms it: a repaired selection is stable.
pub validate_selection_stable :
    (instances : List RemminaInstance) (saved : Text)
    → (validate_selection instances saved).selected_id ≢ []
    → validate_selection instances (validate_selection instances saved).selected_id
      ≡ record { selected_id = (validate_selection instances saved).selected_id; changed = false }
validate_selection_stable instances saved n =
    go (validate_selection instances saved) n (validate_selection-Chooses instances saved)
  where
    go :
        (d : SelectionDecision)
        → d.selected_id ≢ []
        → Chooses instances saved d
        → validate_selection instances d.selected_id
          ≡ record { selected_id = d.selected_id; changed = false }
    go d n (kept i _ m h e) = listed_kept instances i m (h ∙ sym (ap (λ x. x.selected_id) e)) n
    go d n (replaced i m _ _ e) = listed_kept instances i m (sym (ap (λ x. x.selected_id) e)) n
    go d n (none_left _ e) = absurd (n (ap (λ x. x.selected_id) e))
