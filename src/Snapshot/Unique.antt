-- ===== src/Snapshot/Unique.antt =====
-- The profiles that are left have ids, and no two the same.
use remmina_krunner.Base.{
  ℕ, suc, ◌+◌, ◌≤◌, Text, equal, equal_iff, equal_refl, List, [], ◌∷◌, is_empty, if◌then◌else◌,
  true, false, not, ◌&&◌, ◌==◌, ◌≡◌, ◌≢◌, refl, ◌∙◌, ap, arith, if_split, Bool-cases, inl, inr,
}
use remmina_krunner.Base.Maps.{Map, lookup, insert, lookup-insert}
use remmina_krunner.Profile.{ProfileRecord}
use remmina_krunner.Repository.{ProfileSnapshot}
use remmina_krunner.Snapshot.{value_or_zero, count_ids, keep_single, sanitize_records}

-- How many of the profiles bear an id.
abbrev pub bearers_of : Text → List ProfileRecord → ℕ
bearers_of id [] = 0
bearers_of id (profile ∷ rest) =
    if equal profile.opaque_id id then suc (bearers_of id rest) else bearers_of id rest

-- The ids are not empty, and no two profiles have the same.
abbrev pub HasUniqueIds : List ProfileRecord → Type 0
HasUniqueIds [] = Unit
HasUniqueIds (profile ∷ rest) =
    (profile.opaque_id ≢ []) × (bearers_of profile.opaque_id rest ≡ 0) × HasUniqueIds rest

counted : Text → Map ℕ → ℕ
counted id counts = value_or_zero (lookup id counts)

counted-insert :
    (id other : Text) (n : ℕ) (counts : Map ℕ)
    → counted id (insert other n counts) ≡ (if equal other id then n else counted id counts)
unfolding counted
counted-insert id other n counts = ground (arith, lookup-insert other id n counts)

empty-differs : (i : Text) (c : ℕ) (t : Text) → is_empty i ≡ true → equal i (c ∷ t) ≡ false
unfolding equal
empty-differs [] c t e = refl
empty-differs (d ∷ i) c t e = cc

counted-same :
    (i j : Text) (counts : Map ℕ) → equal i j ≡ true → counted i counts ≡ counted j counts
counted-same i j counts e = ap (λ k. counted k counts) ((equal_iff i j).0 e)

-- The count of an id is the number of its bearers.
counted-count_ids :
    (c : ℕ) (t : Text) (l : List ProfileRecord) (counts : Map ℕ)
    → counted (c ∷ t) (count_ids l counts) ≡ counted (c ∷ t) counts + bearers_of (c ∷ t) l
unfolding count_ids counted
counted-count_ids c t [] counts = omega arith
counted-count_ids c t (p ∷ l) counts = elim (Bool-cases (is_empty p.opaque_id)) [
  | inl e ↦ rw (e, empty-differs p.opaque_id c t e) (counted-count_ids c t l counts)
  | inr e ↦ rw e (counted-count_ids c t l _ ∙ one_more)
]
  where
    one_more :
        counted (c ∷ t) (insert p.opaque_id (value_or_zero (lookup p.opaque_id counts) + 1) counts)
          + bearers_of (c ∷ t) l
        ≡ counted (c ∷ t) counts + bearers_of (c ∷ t) (p ∷ l)
    one_more = elim (Bool-cases (equal p.opaque_id (c ∷ t))) [
      | inl h ↦ omega (
        arith,
        counted-insert (c ∷ t) p.opaque_id (counted p.opaque_id counts + 1) counts
            ∙ ap (λ b. if b then counted p.opaque_id counts + 1 else counted (c ∷ t) counts) h,
        counted-same p.opaque_id (c ∷ t) counts h,
        ap (λ b. if b then suc (bearers_of (c ∷ t) l) else bearers_of (c ∷ t) l) h,
      )
      | inr h ↦ omega (
        arith,
        counted-insert (c ∷ t) p.opaque_id (counted p.opaque_id counts + 1) counts
            ∙ ap (λ b. if b then counted p.opaque_id counts + 1 else counted (c ∷ t) counts) h,
        ap (λ b. if b then suc (bearers_of (c ∷ t) l) else bearers_of (c ∷ t) l) h,
      )
    ]

bearers_of-keep_single :
    (counts : Map ℕ) (id : Text) (l : List ProfileRecord)
    → bearers_of id (keep_single counts l) ≤ bearers_of id l
unfolding keep_single counted
bearers_of-keep_single counts id [] = omega arith
bearers_of-keep_single counts id (p ∷ l) = ground (arith, bearers_of-keep_single counts id l)

bearers_of_self :
    (p : ProfileRecord) (l : List ProfileRecord)
    → bearers_of p.opaque_id (p ∷ l) ≡ suc (bearers_of p.opaque_id l)
bearers_of_self p l = ground (arith, equal_refl p.opaque_id)

full-ne : (t : Text) → is_empty t ≡ false → t ≢ []
full-ne [] h = cc
full-ne (c ∷ t) h = λ e. cc

keep_single-HasUniqueIds :
    (counts : Map ℕ) (l : List ProfileRecord)
    → ((id : Text) → id ≢ [] → bearers_of id l ≤ counted id counts)
    → HasUniqueIds (keep_single counts l)
unfolding keep_single counted
keep_single-HasUniqueIds counts [] h = tt
keep_single-HasUniqueIds counts (p ∷ l) h =
    let rest = keep_single-HasUniqueIds counts l (λ id n. at_least_rest id (h id n)) in
    if_split HasUniqueIds
      (not (is_empty p.opaque_id) && (value_or_zero (lookup p.opaque_id counts) == 1)) _ _
      (λ k.
        let n : p.opaque_id ≢ [] = full-ne p.opaque_id (ground arith) in
        (n, alone n (ground arith), rest))
      (λ _. rest)
  where
    at_least_rest : (id : Text) {n : ℕ} → bearers_of id (p ∷ l) ≤ n → bearers_of id l ≤ n
    at_least_rest id k = ground arith

    alone :
        p.opaque_id ≢ []
        → counted p.opaque_id counts ≡ 1
        → bearers_of p.opaque_id (keep_single counts l) ≡ 0
    alone n k =
        omega
          (arith, h p.opaque_id n, bearers_of_self p l, bearers_of-keep_single counts p.opaque_id l)

-- The profiles that a snapshot keeps have ids, and no two of them the same.
pub sanitize_records-HasUniqueIds :
    (snapshot : ProfileSnapshot) → HasUniqueIds (sanitize_records snapshot).profiles
unfolding sanitize_records
sanitize_records-HasUniqueIds snapshot =
    keep_single-HasUniqueIds (count_ids snapshot.profiles []) snapshot.profiles enough
  where
    enough :
        (id : Text)
        → id ≢ []
        → bearers_of id snapshot.profiles ≤ counted id (count_ids snapshot.profiles [])
    enough [] n = absurd (n refl)
    enough (c ∷ t) n = omega (arith, counted-count_ids c t snapshot.profiles [])
