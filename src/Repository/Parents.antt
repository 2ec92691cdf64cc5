-- ===== src/Repository/Parents.antt =====
-- The parents of the links that lead to a directory.
use remmina_krunner.Base.{
  ℕ, zero, suc, ◌+◌, ◌≤◌, Text, codes, equal, contains, contains_iff, List, [], ◌∷◌, ◌++◌, length,
  length-append, Option, none, some, is_empty, if_split, true, false, not, ◌||◌, ◌≡◌, arith,
  Bool-cases, inl, inr,
}
use remmina_krunner.Base.Distinct.{Distinct, Distinct-append}
use remmina_krunner.Repository.Files.{
  FileSystem, Trail, Component, missing, plain, link_to, clean_child_path, redirect, split_path,
  look_at, walk_parents, symlink_parent_paths, maximum_symbolic_links,
}

module _ (system : FileSystem) where
  open system use {World, clean_path, is_absolute_path, absolute_path}

  -- With so many links left the parents are distinct and not too many.
  record IsShort (links : ℕ) (parents : List Text) : Type 0 where
    distinct : Distinct parents
    few : length parents + links ≤ maximum_symbolic_links

  -- What is found has no doubles, and at most forty parents.
  record Parents (r : Option (List Text) × World) : Type 0 where
    pub found :
        (parents : List Text)
        → r.0 ≡ some parents
        → Distinct parents × (length parents ≤ maximum_symbolic_links)

  nowhere-Parents : (w : World) → Parents (none, w)
  nowhere-Parents w = record { found = λ parents e. cc }

  here-Parents : (links : ℕ) (l : List Text) (w : World) → IsShort links l → Parents (some l, w)
  here-Parents links l w s = record {
    found =
        λ parents e. let same : l ≡ parents = cc in rw (← same) (s.distinct, omega (arith, s.few));
  }

  redirect-IsShort :
      (links : ℕ) (target : Text) (t : Trail)
      → IsShort (suc links) t.parents
      → IsShort links (redirect system target t).parents
  unfolding redirect
  redirect-IsShort links target t s = elim (Bool-cases (contains t.parents t.current)) [
    | inl y ↦ rw y (record { distinct = s.distinct; few = omega (arith, s.few) })
    | inr n ↦ rw n (record {
      distinct =
          Distinct-append t.parents t.current s.distinct
            (λ i. cc ((contains_iff t.parents t.current).1 i, n));
      few = omega (arith, s.few, length-append t.parents (t.current ∷ []));
    })
  ]

  -- The step at a component, by what is found there, when no link may be followed any more.
  stop-Parents :
      (found : Component system) (below : Option (List Text) × World) (w1 : World)
      → Parents below
      → Parents (elim found [ missing ↦ (none, w1) | plain ↦ below | link_to target ↦ (none, w1) ])
  stop-Parents missing below w1 b = nowhere-Parents w1
  stop-Parents plain below w1 b = b
  stop-Parents (link_to target) below w1 b = nowhere-Parents w1

  -- The same when links may still be followed.
  follow-Parents :
      (found : Component system) (below : Option (List Text) × World) (w1 : World)
      (next : Text → Option (List Text) × World)
      → Parents below
      → ((target : Text) → Parents (next target))
      → Parents (elim found [
        | missing ↦ (none, w1)
        | plain ↦ below
        | link_to none ↦ (none, w1)
        | link_to (some target) ↦ next target
      ])
  follow-Parents missing below w1 next b n = nowhere-Parents w1
  follow-Parents plain below w1 next b n = b
  follow-Parents (link_to none) below w1 next b n = nowhere-Parents w1
  follow-Parents (link_to (some target)) below w1 next b n = n target

  walk_parents-Parents :
      (links : ℕ) (pending : List Text) (t : Trail) (w : World)
      → IsShort links t.parents
      → Parents (walk_parents system links pending t w)
  unfolding walk_parents
  walk_parents-Parents links [] t w s = here-Parents links t.parents w s
  walk_parents-Parents zero (c ∷ pending) t w s =
      let step = look_at system false (clean_child_path system t.current c) w in
      let same = λ (here : Text) (v : World).
        walk_parents-Parents zero pending (record t { current = here }) v
          (record { distinct = s.distinct; few = s.few }) in
      if_split Parents (is_empty c || equal c (codes ".")) _ _
        (λ y. walk_parents-Parents zero pending t w s)
        (λ n.
          if_split Parents (equal c (codes "..")) _ _ (λ y. same (absolute_path t.current) w)
            (λ m. stop-Parents step.0 _ step.1 (same (clean_child_path system t.current c) step.1)))
  walk_parents-Parents (suc links) (c ∷ pending) t w s =
      let step = look_at system true (clean_child_path system t.current c) w in
      let same = λ (here : Text) (v : World).
        walk_parents-Parents (suc links) pending (record t { current = here }) v
          (record { distinct = s.distinct; few = s.few }) in
      if_split Parents (is_empty c || equal c (codes ".")) _ _
        (λ y. walk_parents-Parents (suc links) pending t w s)
        (λ n.
          if_split Parents (equal c (codes "..")) _ _ (λ y. same (absolute_path t.current) w)
            (λ m.
              follow-Parents step.0 _ step.1 _ (same (clean_child_path system t.current c) step.1)
                (λ target.
                  walk_parents-Parents links (split_path system target ++ pending)
                    (redirect system target t) step.1 (redirect-IsShort links target t s))))

  -- However the links are nested and whatever changes meanwhile, the parents of the links on the way
  -- to a path that `symlink_parent_paths` returns are distinct, and at most forty.
  pub symlink_parent_paths-Parents :
      (lexical_path : Text) (w : World) (parents : List Text)
      → (symlink_parent_paths system lexical_path w).0 ≡ some parents
      → Distinct parents × (length parents ≤ maximum_symbolic_links)
  unfolding symlink_parent_paths
  symlink_parent_paths-Parents lexical_path w =
      let cleaned = clean_path lexical_path in
      (if_split Parents (is_empty cleaned || not (is_absolute_path cleaned)) _ _
        (λ y. nowhere-Parents w)
        (λ n.
          walk_parents-Parents maximum_symbolic_links (split_path system cleaned)
            (record { current = codes "/"; parents = [] }) w
            (record { distinct = tt; few = omega arith }))).found
