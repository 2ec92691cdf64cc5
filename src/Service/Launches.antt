-- ===== src/Service/Launches.antt =====
-- What `Run` starts.
use remmina_krunner.Base.{
  Text, [], ◌∷◌, All, true, false, ◌≡◌, refl, arith, equal, equal_iff, starts_with, is_empty, not,
  ◌&&◌, if_split, All-append,
}
use remmina_krunner.Service.{
  RunnerService, Call, asks_records, ends_session, resets, rescans, creates, connects,
  end_active_session, launches, run_match, new_action_id, is_opaque_profile_id, error_prefix,
  action_prefix,
}

empty-nil : (t : Text) → is_empty t ≡ true → t ≡ []
empty-nil [] h = refl
empty-nil (c ∷ t) h = cc

module _ (match_id action_id : Text) (s : RunnerService) where
  -- The calls that a `Run` may make.
  abbrev pub Permitted : Call → Type 0
  Permitted (creates token) =
      (match_id ≡ new_action_id) × (action_id ≡ []) × (token ≡ s.activation_token)
  Permitted (connects id token) =
      (id ≡ match_id)
      × (is_opaque_profile_id match_id ≡ true)
      × (action_id ≡ [])
      × (token ≡ s.activation_token)
  Permitted ends_session = s.session_active ≡ true
  Permitted (asks_records instance) = ⊥
  Permitted resets = ⊥
  Permitted rescans = ⊥

  launches-Permitted : All Permitted (launches match_id action_id s.activation_token)
  unfolding launches
  launches-Permitted =
      if_split (All Permitted)
        (is_empty action_id && not (is_empty match_id) && not (starts_with match_id error_prefix)) _
        _
        (λ a.
          if_split (All Permitted) (equal match_id new_action_id) _ _
            (λ b. (((equal_iff _ _).0 b, empty-nil action_id (ground arith), refl), tt))
            λ _.
              if_split (All Permitted)
                (not (starts_with match_id action_prefix) && is_opaque_profile_id match_id) _ _
                (λ c. ((refl, ground arith, empty-nil action_id (ground arith), refl), tt))
                (λ _. tt))
        (λ _. tt)

  ended-Permitted : All Permitted (end_active_session false (record s { activation_token = [] })).1
  unfolding end_active_session
  ended-Permitted = if_split (All Permitted) s.session_active _ _ (λ h. (h, tt)) (λ _. tt)

  -- A `Run` asks for a new connection only for the action with that id, connects only to the id
  -- that it was given and only if that is a profile's, in both cases with no action id and the
  -- token that was set, ends a session only if one is active, and makes no other call.
  pub run_match-Permitted : All Permitted (run_match match_id action_id s).1
  unfolding run_match
  run_match-Permitted = All-append Permitted _ _ launches-Permitted ended-Permitted

-- The id of a profile is never taken for an error or an action.
opaque_is_profile :
    (id : Text)
    → is_opaque_profile_id id ≡ true
    → (is_empty id ≡ false)
      × (starts_with id error_prefix ≡ false)
      × (starts_with id action_prefix ≡ false)
      × (equal id new_action_id ≡ false)
unfolding is_opaque_profile_id starts_with equal
opaque_is_profile [] h = cc
opaque_is_profile (a ∷ []) h = absurd (ground arith)
opaque_is_profile (a ∷ b ∷ []) h = absurd (ground arith)
opaque_is_profile (a ∷ b ∷ c ∷ rest) h = (refl, ground arith, ground arith, ground arith)

-- Every id of a profile, as `opaqueProfileId` makes them, is connected to when it is run with no
-- action id, with the token that was set, and before the session ends.
pub run_match-connects :
    (id : Text) (s : RunnerService)
    → is_opaque_profile_id id ≡ true
    → (run_match id [] s).1
      ≡ connects id s.activation_token
        ∷ (end_active_session false (record s { activation_token = [] })).1
unfolding run_match launches
run_match-connects id s h = let (a, b, c, d) = opaque_is_profile id h in rw (a, b, c, d, h)
