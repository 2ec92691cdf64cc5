-- ===== src/Launcher/Outcome.antt =====
-- How a call of the launcher ends.
use remmina_krunner.Base.{
  Text, codes, List, [], ◌∷◌, ◌++◌, Option, none, some, is_empty, any, if◌then◌else◌, Bool, true,
  false, ◌≡◌, ◌≢◌, refl, arith, Option-cases, Bool-cases, inl, inr,
}
use remmina_krunner.Instance.{RemminaInstance, RegistrySnapshot, selected_instance}
use remmina_krunner.Profile.{ProfileRecord}
use remmina_krunner.Launcher.{
  RemminaLaunchResult, started, no_instance, missing_profile, start_failed, ProcessEnvironment,
  LaunchRequest, Effect, tried, notified, Attempt, ◌>>=◌, ask, Dependencies, activation_token_name,
  contains_nul, valid_arguments, valid_program, bad_launch_path, failure, guarded,
  launch_environment, start, proceed, launch, create_with, create, connect_profile, connect_with,
  connect,
}

valid_program-parts :
    (is_absolute_path : Text → Bool) (p : Text)
    → valid_program is_absolute_path p ≡ true
    → (is_absolute_path p ≡ true) × (contains_nul p ≡ false)
unfolding valid_program
valid_program-parts is_absolute_path p h = (ground arith, ground arith)

valid_arguments-text : (l : List Text) → valid_arguments l ≡ true → any contains_nul l ≡ false
unfolding valid_arguments
valid_arguments-text l h = ground arith

module _ (qt : ProcessEnvironment) where
  -- The activation token is bound in the environment when it is not empty, and absent otherwise,
  -- whatever environment was provided.
  pub token_bound :
      (provided : qt.Env) (token : Text)
      → qt.value activation_token_name (launch_environment qt provided token)
        ≡ (if is_empty token then none else some token)
  unfolding launch_environment
  token_bound provided [] = qt.value-remove _ _
  token_bound provided (c ∷ token) = qt.value-insert _ _ _

module _ (qt : ProcessEnvironment) (is_absolute_path : Text → Bool) where
  -- A request that the launcher may make for an installation, with these arguments and this token.
  pub record Fits (instance : RemminaInstance) (arguments : List Text) (token : Text)
      (request : LaunchRequest qt.Env) : Type 0 where
    pub program : request.program ≡ instance.executable
    pub absolute : is_absolute_path request.program ≡ true
    pub program_text : contains_nul request.program ≡ false
    pub arguments_are : request.arguments ≡ arguments
    pub arguments_text : any contains_nul request.arguments ≡ false
    pub token_text : contains_nul token ≡ false
    pub token_is :
        qt.value activation_token_name request.environment
        ≡ (if is_empty token then none else some token)

module _ (qt : ProcessEnvironment) (is_absolute_path : Text → Bool)
    (deps : Dependencies qt.Env) where
  -- The ways in which a call may end, `Allowed` saying of a request that the call may make it.
  -- The user is notified once in all of them but the first.
  pub data Ends (Allowed : LaunchRequest qt.Env → Type 0)
      (res : RemminaLaunchResult × List (Effect qt.Env)) : Type 0 where
    launched :
        (request : LaunchRequest qt.Env)
        → Allowed request
        → deps.start_detached request ≡ some true
        → res ≡ (started, tried request ∷ [])
        → Ends Allowed res
    not_launched :
        (request : LaunchRequest qt.Env)
        → Allowed request
        → deps.start_detached request ≢ some true
        → res ≡ (start_failed, tried request ∷ notified ∷ [])
        → Ends Allowed res
    not_tried : res.0 ≢ started → res.1 ≡ notified ∷ [] → Ends Allowed res

  start-Ends :
      (Allowed : LaunchRequest qt.Env → Type 0) (request : LaunchRequest qt.Env)
      → Allowed request
      → Ends Allowed (guarded (start qt is_absolute_path deps request))
  unfolding guarded start failure
  start-Ends A request a = elim (Option-cases (deps.start_detached request)) [
    | inl e ↦ not_launched request a (λ z. cc) (ground arith)
    | inr (true, e) ↦ launched request a e (ground arith)
    | inr (false, e) ↦ not_launched request a (λ z. cc) (ground arith)
  ]

  failure-Ends :
      (Allowed : LaunchRequest qt.Env → Type 0) (r : RemminaLaunchResult)
      → r ≢ started
      → Ends Allowed (guarded (failure r))
  unfolding guarded failure
  failure-Ends A r n = not_tried n refl

  -- A dependency that throws ends the call with nothing tried.
  ask-Ends :
      (Allowed : LaunchRequest qt.Env → Type 0) {A : Type 0} (o : Option A)
      (f : A → Attempt qt.Env RemminaLaunchResult)
      → ((a : A) → o ≡ some a → Ends Allowed (guarded (f a)))
      → Ends Allowed (guarded (ask o >>= f))
  unfolding guarded
  ask-Ends P none f h = not_tried (λ z. cc) refl
  ask-Ends P (some a) f h = h a refl

  proceed-Ends :
      (instance : RemminaInstance) (arguments : List Text) (token : Text)
      → valid_program is_absolute_path instance.executable ≡ true
      → valid_arguments arguments ≡ true
      → contains_nul token ≡ false
      → Ends
          (Fits qt is_absolute_path instance arguments token)
          (guarded (proceed qt is_absolute_path deps instance arguments token))
  unfolding proceed
  proceed-Ends instance arguments token p a t =
      ask-Ends _ deps.environment _ (λ provided _. start-Ends _ _ (fits provided))
    where
      fits :
          (provided : qt.Env)
          → Fits qt is_absolute_path instance arguments token (record {
            program = instance.executable;
            arguments = arguments;
            environment = launch_environment qt provided token;
          })
      fits provided = record {
        program = refl;
        absolute = (valid_program-parts is_absolute_path _ p).0;
        program_text = (valid_program-parts is_absolute_path _ p).1;
        arguments_are = refl;
        arguments_text = valid_arguments-text arguments a;
        token_text = t;
        token_is = token_bound qt provided token;
      }

  launch-Ends :
      (instance : RemminaInstance) (arguments : List Text) (token : Text)
      → Ends
          (Fits qt is_absolute_path instance arguments token)
          (guarded (launch qt is_absolute_path deps instance arguments token))
  unfolding launch
  launch-Ends instance arguments token =
      elim (Bool-cases (valid_program is_absolute_path instance.executable)) [
        | inr p ↦ rw p (failure-Ends _ start_failed (λ z. cc))
        | inl p ↦ elim (Bool-cases (valid_arguments arguments)) [
          | inr a ↦ rw (p, a) (failure-Ends _ start_failed (λ z. cc))
          | inl a ↦ elim (Bool-cases (contains_nul token)) [
            | inl t ↦ rw (p, a, t) (failure-Ends _ start_failed (λ z. cc))
            | inr t ↦ rw (p, a, t) (proceed-Ends instance arguments token p a t)
          ]
        ]
      ]

  Ends-map :
      {P Q : LaunchRequest qt.Env → Type 0} {res : RemminaLaunchResult × List (Effect qt.Env)}
      → ((request : LaunchRequest qt.Env) → P request → Q request)
      → Ends P res
      → Ends Q res
  Ends-map f (launched q a s e) = launched q (f q a) s e
  Ends-map f (not_launched q a s e) = not_launched q (f q a) s e
  Ends-map f (not_tried n e) = not_tried n e

  -- The request of `create`: the selected installation, asked for a new connection.
  pub record Creates (token : Text) (request : LaunchRequest qt.Env) : Type 0 where
    pub snapshot : RegistrySnapshot
    pub instance' : RemminaInstance
    pub seen : deps.snapshot ≡ some snapshot
    pub selected : selected_instance snapshot ≡ some instance'
    pub fits :
        Fits qt is_absolute_path instance'
          (instance'.launcher_prefix ++ codes "--new" ∷ [])
          token
          request

  -- `create` starts the selected installation with `--new` and at most once. Unless the process
  -- was started, whatever a dependency answered or threw, the user is notified exactly once.
  pub create-Ends : (token : Text) → Ends (Creates token) (create qt is_absolute_path deps token)
  unfolding create
  create-Ends token =
      ask-Ends _ deps.snapshot _ (λ snapshot e. go snapshot e (selected_instance snapshot) refl)
    where
      go :
          (snapshot : RegistrySnapshot)
          → deps.snapshot ≡ some snapshot
          → (o : Option RemminaInstance) → selected_instance snapshot ≡ o
          → Ends (Creates token) (guarded (create_with qt is_absolute_path deps o token))
      go snapshot e none f = unfold create_with in failure-Ends _ no_instance (λ z. cc)
      go snapshot e (some i) f =
          unfold create_with in
          Ends-map
            (λ q fit. record {
              snapshot = snapshot;
              instance' = i;
              seen = e;
              selected = f;
              fits = fit;
            })
            (launch-Ends i _ token)

  -- The request of `connect`: the selected installation and the profile that the catalog resolves.
  pub record Connects (opaque_id token : Text) (request : LaunchRequest qt.Env) : Type 0 where
    pub snapshot : RegistrySnapshot
    pub instance' : RemminaInstance
    pub profile : ProfileRecord
    pub seen : deps.snapshot ≡ some snapshot
    pub selected : selected_instance snapshot ≡ some instance'
    pub resolved : deps.resolve instance'.id opaque_id ≡ some (some profile)
    pub path_absolute : is_absolute_path profile.launch_path ≡ true
    pub fits :
        Fits qt is_absolute_path instance'
          (instance'.launcher_prefix ++ codes "--connect" ∷ profile.launch_path ∷ [])
          token
          request

  path-absolute :
      (p : Text) → bad_launch_path is_absolute_path p ≡ false → is_absolute_path p ≡ true
  unfolding bad_launch_path
  path-absolute p h = ground arith

  -- `connect` starts the selected installation on the launch path of the profile that the catalog
  -- resolves for it, an absolute path, and at most once. Unless the process was started, whatever
  -- a dependency answered or threw, the user is notified exactly once.
  pub connect-Ends :
      (opaque_id token : Text)
      → Ends (Connects opaque_id token) (connect qt is_absolute_path deps opaque_id token)
  unfolding connect
  connect-Ends opaque_id token =
      ask-Ends _ deps.snapshot _ (λ snapshot e. go snapshot e (selected_instance snapshot) refl)
    where
      on :
          (snapshot : RegistrySnapshot) (i : RemminaInstance)
          → deps.snapshot ≡ some snapshot
          → selected_instance snapshot ≡ some i
          → (o : Option ProfileRecord) → deps.resolve i.id opaque_id ≡ some o
          → Ends
              (Connects opaque_id token)
              (guarded (connect_profile qt is_absolute_path deps i o token))
      on snapshot i e f none g = unfold connect_profile in failure-Ends _ missing_profile (λ z. cc)
      on snapshot i e f (some p) g =
          unfold connect_profile in
          elim (Bool-cases (bad_launch_path is_absolute_path p.launch_path)) [
            | inl b ↦ rw b (failure-Ends _ start_failed (λ z. cc))
            | inr b ↦ rw b (
                Ends-map
                  (λ q fit. record {
                    snapshot = snapshot;
                    instance' = i;
                    profile = p;
                    seen = e;
                    selected = f;
                    resolved = g;
                    path_absolute = path-absolute p.launch_path b;
                    fits = fit;
                  })
                  (launch-Ends i _ token))
          ]

      go :
          (snapshot : RegistrySnapshot)
          → deps.snapshot ≡ some snapshot
          → (o : Option RemminaInstance) → selected_instance snapshot ≡ o
          → Ends
              (Connects opaque_id token)
              (guarded (connect_with qt is_absolute_path deps o opaque_id token))
      go snapshot e none f = unfold connect_with in failure-Ends _ no_instance (λ z. cc)
      go snapshot e (some i) f =
          unfold connect_with in ask-Ends _ (deps.resolve i.id opaque_id) _ (on snapshot i e f)
