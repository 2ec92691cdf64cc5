-- ===== src/Launcher.antt =====
-- src/core/remmina_launcher.cpp: starting Remmina for the selected installation. The registry, the
-- catalog, the process launcher, the notifier and Qt's process environment are dependencies;
-- a dependency that throws is an absent value.
pub mod Outcome
use remmina_krunner.Base.{
  Text, codes, List, [], ◌∷◌, ◌++◌, Option, none, some, is_empty, any, if◌then◌else◌, Bool, true,
  false, not, ◌&&◌, ◌||◌, ◌==◌, ◌≡◌, equal,
}
use remmina_krunner.Instance.{RemminaInstance, RegistrySnapshot, selected_instance}
use remmina_krunner.Profile.{ProfileRecord}

pub data RemminaLaunchResult : Type 0 where
  started no_instance missing_profile start_failed : RemminaLaunchResult

-- QProcessEnvironment, with what its documentation says of a lookup after a change.
pub record ProcessEnvironment : Type 1 where
  pub Env : Type 0
  pub inherits_from_parent : Env → Bool
  pub system_environment : Env
  pub value : Text → Env → Option Text
  pub remove : Text → Env → Env
  pub insert : Text → Text → Env → Env
  pub value-remove : (k : Text) (e : Env) → value k (remove k e) ≡ none
  pub value-insert : (k v : Text) (e : Env) → value k (insert k v e) ≡ some v

pub record LaunchRequest (Env : Type 0) : Type 0 where
  pub program : Text
  pub arguments : List Text
  pub environment : Env

-- What the launcher does outside: a call of `startDetached`, or of `showLaunchFailure`.
pub data Effect (Env : Type 0) : Type 0 where
  tried : LaunchRequest Env → Effect Env
  notified : Effect Env

-- A computation that acts, and then returns a value or throws.
pub record Attempt (Env A : Type 0) : Type 0 where
  pub effects : List (Effect Env)
  pub result : Option A

abbrev pub pure : {Env A : Type 0} → A → Attempt Env A
pure a = record { effects = []; result = some a }

abbrev pub after : {Env A : Type 0} → List (Effect Env) → Attempt Env A → Attempt Env A
after es m = record { effects = es ++ m.effects; result = m.result }

infixl 5 ◌>>=◌
abbrev pub ◌>>=◌ : {Env A B : Type 0} → Attempt Env A → (A → Attempt Env B) → Attempt Env B
◌>>=◌ m f = elim m.result [
  | none ↦ record { effects = m.effects; result = none }
  | some a ↦ after m.effects (f a)
]

-- The value of a dependency, which may throw.
abbrev pub ask : {Env A : Type 0} → Option A → Attempt Env A
ask o = record { effects = []; result = o }

pub record Dependencies (Env : Type 0) : Type 0 where
  pub snapshot : Option RegistrySnapshot
  pub resolve : Text → Text → Option (Option ProfileRecord)
  pub environment : Option Env
  pub start_detached : LaunchRequest Env → Option Bool

abbrev pub activation_token_name : Text
activation_token_name = codes "XDG_ACTIVATION_TOKEN"

unfoldable pub contains_nul : Text → Bool
contains_nul = any (λ c. c == 0)

unfoldable pub valid_arguments : List Text → Bool
valid_arguments arguments = not (any contains_nul arguments)

-- `failure`; an exception of the notifier is caught there.
unfoldable pub failure : {Env : Type 0} → RemminaLaunchResult → Attempt Env RemminaLaunchResult
failure r = record { effects = notified ∷ []; result = some r }

-- The handler `catch (...)` of `create` and `connect`.
unfoldable pub guarded :
    {Env : Type 0} → Attempt Env RemminaLaunchResult → RemminaLaunchResult × List (Effect Env)
guarded m = elim m.result [
  | some r ↦ (r, m.effects)
  | none ↦ (start_failed, m.effects ++ notified ∷ [])
]

module _ (is_absolute_path : Text → Bool) where
  unfoldable pub valid_program : Text → Bool
  valid_program program =
      not (is_empty program) && is_absolute_path program && not (contains_nul program)

  -- The check of the launch path in `connect`.
  unfoldable pub bad_launch_path : Text → Bool
  bad_launch_path path = is_empty path || not (is_absolute_path path) || contains_nul path

module _ (qt : ProcessEnvironment) where
  open qt use {Env, inherits_from_parent, system_environment, remove, insert}

  -- The environment of the new process.
  unfoldable pub launch_environment : Env → Text → Env
  launch_environment provided token =
      let base = if inherits_from_parent provided then system_environment else provided in
      let cleared = remove activation_token_name base in
      if is_empty token then cleared else insert activation_token_name token cleared

module _ (qt : ProcessEnvironment) (is_absolute_path : Text → Bool)
    (deps : Dependencies qt.Env) where
  -- The end of `launch`: the call of the process launcher.
  unfoldable pub start : LaunchRequest qt.Env → Attempt qt.Env RemminaLaunchResult
  start request = do
    ok ← record { effects = tried request ∷ []; result = deps.start_detached request }
    if not ok then failure start_failed else pure started

  -- `launch` behind its checks.
  unfoldable pub proceed : RemminaInstance → List Text → Text → Attempt qt.Env RemminaLaunchResult
  proceed instance arguments token = do
    provided ← ask deps.environment
    start (record {
      program = instance.executable;
      arguments = arguments;
      environment = launch_environment qt provided token;
    })

  unfoldable pub launch : RemminaInstance → List Text → Text → Attempt qt.Env RemminaLaunchResult
  launch instance arguments token =
      if not (valid_program is_absolute_path instance.executable)
        || not (valid_arguments arguments)
        || contains_nul token
      then failure start_failed
      else proceed instance arguments token

  unfoldable pub create_with : Option RemminaInstance → Text → Attempt qt.Env RemminaLaunchResult
  create_with none token = failure no_instance
  create_with (some instance) token =
      launch instance (instance.launcher_prefix ++ codes "--new" ∷ []) token

  unfoldable pub create : Text → RemminaLaunchResult × List (Effect qt.Env)
  create token =
      guarded (do snapshot ← ask deps.snapshot; create_with (selected_instance snapshot) token)

  unfoldable pub connect_profile :
      RemminaInstance → Option ProfileRecord → Text → Attempt qt.Env RemminaLaunchResult
  connect_profile instance none token = failure missing_profile
  connect_profile instance (some profile) token =
      if bad_launch_path is_absolute_path profile.launch_path
      then failure start_failed
      else launch instance
          (instance.launcher_prefix ++ codes "--connect" ∷ profile.launch_path ∷ []) token

  unfoldable pub connect_with :
      Option RemminaInstance → Text → Text → Attempt qt.Env RemminaLaunchResult
  connect_with none opaque_id token = failure no_instance
  connect_with (some instance) opaque_id token = do
    profile ← ask (deps.resolve instance.id opaque_id)
    connect_profile instance profile token

  unfoldable pub connect : Text → Text → RemminaLaunchResult × List (Effect qt.Env)
  connect opaque_id token =
      guarded
        (do snapshot ← ask deps.snapshot; connect_with (selected_instance snapshot) opaque_id token)
