-- ===== src/Tests/Service.antt =====
-- Calls of the service.
use remmina_krunner.Base.{
  Text, codes, List, [], ◌∷◌, some, true, false, All, ◌≡◌, refl, starts_with,
}
use remmina_krunner.Base.Sublists.{Sublist}
use remmina_krunner.Catalog.{found}
use remmina_krunner.Service.{
  Answers, RunnerService, initial, connects, ends_session, is_opaque_profile_id, end_active_session,
  run_match, launches,
}
use remmina_krunner.Service.Events.{Event, matches, runs, sets_token, times_out, trace}
use remmina_krunner.Service.Session.{IsTracked, open_after, trace-IsTracked}
use remmina_krunner.Service.Token.{used, trace-used}
use remmina_krunner.Service.Launches.{Permitted, run_match-Permitted, run_match-connects}
use remmina_krunner.Tests.Data.{is_blank, lower, native_one, profile}

abbrev plain : Text → Text
plain t = t

abbrev answers : Answers
answers = record {
  snapshot = some (record {
    instances = native_one ∷ [];
    selected_id = codes "native:/a";
    failed_backends = [];
  });
  records = λ _. some (found (profile (codes "1") (codes "Web") (codes "a.example") ∷ []));
}

abbrev hex_id : Text
hex_id = codes "0123456789abcdef0123456789abcdef0123456789abcdef0123456789abcdef"

abbrev session : List Event
session =
    matches answers (codes "rem web")
    ∷ sets_token (some (codes "t1"))
    ∷ runs hex_id []
    ∷ runs hex_id []
    ∷ matches answers (codes "rem web")
    ∷ times_out
    ∷ []

trace-IsTracked_example :
    IsTracked
      (open_after false (trace is_blank lower plain session initial).1)
      (trace is_blank lower plain session initial).0
trace-IsTracked_example = trace-IsTracked is_blank lower plain session

trace-used_example : Sublist (used (trace is_blank lower plain session initial).1) (codes "t1" ∷ [])
trace-used_example = trace-used is_blank lower plain session

abbrev waiting : RunnerService
waiting = record { timer_running = true; activation_token = codes "t1"; session_active = true }

run_match-Permitted_example : All (Permitted hex_id [] waiting) (run_match hex_id [] waiting).1
run_match-Permitted_example = run_match-Permitted hex_id [] waiting

run_match-connects_example :
    (run_match hex_id [] waiting).1
    ≡ connects hex_id (codes "t1")
      ∷ (end_active_session false (record waiting { activation_token = [] })).1
unfolding is_opaque_profile_id
run_match-connects_example = run_match-connects hex_id waiting refl

errors_not_run : (run_match (codes "error:internal") [] waiting).1 ≡ ends_session ∷ []
unfolding run_match launches end_active_session starts_with
errors_not_run = refl
