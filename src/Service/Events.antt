-- ===== src/Service/Events.antt =====
-- The calls that the service takes, in any order, and what it does on the way.
use remmina_krunner.Base.{ℕ, Text, List, [], ◌∷◌, ◌++◌, Option, Bool}
use remmina_krunner.Service.{
  RunnerService, Call, Answers, match_query, run_match, teardown, config, set_activation_token,
  time_out,
}

-- A call over D-Bus, or the end of the idle time.
pub data Event : Type 0 where
  matches : Answers → Text → Event
  runs : Text → Text → Event
  tears_down configures times_out : Event
  sets_token : Option Text → Event

module _ (is_space : ℕ → Bool) (fold trimmed : Text → Text) where
  abbrev pub step : Event → RunnerService → RunnerService × List Call
  step (matches answers query) s =
      let answer = match_query is_space fold trimmed answers query s in (answer.1, answer.2)
  step (runs match_id action_id) s = run_match match_id action_id s
  step tears_down s = teardown s
  step configures s = ((config s).1, (config s).2)
  step times_out s = time_out s
  step (sets_token token) s = (set_activation_token token s, [])

  unfoldable pub trace : List Event → RunnerService → RunnerService × List Call
  trace [] s = (s, [])
  trace (e ∷ es) s = ((trace es (step e s).0).0, (step e s).1 ++ (trace es (step e s).0).1)
