-- ===== src/Tests/Runtime.antt =====
-- A mount that is started and stopped, and one that is started twice.
use net_drive.Prelude.{◌≡◌, refl, none, some, List, [], ◌∷◌}
use net_drive.Prelude.Text.{codes}
use net_drive.Runtime.Defs.{no_config, config_info, idle}
use net_drive.Runtime.Calls.{
  Event, starts, builds, stops, ends, run_events, step, new_runtime, connect, is_busy, begin_start,
  transition_to_error, build_done, stop, session_ended,
}
use net_drive.Runtime.Phases.{IsValid, run_events-IsValid, new_runtime-IsValid}

abbrev good : Event
good = starts (codes "work") no_config none 1

abbrev bad : Event
bad = starts (codes "work") no_config (some (codes "addr is required")) 2

abbrev built : Event
built = builds (codes "work") (config_info no_config) 3

abbrev events : List Event
events = good ∷ built ∷ good ∷ stops 4 ∷ ends none 5 ∷ good ∷ []

run_events-IsValid_example : IsValid (run_events (new_runtime 0) events)
run_events-IsValid_example =
    run_events-IsValid (new_runtime 0) events (refl, (tt, (refl, (tt, (tt, (refl, tt))))))
      (new_runtime-IsValid 0)

stopped_test :
    (run_events (new_runtime 0) (good ∷ built ∷ stops 4 ∷ ends none 5 ∷ [])).state.phase ≡ idle
unfolding run_events step new_runtime begin_start connect is_busy build_done stop session_ended
stopped_test = refl

-- A start with an invalid configuration while another start is connecting lets a third one begin,
-- and two sessions run.
two_sessions_test :
    (run_events (new_runtime 0) (good ∷ bad ∷ good ∷ built ∷ built ∷ [])).running ≡ 2
unfolding run_events step new_runtime begin_start connect is_busy transition_to_error build_done
    stop session_ended
two_sessions_test = refl
