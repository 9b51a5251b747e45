-- ===== src/TaskActionTimer/Tests.antt =====
-- A timer with two delays.
use cylc_flow.Prelude.{◌≡◌, refl, true, false, none, some, [], ◌∷◌, string_eq, nat_eq}
use cylc_flow.Prelude.Int.{int_eq}
use cylc_flow.TaskActionTimer.{TaskActionTimer, init, next, is_delay_done}
use cylc_flow.TaskActionTimer.Sequence.{answers, schedule, answers-schedule}

abbrev two_delays : TaskActionTimer
two_delays = record {
  delays = 10 ∷ 30 ∷ [];
  num = 0;
  delay = none;
  timeout = none;
  is_waiting = false;
}

new_timer : init (some (10 ∷ 30 ∷ [])) 0 none none ≡ two_delays
unfolding init
new_timer = refl

runs_out : answers two_delays false (100 ∷ 200 ∷ 300 ∷ []) ≡ some 10 ∷ some 30 ∷ none ∷ []
unfolding next
runs_out = refl

repeats : answers two_delays true (100 ∷ 200 ∷ 300 ∷ []) ≡ some 10 ∷ some 30 ∷ some 30 ∷ []
unfolding next
repeats = refl

waits : is_delay_done (next two_delays false 100).0 110 ≡ false
unfolding next is_delay_done
waits = refl

answers-schedule_example :
    answers two_delays true (100 ∷ 200 ∷ 300 ∷ [])
    ≡ schedule true (10 ∷ 30 ∷ []) none (100 ∷ 200 ∷ 300 ∷ [])
answers-schedule_example = answers-schedule two_delays true (100 ∷ 200 ∷ 300 ∷ [])
