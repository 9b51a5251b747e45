-- ===== src/TaskState/Tests.antt =====
-- A task that waits for `1/a`.
use cylc_flow.Prelude.{
  ◌≡◌, refl, true, false, not, none, some, [], ◌∷◌, string_eq, nat_eq, String_discrete,
}
use cylc_flow.Prelude.Assoc.{put}
use cylc_flow.Prelude.Result.{ok}
use cylc_flow.Prelude.Int.{int_eq}
use cylc_flow.Prerequisite.{unsatisfied, Prerequisite, is_satisfied, eval_satisfied}
use cylc_flow.TaskState.{
  waiting, running, TaskStatus_discrete, task_status_eq, TaskState, init, reset, call, is_current,
  ask_all, prerequisites_all_satisfied, prerequisites_are_not_all_satisfied, add_xtrigger,
  xtriggers_all_satisfied,
}
use cylc_flow.TaskState.Reset.{reset-call, reset_forced}

abbrev waits : Prerequisite
waits = record {
  point = "2";
  satisfied = (record { point = "1"; task = "a"; output = "succeeded" }, unsatisfied) ∷ [];
  conditional_expression = none;
  cached_satisfied = none;
}

abbrev task : TaskState
task = record {
  status = waiting;
  is_held = false;
  is_queued = false;
  is_runahead = true;
  is_updated = false;
  kill_failed = false;
  time_updated = none;
  prerequisites = waits ∷ [];
  suicide_prerequisites = [];
  external_triggers = [];
  xtriggers = ("wall_clock", false) ∷ [];
}

new_task : init waiting false (waits ∷ []) [] [] ("wall_clock" ∷ []) ≡ task
unfolding init put
new_task = refl

not_ready : (prerequisites_all_satisfied task).1 ≡ ok false
unfolding prerequisites_all_satisfied ask_all is_satisfied eval_satisfied
not_ready = refl

-- Nor are all prerequisites satisfied when those for suicide are.
not_all : (prerequisites_are_not_all_satisfied task).1 ≡ ok true
unfolding prerequisites_are_not_all_satisfied prerequisites_all_satisfied ask_all is_satisfied
    eval_satisfied
not_all = refl

released : (reset task none (some false) none (some false) false "now").1 ≡ true
unfolding reset is_current TaskStatus_discrete
released = refl

triggered : xtriggers_all_satisfied (add_xtrigger task "wall_clock" true) ≡ true
unfolding add_xtrigger xtriggers_all_satisfied put String_discrete
triggered = refl

reset-call_example :
    let (s', changed) = reset task (some running) none none (some false) false "now" in
    (changed ≡ not (call task (running ∷ []) none none (some false)))
    × (false ≡ false → call s' (running ∷ []) none none (some false) ≡ true)
    × (changed ≡ false → s' ≡ task)
reset-call_example = reset-call task (some running) none none (some false) false "now"

abbrev job : TaskState
job = record task { status = running }

reset_forced_example : (reset job none (some true) none none true "now").0.status ≡ running
unfolding reset is_current TaskStatus_discrete
reset_forced_example = reset_forced job none (some true) none none "now" refl
