-- ===== src/TaskPool/Tests.antt =====
-- A pool of two tasks with two recurrences, and a limit of two cycles after the base point.
use cylc_flow.Prelude.{
  ℕ, ◌≤◌, ◌≡◌, refl, inl, String, true, false, none, some, [], ◌∷◌, length, All, string_eq, nat_eq,
  ℕ_discrete, String_discrete, arith,
}
use cylc_flow.Prelude.Assoc.{get, put}
use cylc_flow.Prelude.Int.{pos, ◌+ℤ◌, ◌-ℤ◌, emod, ℤ_discrete, int_eq}
use cylc_flow.Cycling.Integer.{
  IntegerSequence, Base, get_next_point, get_next_point_on_sequence, is_on_sequence, on_sequence,
  get_point_in_bounds, is_excluded,
}
use cylc_flow.Cycling.Integer
use cylc_flow.TaskState.{TaskState, waiting, reset, is_current, TaskStatus_discrete}
use cylc_flow.TaskPool.{Config, TaskProxy, TaskPool, tasks_of, get_tasks}
use cylc_flow.TaskPool.Limit.{
  take, last, min_point, unfinished_points, runahead_base_point, add_point, add_points,
  sequence_points, unadjusted_limit, compute_from, compute_runahead,
}
use cylc_flow.TaskPool.Operations.{set_stop_point, set_hold_point, for_each}
use cylc_flow.TaskPool.Kept.{KeepsProxy}
use cylc_flow.TaskPool.Released.{HasReleased, release_runahead_tasks-HasReleased}
use cylc_flow.TaskPool.Release.{get_task, add_to_pool, release_runahead_tasks}
use cylc_flow.TaskPool.Runahead.{here, compute_runahead-take}
use cylc_flow.TaskPool.Points.{IsIn}
use cylc_flow.TaskPool.Integer.{of_integer, of_integer-IsIncreasing}
use cylc_flow.TaskPool.Stop.{Reach, Reach-IsBounded, IsBounded, compute, stop}
use cylc_flow.TaskPool.Hold.{
  IsHeldAfter, IsStopped, set_hold_point-IsHeldAfter, set_stop_point-IsStopped,
}

abbrev every : ℕ → IntegerSequence
every n = record {
  base = record { p_start = pos 1; p_stop = none; i_step = some n };
  exclusions = none;
}

abbrev state : TaskState
state = record {
  status = waiting;
  is_held = false;
  is_queued = false;
  is_runahead = true;
  is_updated = false;
  kill_failed = false;
  time_updated = none;
  prerequisites = [];
  suicide_prerequisites = [];
  external_triggers = [];
  xtriggers = [];
}

abbrev released : TaskState
released = record state { is_runahead = false; is_updated = true; time_updated = some "now" }

abbrev config : Config
config = record {
  runahead_limit = 2;
  start_point = pos 1;
  sequences = of_integer 9 (every 2) ∷ of_integer 9 (every 5) ∷ [];
  cylc7_back_compat = false;
  current_time_string = "now";
  next_point_parentless = λ name start point. some (point +ℤ pos 1);
  spawn_task = λ name point flow_nums pool. some record {
    name = name;
    point = point;
    state = state;
    flow_nums = flow_nums;
    is_xtrigger_sequential = false;
    max_future_prereq_offset = none;
  };
  merge_flows = λ flow_nums t. (record t { flow_nums = flow_nums }, []);
}

abbrev task : String → ℕ → TaskProxy
task name n = record {
  name = name;
  point = pos n;
  state = state;
  flow_nums = 1 ∷ [];
  is_xtrigger_sequential = false;
  max_future_prereq_offset = none;
}

abbrev pool : TaskPool
pool = record {
  active_tasks = (pos 5, task "b" 5 ∷ []) ∷ (pos 3, task "a" 3 ∷ []) ∷ [];
  max_future_offset = none;
  prev_runahead_base_point = none;
  prev_runahead_sequence_points = [];
  runahead_limit_point = none;
  stop_point = none;
  hold_point = none;
  tasks_to_hold = [];
  effects = [];
}

limit_six : (compute_runahead config true pool).0.runahead_limit_point ≡ some (pos 6)
unfolding compute_runahead compute_from runahead_base_point min_point unfinished_points
    sequence_points add_points add_point unadjusted_limit take last get_next_point
    get_next_point_on_sequence is_on_sequence on_sequence get_point_in_bounds is_excluded
    Integer.get_first_point ◌+ℤ◌ ◌-ℤ◌ emod ℕ_discrete ℤ_discrete
limit_six = refl

compute_runahead-take_example :
    (length (take 3 (compute_runahead config true pool).0.prev_runahead_sequence_points) ≤ 3)
    × IsIn (pos 6) (take 3 (compute_runahead config true pool).0.prev_runahead_sequence_points)
unfolding compute_runahead compute_from runahead_base_point min_point unfinished_points
    sequence_points add_points add_point unadjusted_limit take last get_next_point
    get_next_point_on_sequence is_on_sequence on_sequence get_point_in_bounds is_excluded
    Integer.get_first_point ◌+ℤ◌ ◌-ℤ◌ emod ℕ_discrete ℤ_discrete
compute_runahead-take_example =
    compute_runahead-take config pool (pos 3) (pos 6) (pos 6) 1 (of_integer 9 (every 5)) refl refl
      refl refl (of_integer-IsIncreasing (every 5) 5 9 (omega arith) refl) (here refl) (omega arith)

abbrev limited : TaskPool
limited = record pool { runahead_limit_point = some (pos 4) }

-- The next instance of a task with no parents is held back when it is added.
added :
    get_tasks (release_runahead_tasks config limited).0
    ≡ task "b" 5 ∷ record (task "a" 3) { state = released } ∷ task "a" 4 ∷ []
unfolding release_runahead_tasks for_each reset get_tasks add_to_pool put get String_discrete
    ℤ_discrete tasks_of ℕ_discrete ◌+ℤ◌ is_current TaskStatus_discrete
added = refl

keeps : KeepsProxy config
unfolding KeepsProxy
keeps flow_nums t = (refl, refl, refl)

in_pool : get_task limited (pos 3) "a" ≡ some (task "a" 3)
unfolding get_task get String_discrete ℤ_discrete ℕ_discrete
in_pool = refl

release_runahead_tasks-HasReleased_example :
    HasReleased "a" (pos 3) (release_runahead_tasks config limited).0
release_runahead_tasks-HasReleased_example =
    release_runahead_tasks-HasReleased config limited (pos 4) (task "a" 3) keeps refl in_pool
      (inl refl)

set_hold_point-IsHeldAfter_example :
    All (IsHeldAfter (pos 3)) (get_tasks (set_hold_point config (pos 3) pool))
set_hold_point-IsHeldAfter_example = set_hold_point-IsHeldAfter config (pos 3) pool

set_stop_point-IsStopped_example :
    All (IsStopped (pos 3)) (get_tasks (set_stop_point config (pos 3) limited).0)
set_stop_point-IsStopped_example =
    set_stop_point-IsStopped config (pos 3) (pos 4) limited refl refl (omega arith)

Reach-IsBounded_example :
    IsBounded (compute_runahead config true (set_stop_point config (pos 3) limited).0).0
Reach-IsBounded_example =
    Reach-IsBounded
      (Reach.step (stop (pos 3) limited)
        (Reach.step (compute true (set_stop_point config (pos 3) limited).0) Reach.done))
      tt
