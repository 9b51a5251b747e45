-- ===== src/TaskEvents/Tests.antt =====
-- A task with one retry and a custom output whose message has a slash.
use cylc_flow.Prelude.{
  ◌≡◌, refl, String, Bool, true, false, none, some, [], ◌∷◌, string_eq, nat_eq, String_discrete,
  ℕ_discrete, arith,
}
use cylc_flow.Prelude.Assoc.{Assoc, get, put, has}
use cylc_flow.Prelude.Result.{Result, ok, err, ◌>>=◌}
use cylc_flow.Prelude.Int.{int_eq}
use cylc_flow.Prerequisite.{live}
use cylc_flow.TaskState.{
  TaskStatus, waiting, preparing, running, succeeded, TaskStatus_discrete, task_status_eq,
  TaskState, reset, is_current, add_xtrigger, is_gt, is_gte,
}
use cylc_flow.TaskOutputs.{TaskOutputs, set_message_complete, get_incomplete_implied}
use cylc_flow.TaskActionTimer.{init, next}
use cylc_flow.TaskEvents.{
  EventError, internal, received, TaskProxy, Manager, Settings, Call, state_reset, complete_output,
  spawn_children,
}
use cylc_flow.TaskEvents.Timers.{
  reset_job_timers, reset_timers, execution_delays, process_execution_polling_intervals,
}
use cylc_flow.TaskEvents.Handlers.{
  process_message_failed, process_message_started, process_message_succeeded,
  process_message_submitted, insert_task_job,
}
use cylc_flow.TaskEvents.Process.{
  too_deep, split_run_signal, process_message_check, kind_of, process_kind, each, process_once,
  process_from, process_message, Outcome,
}
use cylc_flow.TaskOutputs.{Completion, variables, is_complete, eval}
use cylc_flow.TaskEvents.Outputs.{IsGrown}
use cylc_flow.TaskEvents.Complete.{process_message-is_complete}
use cylc_flow.TaskEvents.Forced.{process_message_forced}
use cylc_flow.TaskEvents.Retry.{IsAnswer, process_message_failed-due_delay}
use cylc_flow.TaskEvents.Calls.{process_from-process_message}
use cylc_flow.TaskEvents.Text.{has_slash, join, process_message_slash}

abbrev state : TaskState
state = record {
  status = preparing;
  is_held = false;
  is_queued = false;
  is_runahead = false;
  is_updated = false;
  kill_failed = false;
  time_updated = none;
  prerequisites = [];
  suicide_prerequisites = [];
  external_triggers = [];
  xtriggers = [];
}

abbrev messages : Assoc String String
messages =
    ("submitted", "submitted")
    ∷ ("started", "started")
    ∷ ("succeeded", "succeeded")
    ∷ ("failed", "failed")
    ∷ ("data/ready", "ready")
    ∷ []

abbrev outputs : TaskOutputs
outputs = record {
  message_to_trigger = messages;
  message_to_compvar = messages;
  completed =
      ("submitted", false)
      ∷ ("started", false)
      ∷ ("succeeded", false)
      ∷ ("failed", false)
      ∷ ("data/ready", false)
      ∷ [];
  completion_expression = none;
  forced = [];
}

abbrev task : TaskProxy
task = record {
  state = state;
  outputs = outputs;
  submit_num = 1;
  transient = false;
  removed = false;
  run_mode = live;
  job_vacated = false;
  non_unique_events = [];
  execution_retry =
      some (record { delays = 60 ∷ []; num = 0; delay = none; timeout = none; is_waiting = false });
  submission_retry = none;
  submitted_time = none;
  started_time = none;
  finished_time = none;
  timeout = none;
  poll_timer = none;
  retry_label = "_cylc_retry_1_a";
  submit_retry_label = "_cylc_submit_retry_1_a";
}

abbrev manager : Manager
manager = record { itask = task; effects = [] }

abbrev settings : Settings
settings = record {
  now = 1000;
  current_time_string = "now";
  execution_timeout = some 500;
  submission_timeout = none;
  execution_polling_intervals = 40 ∷ 35 ∷ [];
  submission_polling_intervals = [];
  execution_time_limit = some 100;
  time_limit_polling_intervals = 10 ∷ [];
}

abbrev from_job : Call
from_job = record {
  severity = "info";
  event_time = 990;
  flag = received;
  submit_num = 1;
  forced = false;
}

abbrev set_by_hand : Call
set_by_hand = record {
  severity = "info";
  event_time = 990;
  flag = internal;
  submit_num = 1;
  forced = true;
}

abbrev view :
    Outcome → Result EventError (TaskStatus × Assoc String Bool × Assoc String Bool × Bool)
view r = r >>= λ p.
    ok (p.0.itask.state.status, p.0.itask.outputs.completed, p.0.itask.state.xtriggers, p.1)

polling :
    process_execution_polling_intervals (40 ∷ 35 ∷ []) 100 (10 ∷ []) ≡ ok (40 ∷ 35 ∷ 35 ∷ 10 ∷ [])
unfolding process_execution_polling_intervals ℕ_discrete
polling = refl

split : split_run_signal "failed/ERR" ≡ ("failed", some "ERR")
unfolding split_run_signal ℕ_discrete
split = refl

-- The messages of the earlier outputs were missed.
job_succeeded :
    view (process_message settings from_job "succeeded" manager)
    ≡ ok (
      succeeded,
      ("submitted", true)
          ∷ ("started", true)
          ∷ ("succeeded", true)
          ∷ ("failed", false)
          ∷ ("data/ready", false)
          ∷ [],
      [],
      false,
    )
unfolding process_message process_once process_from process_message_check kind_of process_kind each
    reset_job_timers reset_timers execution_delays process_execution_polling_intervals state_reset
    complete_output spawn_children process_message_started process_message_succeeded
    process_message_submitted insert_task_job reset is_current is_gt is_gte set_message_complete
    get_incomplete_implied init next get put String_discrete ℕ_discrete TaskStatus_discrete
job_succeeded = refl

job_failed :
    view (process_message settings from_job "failed/ERR" manager)
    ≡ ok (
      waiting,
      ("submitted", true)
          ∷ ("started", true)
          ∷ ("succeeded", false)
          ∷ ("failed", false)
          ∷ ("data/ready", false)
          ∷ [],
      ("_cylc_retry_1_a", false) ∷ [],
      false,
    )
unfolding process_message process_once process_from process_message_check kind_of process_kind each
    reset_job_timers reset_timers execution_delays process_execution_polling_intervals state_reset
    complete_output spawn_children process_message_started process_message_failed
    process_message_submitted insert_task_job reset is_current is_gt is_gte add_xtrigger
    set_message_complete get_incomplete_implied init next get put String_discrete ℕ_discrete
    TaskStatus_discrete
job_failed = refl

abbrev value_of : Outcome → Manager
value_of (err e) = manager
value_of (ok r) = r.0

-- The task may end without its success.
abbrev optional : TaskOutputs
optional = record outputs {
  completed =
      ("submitted", true)
      ∷ ("started", false)
      ∷ ("succeeded", false)
      ∷ ("failed", false)
      ∷ ("data/ready", false)
      ∷ [];
  completion_expression = some (Completion.var "submitted");
}

abbrev lenient : Manager
lenient = record { itask = record task { outputs = optional }; effects = [] }

abbrev lenient_after : Manager
unfolding process_message process_once process_from process_message_check kind_of process_kind each
    reset_job_timers reset_timers execution_delays process_execution_polling_intervals state_reset
    complete_output spawn_children process_message_started process_message_succeeded
    process_message_submitted insert_task_job reset is_current is_gt is_gte set_message_complete
    get_incomplete_implied init next get put String_discrete ℕ_discrete TaskStatus_discrete
lenient_after = value_of (process_message settings from_job "succeeded" lenient)

process_message-is_complete_example :
    IsGrown optional lenient_after.itask.outputs
    × (is_complete lenient_after.itask.outputs ≡ ok true)
unfolding process_message process_once process_from process_message_check kind_of process_kind each
    reset_job_timers reset_timers execution_delays process_execution_polling_intervals state_reset
    complete_output spawn_children process_message_started process_message_succeeded
    process_message_submitted insert_task_job reset is_current is_gt is_gte set_message_complete
    get_incomplete_implied init next get put String_discrete ℕ_discrete TaskStatus_discrete
    variables is_complete eval has
process_message-is_complete_example =
    process_message-is_complete settings from_job "succeeded" lenient lenient_after false
      (("submitted", true)
        ∷ ("started", false)
        ∷ ("succeeded", false)
        ∷ ("failed", false)
        ∷ ("ready", false)
        ∷ [])
      refl refl refl refl

abbrev active : Manager
active = record { itask = record task { state = record state { status = running } }; effects = [] }

abbrev active_after : Manager
unfolding process_message process_once process_from process_message_check kind_of process_kind each
    reset_job_timers reset_timers execution_delays process_execution_polling_intervals state_reset
    complete_output spawn_children process_message_started process_message_succeeded
    process_message_submitted insert_task_job reset is_current is_gt is_gte set_message_complete
    get_incomplete_implied init next get put String_discrete ℕ_discrete TaskStatus_discrete
active_after = value_of (process_message settings set_by_hand "submitted" active)

process_message_forced_example : active_after.itask.state.status ≡ running
unfolding process_message process_once process_from process_message_check kind_of process_kind each
    reset_job_timers reset_timers execution_delays process_execution_polling_intervals state_reset
    complete_output spawn_children process_message_started process_message_succeeded
    process_message_submitted insert_task_job reset is_current is_gt is_gte set_message_complete
    get_incomplete_implied init next get put String_discrete ℕ_discrete TaskStatus_discrete
process_message_forced_example =
    process_message_forced settings set_by_hand "submitted" active active_after false refl refl

process_message_failed-due_delay_example :
    (n : Manager) × (final : Bool) × (process_message_failed settings from_job "job failed" none
        manager
      ≡ ok (n, final))
    × IsAnswer (some 60) settings task n.itask final
process_message_failed-due_delay_example =
    process_message_failed-due_delay settings from_job "job failed" none manager

process_from-process_message_example :
    process_from too_deep settings 5 from_job "succeeded" manager
    ≡ process_message settings from_job "succeeded" manager
process_from-process_message_example =
    process_from-process_message too_deep settings 5 from_job "succeeded" manager (omega arith)

-- The output `ready` is not completed.
process_message_slash_example :
    (n : Manager) × (process_message settings from_job (join ("data", some "ready")) manager
      ≡ ok (n, false))
    × (record n.itask { non_unique_events = [] } ≡ task)
unfolding has_slash get String_discrete ℕ_discrete
process_message_slash_example =
    process_message_slash settings from_job "data" "ready" manager refl
      (refl, refl, refl, refl, refl) refl

abbrev with_data : Manager
with_data = record {
  itask = record task { outputs = record outputs { completed = ("data", false) ∷ [] } };
  effects = [];
}
