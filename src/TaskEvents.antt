-- ===== src/TaskEvents.antt =====
-- cylc/flow/task_events_mgr.py: class TaskEventsManager, the effect of task messages on a task proxy.
-- A handler takes the proxy with the calls that it has made so far on other components (Effect), and
-- returns both; log lines are left out. Times are natural numbers of seconds. What the configuration,
-- the broadcasts and the clock give is in Settings. A handler that raises returns the error alone.
pub mod Timers
pub mod Handlers
pub mod Process
pub mod Outputs
pub mod Steps
pub mod Kinds
pub mod Complete
pub mod Cautious
pub mod Forced
pub mod Retry
pub mod Calls
pub mod Text
mod Tests
use cylc_flow.Prelude.{
  get_elem?, sum, ℕ, zero, suc, ◌+◌, ◌-◌, ◌*◌, ◌/◌, ◌%◌, ◌≤◌, ◌<◌, ◌≡◌, refl, sym, ◌∙◌, ap, subst,
  ◌≢◌, ◌↔◌, ◌⊎◌, inl, inr, String, Bool, true, false, not, ◌&&◌, ◌||◌, Option, none, some, List, [],
  ◌∷◌, ◌++◌, map, any, all, filter, contains, IsNodup, length, All, All-mono, All-append,
  contains-append, length-append, if◌then◌else◌, ◌==◌, Eq, is_yes, string_eq, nat_eq,
  String_discrete, ℕ_discrete, eq_refl, eq_of_==, ltb, leb, ltb→lt, leb→le, arith, Bool-cases,
  Option-cases, List-cases,
}
use cylc_flow.Prelude.Assoc.{
  Assoc, keys, get, put, has, get-put, has-put, has_of_get, get-none, get-some, All_get,
}
use cylc_flow.Prelude.Result.{Result, ok, err, ◌>>=◌, traverse, or_raise, >>=-eq-ok}
use cylc_flow.Prelude.Int.{
  ℤ, pos, negsuc, pos_part, neg_part, sub_ℕ, ◌+ℤ◌, ◌-ℤ◌, ◌*ℤ◌, ◌≤ℤ◌, ◌<ℤ◌, ltb_ℤ, leb_ℤ, emod,
  ℤ_discrete, int_eq, +ℤ_parts, -ℤ_parts, eq_of_parts, int_laws, emod-add, emod-lt,
}
use cylc_flow.Prerequisite.{RunMode, live, simulation, dummy, skip}
use cylc_flow.TaskState.{
  TaskStatus, waiting, expired, preparing, submit_failed, submitted, running, failed, succeeded,
  task_status_eq, TaskState, call, reset, add_xtrigger,
}
use cylc_flow.TaskOutputs.{TaskOutputs, set_message_complete}
use cylc_flow.TaskActionTimer.{TaskActionTimer}
use cylc_flow.TaskActionTimer

pub data EventError : Type 0 where
  key_error zero_division_error recursion_error : EventError

pub data Flag : Type 0 where
  internal received polled : Flag

-- Calls on the data store, the database, the event handlers, the task pool and the triggers.
pub data Effect : Type 0 where
  reset_inactivity : Effect
  delta_job_msg : String → Effect
  delta_task_output : String → Effect
  delta_task_state : Effect
  delta_job_time : String → ℕ → Effect
  delta_job_state : TaskStatus → Effect
  delta_job_id : Effect
  insert_job : TaskStatus → Effect
  put_update_task_state : Effect
  put_update_task_jobs : String → Effect
  put_update_task_outputs : Effect
  db_events_insert : String → String → Effect
  setup_event_handlers : String → String → Effect
  elapsed_time : ℕ → ℕ → Effect
  retry_trigger : String → Option ℕ → Effect
  spawn : String → Effect

-- A poll timer with its context, the submit number and the status.
pub record PollTimer : Type 0 where
  pub submit_num : ℕ
  pub status : TaskStatus
  pub timer : TaskActionTimer

-- The attributes that the handlers use. The labels are those of the retry triggers.
pub record TaskProxy : Type 0 where
  pub state : TaskState
  pub outputs : TaskOutputs
  pub submit_num : ℕ
  pub transient : Bool
  pub removed : Bool
  pub run_mode : RunMode
  pub job_vacated : Bool
  pub non_unique_events : Assoc String ℕ
  pub execution_retry : Option TaskActionTimer
  pub submission_retry : Option TaskActionTimer
  pub submitted_time : Option ℕ
  pub started_time : Option ℕ
  pub finished_time : Option ℕ
  pub timeout : Option ℕ
  pub poll_timer : Option PollTimer
  pub retry_label : String
  pub submit_retry_label : String

pub record Manager : Type 0 where
  pub itask : TaskProxy
  pub effects : List Effect

pub record Settings : Type 0 where
  pub now : ℕ
  pub current_time_string : String
  pub execution_timeout : Option ℕ
  pub submission_timeout : Option ℕ
  pub execution_polling_intervals : List ℕ
  pub submission_polling_intervals : List ℕ
  pub execution_time_limit : Option ℕ
  pub time_limit_polling_intervals : List ℕ

-- The arguments of `process_message`; `severity` is in lower case.
pub record Call : Type 0 where
  pub severity : String
  pub event_time : ℕ
  pub flag : Flag
  pub submit_num : ℕ
  pub forced : Bool

abbrev pub emit : Effect → Manager → Manager
emit e m = record m { effects = m.effects ++ e ∷ [] }

abbrev pub is_expired : Option TaskStatus → Bool
is_expired (some expired) = true
is_expired _ = false

-- `state_reset` of TaskProxy: an expired task is neither queued nor held back.
unfoldable pub state_reset :
    Settings → Option TaskStatus → Option Bool → Bool → Manager → Manager × Bool
state_reset env status is_queued forced m =
    let queued = if is_expired status then some false else is_queued in
    let runahead = if is_expired status then some false else none in
    let (state, changed) =
      reset m.itask.state status none queued runahead forced env.current_time_string in
    (record m { itask = record m.itask { state = state } }, changed)

-- `self.state(*TASK_STATUSES_ACTIVE)`
abbrev pub is_active_status : TaskStatus → Bool
is_active_status submitted = true
is_active_status running = true
is_active_status _ = false

-- `set_message_complete` on the outputs of the proxy.
unfoldable pub complete_output : String → Bool → Manager → Manager × Option Bool
complete_output message forced m =
    let (outputs, answer) = set_message_complete m.itask.outputs message forced in
    (record m { itask = record m.itask { outputs = outputs } }, answer)

-- Children of a transient proxy are spawned only by force.
unfoldable pub spawn_children : String → Bool → Manager → Manager
spawn_children output forced m =
    let m' = emit put_update_task_outputs m in
    if not m.itask.transient || forced then emit (spawn output) m' else m'
