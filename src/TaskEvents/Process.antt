-- ===== src/TaskEvents/Process.antt =====
-- `process_message`, `_process_message_check` and `split_run_signal` of cylc/flow/task_message.py.
use cylc_flow.Prelude.{
  ℕ, zero, suc, ◌+◌, String, Bool, true, false, not, ◌&&◌, ◌||◌, Option, none, some, List, [], ◌∷◌,
  if◌then◌else◌, ◌==◌, string_eq, nat_eq, ltb,
}
use cylc_flow.Prelude.Assoc.{get, put}
use cylc_flow.Prelude.Result.{Result, ok, err, ◌>>=◌, or_raise}
use cylc_flow.Prelude.Int.{int_eq}
use Prim.Native.Char.{Char, code}
use Prim.Native.String.{◌++◌ as ◌<>◌}
use cylc_flow.Prerequisite.{RunMode, live}
use cylc_flow.TaskState.{
  waiting, submit_failed, submitted, running, failed, task_status_eq, is_gt, is_gte,
}
use cylc_flow.TaskOutputs.{get_incomplete_implied}
use cylc_flow.TaskActionTimer.{TaskActionTimer}
use cylc_flow.TaskEvents.{
  EventError, key_error, recursion_error, Flag, internal, received, polled, TaskProxy, Manager,
  Settings, Call, Effect, emit, state_reset, complete_output, spawn_children,
}
use cylc_flow.TaskEvents.Timers.{reset_job_timers}
use cylc_flow.TaskEvents.Handlers.{
  on_task, if_changed, process_message_failed, process_message_started, process_message_expired,
  process_message_succeeded, process_message_submit_failed, process_message_submitted,
  restart_submission, unqueue,
}

abbrev pub is_slash : Char → Bool
is_slash c = code c == b'/'

-- `prefix, *signal = message.split('/', 1)`
unfoldable pub split_run_signal : String → String × Option String
split_run_signal String.[] = (String.[], none)
split_run_signal (String.◌∷◌ c s) =
    let (prefix, signal) = split_run_signal s in
    if is_slash c then (String.[], some s) else (String.◌∷◌ c prefix, signal)

abbrev pub is_some {ℓ} : {A : Type ℓ} → Option A → Bool
is_some none = false
is_some (some a) = true

abbrev pub is_received : Flag → Bool
is_received received = true
is_received _ = false

abbrev pub is_live : RunMode → Bool
is_live live = true
is_live _ = false

-- The message with the flag of a poll.
abbrev pub job_msg : Flag → String → String
job_msg polled message = message <> " (polled)"
job_msg _ message = message

abbrev pub has_begun : Option TaskActionTimer → Bool
has_begun none = false
has_begun (some timer) = ltb 0 timer.num

-- `_process_message_check`: late messages of old jobs and of tasks that wait for a retry are ignored.
unfoldable pub process_message_check : Call → String → Manager → Bool
process_message_check call message m =
    let t = m.itask in
    if t.transient || call.forced
    then true
    else if is_received call.flag && not (call.submit_num == t.submit_num)
    then false
    else not (
        t.state.status == waiting
        && not (message == "expired")
        && is_live t.run_mode
        && (has_begun t.submission_retry || has_begun t.execution_retry))

-- The branches of `process_message`.
pub data Kind : Type 0 where
  is_started is_succeeded is_expired is_failed is_submit_failed is_submitted : Kind
  is_vacated is_custom is_unhandled : Kind

unfoldable pub kind_of : String → String → Option String → Bool → Kind
kind_of message task_output run_signal output_completed =
    if message == "started"
    then is_started
    else if message == "succeeded"
    then is_succeeded
    else if message == "expired"
    then is_expired
    else if task_output == "failed"
    then is_failed
    else if message == "submission failed"
    then is_submit_failed
    else if message == "submitted"
    then is_submitted
    else if is_some run_signal && task_output == "vacated"
    then is_vacated
    else if output_completed
    then is_custom
    else is_unhandled

-- A handler's result, and whether a poll must confirm the message.
abbrev pub Outcome : Type 0
Outcome = Result EventError (Manager × Bool)

abbrev pub then_spawn : String → Bool → Manager → Outcome
then_spawn output forced m = ok (spawn_children output forced m, false)

-- Children are spawned only if no retry is due.
abbrev pub spawn_if_final : String → Bool → Manager × Bool → Outcome
spawn_if_final output forced (m, true) = then_spawn output forced m
spawn_if_final output forced (m, false) = ok (m, false)

abbrev pub failure_message : Option String → Bool → String
failure_message (some signal) true = signal
failure_message _ _ = "job failed"

-- The row for a job that was aborted or got a signal.
abbrev pub note_signal : Option String → Bool → Manager → Manager
note_signal none job_aborted m = m
note_signal (some signal) job_aborted m =
    emit (Effect.db_events_insert (if job_aborted then "aborted" else "signaled") signal) m

unfoldable pub vacate : Settings → Call → String → Manager → Manager
vacate env call message m =
    let m1 =
      on_task (λ t. record (restart_submission t) { started_time = none; job_vacated = true })
        (emit (Effect.db_events_insert "vacated" message) m) in
    if_changed (state_reset env (some submitted) none call.forced m1)
      (λ n. emit Effect.delta_task_state (unqueue env call.forced n))

unfoldable pub process_vacated : Settings → Call → String → Manager → Outcome
unfolding vacate
process_vacated env call message m =
    reset_job_timers env (vacate env call message m) >>= λ m'. ok (m', false)

unfoldable pub process_custom : Call → String → String → Manager → Outcome
process_custom call message task_output m = do
  trigger ← or_raise key_error (get m.itask.outputs.message_to_trigger message)
  then_spawn task_output call.forced (emit (Effect.setup_event_handlers trigger message) m)

abbrev pub unless_received : Call → Bool → Manager → Outcome → Outcome
unless_received call past m rest = if is_received call.flag && past then ok (m, true) else rest

-- The branch for a kind of message, with the aborted run's signal.
unfoldable pub process_kind :
    Kind → Settings → Call → String → String → Option String → Bool → Manager → Outcome
unfolding process_message_failed process_message_started process_message_succeeded
    process_message_submit_failed process_message_submitted process_vacated process_custom
process_kind is_started env call message task_output run_signal job_aborted m =
    unless_received call (is_gt m.itask.state running) m
      (process_message_started env call m >>= then_spawn "started" call.forced)
process_kind is_succeeded env call message task_output run_signal job_aborted m =
    process_message_succeeded env call m >>= then_spawn "succeeded" call.forced
process_kind is_expired env call message task_output run_signal job_aborted m =
    then_spawn "expired" call.forced (process_message_expired env call m)
process_kind is_failed env call message task_output run_signal job_aborted m =
    unless_received call (is_gt m.itask.state failed) m (
      process_message_failed env call (failure_message run_signal job_aborted) run_signal
        (note_signal run_signal job_aborted m)
      >>= spawn_if_final "failed" call.forced)
process_kind is_submit_failed env call message task_output run_signal job_aborted m =
    unless_received call (is_gt m.itask.state submit_failed) m (
      if call.forced
      then then_spawn "submit-failed" call.forced m
      else process_message_submit_failed env call m >>= spawn_if_final "submit-failed" call.forced)
process_kind is_submitted env call message task_output run_signal job_aborted m =
    unless_received call (is_gte m.itask.state submitted) m (
      (if call.forced then ok m else process_message_submitted env call m)
      >>= then_spawn "submitted" call.forced)
process_kind is_vacated env call message task_output run_signal job_aborted m =
    process_vacated env call message m
process_kind is_custom env call message task_output run_signal job_aborted m =
    process_custom call message task_output m
process_kind is_unhandled env call message task_output run_signal job_aborted m =
    ok (emit (Effect.db_events_insert call.severity message) m, false)

abbrev pub is_non_unique : String → Bool
is_non_unique severity = severity == "warning" || severity == "critical" || severity == "custom"

abbrev pub or_zero : Option ℕ → ℕ
or_zero none = 0
or_zero (some n) = n

-- `itask.non_unique_events.update({lseverity: 1})`, on a counter
unfoldable pub count_event : String → TaskProxy → TaskProxy
unfolding get put
count_event severity t = record t {
  non_unique_events =
      put t.non_unique_events severity (or_zero (get t.non_unique_events severity) + 1);
}

-- The last step: handlers of the severity, unless a poll is asked for.
abbrev pub handle_severity : Call → String → Manager × Bool → Outcome
handle_severity call message (m, true) = ok (m, true)
handle_severity call message (m, false) = ok (
  if is_non_unique call.severity
      then emit (Effect.setup_event_handlers call.severity message)
          (on_task (count_event call.severity) m)
      else m,
  false,
)

abbrev pub is_new : Option Bool → Bool
is_new (some true) = true
is_new _ = false

-- A message of the output is recorded; failures are recorded only when they are definitive.
unfoldable pub complete_message : Call → String → Manager → Manager × Bool
complete_message call task_output m =
    let (m', answer) = complete_output task_output call.forced m in
    if task_output == "submit-failed" || task_output == "failed" then (m, false) else (
      if is_new answer then emit (Effect.delta_task_output task_output) m' else m',
      is_new answer,
    )

-- The loop over the implied outputs, by the given call of `process_message`.
unfoldable pub each :
    (String → Manager → Outcome) → List String → Manager → Result EventError Manager
each again [] m = ok m
each again (implied ∷ messages) m = again implied m >>= λ r. each again messages r.0

-- The message that the output of an aborted job stands for.
abbrev pub output_of : String → Option String → String
output_of prefix run_signal = if is_some run_signal && prefix == "aborted" then "failed" else prefix

-- `process_message`, where `again` is its call for an implied output.
unfoldable pub process_once :
    (Call → String → Manager → Outcome) → Settings → Call → String → Manager → Outcome
unfolding complete_message each split_run_signal
process_once again env call message m0 =
    let m = emit Effect.reset_inactivity m0 in
    let (prefix, run_signal) = split_run_signal message in
    let job_aborted = is_some run_signal && prefix == "aborted" in
    let task_output = output_of prefix run_signal in
    let m1 = if call.forced then m else emit (Effect.delta_job_msg (job_msg call.flag message)) m in
    let (m2, output_completed) = complete_message call task_output m1 in
    let implied_call : Call = record call { severity = "info"; flag = internal } in
    if process_message_check call message m
    then (each (again implied_call) (get_incomplete_implied m2.itask.outputs task_output) m2
        >>= λ m3.
            process_kind (kind_of message task_output run_signal output_completed) env call message
              task_output run_signal job_aborted m3
            >>= handle_severity call message)
    else ok (m, false)

unfoldable pub process_from :
    (Call → String → Manager → Outcome) → Settings → ℕ → Call → String → Manager → Outcome
process_from bottom env zero = bottom
process_from bottom env (suc depth) = process_once (process_from bottom env depth) env

abbrev pub too_deep : Call → String → Manager → Outcome
too_deep call message m = err recursion_error

-- Three nested calls: of `succeeded`, `started` and `submitted`.
unfoldable pub process_message : Settings → Call → String → Manager → Outcome
unfolding process_from process_once
process_message env call message m = process_from too_deep env 3 call message m
