-- ===== src/TaskEvents/Handlers.antt =====
-- The helpers of `process_message`, one for each message that changes the task.
use cylc_flow.Prelude.{
  ℕ, String, Bool, true, false, not, ◌&&◌, ◌||◌, Option, none, some, if◌then◌else◌, ◌==◌, string_eq,
  nat_eq,
}
use cylc_flow.Prelude.Result.{Result, ok, ◌>>=◌}
use cylc_flow.Prelude.Int.{int_eq}
use cylc_flow.Prerequisite.{RunMode, skip}
use cylc_flow.TaskState.{
  TaskStatus, waiting, expired, preparing, submit_failed, submitted, running, failed, succeeded,
  task_status_eq, add_xtrigger,
}
use cylc_flow.TaskActionTimer.{TaskActionTimer}
use cylc_flow.TaskActionTimer
use cylc_flow.TaskEvents.{
  EventError, TaskProxy, Manager, Settings, Call, Effect, emit, state_reset, complete_output,
}
use cylc_flow.TaskEvents.Timers.{reset_job_timers}

abbrev pub on_task : (TaskProxy → TaskProxy) → Manager → Manager
on_task f m = record m { itask = f m.itask }

-- What follows a `state_reset` that changed the state.
abbrev pub if_changed : Manager × Bool → (Manager → Manager) → Manager
if_changed r f = if r.1 then f r.0 else r.0

abbrev pub unless_forced : Call → (Manager → Manager) → Manager → Manager
unless_forced call f m = if call.forced then m else f m

-- `_process_job_failed`; the text with a row of the job table stands for its new columns.
unfoldable pub process_job_failed : Call → Option String → Manager → Manager
process_job_failed call run_signal m =
    emit (Effect.put_update_task_jobs (elim run_signal [ none ↦ "failed" | some s ↦ s ])) (
      emit (Effect.delta_job_state failed) (
        emit (Effect.delta_job_time "finished" call.event_time)
          (on_task (λ t. record t { finished_time = some call.event_time }) m)))

-- `_process_job_started`
unfoldable pub process_job_started : Call → Manager → Manager
process_job_started call m = emit (Effect.put_update_task_jobs "started") (
    emit (Effect.delta_job_state running) (
      emit (Effect.delta_job_time "started" call.event_time)
        (on_task (λ t. record t { started_time = some call.event_time }) m)))

-- `_process_job_succeeded`
unfoldable pub process_job_succeeded : Call → Manager → Manager
process_job_succeeded call m = emit (Effect.put_update_task_jobs "succeeded") (
    emit (Effect.delta_job_state succeeded) (
      emit (Effect.delta_job_time "finished" call.event_time)
        (on_task (λ t. record t { finished_time = some call.event_time }) m)))

abbrev pub has_timers : TaskProxy → Bool
has_timers t = elim t.execution_retry [
  | some r ↦ true
  | none ↦ elim t.submission_retry [ some r ↦ true | none ↦ false ]
]

-- `_insert_task_job`: the status of the job is that of the task, unless that waits for a retry. The
-- configuration of the job (`itask.jobs`) is left out.
unfoldable pub insert_task_job : TaskStatus → Manager → Manager
insert_task_job submit_status m =
    let job_status =
      if m.itask.state.status == waiting && has_timers m.itask
      then submit_status
      else m.itask.state.status in
    emit (Effect.put_update_task_jobs "submitted") (emit (Effect.insert_job job_status) m)

-- `_process_job_submitted`
unfoldable pub process_job_submitted : Call → Manager → Manager
unfolding insert_task_job
process_job_submitted call m = emit Effect.delta_job_id (
    emit (Effect.delta_job_state submitted)
      (emit (Effect.delta_job_time "submitted" call.event_time) (insert_task_job submitted m)))

-- `_process_job_submit_failed`
unfoldable pub process_job_submit_failed : Call → Manager → Manager
unfolding insert_task_job
process_job_submit_failed call m =
    emit (Effect.delta_job_time "submitted" call.event_time)
      (emit (Effect.delta_job_state submit_failed) (insert_task_job submit_failed m))

-- `_retry_task`: the trigger of the retry is unsatisfied until its time.
unfoldable pub retry_task : Settings → String → Option ℕ → Manager → Manager
retry_task env label timeout m =
    let m' =
      emit (Effect.retry_trigger label timeout)
        (on_task (λ t. record t { state = add_xtrigger t.state label false }) m) in
    if_changed (state_reset env (some waiting) none false m') (emit Effect.delta_task_state)

-- The timer after the test for a retry, and whether one is due; a forced failure asks no timer.
abbrev pub line_up : Settings → Bool → Option TaskActionTimer → Option TaskActionTimer × Bool
line_up env true timer = (timer, false)
line_up env false none = (none, false)
line_up env false (some timer) =
    let (timer', delay) = TaskActionTimer.next timer false env.now in
    (some timer', elim delay [ none ↦ false | some d ↦ true ])

abbrev pub timeout_of : Option TaskActionTimer → Option ℕ
timeout_of none = none
timeout_of (some timer) = timer.timeout

-- The output and the calls of a definitive failure.
abbrev pub record_failure : String → String → String → Manager → Manager
record_failure output event message m =
    let told =
      if m.itask.removed
      then emit Effect.put_update_task_state m
      else emit (Effect.setup_event_handlers event message) m in
    emit Effect.delta_task_state
      (emit (Effect.delta_task_output output) (complete_output output false told).0)

-- The body of `_process_message_failed`. The answer is whether no retry is due.
unfoldable pub fail_or_retry : Settings → Call → String → Option String → Manager → Manager × Bool
unfolding process_job_failed retry_task
fail_or_retry env call message run_signal m =
    let m1 = unless_forced call (process_job_failed call run_signal) m in
    let (timer, due) = line_up env call.forced m1.itask.execution_retry in
    let m2 = on_task (λ t. record t { execution_retry = timer }) m1 in
    let retried =
      emit (Effect.setup_event_handlers "retry" "job failed, retrying")
        (retry_task env m2.itask.retry_label (timeout_of timer) m2) in
    let final =
      if_changed (state_reset env (some failed) none call.forced m2)
        (record_failure "failed" "failed" message) in
    (if due then retried else final, not due)

-- The timers are reset after a step that answers.
abbrev pub then_timers : Settings → Manager × Bool → Result EventError (Manager × Bool)
then_timers env r = reset_job_timers env r.0 >>= λ m. ok (m, r.1)

-- `_process_message_failed`
unfoldable pub process_message_failed :
    Settings → Call → String → Option String → Manager → Result EventError (Manager × Bool)
unfolding fail_or_retry
process_message_failed env call message run_signal m =
    then_timers env (fail_or_retry env call message run_signal m)

abbrev pub restart_submission : TaskProxy → TaskProxy
restart_submission t = record t {
  submission_retry = elim t.submission_retry [
    | none ↦ none
    | some timer ↦ some (record timer { num = 0 })
  ];
}

abbrev pub tell : String → String → Manager → Manager
tell event message m =
    emit Effect.delta_task_state (emit (Effect.setup_event_handlers event message) m)

abbrev pub unqueue : Settings → Bool → Manager → Manager
unqueue env forced m = (state_reset env none (some false) forced m).0

-- The body of `_process_message_started`.
unfoldable pub start : Settings → Call → Manager → Manager
unfolding process_job_started
start env call m =
    let m1 = unless_forced call (process_job_started call) m in
    let m2 = on_task (λ t. record t { job_vacated = false }) m1 in
    if_changed (state_reset env (some running) none call.forced m2) (tell "started" "job started")

-- `_process_message_started`
unfoldable pub process_message_started : Settings → Call → Manager → Result EventError Manager
unfolding start
process_message_started env call m =
    reset_job_timers env (start env call m) >>= λ m'. ok (on_task restart_submission m')

-- `_process_message_expired`
unfoldable pub process_message_expired : Settings → Call → Manager → Manager
process_message_expired env call m =
    if_changed (state_reset env (some expired) none call.forced m) (λ n.
      emit (Effect.setup_event_handlers "expired" "Task expired: will not submit job.")
        (emit Effect.delta_task_state n))

abbrev pub is_skip : RunMode → Bool
is_skip skip = true
is_skip _ = false

-- The mean run time is updated neither in skip mode nor by force.
abbrev pub note_elapsed : Call → Manager → Manager
note_elapsed call m = elim m.itask.started_time [
  | none ↦ m
  | some started ↦
      if call.forced || is_skip m.itask.run_mode then m else elim m.itask.finished_time [
        | none ↦ m
        | some finished ↦ emit (Effect.elapsed_time finished started) m
      ]
]

-- The body of `_process_message_succeeded`.
unfoldable pub succeed : Settings → Call → Manager → Manager
unfolding process_job_succeeded
succeed env call m =
    let m1 = note_elapsed call (unless_forced call (process_job_succeeded call) m) in
    if_changed (state_reset env (some succeeded) none call.forced m1)
      (tell "succeeded" "job succeeded")

-- `_process_message_succeeded`
unfoldable pub process_message_succeeded : Settings → Call → Manager → Result EventError Manager
unfolding succeed
process_message_succeeded env call m = reset_job_timers env (succeed env call m)

-- The body of `_process_message_submit_failed`. The answer is whether no retry is due.
unfoldable pub submit_fail_or_retry : Settings → Call → Manager → Manager × Bool
unfolding retry_task process_job_submit_failed
submit_fail_or_retry env call m =
    let (timer, due) = line_up env false m.itask.submission_retry in
    let m1 = on_task (λ t. record t { submission_retry = timer }) m in
    let retried =
      emit (Effect.setup_event_handlers "submission retry" "job submission failed, retrying")
        (retry_task env m1.itask.submit_retry_label (timeout_of timer) m1) in
    let final =
      if_changed (state_reset env (some submit_failed) none false m1)
        (record_failure "submit-failed" "submission failed" "job submission failed") in
    (process_job_submit_failed call (if due then retried else final), not due)

-- `_process_message_submit_failed`
unfoldable pub process_message_submit_failed :
    Settings → Call → Manager → Result EventError (Manager × Bool)
unfolding submit_fail_or_retry
process_message_submit_failed env call m = then_timers env (submit_fail_or_retry env call m)

abbrev pub submit_times : Call → Manager → Manager
submit_times call m =
    on_task
      (λ t. record t {
        submitted_time = some call.event_time;
        started_time = none;
        finished_time = none;
      })
      m

-- The change of state of `_process_message_submitted`.
unfoldable pub submit : Settings → Manager → Manager
submit env m =
    if_changed (state_reset env (some submitted) none false m)
      (λ n. tell "submitted" "job submitted" (unqueue env false n))

-- `_process_message_submitted`: a job that has started already does not go back.
unfoldable pub process_message_submitted : Settings → Call → Manager → Result EventError Manager
unfolding process_job_submitted submit
process_message_submitted env call m =
    let m1 = submit_times call m in
    let timed = reset_job_timers env (submit env m1) in
    (if m1.itask.state.status == preparing then timed else ok m1) >>= λ m2.
    ok (process_job_submitted call m2)
