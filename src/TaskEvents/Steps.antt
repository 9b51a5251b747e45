-- ===== src/TaskEvents/Steps.antt =====
-- The handlers of messages keep the outputs, or complete more of them.
use cylc_flow.Prelude.{
  ℕ, refl, String, Bool, true, false, Option, none, some, if◌then◌else◌, string_eq, nat_eq, arith,
}
use cylc_flow.Prelude.Int.{int_eq}
use cylc_flow.Prelude.Result.{Ensures}
use cylc_flow.TaskState.{
  add_xtrigger, TaskStatus, failed, running, succeeded, submitted, submit_failed, waiting,
  task_status_eq,
}
use cylc_flow.TaskEvents.{Manager, Settings, Call, Effect, emit, state_reset}
use cylc_flow.TaskEvents.Handlers.{
  tell, unqueue, on_task, if_changed, retry_task, record_failure, process_job_failed,
  process_job_started, process_job_succeeded, insert_task_job, process_job_submit_failed,
  unless_forced, line_up, timeout_of, fail_or_retry, submit_fail_or_retry, start, succeed, submit,
  then_timers, restart_submission, note_elapsed,
}
use cylc_flow.TaskEvents.Process.{vacate}
use cylc_flow.TaskEvents.Outputs.{
  Same, Grows, Same-trans, Grows-of_Same, Grows-trans, if_changed-Grows, if-Grows, if-Same,
  unless_forced-Same, state_reset-Same, changed-Same, complete_output-Grows, timed-Grows,
}

retry_task-Same :
    (env : Settings) (label : String) (timeout : Option ℕ) (m : Manager)
    → Same m (retry_task env label timeout m)
unfolding retry_task
retry_task-Same env label timeout m =
    let m' : Manager =
      emit (Effect.retry_trigger label timeout)
        (on_task (λ t. record t { state = add_xtrigger t.state label false }) m) in
    let noted : Same m m' = record { same = refl } in
    Same-trans noted (
      changed-Same env waiting false m' (emit Effect.delta_task_state)
        (λ n. record { same = refl }))

record_failure-Grows :
    (output event message : String) (m : Manager) → Grows m (record_failure output event message m)
record_failure-Grows output event message m =
    let x = emit Effect.put_update_task_state m in
    let y = emit (Effect.setup_event_handlers event message) m in
    let told : Same m (if m.itask.removed then x else y) =
      if-Same x y m.itask.removed (record { same = refl }) (record { same = refl }) in
    let completed = complete_output-Grows output false (if m.itask.removed then x else y) in
    record { grown = (Grows-trans (Grows-of_Same told) completed).grown }

fail-Grows :
    (env : Settings) (status : TaskStatus) (forced : Bool) (output event message : String)
    (m : Manager)
    → Grows m (
        if_changed
          (state_reset env (some status) none forced m)
          (record_failure output event message))
fail-Grows env status forced output event message m =
    if_changed-Grows (state_reset env (some status) none forced m)
      (record_failure output event message) (state_reset-Same env (some status) none forced m)
      (record_failure-Grows output event message)

process_job_failed-Same :
    (call : Call) (run_signal : Option String) (m : Manager)
    → Same m (process_job_failed call run_signal m)
unfolding process_job_failed
process_job_failed-Same call run_signal m = record { same = refl }

pub fail_or_retry-Grows :
    (env : Settings) (call : Call) (message : String) (run_signal : Option String) (m : Manager)
    → Grows m (fail_or_retry env call message run_signal m).0
unfolding fail_or_retry
fail_or_retry-Grows env call message run_signal m =
    let m1 = unless_forced call (process_job_failed call run_signal) m in
    let line = line_up env call.forced m1.itask.execution_retry in
    let m2 = on_task (λ t. record t { execution_retry = line.0 }) m1 in
    let timed : Same m1 m2 = record { same = refl } in
    let retried : Manager = retry_task env m2.itask.retry_label (timeout_of line.0) m2 in
    let noted : Same retried
        (emit (Effect.setup_event_handlers "retry" "job failed, retrying") retried) =
      record { same = refl } in
    Grows-trans
      (Grows-of_Same (
        Same-trans
          (unless_forced-Same call (process_job_failed call run_signal) m
            (process_job_failed-Same call run_signal m))
          timed))
      (if-Grows (emit (Effect.setup_event_handlers "retry" "job failed, retrying") retried)
        (if_changed (state_reset env (some failed) none call.forced m2)
          (record_failure "failed" "failed" message))
        line.1
        (Grows-of_Same
          (Same-trans (retry_task-Same env m2.itask.retry_label (timeout_of line.0) m2) noted))
        (fail-Grows env failed call.forced "failed" "failed" message m2))

process_job_submit_failed-Same :
    (call : Call) (m : Manager) → Same m (process_job_submit_failed call m)
unfolding process_job_submit_failed insert_task_job
process_job_submit_failed-Same call m = record { same = refl }

pub submit_fail_or_retry-Grows :
    (env : Settings) (call : Call) (m : Manager) → Grows m (submit_fail_or_retry env call m).0
unfolding submit_fail_or_retry
submit_fail_or_retry-Grows env call m =
    let line = line_up env false m.itask.submission_retry in
    let m1 = on_task (λ t. record t { submission_retry = line.0 }) m in
    let timed : Same m m1 = record { same = refl } in
    let retried : Manager = retry_task env m1.itask.submit_retry_label (timeout_of line.0) m1 in
    let noted : Same retried (
        emit (Effect.setup_event_handlers "submission retry" "job submission failed, retrying")
          retried) =
      record { same = refl } in
    let x =
      emit (Effect.setup_event_handlers "submission retry" "job submission failed, retrying")
        retried in
    let y =
      if_changed (state_reset env (some submit_failed) none false m1)
        (record_failure "submit-failed" "submission failed" "job submission failed") in
    Grows-trans (Grows-of_Same timed) (
      Grows-trans
        (if-Grows x y line.1
          (Grows-of_Same (
            Same-trans (retry_task-Same env m1.itask.submit_retry_label (timeout_of line.0) m1)
              noted))
          (fail-Grows env submit_failed false "submit-failed" "submission failed"
            "job submission failed" m1))
        (Grows-of_Same (process_job_submit_failed-Same call (if line.1 then x else y))))

pub then_timers-Grows :
    (env : Settings) (m : Manager) (r : Manager × Bool)
    → Grows m r.0
    → Ensures (λ (p : Manager × Bool). Grows m p.0) (then_timers env r)
then_timers-Grows env m r h = timed-Grows env m r.0 (λ n. (n, r.1)) (λ p. Grows m p.0) h (λ n k. k)

pub start-Same : (env : Settings) (call : Call) (m : Manager) → Same m (start env call m)
unfolding start process_job_started
start-Same env call m =
    let m1 = unless_forced call (process_job_started call) m in
    let m2 = on_task (λ t. record t { job_vacated = false }) m1 in
    let noted : Same m1 m2 = record { same = refl } in
    Same-trans
      (Same-trans (unless_forced-Same call (process_job_started call) m (record { same = refl }))
        noted)
      (changed-Same env running call.forced m2 (tell "started" "job started")
        (λ n. record { same = refl }))

note_elapsed-Same : (call : Call) (m : Manager) → Same m (note_elapsed call m)
note_elapsed-Same call m = record { same = ground arith }

pub succeed-Same : (env : Settings) (call : Call) (m : Manager) → Same m (succeed env call m)
unfolding succeed process_job_succeeded
succeed-Same env call m =
    let m1 = unless_forced call (process_job_succeeded call) m in
    Same-trans (unless_forced-Same call (process_job_succeeded call) m (record { same = refl })) (
      Same-trans (note_elapsed-Same call m1) (
        changed-Same env succeeded call.forced (note_elapsed call m1)
          (tell "succeeded" "job succeeded") (λ n. record { same = refl })))

pub submit-Same : (env : Settings) (m : Manager) → Same m (submit env m)
unfolding submit
submit-Same env m =
    changed-Same env submitted false m (λ n. tell "submitted" "job submitted" (unqueue env false n))
      (λ n. record { same = (state_reset-Same env none (some false) false n).same })

pub vacate-Same :
    (env : Settings) (call : Call) (message : String) (m : Manager)
    → Same m (vacate env call message m)
unfolding vacate
vacate-Same env call message m =
    let m1 =
      on_task (λ t. record (restart_submission t) { started_time = none; job_vacated = true })
        (emit (Effect.db_events_insert "vacated" message) m) in
    let noted : Same m m1 = record { same = refl } in
    Same-trans noted (
      changed-Same env submitted call.forced m1
        (λ n. emit Effect.delta_task_state (unqueue env call.forced n))
        (λ n. record { same = (state_reset-Same env none (some false) call.forced n).same }))
