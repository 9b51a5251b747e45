-- ===== src/TaskEvents/Cautious.antt =====
-- Handlers of forced messages never make a task submitted or running.
use cylc_flow.Prelude.{
  ◌≡◌, refl, sym, ◌∙◌, ap, inl, inr, String, Bool, true, false, Option, none, some, string_eq,
  nat_eq, arith, Bool-cases,
}
use cylc_flow.Prelude.Result.{ok, ◌>>=◌}
use cylc_flow.Prelude.Int.{int_eq}
use cylc_flow.Prelude.Result.{Ensures, Ensures->>=}
use cylc_flow.TaskState.{
  TaskState, TaskStatus, running, succeeded, submitted, expired, failed, is_active,
}
use cylc_flow.TaskState.Reset.{reset_forced}
use cylc_flow.TaskEvents.{
  TaskProxy, Manager, Settings, Call, Effect, emit, state_reset, complete_output,
}
use cylc_flow.TaskEvents.Timers.{reset_timers, reset_job_timers}
use cylc_flow.TaskEvents.Handlers.{
  on_task, if_changed, record_failure, note_elapsed, fail_or_retry, start, succeed, unqueue, tell,
  restart_submission, process_message_started, process_message_expired, process_message_succeeded,
}
use cylc_flow.TaskEvents.Process.{Outcome, vacate, process_vacated}
use cylc_flow.TaskEvents.Outputs.{reset_timers-eq}

-- The task is not newly submitted or running.
pub record Cautious (m m' : Manager) : Type 0 where
  pub cautious :
      is_active (some m'.itask.state.status) ≡ true → m'.itask.state.status ≡ m.itask.state.status

pub of_state : {m m' : Manager} → m'.itask.state ≡ m.itask.state → Cautious m m'
of_state e = record { cautious = λ h. ap (λ (s : TaskState). s.status) e }

pub Cautious-trans : {a b c : Manager} → Cautious a b → Cautious b c → Cautious a c
Cautious-trans h k = record {
  cautious = λ l. let e = k.cautious l in e ∙ h.cautious (rw (sym e) l);
}

pub state_reset-Cautious :
    (env : Settings) (status : Option TaskStatus) (is_queued : Option Bool) (m : Manager)
    → Cautious m (state_reset env status is_queued true m).0
unfolding state_reset
state_reset-Cautious env status is_queued m = record {
  cautious = λ h. reset_forced m.itask.state status none _ _ env.current_time_string h;
}

pub if_changed-Cautious :
    {m : Manager} (r : Manager × Bool) (f : Manager → Manager)
    → Cautious m r.0
    → ((n : Manager) → Cautious n (f n))
    → Cautious m (if_changed r f)
if_changed-Cautious (n, true) f h k = Cautious-trans h (k n)
if_changed-Cautious (n, false) f h k = h

pub changed-Cautious :
    (env : Settings) (status : TaskStatus) (m : Manager) (f : Manager → Manager)
    → ((n : Manager) → Cautious n (f n))
    → Cautious m (if_changed (state_reset env (some status) none true m) f)
changed-Cautious env status m f k =
    if_changed-Cautious (state_reset env (some status) none true m) f
      (state_reset-Cautious env (some status) none m) k

pub reset-Cautious :
    (env : Settings) (m n : Manager) → Cautious m n → Ensures (Cautious m) (reset_job_timers env n)
unfolding reset_job_timers
reset-Cautious env m n h =
    Ensures->>= (λ (t : TaskProxy). t.state ≡ n.itask.state) (Cautious m) (reset_timers env n.itask)
      (λ t. ok (record n { itask = t }))
      (reset_timers-eq (λ t. t.state) env n.itask (λ limit timer. refl))
      (λ t e. Cautious-trans h (of_state e))

pub timed-Cautious :
    {A : Type 0} (env : Settings) (m n : Manager) (f : Manager → A) (P : A → Type 0)
    → Cautious m n
    → ((n' : Manager) → Cautious m n' → P (f n'))
    → Ensures P (reset_job_timers env n >>= λ n'. ok (f n'))
timed-Cautious env m n f P h k =
    Ensures->>= (Cautious m) P (reset_job_timers env n) (λ n'. ok (f n')) (reset-Cautious env m n h)
      k

-- A handler's outcome never has the task newly submitted or running.
abbrev pub Heeds : Manager → Outcome → Type 0
Heeds m r = Ensures (λ (p : Manager × Bool). Cautious m p.0) r

abbrev pub by_force : Call → Call
by_force call = record call { forced = true }

pub record_failure-Cautious :
    (output event message : String) (m : Manager)
    → Cautious m (record_failure output event message m)
unfolding complete_output
record_failure-Cautious output event message m = elim (Bool-cases m.itask.removed) [
  | inl e ↦ rw e (of_state refl)
  | inr e ↦ rw e (of_state refl)
]

pub fail-Cautious :
    (env : Settings) (call : Call) (message : String) (run_signal : Option String) (m : Manager)
    → Cautious m (fail_or_retry env (by_force call) message run_signal m).0
unfolding fail_or_retry
fail-Cautious env call message run_signal m =
    changed-Cautious env failed m (record_failure "failed" "failed" message)
      (record_failure-Cautious "failed" "failed" message)

pub started-Heeds :
    (env : Settings) (call : Call) (m : Manager)
    → Ensures (Cautious m) (process_message_started env (by_force call) m)
unfolding process_message_started start
started-Heeds env call m =
    let m2 : Manager = on_task (λ t. record t { job_vacated = false }) m in
    timed-Cautious env m (start env (by_force call) m) (on_task restart_submission) (Cautious m)
      (Cautious-trans {b = m2} (of_state refl)
        (changed-Cautious env running m2 (tell "started" "job started") (λ n. of_state refl)))
      (λ n h. Cautious-trans h (of_state refl))

pub Cautious-refl : (m : Manager) → Cautious m m
Cautious-refl m = of_state refl

pub note_elapsed-Cautious : (call : Call) (m : Manager) → Cautious m (note_elapsed call m)
note_elapsed-Cautious call m = of_state (ground arith)

pub succeeded-Heeds :
    (env : Settings) (call : Call) (m : Manager)
    → Ensures (Cautious m) (process_message_succeeded env (by_force call) m)
unfolding process_message_succeeded succeed
succeeded-Heeds env call m =
    let n : Manager = note_elapsed (by_force call) m in
    reset-Cautious env m (succeed env (by_force call) m) (
      Cautious-trans (note_elapsed-Cautious (by_force call) m)
        (changed-Cautious env succeeded n (tell "succeeded" "job succeeded") (λ n. of_state refl)))

pub expired-Cautious :
    (env : Settings) (call : Call) (m : Manager)
    → Cautious m (process_message_expired env (by_force call) m)
unfolding process_message_expired
expired-Cautious env call m =
    changed-Cautious env expired m
      (λ n.
        emit (Effect.setup_event_handlers "expired" "Task expired: will not submit job.")
          (emit Effect.delta_task_state n))
      (λ n. of_state refl)

pub unqueue-Cautious :
    (env : Settings) (n : Manager) → Cautious n (emit Effect.delta_task_state (unqueue env true n))
unqueue-Cautious env n =
    let kept = state_reset-Cautious env none (some false) n in Cautious-trans kept (of_state refl)

pub vacated-Heeds :
    (env : Settings) (call : Call) (message : String) (m : Manager)
    → Heeds m (process_vacated env (by_force call) message m)
unfolding process_vacated vacate
vacated-Heeds env call message m =
    let m1 : Manager =
      on_task (λ t. record (restart_submission t) { started_time = none; job_vacated = true })
        (emit (Effect.db_events_insert "vacated" message) m) in
    timed-Cautious env m (vacate env (by_force call) message m) (λ n. (n, false))
      (λ (p : Manager × Bool). Cautious m p.0)
      (Cautious-trans {b = m1} (of_state refl) (
        changed-Cautious env submitted m1 (λ n. emit Effect.delta_task_state (unqueue env true n))
          (unqueue-Cautious env)))
      (λ n h. h)
