-- ===== src/TaskEvents/Retry.antt =====
-- `_process_message_failed`: retries and definitive failures.
use cylc_flow.Prelude.{
  get_elem?, ℕ, ◌+◌, ◌≡◌, refl, sym, ◌∙◌, ap, ◌≢◌, ◌⊎◌, inl, inr, String, Bool, true, false, ◌||◌,
  Option, none, some, is_yes, string_eq, nat_eq, eq_refl, eq_of_==, arith, Bool-cases, Option-cases,
}
use cylc_flow.Prelude.Assoc.{Assoc, get, get-put}
use cylc_flow.Prelude.Result.{ok}
use cylc_flow.Prelude.Int.{int_eq}
use cylc_flow.TaskState.{
  TaskStatus, TaskState, waiting, failed, reset, add_xtrigger, task_status_eq, TaskStatus_discrete,
  is_current, is_active,
}
use cylc_flow.TaskState.Reset.{reset-call}
use cylc_flow.TaskOutputs.{TaskOutputs, set_message_complete}
use cylc_flow.TaskActionTimer.{TaskActionTimer, next_delay, start_delay}
use cylc_flow.TaskActionTimer
use cylc_flow.TaskEvents.{
  TaskProxy, Manager, Settings, Call, Effect, emit, state_reset, complete_output, is_active_status,
}
use cylc_flow.TaskEvents.Timers.{reset_timers, reset_job_timers, is_simulation, stop_polling}
use cylc_flow.TaskEvents.Handlers.{
  on_task, if_changed, retry_task, record_failure, process_job_failed, unless_forced, line_up,
  timeout_of, fail_or_retry, process_message_failed,
}

-- The delay of the retry that is due: none by force, with no timer, or when the delays are used up.
abbrev pub due_delay : Bool → Option TaskActionTimer → Option ℕ
due_delay true timer = none
due_delay false none = none
due_delay false (some timer) = get_elem? timer.delays timer.num

-- What a failure leaves of the task, by the delay that was due.
abbrev pub IsAnswer : Option ℕ → Settings → TaskProxy → TaskProxy → Bool → Type 0
IsAnswer (some delay) env t t' final =
    (final ≡ false)
    × (t'.state.status ≡ waiting)
    × (get t'.state.xtriggers t.retry_label ≡ some false)
    × (t'.outputs ≡ t.outputs)
    × (timeout_of t'.execution_retry ≡ some (env.now + delay))
IsAnswer none env t t' final =
    (final ≡ true)
    × (t'.state.status ≡ failed)
    × (t'.state.xtriggers ≡ t.state.xtriggers)
    × ((t.state.status ≡ failed) ⊎ (get t'.outputs.completed "failed" ≢ some false))

-- The timers of a task that is not active are cleared, and nothing else.
idle :
    (env : Settings) (t : TaskProxy)
    → is_active_status t.state.status ≡ false
    → (t' : TaskProxy) × (reset_timers env t ≡ ok t')
      × (t'.state ≡ t.state)
      × (t'.outputs ≡ t.outputs)
      × (t'.execution_retry ≡ t.execution_retry)
unfolding reset_timers
idle env t h = elim (Bool-cases (is_simulation t.run_mode || t.transient)) [
  | inl a ↦ (t, rw a refl, refl, refl, refl)
  | inr a ↦ (stop_polling t, rw a (rw h refl), refl, refl, refl)
]

-- A reset that is not refused leaves the status asked for, and the triggers.
reset_to :
    (s : TaskState) (x : TaskStatus) (forced : Bool) (now : String)
    → is_active (some x) ≡ false
    → ((reset s (some x) none none none forced now).0.status ≡ x)
      × ((reset s (some x) none none none forced now).0.xtriggers ≡ s.xtriggers)
unfolding reset is_current
reset_to s x forced now h = elim (Bool-cases (is_yes (TaskStatus_discrete s.status x))) [
  | inl e ↦ rw (h, e) (ground (arith, eq_of_== s.status x e))
  | inr e ↦ rw (h, e) (ground arith)
]

set_complete :
    (t : TaskOutputs) (message : String) (forced : Bool)
    → get (set_message_complete t message forced).0.completed message ≢ some false
unfolding set_message_complete
set_complete t message forced h = elim (Option-cases (get t.completed message)) [
  | inl e ↦ ground (arith, rw (e, set_message_complete) at h)
  | inr (true, e) ↦ ground (arith, rw (e, set_message_complete) at h)
  | inr (false, e) ↦ ground (
    arith,
    rw (e, set_message_complete) at h,
    get-put t.completed message message true,
    eq_refl message,
  )
]

if_changed-eq {ℓ} :
    {A : Type ℓ} (field : Manager → A) (r : Manager × Bool) (f : Manager → Manager)
    → ((m : Manager) → field (f m) ≡ field m)
    → field (if_changed r f) ≡ field r.0
if_changed-eq field (m, true) f h = h m
if_changed-eq field (m, false) f h = refl

line_up-due :
    (env : Settings) (forced : Bool) (timer : Option TaskActionTimer) (delay : ℕ)
    → due_delay forced timer ≡ some delay
    → ((line_up env forced timer).1 ≡ true)
      × (timeout_of (line_up env forced timer).0 ≡ some (env.now + delay))
unfolding TaskActionTimer.next
line_up-due env true timer delay h = absurd (ground arith)
line_up-due env false none delay h = absurd (ground arith)
line_up-due env false (some timer) delay h = (ground (arith, h), ground (arith, h))

line_up-none :
    (env : Settings) (forced : Bool) (timer : Option TaskActionTimer)
    → due_delay forced timer ≡ none
    → (line_up env forced timer).1 ≡ false
unfolding TaskActionTimer.next
line_up-none env true timer h = refl
line_up-none env false none h = refl
line_up-none env false (some timer) h = ground (arith, h)

-- The job's own records leave the task's state.
recorded :
    (call : Call) (run_signal : Option String) (m : Manager)
    → let n = unless_forced call (process_job_failed call run_signal) m in
      (n.itask.state ≡ m.itask.state)
      × (n.itask.outputs ≡ m.itask.outputs)
      × (n.itask.execution_retry ≡ m.itask.execution_retry)
      × (n.itask.retry_label ≡ m.itask.retry_label)
unfolding process_job_failed
recorded call run_signal m = elim (Bool-cases call.forced) [
  | inl f ↦ rw f (refl, refl, refl, refl)
  | inr f ↦ rw f (refl, refl, refl, refl)
]

retried :
    (env : Settings) (label : String) (timeout : Option ℕ) (m : Manager)
    → let n = retry_task env label timeout m in
      (n.itask.state.status ≡ waiting)
      × (get n.itask.state.xtriggers label ≡ some false)
      × (n.itask.outputs ≡ m.itask.outputs)
      × (n.itask.execution_retry ≡ m.itask.execution_retry)
unfolding retry_task state_reset add_xtrigger
retried env label timeout m =
    let m' : Manager =
      emit (Effect.retry_trigger label timeout)
        (on_task (λ t. record t { state = add_xtrigger t.state label false }) m) in
    let r = state_reset env (some waiting) none false m' in
    let after = emit Effect.delta_task_state in
    let (status, triggers) = reset_to m'.itask.state waiting false env.current_time_string refl in
    (
      if_changed-eq (λ n. n.itask.state.status) r after (λ n. refl) ∙ status,
      ap (λ (d : Assoc String Bool). get d label)
            (if_changed-eq (λ n. n.itask.state.xtriggers) r after (λ n. refl) ∙ triggers)
          ∙ get-put m.itask.state.xtriggers label label false
          ∙ rw (eq_refl label) refl,
      if_changed-eq (λ n. n.itask.outputs) r after (λ n. refl),
      if_changed-eq (λ n. n.itask.execution_retry) r after (λ n. refl),
    )

record_failure-eq :
    (message : String) (m : Manager)
    → ((record_failure "failed" "failed" message m).itask.state ≡ m.itask.state)
      × (get (record_failure "failed" "failed" message m).itask.outputs.completed "failed"
          ≢ some false)
unfolding complete_output
record_failure-eq message m = elim (Bool-cases m.itask.removed) [
  | inl e ↦ rw e (refl, set_complete m.itask.outputs "failed" false)
  | inr e ↦ rw e (refl, set_complete m.itask.outputs "failed" false)
]

unchanged :
    (s : TaskState) (x : TaskStatus) (forced : Bool) (now : String)
    → is_active (some x) ≡ false
    → (reset s (some x) none none none forced now).1 ≡ false
    → s.status ≡ x
unchanged s x forced now h e =
    let (answer, asked, same) = reset-call s (some x) none none none forced now in
    sym (ap (λ (t : TaskState). t.status) (same e)) ∙ (reset_to s x forced now h).0

failed_for_good :
    (env : Settings) (forced : Bool) (message : String) (m : Manager)
    → let n =
        if_changed
          (state_reset env (some failed) none forced m)
          (record_failure "failed" "failed" message) in
      (n.itask.state.status ≡ failed)
      × (n.itask.state.xtriggers ≡ m.itask.state.xtriggers)
      × ((m.itask.state.status ≡ failed) ⊎ (get n.itask.outputs.completed "failed" ≢ some false))
unfolding state_reset
failed_for_good env forced message m =
    let r = state_reset env (some failed) none forced m in
    let after = record_failure "failed" "failed" message in
    let (status, triggers) = reset_to m.itask.state failed forced env.current_time_string refl in
    let keep : (n : Manager) → (after n).itask.state ≡ n.itask.state =
      λ n. (record_failure-eq message n).0 in
    (
      if_changed-eq (λ n. n.itask.state.status) r after
            (λ n. ap (λ (s : TaskState). s.status) (keep n))
          ∙ status,
      if_changed-eq (λ n. n.itask.state.xtriggers) r after
            (λ n. ap (λ (s : TaskState). s.xtriggers) (keep n))
          ∙ triggers,
      elim (Bool-cases
          (reset m.itask.state (some failed) none none none forced env.current_time_string).1) [
            | inl e ↦ inr (rw e (record_failure-eq message r.0).1)
            | inr e ↦ inl (unchanged m.itask.state failed forced env.current_time_string refl e)
          ],
    )

at_label :
    (d : Assoc String Bool) (a b : String) → a ≡ b → get d a ≡ some false → get d b ≡ some false
at_label d a b e h = rw e at h

answered :
    (env : Settings) (call : Call) (message : String) (run_signal : Option String) (m : Manager)
    (due : Option ℕ)
    → due_delay call.forced m.itask.execution_retry ≡ due
    → let (n, final) = fail_or_retry env call message run_signal m in
      (is_active_status n.itask.state.status ≡ false) × IsAnswer due env m.itask n.itask final
unfolding fail_or_retry
answered env call message run_signal m (some delay) h =
    let m1 = unless_forced call (process_job_failed call run_signal) m in
    let (state, outputs, retry, label) = recorded call run_signal m in
    let line = line_up env call.forced m1.itask.execution_retry in
    let m2 = on_task (λ t. record t { execution_retry = line.0 }) m1 in
    let (due, time) = line_up-due env call.forced m1.itask.execution_retry delay (rw retry h) in
    let (status, trigger, kept, timer) = retried env m1.itask.retry_label (timeout_of line.0) m2 in
    rw due (
      ap is_active_status status,
      (refl, status, at_label _ _ _ label trigger, kept ∙ outputs, ap timeout_of timer ∙ time),
    )
answered env call message run_signal m none h =
    let m1 = unless_forced call (process_job_failed call run_signal) m in
    let (state, outputs, retry, label) = recorded call run_signal m in
    let line = line_up env call.forced m1.itask.execution_retry in
    let m2 = on_task (λ t. record t { execution_retry = line.0 }) m1 in
    let (status, triggers, completed) = failed_for_good env call.forced message m2 in
    rw (line_up-none env call.forced m1.itask.execution_retry (rw retry h)) (
      ap is_active_status status,
      (
        refl,
        status,
        triggers ∙ ap (λ (s : TaskState). s.xtriggers) state,
        elim completed [
          | inl e ↦ inl (ap (λ (s : TaskState). s.status) (sym state) ∙ e)
          | inr g ↦ inr g
        ],
      ),
    )

IsAnswer-timers :
    (due : Option ℕ) (env : Settings) (t a b : TaskProxy) (final : Bool)
    → b.state ≡ a.state
    → b.outputs ≡ a.outputs
    → b.execution_retry ≡ a.execution_retry
    → IsAnswer due env t a final
    → IsAnswer due env t b final
IsAnswer-timers (some delay) env t a b final s o r h = rw (s, o, r) h
IsAnswer-timers none env t a b final s o r h = rw (s, o) h

-- `_process_message_failed` never raises. If a retry is due, then the task is waiting with its retry
-- trigger unsatisfied, the retry timer's timeout is the present time and the delay, the outputs are as
-- they were, and the answer is that the failure is not final. If none is due, or by force, then the task
-- has failed and its triggers are as they were; its output `failed` is not left incomplete, unless the
-- task had failed already; and the answer is that the failure is final.
pub process_message_failed-due_delay :
    (env : Settings) (call : Call) (message : String) (run_signal : Option String) (m : Manager)
    → (n : Manager) × (final : Bool) × (process_message_failed env call message run_signal m
        ≡ ok (n, final))
      × IsAnswer (due_delay call.forced m.itask.execution_retry) env m.itask n.itask final
unfolding process_message_failed reset_job_timers
process_message_failed-due_delay env call message run_signal m =
    let (n, final) = fail_or_retry env call message run_signal m in
    let due = due_delay call.forced m.itask.execution_retry in
    let (inactive, answer) = answered env call message run_signal m due refl in
    let (t, cleared, state, outputs, retry) = idle env n.itask inactive in
    (
      record n { itask = t },
      final,
      rw cleared refl,
      IsAnswer-timers due env m.itask n.itask t final state outputs retry answer,
    )
