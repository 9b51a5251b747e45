-- ===== src/TaskEvents/Kinds.antt =====
-- Each kind of message keeps the outputs, or completes more of them.
use cylc_flow.Prelude.{
  refl, inl, inr, String, Bool, true, false, ◌&&◌, Option, none, some, if◌then◌else◌, ◌==◌,
  string_eq, nat_eq, Option-cases,
}
use cylc_flow.Prelude.Assoc.{get}
use cylc_flow.Prelude.Result.{Result, ok, err, ◌>>=◌}
use cylc_flow.Prelude.Int.{int_eq}
use cylc_flow.Prelude.Result.{Ensures, Ensures->>=}
use cylc_flow.TaskState.{
  failed, running, submitted, submit_failed, expired, preparing, task_status_eq, is_gt, is_gte,
}
use cylc_flow.TaskEvents.{EventError, Manager, Settings, Call, Effect, emit}
use cylc_flow.TaskEvents.Timers.{reset_job_timers}
use cylc_flow.TaskEvents.Handlers.{
  on_task, insert_task_job, process_job_submitted, start, succeed, submit, submit_times,
  restart_submission, process_message_failed, process_message_started, process_message_expired,
  process_message_succeeded, process_message_submit_failed, process_message_submitted,
}
use cylc_flow.TaskEvents.Process.{
  Outcome, Kind, vacate, note_signal, failure_message, unless_received, process_vacated,
  process_custom, process_kind, then_spawn, spawn_if_final,
}
use cylc_flow.TaskEvents.Outputs.{
  Same, Grows, Same-refl, Same-trans, Grows-of_Same, Grows-trans, changed-Same, spawn_children-Same,
  reset_job_timers-Same, timed-Grows,
}
use cylc_flow.TaskEvents.Steps.{
  fail_or_retry-Grows, submit_fail_or_retry-Grows, then_timers-Grows, start-Same, succeed-Same,
  submit-Same, vacate-Same,
}
use cylc_flow.TaskEvents.Process.{is_received}

-- A handler's outcome leaves grown outputs.
abbrev pub Keeps : Manager → Outcome → Type 0
Keeps m r = Ensures (λ (p : Manager × Bool). Grows m p.0) r

pub Ensures-if {κ} :
    {E : Type 0} {A : Type 0} (P : A → Type κ) (b : Bool) (x y : Result E A)
    → Ensures P x
    → Ensures P y
    → Ensures P (if b then x else y)
Ensures-if P true x y h k = h
Ensures-if P false x y h k = k

pub Grows-refl : (m : Manager) → Grows m m
Grows-refl m = Grows-of_Same (Same-refl m)

unless_received-Keeps :
    (call : Call) (past : Bool) (m : Manager) (r : Outcome)
    → Keeps m r
    → Keeps m (unless_received call past m r)
unless_received-Keeps call past m r h =
    Ensures-if _ (is_received call.flag && past) (ok (m, true)) r (Grows-refl m) h

spawned-Keeps :
    (output : String) (forced : Bool) {m : Manager} (n : Manager)
    → Grows m n
    → Keeps m (then_spawn output forced n)
spawned-Keeps output forced n h =
    Grows-trans h (Grows-of_Same (spawn_children-Same output forced n))

then_spawn-Keeps :
    (output : String) (forced : Bool) (m : Manager) (r : Result EventError Manager)
    → Ensures (Grows m) r
    → Keeps m (r >>= then_spawn output forced)
then_spawn-Keeps output forced m r h =
    Ensures->>= (Grows m) (λ (p : Manager × Bool). Grows m p.0) r (then_spawn output forced) h
      (spawned-Keeps output forced)

spawn_if_final-Keeps :
    (output : String) (forced : Bool) (m : Manager) (r : Outcome)
    → Keeps m r
    → Keeps m (r >>= spawn_if_final output forced)
spawn_if_final-Keeps output forced m (err e) h = tt
spawn_if_final-Keeps output forced m (ok (n, true)) h = spawned-Keeps output forced n h
spawn_if_final-Keeps output forced m (ok (n, false)) h = h

note_signal-Same :
    (run_signal : Option String) (job_aborted : Bool) (m : Manager)
    → Same m (note_signal run_signal job_aborted m)
note_signal-Same none job_aborted m = Same-refl m
note_signal-Same (some s) job_aborted m = record { same = refl }

from-Keeps : (m n : Manager) (r : Outcome) → Same m n → Keeps n r → Keeps m r
from-Keeps m n (err e) s h = tt
from-Keeps m n (ok p) s h = Grows-trans (Grows-of_Same s) h

pub Ensures-weaken {κ μ} :
    {E : Type 0} {A : Type 0} (P : A → Type κ) (Q : A → Type μ) (r : Result E A)
    → Ensures P r
    → ((a : A) → P a → Q a)
    → Ensures Q r
Ensures-weaken P Q (err e) h k = tt
Ensures-weaken P Q (ok a) h k = k a h

process_job_submitted-Same : (call : Call) (m : Manager) → Same m (process_job_submitted call m)
unfolding process_job_submitted insert_task_job
process_job_submitted-Same call m = record { same = refl }

-- The timers are reset after a step that keeps the outputs.
reset-Same : (env : Settings) (m n : Manager) → Same m n → Ensures (Same m) (reset_job_timers env n)
reset-Same env m n h =
    Ensures-weaken (Same n) (Same m) (reset_job_timers env n) (reset_job_timers-Same env n)
      (λ n' k. Same-trans h k)

submitted-Grows :
    (env : Settings) (call : Call) (m : Manager)
    → Ensures (Grows m) (process_message_submitted env call m)
unfolding process_message_submitted
submitted-Grows env call m =
    let m1 = submit_times call m in
    let noted : Same m m1 = record { same = refl } in
    let timed : Result EventError Manager = reset_job_timers env (submit env m1) in
    Ensures->>= (Same m) (Grows m) (if m1.itask.state.status == preparing then timed else ok m1)
      (λ n. ok (process_job_submitted call n))
      (Ensures-if (Same m) (m1.itask.state.status == preparing) timed (ok m1)
        (reset-Same env m (submit env m1) (Same-trans noted (submit-Same env m1))) noted)
      (λ n h. Grows-of_Same (Same-trans h (process_job_submitted-Same call n)))

started-Grows :
    (env : Settings) (call : Call) (m : Manager)
    → Ensures (Grows m) (process_message_started env call m)
unfolding process_message_started
started-Grows env call m =
    timed-Grows env m (start env call m) (on_task restart_submission) (Grows m)
      (Grows-of_Same (start-Same env call m))
      (λ n h. Grows-trans h (Grows-of_Same (record { same = refl })))

succeeded-Grows :
    (env : Settings) (call : Call) (m : Manager)
    → Ensures (Grows m) (process_message_succeeded env call m)
unfolding process_message_succeeded
succeeded-Grows env call m =
    Ensures-weaken (Same m) (Grows m) (reset_job_timers env (succeed env call m))
      (reset-Same env m (succeed env call m) (succeed-Same env call m)) (λ n h. Grows-of_Same h)

expired-Same :
    (env : Settings) (call : Call) (m : Manager) → Same m (process_message_expired env call m)
unfolding process_message_expired
expired-Same env call m =
    changed-Same env expired call.forced m
      (λ n.
        emit (Effect.setup_event_handlers "expired" "Task expired: will not submit job.")
          (emit Effect.delta_task_state n))
      (λ n. record { same = refl })

vacated-Keeps :
    (env : Settings) (call : Call) (message : String) (m : Manager)
    → Keeps m (process_vacated env call message m)
unfolding process_vacated
vacated-Keeps env call message m =
    timed-Grows env m (vacate env call message m) (λ n. (n, false))
      (λ (p : Manager × Bool). Grows m p.0) (Grows-of_Same (vacate-Same env call message m))
      (λ n h. h)

custom-Keeps :
    (call : Call) (message task_output : String) (m : Manager)
    → Keeps m (process_custom call message task_output m)
unfolding process_custom
custom-Keeps call message task_output m =
    elim (Option-cases (get m.itask.outputs.message_to_trigger message)) [
      | inl e ↦ rw e tt
      | inr (trigger, e) ↦
          let n : Manager = emit (Effect.setup_event_handlers trigger message) m in
          rw e (spawned-Keeps task_output call.forced n (Grows-of_Same (record { same = refl })))
    ]

pub process_kind-Keeps :
    (k : Kind) (env : Settings) (call : Call) (message task_output : String)
    (run_signal : Option String) (job_aborted : Bool) (m : Manager)
    → Keeps m (process_kind k env call message task_output run_signal job_aborted m)
unfolding process_kind
process_kind-Keeps Kind.is_started env call message task_output run_signal job_aborted m =
    unless_received-Keeps call (is_gt m.itask.state running) m _
      (then_spawn-Keeps "started" call.forced m _ (started-Grows env call m))
process_kind-Keeps Kind.is_succeeded env call message task_output run_signal job_aborted m =
    then_spawn-Keeps "succeeded" call.forced m _ (succeeded-Grows env call m)
process_kind-Keeps Kind.is_expired env call message task_output run_signal job_aborted m =
    spawned-Keeps "expired" call.forced (process_message_expired env call m)
      (Grows-of_Same (expired-Same env call m))
process_kind-Keeps Kind.is_failed env call message task_output run_signal job_aborted m =
    let n = note_signal run_signal job_aborted m in
    unless_received-Keeps call (is_gt m.itask.state failed) m _ (
      spawn_if_final-Keeps "failed" call.forced m _ (
        from-Keeps m n _ (note_signal-Same run_signal job_aborted m) (
          unfold process_message_failed in
          then_timers-Grows env n _
            (fail_or_retry-Grows env call (failure_message run_signal job_aborted) run_signal n))))
process_kind-Keeps Kind.is_submit_failed env call message task_output run_signal job_aborted m =
    unless_received-Keeps call (is_gt m.itask.state submit_failed) m _ (
      Ensures-if _ call.forced _ _ (spawned-Keeps "submit-failed" call.forced m (Grows-refl m)) (
        spawn_if_final-Keeps "submit-failed" call.forced m _ (
          unfold process_message_submit_failed in
          then_timers-Grows env m _ (submit_fail_or_retry-Grows env call m))))
process_kind-Keeps Kind.is_submitted env call message task_output run_signal job_aborted m =
    unless_received-Keeps call (is_gte m.itask.state submitted) m _ (
      then_spawn-Keeps "submitted" call.forced m _
        (Ensures-if _ call.forced _ _ (Grows-refl m) (submitted-Grows env call m)))
process_kind-Keeps Kind.is_vacated env call message task_output run_signal job_aborted m =
    vacated-Keeps env call message m
process_kind-Keeps Kind.is_custom env call message task_output run_signal job_aborted m =
    custom-Keeps call message task_output m
process_kind-Keeps Kind.is_unhandled env call message task_output run_signal job_aborted m =
    Grows-of_Same (record { same = refl })
