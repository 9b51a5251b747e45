-- ===== src/TaskEvents/Forced.antt =====
-- Forced messages (`cylc set`) never make a task submitted or running.
use cylc_flow.Prelude.{
  ℕ, zero, suc, ◌≡◌, refl, inl, inr, String, Bool, true, false, ◌&&◌, Option, none, some, List, [],
  ◌∷◌, ◌==◌, string_eq, nat_eq, arith, Option-cases,
}
use cylc_flow.Prelude.Assoc.{get}
use cylc_flow.Prelude.Result.{ok, ◌>>=◌}
use cylc_flow.Prelude.Int.{int_eq}
use cylc_flow.Prelude.Result.{Ensures, Ensures->>=}
use cylc_flow.TaskState.{is_active}
use cylc_flow.TaskEvents.{Manager, Settings, Call, Effect, emit, complete_output, spawn_children}
use cylc_flow.TaskEvents.Handlers.{
  fail_or_retry, process_message_failed, process_message_started, process_message_expired,
  process_message_succeeded,
}
use cylc_flow.TaskEvents.Process.{
  is_some, kind_of, process_message_check, Outcome, Kind, note_signal, process_custom, process_kind,
  process_once, process_from, process_message, each, complete_message, then_spawn, spawn_if_final,
  count_event, handle_severity, too_deep, unless_received, is_received, split_run_signal, output_of,
  failure_message,
}
use cylc_flow.TaskOutputs.{get_incomplete_implied}
use cylc_flow.TaskEvents.{internal}
use cylc_flow.TaskEvents.Kinds.{Ensures-if, Ensures-weaken}
use cylc_flow.TaskEvents.Complete.{Ensures-ok}
use cylc_flow.TaskEvents.Cautious.{
  Cautious, of_state, Cautious-trans, timed-Cautious, Heeds, by_force, fail-Cautious, started-Heeds,
  Cautious-refl, succeeded-Heeds, expired-Cautious, vacated-Heeds,
}

spawned-Heeds :
    (output : String) {m : Manager} (n : Manager)
    → Cautious m n
    → Heeds m (then_spawn output true n)
unfolding spawn_children
spawned-Heeds output n h = Cautious-trans h (of_state (ground arith))

custom-Heeds :
    (call : Call) (message task_output : String) (m : Manager)
    → Heeds m (process_custom (by_force call) message task_output m)
unfolding process_custom
custom-Heeds call message task_output m =
    elim (Option-cases (get m.itask.outputs.message_to_trigger message)) [
      | inl e ↦ rw e tt
      | inr (trigger, e) ↦
          let n : Manager = emit (Effect.setup_event_handlers trigger message) m in
          rw e (spawned-Heeds task_output n (of_state refl))
    ]

unless_received-Heeds :
    (call : Call) (past : Bool) (m : Manager) (r : Outcome)
    → Heeds m r
    → Heeds m (unless_received call past m r)
unless_received-Heeds call past m r h =
    Ensures-if _ (is_received call.flag && past) (ok (m, true)) r (Cautious-refl m) h

note_signal-Cautious :
    (run_signal : Option String) (job_aborted : Bool) (m : Manager)
    → Cautious m (note_signal run_signal job_aborted m)
note_signal-Cautious none job_aborted m = of_state refl
note_signal-Cautious (some s) job_aborted m = of_state refl

spawn_if_final-Heeds :
    (output : String) (m : Manager) (r : Manager × Bool)
    → Cautious m r.0
    → Heeds m (spawn_if_final output true r)
spawn_if_final-Heeds output m (n, true) h = spawned-Heeds output n h
spawn_if_final-Heeds output m (n, false) h = h

failed-Heeds :
    (env : Settings) (call : Call) (message : String) (run_signal : Option String) (m n : Manager)
    → Cautious m n
    → Heeds m (
        process_message_failed env (by_force call) message run_signal n
        >>= spawn_if_final "failed" true)
unfolding process_message_failed fail_or_retry
failed-Heeds env call message run_signal m n h =
    Ensures->>= (λ (p : Manager × Bool). Cautious m p.0) (λ (p : Manager × Bool). Cautious m p.0)
      (process_message_failed env (by_force call) message run_signal n)
      (spawn_if_final "failed" true)
      (timed-Cautious env m (fail_or_retry env (by_force call) message run_signal n).0
        (λ k. (k, true)) (λ (p : Manager × Bool). Cautious m p.0)
        (Cautious-trans h (fail-Cautious env call message run_signal n)) (λ k l. l))
      (spawn_if_final-Heeds "failed" m)

process_kind-Heeds :
    (k : Kind) (env : Settings) (call : Call) (message task_output : String)
    (run_signal : Option String) (job_aborted : Bool) (m : Manager)
    → Heeds m (process_kind k env (by_force call) message task_output run_signal job_aborted m)
unfolding process_kind
process_kind-Heeds Kind.is_started env call message task_output run_signal job_aborted m =
    unless_received-Heeds call _ m _ (
      Ensures->>= (Cautious m) (λ (p : Manager × Bool). Cautious m p.0)
        (process_message_started env (by_force call) m) (then_spawn "started" true)
        (started-Heeds env call m) (spawned-Heeds "started"))
process_kind-Heeds Kind.is_succeeded env call message task_output run_signal job_aborted m =
    Ensures->>= (Cautious m) (λ (p : Manager × Bool). Cautious m p.0)
      (process_message_succeeded env (by_force call) m) (then_spawn "succeeded" true)
      (succeeded-Heeds env call m) (spawned-Heeds "succeeded")
process_kind-Heeds Kind.is_expired env call message task_output run_signal job_aborted m =
    spawned-Heeds "expired" (process_message_expired env (by_force call) m)
      (expired-Cautious env call m)
process_kind-Heeds Kind.is_failed env call message task_output run_signal job_aborted m =
    let n = note_signal run_signal job_aborted m in
    unless_received-Heeds call _ m _ (
      failed-Heeds env call (failure_message run_signal job_aborted) run_signal m n
        (note_signal-Cautious run_signal job_aborted m))
process_kind-Heeds Kind.is_submit_failed env call message task_output run_signal job_aborted m =
    unless_received-Heeds call _ m _ (spawned-Heeds "submit-failed" m (Cautious-refl m))
process_kind-Heeds Kind.is_submitted env call message task_output run_signal job_aborted m =
    unless_received-Heeds call _ m _ (spawned-Heeds "submitted" m (Cautious-refl m))
process_kind-Heeds Kind.is_vacated env call message task_output run_signal job_aborted m =
    vacated-Heeds env call message m
process_kind-Heeds Kind.is_custom env call message task_output run_signal job_aborted m =
    custom-Heeds call message task_output m
process_kind-Heeds Kind.is_unhandled env call message task_output run_signal job_aborted m =
    of_state refl

each-Heeds :
    (again : String → Manager → Outcome) (messages : List String) (m : Manager)
    → ((message : String) (n : Manager) → Heeds n (again message n))
    → Ensures (Cautious m) (each again messages m)
unfolding each
each-Heeds again [] m h = Cautious-refl m
each-Heeds again (x ∷ messages) m h =
    Ensures->>= (λ (p : Manager × Bool). Cautious m p.0) (Cautious m) (again x m)
      (λ r. each again messages r.0) (h x m)
      (λ r k.
        Ensures-weaken (Cautious r.0) (Cautious m) (each again messages r.0)
          (each-Heeds again messages r.0 h) (λ n l. Cautious-trans k l))

complete_message-Cautious :
    (call : Call) (task_output : String) (m : Manager)
    → Cautious m (complete_message call task_output m).0
unfolding complete_message complete_output
complete_message-Cautious call task_output m = of_state (ground arith)

handle_severity-Heeds :
    (call : Call) (message : String) (m : Manager) (r : Manager × Bool)
    → Cautious m r.0
    → Heeds m (handle_severity call message r)
unfolding count_event
handle_severity-Heeds call message m (n, true) h = h
handle_severity-Heeds call message m (n, false) h = Cautious-trans h (of_state (ground arith))

process_once-Heeds :
    (again : Call → String → Manager → Outcome) (env : Settings) (call : Call) (message : String)
    (m : Manager)
    → ((c : Call) (x : String) (n : Manager) → Heeds n (again (by_force c) x n))
    → Heeds m (process_once again env (by_force call) message m)
unfolding process_once
process_once-Heeds again env call message m0 h =
    let m : Manager = emit Effect.reset_inactivity m0 in
    let split = split_run_signal message in
    let output = output_of split.0 split.1 in
    let aborted = is_some split.1 && split.0 == "aborted" in
    let c = complete_message (by_force call) output m in
    let implied : Call = record call { severity = "info"; flag = internal } in
    let messages = get_incomplete_implied c.0.itask.outputs output in
    let kind = kind_of message output split.1 c.1 in
    let noted : Cautious m0 m = of_state refl in
    Ensures-if (λ (p : Manager × Bool). Cautious m0 p.0)
      (process_message_check (by_force call) message m) _ (ok (m, false))
      (Ensures->>= (Cautious m0) (λ (p : Manager × Bool). Cautious m0 p.0)
        (each (again (by_force implied)) messages c.0)
        (λ n.
          process_kind kind env (by_force call) message output split.1 aborted n
          >>= handle_severity (by_force call) message)
        (Ensures-weaken (Cautious c.0) (Cautious m0) (each (again (by_force implied)) messages c.0)
          (each-Heeds (again (by_force implied)) messages c.0 (h implied))
          (λ n k.
            Cautious-trans
              (Cautious-trans noted (complete_message-Cautious (by_force call) output m)) k))
        (λ n k.
          Ensures->>= (λ (p : Manager × Bool). Cautious n p.0)
            (λ (p : Manager × Bool). Cautious m0 p.0)
            (process_kind kind env (by_force call) message output split.1 aborted n)
            (handle_severity (by_force call) message)
            (process_kind-Heeds kind env call message output split.1 aborted n)
            (λ r l. handle_severity-Heeds (by_force call) message m0 r (Cautious-trans k l))))
      noted

process_from-Heeds :
    (env : Settings) (depth : ℕ) (call : Call) (message : String) (m : Manager)
    → Heeds m (process_from too_deep env depth (by_force call) message m)
unfolding process_from
process_from-Heeds env zero call message m = tt
process_from-Heeds env (suc depth) call message m =
    process_once-Heeds (process_from too_deep env depth) env call message m
      (process_from-Heeds env depth)

-- A forced message (`cylc set`) that does not raise, with the messages of the outputs that it implies,
-- never makes a task submitted or running: a task that is so after it was so before.
pub process_message_forced :
    (env : Settings) (call : Call) (message : String) (m n : Manager) (poll : Bool)
    → process_message env (record call { forced = true }) message m ≡ ok (n, poll)
    → is_active (some n.itask.state.status) ≡ true
    → n.itask.state.status ≡ m.itask.state.status
unfolding process_message
process_message_forced env call message m n poll e h =
    (Ensures-ok (λ (p : Manager × Bool). Cautious m p.0) _ (n, poll)
        (process_from-Heeds env 3 call message m) e).cautious
      h
