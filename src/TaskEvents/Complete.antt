-- ===== src/TaskEvents/Complete.antt =====
-- Messages never take back the completion of an output.
use cylc_flow.Prelude.{
  ℕ, zero, suc, ◌≡◌, refl, subst, String, Bool, true, false, ◌&&◌, ◌||◌, List, [], ◌∷◌,
  if◌then◌else◌, ◌==◌, string_eq, nat_eq,
}
use cylc_flow.Prelude.Result.{Result, ok, ◌>>=◌}
use cylc_flow.Prelude.Int.{int_eq}
use cylc_flow.Prelude.Result.{Ensures, Ensures->>=}
use cylc_flow.TaskState.{task_status_eq}
use cylc_flow.TaskOutputs.{variables, or_final, is_complete, get_incomplete_implied}
use cylc_flow.TaskOutputs.Monotone.{Env, AreKnown, complete_grow}
use cylc_flow.TaskEvents.{Manager, Settings, Call, Effect, emit, complete_output}
use cylc_flow.TaskEvents.Handlers.{on_task}
use cylc_flow.TaskEvents.Process.{
  count_event, Outcome, is_some, process_kind, process_once, process_from, process_message, each,
  complete_message, handle_severity, too_deep,
}
use cylc_flow.TaskEvents.Outputs.{
  IsGrown, Same, Grows, Same-refl, Grows-of_Same, Grows-trans, if-Same, complete_output-Grows,
}
use cylc_flow.TaskEvents.Process.{
  job_msg, output_of, split_run_signal, process_message_check, kind_of, is_new,
}
use cylc_flow.TaskEvents.{internal}
use cylc_flow.TaskEvents.Kinds.{Keeps, Ensures-if, Grows-refl, Ensures-weaken, process_kind-Keeps}

each-Grows :
    (again : String → Manager → Outcome) (messages : List String) (m : Manager)
    → ((message : String) (n : Manager) → Keeps n (again message n))
    → Ensures (Grows m) (each again messages m)
unfolding each
each-Grows again [] m h = Grows-refl m
each-Grows again (x ∷ messages) m h =
    Ensures->>= (λ (p : Manager × Bool). Grows m p.0) (Grows m) (again x m)
      (λ r. each again messages r.0) (h x m)
      (λ r k.
        Ensures-weaken (Grows r.0) (Grows m) (each again messages r.0)
          (each-Grows again messages r.0 h) (λ n l. Grows-trans k l))

if-Grows_fst :
    {m : Manager} (x y : Manager × Bool) (b : Bool)
    → Grows m x.0
    → Grows m y.0
    → Grows m (if b then x else y).0
if-Grows_fst x y true h k = h
if-Grows_fst x y false h k = k

complete_message-Grows :
    (call : Call) (task_output : String) (m : Manager)
    → Grows m (complete_message call task_output m).0
unfolding complete_message
complete_message-Grows call task_output m =
    let r = complete_output task_output call.forced m in
    let n : Manager = emit (Effect.delta_task_output task_output) r.0 in
    let k = complete_output-Grows task_output call.forced m in
    let told : Same r.0 (if is_new r.1 then n else r.0) =
      if-Same n r.0 (is_new r.1) (record { same = refl }) (Same-refl r.0) in
    if-Grows_fst (m, false) (if is_new r.1 then n else r.0, is_new r.1)
      (task_output == "submit-failed" || task_output == "failed") (Grows-refl m)
      (Grows-trans k (Grows-of_Same told))

handle_severity-Keeps :
    (call : Call) (message : String) (m : Manager) (r : Manager × Bool)
    → Grows m r.0
    → Keeps m (handle_severity call message r)
unfolding count_event
handle_severity-Keeps call message m (n, true) h = h
handle_severity-Keeps call message m (n, false) h =
    let n' : Manager =
      emit (Effect.setup_event_handlers call.severity message)
        (on_task (count_event call.severity) n) in
    Grows-trans h (Grows-of_Same (if-Same n' n _ (record { same = refl }) (Same-refl n)))

-- What is shown of the calls for implied outputs holds of the call.
process_once-Keeps :
    (again : Call → String → Manager → Outcome) (env : Settings) (call : Call) (message : String)
    (m : Manager)
    → ((c : Call) (x : String) (n : Manager) → Keeps n (again c x n))
    → Keeps m (process_once again env call message m)
unfolding process_once
process_once-Keeps again env call message m0 h =
    let m : Manager = emit Effect.reset_inactivity m0 in
    let split = split_run_signal message in
    let output = output_of split.0 split.1 in
    let aborted = is_some split.1 && split.0 == "aborted" in
    let told : Manager = emit (Effect.delta_job_msg (job_msg call.flag message)) m in
    let m1 : Manager = if call.forced then m else told in
    let noted : Same m0 m = record { same = refl } in
    let noted1 : Same m0 m1 = if-Same m told call.forced noted (record { same = refl }) in
    let c = complete_message call output m1 in
    let implied : Call = record call { severity = "info"; flag = internal } in
    let messages = get_incomplete_implied c.0.itask.outputs output in
    let kind = kind_of message output split.1 c.1 in
    Ensures-if (λ (p : Manager × Bool). Grows m0 p.0) (process_message_check call message m) _
      (ok (m, false))
      (Ensures->>= (Grows m0) (λ (p : Manager × Bool). Grows m0 p.0)
        (each (again implied) messages c.0)
        (λ n.
          process_kind kind env call message output split.1 aborted n
          >>= handle_severity call message)
        (Ensures-weaken (Grows c.0) (Grows m0) (each (again implied) messages c.0)
          (each-Grows (again implied) messages c.0 (h implied))
          (λ n k.
            Grows-trans (Grows-trans (Grows-of_Same noted1) (complete_message-Grows call output m1))
              k))
        (λ n k.
          Ensures->>= (λ (p : Manager × Bool). Grows n p.0) (λ (p : Manager × Bool). Grows m0 p.0)
            (process_kind kind env call message output split.1 aborted n)
            (handle_severity call message)
            (process_kind-Keeps kind env call message output split.1 aborted n)
            (λ r l. handle_severity-Keeps call message m0 r (Grows-trans k l))))
      (Grows-of_Same noted)

process_from-Keeps :
    (bottom : Call → String → Manager → Outcome) (env : Settings) (depth : ℕ)
    → ((c : Call) (x : String) (n : Manager) → Keeps n (bottom c x n))
    → (call : Call) (message : String) (m : Manager)
    → Keeps m (process_from bottom env depth call message m)
unfolding process_from
process_from-Keeps bottom env zero h call message m = h call message m
process_from-Keeps bottom env (suc depth) h call message m =
    process_once-Keeps (process_from bottom env depth) env call message m
      (process_from-Keeps bottom env depth h)

process_message-Keeps :
    (env : Settings) (call : Call) (message : String) (m : Manager)
    → Keeps m (process_message env call message m)
unfolding process_message
process_message-Keeps env call message m =
    process_from-Keeps too_deep env 3 (λ c x n. tt) call message m

pub Ensures-ok {κ} :
    {E : Type 0} {A : Type 0} (P : A → Type κ) (r : Result E A) (a : A)
    → Ensures P r
    → r ≡ ok a
    → P a
Ensures-ok P r a h e = subst (Ensures P) e h

-- If a message is processed without an exception, the variables of the completion expression are those of
-- outputs, and the outputs of the task are complete, then they are complete afterwards; and the outputs,
-- their triggers and the completion expression are as they were, apart from outputs that are completed.
pub process_message-is_complete :
    (env : Settings) (call : Call) (message : String) (m n : Manager) (poll : Bool) (vars : Env)
    → process_message env call message m ≡ ok (n, poll)
    → variables m.itask.outputs.message_to_compvar [] m.itask.outputs.completed ≡ ok vars
    → AreKnown vars (or_final m.itask.outputs.completion_expression)
    → is_complete m.itask.outputs ≡ ok true
    → IsGrown m.itask.outputs n.itask.outputs × (is_complete n.itask.outputs ≡ ok true)
process_message-is_complete env call message m n poll vars e known_vars known h =
    let kept =
      Ensures-ok (λ (p : Manager × Bool). Grows m p.0) _ (n, poll)
        (process_message-Keeps env call message m) e in
    let (compvars, triggers, expression, raised) = kept.grown in
    (
      kept.grown,
      complete_grow m.itask.outputs n.itask.outputs vars compvars expression raised known_vars known
          h,
    )
