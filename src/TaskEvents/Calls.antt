-- ===== src/TaskEvents/Calls.antt =====
-- The calls that `process_message` makes on itself for implied outputs end.
use cylc_flow.Prelude.{
  ℕ, zero, suc, ◌≤◌, ◌≡◌, refl, ap, inl, inr, String, Bool, false, ◌&&◌, ◌||◌, List, [], ◌∷◌,
  filter, All, if◌then◌else◌, ◌==◌, string_eq, nat_eq, String_discrete, ℕ_discrete, arith,
  Bool-cases,
}
use cylc_flow.Prelude.Result.{Result, ok, ◌>>=◌}
use cylc_flow.Prelude.Int.{int_eq}
use mathlib.Core.Path.{fun_ext}
use cylc_flow.TaskOutputs.{get_incomplete_implied, implied_by, is_incomplete}
use cylc_flow.TaskEvents.{EventError, Manager, Settings, Call, Effect, emit, internal}
use cylc_flow.TaskEvents.Process.{
  job_msg, Outcome, split_run_signal, output_of, process_message_check, process_kind, kind_of,
  handle_severity, complete_message, each, process_once, process_from, process_message, too_deep,
  is_some,
}

abbrev pub Calls : Type 0
Calls = Call → String → Manager → Outcome

-- Two ways to make a call for an output agree.
abbrev pub AgreeOn : Calls → Calls → String → Type 0
AgreeOn f g x = (c : Call) (n : Manager) → f c x n ≡ g c x n

All-filter {κ} :
    (P : String → Type κ) (keep : String → Bool) (l : List String) → All P l → All P (filter keep l)
All-filter P keep [] h = tt
All-filter P keep (x ∷ l) (p, h) = elim (Bool-cases (keep x)) [
  | inl e ↦ rw (e, filter) (p, All-filter P keep l h)
  | inr e ↦ rw (e, filter) (All-filter P keep l h)
]

each-eq :
    (f g : Calls) (c : Call) (l : List String) (m : Manager)
    → All (AgreeOn f g) l
    → each (f c) l m ≡ each (g c) l m
unfolding each
each-eq f g c [] m h = refl
each-eq f g c (x ∷ l) m (a, h) = rw (a c m) (
    ap (λ (next : Manager × Bool → Result EventError Manager). g c x m >>= next)
      (fun_ext (λ r. each-eq f g c l r.0 h)))

abbrev pub told : Call → String → Manager → Manager
told call message m = emit (Effect.delta_job_msg (job_msg call.flag message)) m

-- A call depends on the calls for the outputs that its own implies.
process_once-eq :
    (f g : Calls) (env : Settings) (call : Call) (message : String) (m : Manager)
    → All
        (AgreeOn f g)
        (implied_by (output_of (split_run_signal message).0 (split_run_signal message).1))
    → process_once f env call message m ≡ process_once g env call message m
unfolding process_once get_incomplete_implied
process_once-eq f g env call message m0 h =
    let m : Manager = emit Effect.reset_inactivity m0 in
    let split = split_run_signal message in
    let output = output_of split.0 split.1 in
    let aborted = is_some split.1 && split.0 == "aborted" in
    let m1 : Manager = if call.forced then m else told call message m in
    let c = complete_message call output m1 in
    let implied : Call = record call { severity = "info"; flag = internal } in
    let messages = get_incomplete_implied c.0.itask.outputs output in
    ap
      (λ (r : Result EventError Manager).
        if process_message_check call message m
        then (r >>= λ n.
            process_kind (kind_of message output split.1 c.1) env call message output split.1
              aborted n
            >>= handle_severity call message)
        else ok (m, false))
      (each-eq f g implied messages c.0
        (All-filter (AgreeOn f g) (is_incomplete c.0.itask.outputs) (implied_by output) h))

-- Calls for the outputs that are implied by no other do not nest.
submitted-eq :
    (f g : Calls) (env : Settings) → AgreeOn (process_once f env) (process_once g env) "submitted"
unfolding split_run_signal ℕ_discrete String_discrete
submitted-eq f g env c n = process_once-eq f g env c "submitted" n tt

started-eq :
    (f g : Calls) (env : Settings)
    → AgreeOn
        (process_once (process_once f env) env)
        (process_once (process_once g env) env)
        "started"
unfolding split_run_signal ℕ_discrete String_discrete
started-eq f g env c n =
    process_once-eq (process_once f env) (process_once g env) env c "started" n
      (submitted-eq f g env, tt)

-- What an output implies is submitted or started.
implied :
    (P : String → Type 0) (output : String)
    → P "submitted"
    → P "started"
    → All P (implied_by output)
implied P output h k = elim (Bool-cases (output == "succeeded" || output == "failed")) [
  | inl e ↦ rw e (h, (k, tt))
  | inr e ↦ elim (Bool-cases (output == "started")) [
    | inl s ↦ rw e (rw s (h, tt))
    | inr s ↦ rw e (rw s tt)
  ]
]

-- The recursion of `process_message` on implied outputs ends within three nested calls, for every message
-- and every state of the task: a bound of three or more gives the same result, whatever is done at the bound.
pub process_from-process_message :
    (bottom : Call → String → Manager → Outcome) (env : Settings) (depth : ℕ) (call : Call)
    (message : String) (m : Manager)
    → 3 ≤ depth
    → process_from bottom env depth call message m ≡ process_message env call message m
unfolding process_from process_message
process_from-process_message bottom env zero call message m h = absurd (omega arith)
process_from-process_message bottom env (suc zero) call message m h = absurd (omega arith)
process_from-process_message bottom env (suc (suc zero)) call message m h = absurd (omega arith)
process_from-process_message bottom env (suc (suc (suc depth))) call message m h =
    let f = process_from bottom env depth in
    let f1 : Calls = process_once f env in
    let g1 : Calls = process_once too_deep env in
    process_once-eq (process_once f1 env) (process_once g1 env) env call message m (
      implied (AgreeOn (process_once f1 env) (process_once g1 env)) _ (submitted-eq f1 g1 env)
        (started-eq f too_deep env))
