-- ===== src/TaskEvents/Outputs.antt =====
-- The helpers of `process_message` keep the outputs, or complete more of them.
use cylc_flow.Prelude.{
  ℕ, ◌≡◌, refl, sym, ◌∙◌, subst, inl, inr, String, Bool, true, false, not, ◌||◌, Option, none, some,
  List, [], ◌∷◌, if◌then◌else◌, ◌==◌, string_eq, nat_eq, Bool-cases, Option-cases,
}
use cylc_flow.Prelude.Assoc.{get}
use cylc_flow.Prelude.Result.{Result, ok, err, ◌>>=◌}
use cylc_flow.Prelude.Int.{int_eq}
use cylc_flow.Prelude.Result.{Ensures, Ensures->>=}
use cylc_flow.TaskState.{TaskStatus, running, task_status_eq}
use cylc_flow.TaskOutputs.{TaskOutputs, set_message_complete}
use cylc_flow.TaskOutputs.Monotone.{Env, Raised, Raised-refl, Raised-put}
use cylc_flow.TaskEvents.{
  EventError, PollTimer, TaskProxy, Manager, Settings, Call, Effect, emit, state_reset,
  complete_output, spawn_children, is_active_status,
}
use cylc_flow.TaskEvents.Timers.{
  reset_timers, reset_job_timers, execution_delays, start_polling, is_current, is_simulation, plus,
}
use cylc_flow.TaskEvents.Handlers.{if_changed, unless_forced}

Raised-trans : (a b c : Env) → Raised a b → Raised b c → Raised a c
Raised-trans [] [] [] h k = tt
Raised-trans [] [] (z ∷ c) h k = k
Raised-trans [] (y ∷ b) c h k = absurd h
Raised-trans (x ∷ a) [] c h k = absurd h
Raised-trans (x ∷ a) (y ∷ b) [] h k = k
Raised-trans ((m, x) ∷ a) ((n, y) ∷ b) ((o, z) ∷ c) (e, f, h) (e', f', k) =
    (e ∙ e', λ p. f' (f p), Raised-trans a b c h k)

-- The same outputs with the same expression, of which as many or more are complete.
abbrev pub IsGrown : TaskOutputs → TaskOutputs → Type 0
IsGrown t t' =
    (t'.message_to_compvar ≡ t.message_to_compvar)
    × (t'.message_to_trigger ≡ t.message_to_trigger)
    × (t'.completion_expression ≡ t.completion_expression)
    × Raised t.completed t'.completed

pub IsGrown-refl : (t : TaskOutputs) → IsGrown t t
IsGrown-refl t = (refl, refl, refl, Raised-refl t.completed)

IsGrown-trans : (t u v : TaskOutputs) → IsGrown t u → IsGrown u v → IsGrown t v
IsGrown-trans t u v (a, b, c, d) (a', b', c', d') =
    (a' ∙ a, b' ∙ b, c' ∙ c, Raised-trans t.completed u.completed v.completed d d')

pub set_message_complete-IsGrown :
    (t : TaskOutputs) (message : String) (forced : Bool)
    → IsGrown t (set_message_complete t message forced).0
unfolding set_message_complete
set_message_complete-IsGrown t message forced = elim (Option-cases (get t.completed message)) [
  | inl e ↦ rw (e, set_message_complete) (IsGrown-refl t)
  | inr (true, e) ↦ rw (e, set_message_complete) (IsGrown-refl t)
  | inr (false, e) ↦
      rw (e, set_message_complete) (refl, refl, refl, Raised-put t.completed message false e)
]

pub record Same (m m' : Manager) : Type 0 where
  pub same : m'.itask.outputs ≡ m.itask.outputs

pub record Grows (m m' : Manager) : Type 0 where
  pub grown : IsGrown m.itask.outputs m'.itask.outputs

pub Same-refl : (m : Manager) → Same m m
Same-refl m = record { same = refl }

pub Same-trans : {a b c : Manager} → Same a b → Same b c → Same a c
Same-trans h k = record { same = k.same ∙ h.same }

pub Grows-of_Same : {m m' : Manager} → Same m m' → Grows m m'
Grows-of_Same {m} {m'} h = record {
  grown = subst (λ t. IsGrown m.itask.outputs t) (sym h.same) (IsGrown-refl m.itask.outputs);
}

pub Grows-trans : {a b c : Manager} → Grows a b → Grows b c → Grows a c
Grows-trans {a} {b} {c} h k = record {
  grown = IsGrown-trans a.itask.outputs b.itask.outputs c.itask.outputs h.grown k.grown;
}

pub if_changed-Same :
    {m : Manager} (r : Manager × Bool) (f : Manager → Manager)
    → Same m r.0
    → ((n : Manager) → Same n (f n))
    → Same m (if_changed r f)
if_changed-Same (n, true) f h k = Same-trans h (k n)
if_changed-Same (n, false) f h k = h

pub if_changed-Grows :
    {m : Manager} (r : Manager × Bool) (f : Manager → Manager)
    → Same m r.0
    → ((n : Manager) → Grows n (f n))
    → Grows m (if_changed r f)
if_changed-Grows (n, true) f h k = Grows-trans (Grows-of_Same h) (k n)
if_changed-Grows (n, false) f h k = Grows-of_Same h

pub if-Grows :
    {m : Manager} (x y : Manager) (b : Bool) → Grows m x → Grows m y → Grows m (if b then x else y)
if-Grows x y true h k = h
if-Grows x y false h k = k

pub if-Same :
    {m : Manager} (x y : Manager) (b : Bool) → Same m x → Same m y → Same m (if b then x else y)
if-Same x y true h k = h
if-Same x y false h k = k

pub unless_forced-Same :
    (call : Call) (f : Manager → Manager) (m : Manager)
    → Same m (f m)
    → Same m (unless_forced call f m)
unless_forced-Same call f m h = if-Same m (f m) call.forced (Same-refl m) h

pub state_reset-Same :
    (env : Settings) (status : Option TaskStatus) (is_queued : Option Bool) (forced : Bool)
    (m : Manager)
    → Same m (state_reset env status is_queued forced m).0
unfolding state_reset
state_reset-Same env status is_queued forced m = record { same = refl }

-- A change of state, and calls on other components after it.
pub changed-Same :
    (env : Settings) (status : TaskStatus) (forced : Bool) (m : Manager) (f : Manager → Manager)
    → ((n : Manager) → Same n (f n))
    → Same m (if_changed (state_reset env (some status) none forced m) f)
changed-Same env status forced m f k =
    if_changed-Same (state_reset env (some status) none forced m) f
      (state_reset-Same env (some status) none forced m) k

pub complete_output-Grows :
    (message : String) (forced : Bool) (m : Manager) → Grows m (complete_output message forced m).0
unfolding complete_output
complete_output-Grows message forced m = record {
  grown = set_message_complete-IsGrown m.itask.outputs message forced;
}

pub spawn_children-Same :
    (output : String) (forced : Bool) (m : Manager) → Same m (spawn_children output forced m)
unfolding spawn_children
spawn_children-Same output forced m =
    if-Same (emit (Effect.spawn output) (emit Effect.put_update_task_outputs m))
      (emit Effect.put_update_task_outputs m) (not m.itask.transient || forced)
      (record { same = refl }) (record { same = refl })

executing-eq {ℓ} :
    {A : Type ℓ} (field : TaskProxy → A) (t : TaskProxy) (timeout : Option ℕ) (env : Settings)
    (delays : Result EventError (List ℕ))
    → ((limit : Option ℕ) (timer : Option PollTimer)
        → field (record t { timeout = limit; poll_timer = timer }) ≡ field t)
    → Ensures
        (λ (t' : TaskProxy). field t' ≡ field t)
        (delays >>= λ ds. ok (start_polling env timeout ds t))
executing-eq field t timeout env (ok ds) h = h _ _
executing-eq field t timeout env (err e) h = tt

-- The timers are all that changes.
pub reset_timers-eq {ℓ} :
    {A : Type ℓ} (field : TaskProxy → A) (env : Settings) (t : TaskProxy)
    → ((limit : Option ℕ) (timer : Option PollTimer)
        → field (record t { timeout = limit; poll_timer = timer }) ≡ field t)
    → Ensures (λ (t' : TaskProxy). field t' ≡ field t) (reset_timers env t)
unfolding reset_timers
reset_timers-eq field env t h = elim (Bool-cases (is_simulation t.run_mode || t.transient)) [
  | inl a ↦ rw a refl
  | inr a ↦ rw a (elim (Bool-cases (not (is_active_status t.state.status))) [
    | inl b ↦ rw b (h none none)
    | inr b ↦ rw b (elim (Bool-cases (is_current t)) [
      | inl c ↦ rw c refl
      | inr c ↦ rw c (elim (Bool-cases (t.state.status == running)) [
        | inl d ↦ rw d (
            executing-eq field t (plus t.started_time env.execution_timeout) env
              (execution_delays env) h)
        | inr d ↦ rw d (h _ _)
      ])
    ])
  ])
]

pub reset_job_timers-Same :
    (env : Settings) (m : Manager) → Ensures (Same m) (reset_job_timers env m)
unfolding reset_job_timers
reset_job_timers-Same env m =
    Ensures->>= (λ (t' : TaskProxy). t'.outputs ≡ m.itask.outputs) (Same m)
      (reset_timers env m.itask) (λ t. ok (record m { itask = t }))
      (reset_timers-eq (λ t. t.outputs) env m.itask (λ limit timer. refl))
      (λ t h. record { same = h })

-- The timers are reset last; what follows them keeps the outputs.
pub timed-Grows :
    {A : Type 0} (env : Settings) (m n : Manager) (f : Manager → A) (P : A → Type 0)
    → Grows m n
    → ((n' : Manager) → Grows m n' → P (f n'))
    → Ensures P (reset_job_timers env n >>= λ n'. ok (f n'))
timed-Grows env m n f P h k =
    Ensures->>= (Same n) P (reset_job_timers env n) (λ n'. ok (f n')) (reset_job_timers-Same env n)
      (λ n' same. k n' (Grows-trans h (Grows-of_Same same)))
