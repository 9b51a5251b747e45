-- ===== src/TaskState/Ready.antt =====
-- The prerequisites of a task.
use cylc_flow.Prelude.{
  ◌≡◌, refl, ◌↔◌, Bool, true, false, List, [], ◌∷◌, All, string_eq, nat_eq, arith,
}
use cylc_flow.Prelude.Result.{Result, ok, err}
use cylc_flow.Prelude.Int.{int_eq}
use cylc_flow.Prerequisite.{Prerequisite, PrereqError, eval_satisfied, is_satisfied}
use cylc_flow.Prerequisite.Effects.{set_satisfied-is_satisfied, set_satisfied-answer}
use cylc_flow.TaskState.{
  TaskState, Asked, keep_asking, ask_all, set_each, prerequisites_all_satisfied,
  set_all_task_prerequisites_satisfied,
}

-- The condition can be evaluated.
abbrev pub IsEvaluable : Prerequisite → Type 0
IsEvaluable p = (b : Bool) × (eval_satisfied p ≡ ok b)

set_each-ask_all :
    (ps : List Prerequisite)
    → All IsEvaluable ps
    → ((set_each ps).1 ≡ ok true) × ((ask_all (set_each ps).0).1 ≡ ok true)
unfolding set_each ask_all
set_each-ask_all [] h = (refl, refl)
set_each-ask_all (p ∷ ps) ((b, e), h) =
    let (set, asked) = set_each-ask_all ps h in
    rw (set_satisfied-answer p b e) (set, rw (set_satisfied-is_satisfied p b e).0 asked)

-- If the condition of each prerequisite of a task can be evaluated, then after
-- `set_all_task_prerequisites_satisfied`, which does not raise, the task's prerequisites are all satisfied.
prerequisites_all_satisfied-set_all_task_prerequisites_satisfied :
    (s : TaskState)
    → All IsEvaluable s.prerequisites
    → ((set_all_task_prerequisites_satisfied s).1 ≡ ok true)
      × ((prerequisites_all_satisfied (set_all_task_prerequisites_satisfied s).0).1 ≡ ok true)
unfolding set_all_task_prerequisites_satisfied prerequisites_all_satisfied
prerequisites_all_satisfied-set_all_task_prerequisites_satisfied s h =
    set_each-ask_all s.prerequisites h

keep_asking-true :
    (p : Prerequisite) (ps : List Prerequisite) (rest : Asked) (r : Result PrereqError Bool)
    → (keep_asking p ps rest r).1 ≡ ok true
    → (r ≡ ok true) × (rest.1 ≡ ok true)
keep_asking-true p ps rest (ok true) h = (refl, h)
keep_asking-true p ps rest (ok false) h = absurd (ground arith)
keep_asking-true p ps rest (err e) h = absurd (ground arith)

ask_all-true :
    (ps : List Prerequisite) → (ask_all ps).1 ≡ ok true → All (λ p. (is_satisfied p).1 ≡ ok true) ps
unfolding ask_all
ask_all-true [] h = tt
ask_all-true (p ∷ ps) h =
    let (one, rest) = keep_asking-true (is_satisfied p).0 ps (ask_all ps) (is_satisfied p).1 h in
    (one, ask_all-true ps rest)

ask_all_of_All :
    (ps : List Prerequisite) → All (λ p. (is_satisfied p).1 ≡ ok true) ps → (ask_all ps).1 ≡ ok true
unfolding ask_all
ask_all_of_All [] h = refl
ask_all_of_All (p ∷ ps) (one, rest) = rw one (ask_all_of_All ps rest)

-- A task's prerequisites are all satisfied exactly when each of them, asked alone, is satisfied,
-- though the question stops at the first that is not. Asking changes neither the task's status nor
-- its flags nor its triggers.
prerequisites_all_satisfied-All :
    (s : TaskState)
    → let (s', answer) = prerequisites_all_satisfied s in
      ((answer ≡ ok true) ↔ All (λ p. (is_satisfied p).1 ≡ ok true) s.prerequisites)
      × (s' ≡ record s { prerequisites = s'.prerequisites })
unfolding prerequisites_all_satisfied
prerequisites_all_satisfied-All s =
    ((ask_all-true s.prerequisites, ask_all_of_All s.prerequisites), refl)
