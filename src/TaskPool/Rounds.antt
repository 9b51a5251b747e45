-- ===== src/TaskPool/Rounds.antt =====
-- The rounds in which tasks are released.
use cylc_flow.Prelude.{
  ◌≡◌, refl, sym, ◌∙◌, inl, inr, String, true, false, none, some, List, [], ◌∷◌, any, string_eq,
  nat_eq, eq_refl, eq_of_==, arith, Bool-cases,
}
use cylc_flow.Prelude.Int.{ℤ, int_eq}
use cylc_flow.TaskState.{TaskState, reset, is_current, task_status_eq}
use cylc_flow.TaskPool.{Config, TaskPool, TaskProxy}
use cylc_flow.TaskPool.Operations.{is_key, reset_flags}
use cylc_flow.TaskPool.Release.{at_key, release_task, release_tasks}
use cylc_flow.TaskPool.Kept.{
  KeepsProxy, Has, Named, Free, IsKept, for_each-Has, at_key-name, at_key-Has, spawn_from-Has,
}

reset_released :
    (s : TaskState) (now : String)
    → (reset s none none none (some false) false now).0.is_runahead ≡ false
unfolding reset is_current
reset_released s now = elim (Bool-cases (is_current s none none none (some false))) [
  | inl e ↦ rw e (ground arith)
  | inr e ↦ rw e refl
]

module _ (n : String) (p : ℤ) where
  Named-IsKept : (config : Config) → KeepsProxy config → IsKept n p config (Named n p)
  unfolding KeepsProxy
  Named-IsKept config proxy flow_nums t (a, b) = let (c, d, e) = proxy flow_nums t in (c ∙ a, d ∙ b)

  Free-IsKept : (config : Config) → KeepsProxy config → IsKept n p config (Free n p)
  unfolding KeepsProxy
  Free-IsKept config proxy flow_nums t ((a, b), free) =
      let (c, d, e) = proxy flow_nums t in ((c ∙ a, d ∙ b), e ∙ free)

  reset_flags-Free :
      (config : Config) (t : TaskProxy)
      → (Named n p) t
      → (Free n p) (reset_flags config none (some false) t).0
  unfolding reset_flags
  reset_flags-Free config t named = (named, reset_released t.state config.current_time_string)

  reset_flags-Named :
      (config : Config) (t : TaskProxy)
      → (Named n p) t
      → (Named n p) (reset_flags config none (some false) t).0
  unfolding reset_flags
  reset_flags-Named config t named = named

  reset_flags-name :
      (config : Config) (t : TaskProxy) → (reset_flags config none (some false) t).0.name ≡ t.name
  unfolding reset_flags
  reset_flags-name config t = refl

  release_task-Has :
      (Q : TaskProxy → Type 0) (config : Config) (key : String × ℤ) (pool : TaskPool)
      → KeepsProxy config
      → IsKept n p config Q
      → ((t : TaskProxy) → Q t → Q (reset_flags config none (some false) t).0)
      → Has n p Q pool
      → Has n p Q (release_task config pool key)
  unfolding release_task
  release_task-Has Q config key pool proxy kept resets found =
      spawn_from-Has n p Q config _ _ proxy kept (
        at_key-Has n p Q key (reset_flags config none (some false)) pool (reset_flags-name config)
          resets found)

  -- The round of the task itself.
  release_task-Free :
      (config : Config) (pool : TaskPool)
      → KeepsProxy config
      → Has n p (Named n p) pool
      → Has n p (Free n p) (release_task config pool (n, p))
  unfolding release_task at_key
  release_task-Free config pool proxy found =
      spawn_from-Has n p (Free n p) config _ _ proxy (Free-IsKept config proxy) (
        for_each-Has n p (Named n p) (Free n p) _ pool
          (at_key-name n p (n, p) (reset_flags config none (some false)) (reset_flags-name config))
          (λ t (a, b).
            let same : is_key (n, p) (t.name, t.point) ≡ true =
              rw (a, b) (ground (arith, eq_refl n, eq_refl p)) in
            rw same (reset_flags-Free config t (a, b)))
          found)

  pub release_tasks-Free :
      (config : Config) (pool : TaskPool) (keys : List (String × ℤ))
      → KeepsProxy config
      → Has n p (Free n p) pool
      → Has n p (Free n p) (release_tasks config pool keys)
  unfolding release_tasks
  release_tasks-Free config pool [] proxy found = found
  release_tasks-Free config pool (key ∷ keys) proxy found =
      release_tasks-Free config (release_task config pool key) keys proxy (
        release_task-Has (Free n p) config key pool proxy (Free-IsKept config proxy)
          (λ t free. reset_flags-Free config t free.0) found)

  pub release_tasks-listed :
      (config : Config) (pool : TaskPool) (keys : List (String × ℤ))
      → KeepsProxy config
      → any (is_key (n, p)) keys ≡ true
      → Has n p (Named n p) pool
      → Has n p (Free n p) (release_tasks config pool keys)
  unfolding release_tasks
  release_tasks-listed config pool [] proxy h found = absurd (ground arith)
  release_tasks-listed config pool ((m, q) ∷ keys) proxy h found =
      elim (Bool-cases (is_key (n, p) (m, q))) [
        | inl here ↦
            let a : n ≡ m = eq_of_== n m (ground arith) in
            let b : p ≡ q = eq_of_== p q (ground arith) in
            release_tasks-Free config (release_task config pool (m, q)) keys proxy
              (rw (sym a, sym b) (release_task-Free config pool proxy found))
        | inr there ↦
            release_tasks-listed config (release_task config pool (m, q)) keys proxy (ground arith)
              (release_task-Has (Named n p) config (m, q) pool proxy (Named-IsKept config proxy)
                (reset_flags-Named config) found)
      ]
