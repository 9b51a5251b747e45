-- ===== src/TaskPool/Hold.antt =====
-- Tasks that are held, and tasks that are held back at the stop point.
use cylc_flow.Prelude.{
  ◌≡◌, refl, ◌⊎◌, inl, inr, String, Bool, true, false, ◌&&◌, none, some, List, [], All,
  if◌then◌else◌, string_eq, nat_eq, arith, Bool-cases,
}
use cylc_flow.Prelude.Int.{ℤ, ◌≤ℤ◌, ◌<ℤ◌, ltb_ℤ, int_eq}
use cylc_flow.TaskState.{task_status_eq, TaskState, reset, is_current}
use cylc_flow.TaskPool.{Config, TaskPool, TaskProxy, Effect, get_tasks}
use cylc_flow.TaskPool.Operations.{
  reset_flags, hold_active_task, keys_after, set_hold_point, set_stop_point, is_waiting, is_beyond,
}
use cylc_flow.TaskPool.Limit.{same_point}
use cylc_flow.TaskPool.Each.{for_each-All}

reset_held :
    (s : TaskState) (now : String) → (reset s none (some true) none none false now).0.is_held ≡ true
unfolding reset is_current
reset_held s now = elim (Bool-cases (is_current s none (some true) none none)) [
  | inl e ↦ rw e (ground arith)
  | inr e ↦ rw e refl
]

reset_held_back :
    (s : TaskState) (now : String)
    → (reset s none none none (some true) false now).0.is_runahead ≡ true
unfolding reset is_current
reset_held_back s now = elim (Bool-cases (is_current s none none none (some true))) [
  | inl e ↦ rw e (ground arith)
  | inr e ↦ rw e refl
]

-- The task is not after the point, or held.
abbrev pub IsHeldAfter : ℤ → TaskProxy → Type 0
IsHeldAfter point t = (t.point ≤ℤ point) ⊎ (t.state.is_held ≡ true)

-- The task is not after the point, or not waiting, or held back by the runahead limit.
abbrev pub IsStopped : ℤ → TaskProxy → Type 0
IsStopped point t = (t.point ≤ℤ point) ⊎ ((is_waiting t ≡ false) ⊎ (t.state.is_runahead ≡ true))

-- What holds of both branches of a test.
if-case :
    (P : TaskProxy → Type 0) (b : Bool) (x y : TaskProxy × List Effect)
    → P x.0
    → (b ≡ false → P y.0)
    → P (if b then x else y).0
if-case P true x y h k = h
if-case P false x y h k = k refl

hold-IsHeldAfter :
    (config : Config) (point : ℤ) (t : TaskProxy)
    → IsHeldAfter point (if ltb_ℤ point t.point then hold_active_task config t else (t, [])).0
unfolding hold_active_task reset_flags
hold-IsHeldAfter config point t =
    if-case (IsHeldAfter point) (ltb_ℤ point t.point) _ (t, [])
      (inr (reset_held t.state config.current_time_string)) (λ h. inl (ground arith))

-- After a hold point is set, each task of the pool is held, unless it is not after that point.
pub set_hold_point-IsHeldAfter :
    (config : Config) (point : ℤ) (pool : TaskPool)
    → All (IsHeldAfter point) (get_tasks (set_hold_point config point pool))
unfolding set_hold_point get_tasks
set_hold_point-IsHeldAfter config point pool =
    let keys = keys_after point (get_tasks pool) pool.tasks_to_hold in
    for_each-All (IsHeldAfter point)
      (λ t. if ltb_ℤ point t.point then hold_active_task config t else (t, []))
      (record pool { hold_point = some point; tasks_to_hold = keys })
      (hold-IsHeldAfter config point)

stop-IsStopped :
    (config : Config) (point : ℤ) (t : TaskProxy)
    → IsStopped point
        (if ltb_ℤ point t.point && is_waiting t
          then reset_flags config none (some true) t
          else (t, [])).0
unfolding reset_flags
stop-IsStopped config point t =
    if-case (IsStopped point) (ltb_ℤ point t.point && is_waiting t) _ (t, [])
      (inr (inr (reset_held_back t.state config.current_time_string)))
      (λ h. elim (Bool-cases (is_waiting t)) [ inl w ↦ inl (ground arith) | inr w ↦ inr (inl w) ])

-- When the stop point changes to one before the runahead limit, each waiting task after it is held back.
pub set_stop_point-IsStopped :
    (config : Config) (point limit : ℤ) (pool : TaskPool)
    → same_point point pool.stop_point ≡ false
    → pool.runahead_limit_point ≡ some limit
    → point <ℤ limit
    → All (IsStopped point) (get_tasks (set_stop_point config point pool).0)
unfolding set_stop_point
set_stop_point-IsStopped config point limit pool h e k =
    let beyond : is_beyond pool.runahead_limit_point point ≡ true = rw e (ground arith) in
    rw h (
      rw beyond (
        for_each-All (IsStopped point)
          (λ t.
            if ltb_ℤ point t.point && is_waiting t
            then reset_flags config none (some true) t
            else (t, []))
          (record pool { stop_point = some point; runahead_limit_point = some point })
          (stop-IsStopped config point)))
