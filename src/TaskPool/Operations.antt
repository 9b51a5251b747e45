-- ===== src/TaskPool/Operations.antt =====
-- The stop point, the hold point and the question whether to stop.
use cylc_flow.Prelude.{
  ℕ, String, Bool, true, false, not, ◌&&◌, Option, none, some, List, [], ◌∷◌, ◌++◌, any,
  if◌then◌else◌, ◌==◌, string_eq, nat_eq,
}
use cylc_flow.Prelude.Assoc.{Assoc, keys}
use cylc_flow.Prelude.Int.{ℤ, ltb_ℤ, int_eq}
use cylc_flow.TaskState.{TaskStatus, waiting, submitted, running, task_status_eq, reset}
use cylc_flow.TaskPool.{
  Config, TaskProxy, Effect, TaskPool, get_tasks, delta_task_state, put_tasks_to_hold,
  put_workflow_hold_cycle_point,
}
use cylc_flow.TaskPool.Limit.{same_point}

-- A method's effect on each task, in the order of the pool.
unfoldable pub each_of :
    (TaskProxy → TaskProxy × List Effect) → List TaskProxy → List TaskProxy × List Effect
each_of f [] = ([], [])
each_of f (t ∷ ts) = let (t', es) = f t in let (ts', es') = each_of f ts in (t' ∷ ts', es ++ es')

unfoldable pub each_active :
    (TaskProxy → TaskProxy × List Effect)
    → Assoc ℤ (List TaskProxy)
    → Assoc ℤ (List TaskProxy) × List Effect
unfolding each_of
each_active f [] = ([], [])
each_active f ((point, itasks) ∷ d) =
    let (itasks', es) = each_of f itasks in
    let (d', es') = each_active f d in ((point, itasks') ∷ d', es ++ es')

unfoldable pub for_each : (TaskProxy → TaskProxy × List Effect) → TaskPool → TaskPool
unfolding each_active
for_each f pool =
    let (active_tasks, es) = each_active f pool.active_tasks in
    record pool { active_tasks = active_tasks; effects = pool.effects ++ es }

-- `state_reset` of flags, and what tells the data store that it changed the state.
unfoldable pub reset_flags :
    Config → Option Bool → Option Bool → TaskProxy → TaskProxy × List Effect
reset_flags config is_held is_runahead t =
    let (state, changed) =
      reset t.state none is_held none is_runahead false config.current_time_string in
    (record t { state = state }, if changed then delta_task_state t.name t.point ∷ [] else [])

-- `limit is not None and limit > point`
abbrev pub is_beyond : Option ℤ → ℤ → Bool
is_beyond none point = false
is_beyond (some limit) point = ltb_ℤ point limit

abbrev pub is_waiting : TaskProxy → Bool
is_waiting t = t.state.status == waiting

-- The answer is whether the stop point changed.
unfoldable pub set_stop_point : Config → ℤ → TaskPool → TaskPool × Bool
unfolding for_each reset_flags
set_stop_point config stop_point pool =
    let pool' : TaskPool = record pool { stop_point = some stop_point } in
    let beyond = λ (t : TaskProxy).
      if ltb_ℤ stop_point t.point && is_waiting t
      then reset_flags config none (some true) t
      else (t, []) in
    let lowered : TaskPool =
      for_each beyond (record pool' { runahead_limit_point = some stop_point }) in
    if same_point stop_point pool.stop_point
    then (pool, false)
    else (if is_beyond pool.runahead_limit_point stop_point then lowered else pool', true)

abbrev pub is_truthy : List ℕ → Bool
is_truthy [] = false
is_truthy (n ∷ ns) = true

abbrev pub is_key : String × ℤ → String × ℤ → Bool
is_key (name, point) (name', point') = name == name' && point == point'

unfoldable pub add_key : String × ℤ → List (String × ℤ) → List (String × ℤ)
add_key k keys = if any (is_key k) keys then keys else keys ++ k ∷ []

unfoldable pub hold_active_task : Config → TaskProxy → TaskProxy × List Effect
unfolding reset_flags
hold_active_task config t =
    let (t', es) = reset_flags config (some true) none t in (t', es ++ put_tasks_to_hold ∷ [])

-- The tasks after the hold point, which `set_hold_point` holds.
unfoldable pub keys_after : ℤ → List TaskProxy → List (String × ℤ) → List (String × ℤ)
unfolding add_key
keys_after point [] keys = keys
keys_after point (t ∷ ts) keys =
    keys_after point ts (if ltb_ℤ point t.point then add_key (t.name, t.point) keys else keys)

unfoldable pub set_hold_point : Config → ℤ → TaskPool → TaskPool
unfolding hold_active_task for_each keys_after get_tasks
set_hold_point config point pool =
    let hold =
      λ (t : TaskProxy). if ltb_ℤ point t.point then hold_active_task config t else (t, []) in
    let held = for_each hold (record pool {
      hold_point = some point;
      tasks_to_hold = keys_after point (get_tasks pool) pool.tasks_to_hold;
    }) in
    record held { effects = held.effects ++ put_workflow_hold_cycle_point (some point) ∷ [] }

pub data StopMode : Type 0 where
  auto auto_on_task_failure request_clean request_kill request_now request_now_now : StopMode

abbrev pub waits_for_active : StopMode → Bool
waits_for_active request_clean = true
waits_for_active request_kill = true
waits_for_active _ = false

abbrev pub is_active_status : TaskStatus → Bool
is_active_status submitted = true
is_active_status running = true
is_active_status _ = false

-- `has_event_timers` is whether event handlers are pending.
unfoldable pub can_stop : Option StopMode → Bool → TaskPool → Bool
unfolding get_tasks
can_stop none has_event_timers pool = false
can_stop (some request_now_now) has_event_timers pool = true
can_stop (some mode) has_event_timers pool =
    if has_event_timers
    then false
    else not (
        any
          (λ (t : TaskProxy).
            waits_for_active mode && is_active_status t.state.status && not t.state.kill_failed)
          (get_tasks pool))
