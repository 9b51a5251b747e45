-- ===== src/TaskPool/Stop.antt =====
-- The runahead limit and the stop point.
use cylc_flow.Prelude.{
  ◌≡◌, if◌then◌else◌, inl, inr, ◌||◌, ◌==◌, any, String, List, [], ◌∷◌, Bool, true, false, not,
  ◌&&◌, Option, none, some, string_eq, nat_eq, arith, Bool-cases, Option-cases,
}
use cylc_flow.Prelude.Int.{ℤ, ltb_ℤ, ◌≤ℤ◌, int_eq}
use cylc_flow.TaskState.{task_status_eq}
use cylc_flow.TaskPool.{Config, TaskPool, TaskProxy, Effect, get_tasks}
use cylc_flow.TaskPool.Limit.{
  at_most, compute_from, compute_runahead, runahead_base_point, set_max_future_offset,
  is_up_to_date, or_else, same_offset, max_offset, same_point,
}
use cylc_flow.TaskPool.Operations.{
  set_stop_point, for_each, is_beyond, set_hold_point, is_truthy, reset_flags,
}
use cylc_flow.TaskPool.Release.{
  tasks_at, get_task, adjust_offset, add_to_pool, at_key, add_spawned, get_or_spawn_task, spawn_at,
  spawn_next_parentless, spawn_from, release_task, release_tasks, release_me,
  release_runahead_tasks,
}

-- The runahead limit is not after the stop point.
abbrev pub IsClamped : Option ℤ → Option ℤ → Type 0
IsClamped (some limit) (some stop) = limit ≤ℤ stop
IsClamped _ _ = Unit {0}

at_most-IsClamped : (stop : Option ℤ) (point : ℤ) → IsClamped (some (at_most stop point)) stop
at_most-IsClamped none point = tt
at_most-IsClamped (some stop) point = ground arith

-- Operations that change the runahead limit or the stop point.
pub data Step (config : Config) : TaskPool → TaskPool → Type 0 where
  compute :
      (force : Bool) (pool : TaskPool) → Step config pool (compute_runahead config force pool).0
  offset : (pool : TaskPool) → Step config pool (set_max_future_offset config pool)
  stop : (point : ℤ) (pool : TaskPool) → Step config pool (set_stop_point config point pool).0
  hold : (point : ℤ) (pool : TaskPool) → Step config pool (set_hold_point config point pool)
  release : (pool : TaskPool) → Step config pool (release_runahead_tasks config pool).0

-- One operation after another.
pub data Reach (config : Config) : TaskPool → TaskPool → Type 0 where
  done : {pool : TaskPool} → Reach config pool pool
  step : {a b c : TaskPool} → Step config a b → Reach config b c → Reach config a c

abbrev pub IsBounded : TaskPool → Type 0
IsBounded pool = IsClamped pool.runahead_limit_point pool.stop_point

pub compute_from-IsBounded :
    (config : Config) (force : Bool) (base : ℤ) (pool : TaskPool)
    → IsBounded pool
    → IsBounded (compute_from config force base pool).0
unfolding compute_from
compute_from-IsBounded config force base pool h =
    elim (Bool-cases
      (not force && is_up_to_date pool base (or_else pool.prev_runahead_base_point base))) [
        | inl e ↦ rw e h
        | inr e ↦ rw e (at_most-IsClamped pool.stop_point _)
      ]

pub compute_runahead-IsBounded :
    (config : Config) (force : Bool) (pool : TaskPool)
    → IsBounded pool
    → IsBounded (compute_runahead config force pool).0
unfolding compute_runahead
compute_runahead-IsBounded config force pool h =
    elim (Option-cases (runahead_base_point config pool)) [
      | inl e ↦ rw (e, compute_runahead) h
      | inr (base, e) ↦ rw (e, compute_runahead) (compute_from-IsBounded config force base pool h)
    ]

set_max_future_offset-IsBounded :
    (config : Config) (pool : TaskPool)
    → IsBounded pool
    → IsBounded (set_max_future_offset config pool)
unfolding set_max_future_offset
set_max_future_offset-IsBounded config pool h =
    let pool' : TaskPool = record pool { max_future_offset = max_offset none (get_tasks pool) } in
    elim (Bool-cases (same_offset (max_offset none (get_tasks pool)) pool.max_future_offset)) [
      | inl e ↦ rw e h
      | inr e ↦ rw e (compute_runahead-IsBounded config true pool' h)
    ]

not_beyond :
    (limit : Option ℤ) (point : ℤ) → is_beyond limit point ≡ false → IsClamped limit (some point)
not_beyond none point h = tt
not_beyond (some limit) point h = ground arith

set_stop_point-IsBounded :
    (config : Config) (point : ℤ) (pool : TaskPool)
    → IsBounded pool
    → IsBounded (set_stop_point config point pool).0
unfolding set_stop_point for_each
set_stop_point-IsBounded config point pool h =
    elim (Bool-cases (same_point point pool.stop_point)) [
      | inl e ↦ rw e h
      | inr e ↦ elim (Bool-cases (is_beyond pool.runahead_limit_point point)) [
        | inl f ↦ rw e (rw f (omega arith))
        | inr f ↦ rw e (rw f (not_beyond pool.runahead_limit_point point f))
      ]
    ]

at_key-IsBounded :
    (key : String × ℤ) (f : TaskProxy → TaskProxy × List Effect) (pool : TaskPool)
    → IsBounded pool
    → IsBounded (at_key key f pool)
unfolding at_key for_each
at_key-IsBounded key f pool h = h

-- What holds of both branches of a test.
if-IsBounded :
    (b : Bool) (x y : TaskPool) → IsBounded x → IsBounded y → IsBounded (if b then x else y)
if-IsBounded true x y h k = h
if-IsBounded false x y h k = k

adjust_offset-IsBounded :
    (config : Config) (o : Option ℤ) (pool : TaskPool)
    → IsBounded pool
    → IsBounded (adjust_offset config o pool)
unfolding adjust_offset
adjust_offset-IsBounded config none pool h = h
adjust_offset-IsBounded config (some o) pool h = set_max_future_offset-IsBounded config pool h

add_to_pool-IsBounded :
    (config : Config) (t : TaskProxy) (pool : TaskPool)
    → IsBounded pool
    → IsBounded (add_to_pool config t pool)
unfolding add_to_pool
add_to_pool-IsBounded config t pool h =
    if-IsBounded (any (λ (u : TaskProxy). t.name == u.name) (tasks_at pool t.point)) _ _ h
      (adjust_offset-IsBounded config t.max_future_prereq_offset _ h)

add_spawned-IsBounded :
    (config : Config) (spawned : Option TaskProxy) (pool : TaskPool)
    → IsBounded pool
    → IsBounded (add_spawned config spawned pool)
unfolding add_spawned
add_spawned-IsBounded config none pool h = h
add_spawned-IsBounded config (some ntask) pool h = add_to_pool-IsBounded config ntask pool h

get_or_spawn_task-IsBounded :
    (config : Config) (t : TaskProxy) (point : ℤ) (found : Option TaskProxy) (pool : TaskPool)
    → IsBounded pool
    → IsBounded (get_or_spawn_task config t point found pool)
unfolding get_or_spawn_task
get_or_spawn_task-IsBounded config t point (some ntask) pool h =
    at_key-IsBounded (t.name, point) (config.merge_flows t.flow_nums) pool h
get_or_spawn_task-IsBounded config t point none pool h =
    add_spawned-IsBounded config (config.spawn_task t.name point t.flow_nums pool) pool h

spawn_at-IsBounded :
    (config : Config) (t : TaskProxy) (next : Option ℤ) (pool : TaskPool)
    → IsBounded pool
    → IsBounded (spawn_at config t next pool)
unfolding spawn_at
spawn_at-IsBounded config t none pool h = h
spawn_at-IsBounded config t (some point) pool h =
    get_or_spawn_task-IsBounded config t point (get_task pool point t.name) pool h

spawn_from-IsBounded :
    (config : Config) (found : Option TaskProxy) (pool : TaskPool)
    → IsBounded pool
    → IsBounded (spawn_from config found pool)
unfolding spawn_from spawn_next_parentless
spawn_from-IsBounded config none pool h = h
spawn_from-IsBounded config (some t) pool h =
    if-IsBounded (is_truthy t.flow_nums && not t.is_xtrigger_sequential) _ _
      (if-IsBounded (not (is_truthy t.flow_nums) || ltb_ℤ t.point config.start_point) _ _ h (
        spawn_at-IsBounded config t (config.next_point_parentless t.name config.start_point t.point)
          pool h))
      h

release_tasks-IsBounded :
    (config : Config) (keys : List (String × ℤ)) (pool : TaskPool)
    → IsBounded pool
    → IsBounded (release_tasks config pool keys)
unfolding release_tasks release_task
release_tasks-IsBounded config [] pool h = h
release_tasks-IsBounded config ((name, point) ∷ keys) pool h =
    release_tasks-IsBounded config keys (release_task config pool (name, point)) (
      spawn_from-IsBounded config _ _
        (at_key-IsBounded (name, point) (reset_flags config none (some false)) pool h))

step-IsBounded :
    {config : Config} {pool pool' : TaskPool}
    → Step config pool pool'
    → IsBounded pool
    → IsBounded pool'
unfolding release_runahead_tasks set_hold_point for_each
step-IsBounded {config} (compute force pool) h = compute_runahead-IsBounded config force pool h
step-IsBounded {config} (offset pool) h = set_max_future_offset-IsBounded config pool h
step-IsBounded {config} (stop point pool) h = set_stop_point-IsBounded config point pool h
step-IsBounded {config} (hold point pool) h = h
step-IsBounded {config} (release pool) h = elim (Option-cases pool.runahead_limit_point) [
  | inl e ↦ rw (e, release_runahead_tasks) h
  | inr (limit, e) ↦
      rw (e, release_runahead_tasks) (release_tasks-IsBounded config (release_me limit pool) pool h)
]

-- From a pool whose runahead limit is not after its stop point, no sequence of operations on the limit, the
-- offset of future triggers, the stop point, the hold point and the held back tasks, whose release adds the next
-- instances of tasks with no parents, sets the limit after the stop point.
pub Reach-IsBounded :
    {config : Config} {pool pool' : TaskPool}
    → Reach config pool pool'
    → IsBounded pool
    → IsBounded pool'
Reach-IsBounded Reach.done h = h
Reach-IsBounded (Reach.step s r) h = Reach-IsBounded r (step-IsBounded s h)
