-- ===== src/TaskPool/Release.antt =====
-- cylc/flow/task_pool.py: the release of tasks from the runahead limit, and the next instances of those with no
-- parents, which it adds to the pool.
use cylc_flow.Prelude.{
  String, Bool, true, false, not, ◌&&◌, ◌||◌, Option, none, some, List, [], ◌∷◌, ◌++◌, any, map,
  filter, if◌then◌else◌, ◌==◌, string_eq, nat_eq,
}
use cylc_flow.Prelude.Assoc.{get, put}
use cylc_flow.Prelude.Int.{ℤ, ltb_ℤ, leb_ℤ, int_eq}
use cylc_flow.TaskPool.{Config, TaskProxy, Effect, TaskPool, get_tasks, create_data_store_elements}
use cylc_flow.TaskPool.Limit.{set_max_future_offset}
use cylc_flow.TaskPool.Operations.{for_each, reset_flags, is_truthy, is_key}

unfoldable pub tasks_at : TaskPool → ℤ → List TaskProxy
unfolding get
tasks_at pool point = elim (get pool.active_tasks point) [ none ↦ [] | some itasks ↦ itasks ]

unfoldable pub find_name : String → List TaskProxy → Option TaskProxy
find_name name [] = none
find_name name (t ∷ ts) = let later = find_name name ts in if name == t.name then some t else later

unfoldable pub get_task : TaskPool → ℤ → String → Option TaskProxy
unfolding tasks_at find_name
get_task pool point name = find_name name (tasks_at pool point)

-- For the offset of the task that was added
unfoldable pub adjust_offset : Config → Option ℤ → TaskPool → TaskPool
unfolding set_max_future_offset
adjust_offset config none pool = pool
adjust_offset config (some offset) pool = set_max_future_offset config pool

unfoldable pub add_to_pool : Config → TaskProxy → TaskPool → TaskPool
unfolding tasks_at put adjust_offset
add_to_pool config t pool =
    let itasks = tasks_at pool t.point in
    let present : TaskPool = record pool { active_tasks = put pool.active_tasks t.point itasks } in
    let added : TaskPool = record pool {
      active_tasks = put pool.active_tasks t.point (itasks ++ t ∷ []);
      effects = pool.effects ++ create_data_store_elements t.name t.point ∷ [];
    } in
    if any (λ (u : TaskProxy). t.name == u.name) itasks
    then present
    else adjust_offset config t.max_future_prereq_offset added

-- A method on the proxy of the pool with a name and a point.
unfoldable pub at_key : String × ℤ → (TaskProxy → TaskProxy × List Effect) → TaskPool → TaskPool
unfolding for_each
at_key key f pool =
    for_each (λ (u : TaskProxy). if is_key key (u.name, u.point) then f u else (u, [])) pool

-- `add_to_pool` for a proxy that is made.
unfoldable pub add_spawned : Config → Option TaskProxy → TaskPool → TaskPool
unfolding add_to_pool
add_spawned config none pool = pool
add_spawned config (some ntask) pool = add_to_pool config ntask pool

-- `get_or_spawn_task`, by the proxy that the pool has, and `add_to_pool` for one that is new.
unfoldable pub get_or_spawn_task : Config → TaskProxy → ℤ → Option TaskProxy → TaskPool → TaskPool
unfolding at_key add_spawned
get_or_spawn_task config t point (some ntask) pool =
    at_key (t.name, point) (config.merge_flows t.flow_nums) pool
get_or_spawn_task config t point none pool =
    add_spawned config (config.spawn_task t.name point t.flow_nums pool) pool

unfoldable pub spawn_at : Config → TaskProxy → Option ℤ → TaskPool → TaskPool
unfolding get_task get_or_spawn_task
spawn_at config t none pool = pool
spawn_at config t (some point) pool =
    get_or_spawn_task config t point (get_task pool point t.name) pool

unfoldable pub spawn_next_parentless : Config → TaskProxy → TaskPool → TaskPool
unfolding spawn_at
spawn_next_parentless config t pool =
    if not (is_truthy t.flow_nums) || ltb_ℤ t.point config.start_point
    then pool
    else spawn_at config t (config.next_point_parentless t.name config.start_point t.point) pool

unfoldable pub spawn_from : Config → Option TaskProxy → TaskPool → TaskPool
unfolding spawn_next_parentless
spawn_from config none pool = pool
spawn_from config (some t) pool =
    if is_truthy t.flow_nums && not t.is_xtrigger_sequential
    then spawn_next_parentless config t pool
    else pool

-- The release of one task: the proxy is looked up again, since an earlier round may have changed it.
unfoldable pub release_task : Config → TaskPool → String × ℤ → TaskPool
unfolding reset_flags at_key get_task spawn_from
release_task config pool (name, point) =
    let reset_pool = at_key (name, point) (reset_flags config none (some false)) pool in
    spawn_from config (get_task reset_pool point name) reset_pool

unfoldable pub release_tasks : Config → TaskPool → List (String × ℤ) → TaskPool
unfolding release_task
release_tasks config pool [] = pool
release_tasks config pool (key ∷ keys) = release_tasks config (release_task config pool key) keys

-- The tasks that are held back and not after the limit.
unfoldable pub release_me : ℤ → TaskPool → List (String × ℤ)
unfolding get_tasks
release_me limit pool =
    map (λ (t : TaskProxy). (t.name, t.point))
      (filter (λ (t : TaskProxy). leb_ℤ t.point limit && t.state.is_runahead) (get_tasks pool))

-- The answer is whether a task was released. The tasks are chosen before the first of them is released.
unfoldable pub release_runahead_tasks : Config → TaskPool → TaskPool × Bool
unfolding release_me release_tasks
release_runahead_tasks config pool = elim pool.runahead_limit_point [
  | none ↦ (pool, false)
  | some limit ↦
      (release_tasks config pool (release_me limit pool), any (λ key. true) (release_me limit pool))
]
