-- ===== src/TaskPool/Kept.antt =====
-- What is kept of a task of the pool when the next instances of other tasks are added.
use cylc_flow.Prelude.{
  ℕ, ◌≡◌, refl, sym, ◌∙◌, ap, subst, inl, inr, String, Bool, true, false, not, ◌&&◌, ◌||◌, Option,
  none, some, List, [], ◌∷◌, ◌++◌, any, if◌then◌else◌, ◌==◌, string_eq, nat_eq, eq_of_==,
  Bool-cases,
}
use cylc_flow.Prelude.Assoc.{Assoc, get, put, get-put}
use cylc_flow.Prelude.Int.{ℤ, ltb_ℤ, int_eq}
use cylc_flow.TaskState.{task_status_eq}
use cylc_flow.TaskPool.{Config, TaskPool, TaskProxy, Effect, create_data_store_elements}
use cylc_flow.TaskPool.Operations.{each_of, for_each, is_key, is_truthy}
use cylc_flow.TaskPool.Release.{
  tasks_at, get_task, adjust_offset, add_to_pool, at_key, add_spawned, get_or_spawn_task, spawn_at,
  spawn_next_parentless, spawn_from,
}
use cylc_flow.TaskPool.Found.{
  Finds, adjust_offset-active_tasks, each_of-Finds, Finds-append, get-each_active,
}

-- `merge_flows` keeps a proxy's name and point, and whether the runahead limit holds it back.
unfoldable pub KeepsProxy : Config → Type 0
KeepsProxy config =
    (flow_nums : List ℕ) (t : TaskProxy)
    → ((config.merge_flows flow_nums t).0.name ≡ t.name)
      × ((config.merge_flows flow_nums t).0.point ≡ t.point)
      × ((config.merge_flows flow_nums t).0.state.is_runahead ≡ t.state.is_runahead)

module _ (n : String) (p : ℤ) where
  unfoldable pub Has : (TaskProxy → Type 0) → TaskPool → Type 0
  unfolding Finds get
  Has Q pool = (ts : List TaskProxy) × (get pool.active_tasks p ≡ some ts) × Finds n Q ts

  abbrev pub Named : TaskProxy → Type 0
  Named t = (t.name ≡ n) × (t.point ≡ p)

  abbrev pub Free : TaskProxy → Type 0
  Free t = Named t × (t.state.is_runahead ≡ false)

  pub for_each-Has :
      (Q R : TaskProxy → Type 0) (f : TaskProxy → TaskProxy × List Effect) (pool : TaskPool)
      → ((t : TaskProxy) → (f t).0.name ≡ t.name)
      → ((t : TaskProxy) → Q t → R (f t).0)
      → Has Q pool
      → Has R (for_each f pool)
  unfolding Has for_each
  for_each-Has Q R f pool names h (ts, e, found) = (
    (each_of f ts).0,
    get-each_active f pool.active_tasks p ts e,
    each_of-Finds n Q R f ts names h found,
  )

  pub at_key-name :
      (key : String × ℤ) (f : TaskProxy → TaskProxy × List Effect)
      → ((t : TaskProxy) → (f t).0.name ≡ t.name)
      → (u : TaskProxy) → (if is_key key (u.name, u.point) then f u else (u, [])).0.name ≡ u.name
  at_key-name key f names u = elim (Bool-cases (is_key key (u.name, u.point))) [
    | inl e ↦ rw e (names u)
    | inr e ↦ rw e refl
  ]

  pub at_key-Has :
      (Q : TaskProxy → Type 0) (key : String × ℤ) (f : TaskProxy → TaskProxy × List Effect)
      (pool : TaskPool)
      → ((t : TaskProxy) → (f t).0.name ≡ t.name)
      → ((t : TaskProxy) → Q t → Q (f t).0)
      → Has Q pool
      → Has Q (at_key key f pool)
  unfolding at_key
  at_key-Has Q key f pool names h found =
      for_each-Has Q Q (λ (u : TaskProxy). if is_key key (u.name, u.point) then f u else (u, []))
        pool (at_key-name key f names)
        (λ t q. elim (Bool-cases (is_key key (t.name, t.point))) [
          | inl e ↦ rw e (h t q)
          | inr e ↦ rw e q
        ])
        found

  pub tasks_at-eq :
      (pool : TaskPool) (point : ℤ) (ts : List TaskProxy)
      → get pool.active_tasks point ≡ some ts
      → tasks_at pool point ≡ ts
  unfolding tasks_at
  tasks_at-eq pool point ts h = rw (h, tasks_at) refl

  -- The tasks of a point are replaced by others.
  put-Has :
      (Q : TaskProxy → Type 0) (pool : TaskPool) (point : ℤ) (us : List TaskProxy)
      → (Finds n Q (tasks_at pool point) → Finds n Q us)
      → Has Q pool
      → (ts : List TaskProxy) × (get (put pool.active_tasks point us) p ≡ some ts) × Finds n Q ts
  unfolding Has
  put-Has Q pool point us more (ts, e, found) = elim (Bool-cases (p == point)) [
    | inl here ↦
        let old : tasks_at pool point ≡ ts =
          tasks_at-eq pool point ts
            (ap (get pool.active_tasks) (sym (eq_of_== p point here)) ∙ e) in
        (
          us,
          get-put pool.active_tasks point p us ∙ rw here refl,
          more (subst (Finds n Q) (sym old) found),
        )
    | inr there ↦ (ts, get-put pool.active_tasks point p us ∙ rw there e, found)
  ]

  Has-eq :
      (Q : TaskProxy → Type 0) (a b : TaskPool)
      → a.active_tasks ≡ b.active_tasks
      → Has Q b
      → Has Q a
  unfolding Has
  Has-eq Q a b same (ts, e, found) =
      (ts, ap (λ (d : Assoc ℤ (List TaskProxy)). get d p) same ∙ e, found)

  add_to_pool-Has :
      (Q : TaskProxy → Type 0) (config : Config) (t : TaskProxy) (pool : TaskPool)
      → Has Q pool
      → Has Q (add_to_pool config t pool)
  unfolding Has add_to_pool
  add_to_pool-Has Q config t pool found =
      let added : TaskPool = record pool {
        active_tasks = put pool.active_tasks t.point (tasks_at pool t.point ++ t ∷ []);
        effects = pool.effects ++ create_data_store_elements t.name t.point ∷ [];
      } in
      elim (Bool-cases (any (λ (u : TaskProxy). t.name == u.name) (tasks_at pool t.point))) [
        | inl e ↦ rw e (put-Has Q pool t.point (tasks_at pool t.point) (λ k. k) found)
        | inr e ↦ rw e (
            Has-eq Q (adjust_offset config t.max_future_prereq_offset added) added
              (adjust_offset-active_tasks config t.max_future_prereq_offset added)
              (put-Has Q pool t.point (tasks_at pool t.point ++ t ∷ [])
                (Finds-append n Q (tasks_at pool t.point) (t ∷ [])) found))
      ]

  add_spawned-Has :
      (Q : TaskProxy → Type 0) (config : Config) (spawned : Option TaskProxy) (pool : TaskPool)
      → Has Q pool
      → Has Q (add_spawned config spawned pool)
  unfolding add_spawned
  add_spawned-Has Q config none pool found = found
  add_spawned-Has Q config (some ntask) pool found = add_to_pool-Has Q config ntask pool found

  -- A property that the merge of flows keeps.
  abbrev pub IsKept : Config → (TaskProxy → Type 0) → Type 0
  IsKept config Q =
      (flow_nums : List ℕ) (t : TaskProxy) → Q t → Q (config.merge_flows flow_nums t).0

  spawn_at-Has :
      (Q : TaskProxy → Type 0) (config : Config) (t : TaskProxy) (next : Option ℤ) (pool : TaskPool)
      → KeepsProxy config
      → IsKept config Q
      → Has Q pool
      → Has Q (spawn_at config t next pool)
  unfolding spawn_at get_or_spawn_task KeepsProxy
  spawn_at-Has Q config t none pool proxy kept found = found
  spawn_at-Has Q config t (some point) pool proxy kept found = go (get_task pool point t.name)
    where
      go : (known : Option TaskProxy) → Has Q (get_or_spawn_task config t point known pool)
      go (some ntask) =
          at_key-Has Q (t.name, point) (config.merge_flows t.flow_nums) pool
            (λ u. (proxy t.flow_nums u).0) (kept t.flow_nums) found
      go none =
          add_spawned-Has Q config (config.spawn_task t.name point t.flow_nums pool) pool found

  if-Has :
      (Q : TaskProxy → Type 0) (b : Bool) (x y : TaskPool)
      → Has Q x
      → Has Q y
      → Has Q (if b then x else y)
  if-Has Q true x y h k = h
  if-Has Q false x y h k = k

  pub spawn_from-Has :
      (Q : TaskProxy → Type 0) (config : Config) (current : Option TaskProxy) (pool : TaskPool)
      → KeepsProxy config
      → IsKept config Q
      → Has Q pool
      → Has Q (spawn_from config current pool)
  unfolding spawn_from spawn_next_parentless
  spawn_from-Has Q config none pool proxy kept found = found
  spawn_from-Has Q config (some t) pool proxy kept found =
      if-Has Q (is_truthy t.flow_nums && not t.is_xtrigger_sequential) _ _
        (if-Has Q (not (is_truthy t.flow_nums) || ltb_ℤ t.point config.start_point) _ _ found (
          spawn_at-Has Q config t (config.next_point_parentless t.name config.start_point t.point)
            pool proxy kept found))
        found
