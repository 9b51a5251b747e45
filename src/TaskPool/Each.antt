-- ===== src/TaskPool/Each.antt =====
-- What holds of each task after a loop over the tasks of the pool.
use cylc_flow.Prelude.{List, [], ◌∷◌, All, All-append, string_eq, nat_eq}
use cylc_flow.Prelude.Assoc.{Assoc}
use cylc_flow.Prelude.Int.{ℤ, int_eq}
use cylc_flow.TaskPool.{TaskProxy, TaskPool, Effect, tasks_of, get_tasks}
use cylc_flow.TaskPool.Operations.{each_of, each_active, for_each}

abbrev pub Loop : Type 0
Loop = TaskProxy → TaskProxy × List Effect

each_of-All :
    (P : TaskProxy → Type 0) (f : Loop) (ts : List TaskProxy)
    → ((t : TaskProxy) → P (f t).0)
    → All P (each_of f ts).0
unfolding each_of
each_of-All P f [] h = tt
each_of-All P f (t ∷ ts) h = (h t, each_of-All P f ts h)

each_active-All :
    (P : TaskProxy → Type 0) (f : Loop) (d : Assoc ℤ (List TaskProxy))
    → ((t : TaskProxy) → P (f t).0)
    → All P (tasks_of (each_active f d).0)
unfolding each_active tasks_of
each_active-All P f [] h = tt
each_active-All P f ((point, ts) ∷ d) h =
    All-append P (each_of f ts).0 (tasks_of (each_active f d).0) (each_of-All P f ts h)
      (each_active-All P f d h)

pub for_each-All :
    (P : TaskProxy → Type 0) (f : Loop) (pool : TaskPool)
    → ((t : TaskProxy) → P (f t).0)
    → All P (get_tasks (for_each f pool))
unfolding for_each get_tasks
for_each-All P f pool h = each_active-All P f pool.active_tasks h
