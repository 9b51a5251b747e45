-- ===== src/TaskPool/Found.antt =====
-- What a loop over the pool, and a new limit, keep of the tasks that are found in it.
use cylc_flow.Prelude.{
  ◌≡◌, refl, sym, subst, inl, inr, String, Bool, true, not, ◌&&◌, Option, none, some, List, [], ◌∷◌,
  ◌++◌, ◌==◌, string_eq, nat_eq, arith, Bool-cases, Option-cases,
}
use cylc_flow.Prelude.Assoc.{Assoc, get}
use cylc_flow.Prelude.Int.{ℤ, int_eq}
use cylc_flow.TaskState.{task_status_eq}
use cylc_flow.TaskPool.{Config, TaskPool, TaskProxy, Effect, get_tasks}
use cylc_flow.TaskPool.Limit.{
  compute_from, compute_runahead, runahead_base_point, set_max_future_offset, max_offset,
  same_offset, is_up_to_date, or_else,
}
use cylc_flow.TaskPool.Operations.{each_of, each_active}
use cylc_flow.TaskPool.Release.{find_name, adjust_offset}

compute_runahead-active_tasks :
    (config : Config) (force : Bool) (pool : TaskPool)
    → (compute_runahead config force pool).0.active_tasks ≡ pool.active_tasks
unfolding compute_runahead compute_from
compute_runahead-active_tasks config force pool =
    elim (Option-cases (runahead_base_point config pool)) [
      | inl e ↦ rw (e, compute_runahead) refl
      | inr (base, e) ↦
          elim (Bool-cases
            (not force && is_up_to_date pool base (or_else pool.prev_runahead_base_point base))) [
              | inl f ↦ rw (e, compute_runahead, f, compute_from) refl
              | inr f ↦ rw (e, compute_runahead, f, compute_from) refl
            ]
    ]

set_max_future_offset-active_tasks :
    (config : Config) (pool : TaskPool)
    → (set_max_future_offset config pool).active_tasks ≡ pool.active_tasks
unfolding set_max_future_offset
set_max_future_offset-active_tasks config pool =
    let pool' : TaskPool = record pool { max_future_offset = max_offset none (get_tasks pool) } in
    elim (Bool-cases (same_offset (max_offset none (get_tasks pool)) pool.max_future_offset)) [
      | inl e ↦ rw e refl
      | inr e ↦ rw e (compute_runahead-active_tasks config true pool')
    ]

pub adjust_offset-active_tasks :
    (config : Config) (o : Option ℤ) (pool : TaskPool)
    → (adjust_offset config o pool).active_tasks ≡ pool.active_tasks
unfolding adjust_offset
adjust_offset-active_tasks config none pool = refl
adjust_offset-active_tasks config (some o) pool = set_max_future_offset-active_tasks config pool

module _ (n : String) where
  -- The first task with the name has a property.
  unfoldable pub Finds : (TaskProxy → Type 0) → List TaskProxy → Type 0
  unfolding find_name
  Finds Q ts = (t : TaskProxy) × (find_name n ts ≡ some t) × Q t

  pub each_of-Finds :
      (Q R : TaskProxy → Type 0) (f : TaskProxy → TaskProxy × List Effect) (ts : List TaskProxy)
      → ((t : TaskProxy) → (f t).0.name ≡ t.name)
      → ((t : TaskProxy) → Q t → R (f t).0)
      → Finds Q ts
      → Finds R (each_of f ts).0
  unfolding Finds each_of find_name
  each_of-Finds Q R f [] names h (u, e, q) = absurd (ground arith)
  each_of-Finds Q R f (t ∷ ts) names h (u, e, q) = elim (Bool-cases (n == t.name)) [
    | inl here ↦
        let same : t ≡ u = ground arith in
        ((f t).0, rw (names t, here) refl, h t (subst Q (sym same) q))
    | inr there ↦
        let (v, e', r) = each_of-Finds Q R f ts names h (u, ground arith, q) in
        (v, rw (names t, there) e', r)
  ]

  pub Finds-append :
      (Q : TaskProxy → Type 0) (ts us : List TaskProxy) → Finds Q ts → Finds Q (ts ++ us)
  unfolding Finds find_name
  Finds-append Q [] us (u, e, q) = absurd (ground arith)
  Finds-append Q (t ∷ ts) us (u, e, q) = elim (Bool-cases (n == t.name)) [
    | inl here ↦ (t, rw here refl, let same : t ≡ u = ground arith in subst Q (sym same) q)
    | inr there ↦ let (v, e', r) = Finds-append Q ts us (u, ground arith, q) in (v, rw there e', r)
  ]

pub get-each_active :
    (f : TaskProxy → TaskProxy × List Effect) (d : Assoc ℤ (List TaskProxy)) (p : ℤ)
    (ts : List TaskProxy)
    → get d p ≡ some ts
    → get (each_active f d).0 p ≡ some (each_of f ts).0
unfolding get each_active
get-each_active f [] p ts h = absurd (ground arith)
get-each_active f ((q, us) ∷ d) p ts h = elim (Bool-cases (p == q)) [
  | inl here ↦ let same : us ≡ ts = ground arith in rw (here, same) refl
  | inr there ↦ rw there (get-each_active f d p ts (ground arith))
]
