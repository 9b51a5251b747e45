-- ===== src/TaskPool/Released.antt =====
-- The tasks that are not held back once those within the runahead limit are released.
use cylc_flow.Prelude.{
  ◌≡◌, refl, sym, ◌∙◌, ◌⊎◌, inl, inr, String, Bool, true, false, ◌&&◌, ◌||◌, none, some, List, [],
  ◌∷◌, ◌++◌, any, map, filter, ◌==◌, string_eq, nat_eq, eq_refl, arith, Bool-cases, Option-cases,
}
use cylc_flow.Prelude.Assoc.{Assoc, get}
use cylc_flow.Prelude.Int.{ℤ, leb_ℤ, int_eq}
use cylc_flow.TaskState.{task_status_eq}
use cylc_flow.TaskPool.{Config, TaskPool, TaskProxy, tasks_of, get_tasks}
use cylc_flow.TaskPool.Operations.{is_key}
use cylc_flow.TaskPool.Release.{tasks_at, find_name, get_task, release_me, release_runahead_tasks}
use cylc_flow.TaskPool.Found.{Finds}
use cylc_flow.TaskPool.Kept.{KeepsProxy, Has, Free, tasks_at-eq}
use cylc_flow.TaskPool.Rounds.{release_tasks-Free, release_tasks-listed}

-- The task is held back and not after the limit.
abbrev is_due : ℤ → TaskProxy → Bool
is_due limit t = leb_ℤ t.point limit && t.state.is_runahead

abbrev keys_of : ℤ → List TaskProxy → List (String × ℤ)
keys_of limit ts = map (λ (t : TaskProxy). (t.name, t.point)) (filter (is_due limit) ts)

any-keys_of :
    (limit : ℤ) (k : String × ℤ) (ts us : List TaskProxy)
    → any (is_key k) (keys_of limit (ts ++ us))
      ≡ (any (is_key k) (keys_of limit ts) || any (is_key k) (keys_of limit us))
any-keys_of limit k [] us = refl
any-keys_of limit k (t ∷ ts) us = elim (Bool-cases (is_due limit t)) [
  | inl e ↦ rw (e, any-keys_of limit k ts us) (ground arith)
  | inr e ↦ rw e (any-keys_of limit k ts us)
]

listed_at :
    (limit : ℤ) (t : TaskProxy) (ts : List TaskProxy)
    → is_due limit t ≡ true
    → find_name t.name ts ≡ some t
    → any (is_key (t.name, t.point)) (keys_of limit ts) ≡ true
unfolding find_name
listed_at limit t [] due h = absurd (ground arith)
listed_at limit t (u ∷ ts) due h = elim (Bool-cases (t.name == u.name)) [
  | inl here ↦
      let same : u ≡ t = ground arith in
      rw (same, due) (ground (arith, eq_refl t.name, eq_refl t.point))
  | inr there ↦
      let later : any (is_key (t.name, t.point)) (keys_of limit ts) ≡ true =
        listed_at limit t ts due (ground arith) in
      elim (Bool-cases (is_due limit u)) [
        | inl e ↦ rw (e, later) (ground arith)
        | inr e ↦ rw e later
      ]
]

listed_in :
    (limit : ℤ) (t : TaskProxy) (d : Assoc ℤ (List TaskProxy)) (q : ℤ) (ts : List TaskProxy)
    → is_due limit t ≡ true
    → get d q ≡ some ts
    → find_name t.name ts ≡ some t
    → any (is_key (t.name, t.point)) (keys_of limit (tasks_of d)) ≡ true
unfolding get tasks_of
listed_in limit t [] q ts due h e = absurd (ground arith)
listed_in limit t ((r, us) ∷ d) q ts due h e = elim (Bool-cases (q == r)) [
  | inl here ↦
      let same : us ≡ ts = ground arith in
      any-keys_of limit (t.name, t.point) us (tasks_of d)
      ∙ rw (same, listed_at limit t ts due e) refl
  | inr there ↦
      any-keys_of limit (t.name, t.point) us (tasks_of d)
      ∙ rw (listed_in limit t d q ts due (ground arith) e) (ground arith)
]

found_at :
    (pool : TaskPool) (t : TaskProxy)
    → get_task pool t.point t.name ≡ some t
    → (ts : List TaskProxy) × (get pool.active_tasks t.point ≡ some ts)
      × (find_name t.name ts ≡ some t)
unfolding get_task tasks_at find_name
found_at pool t h = elim (Option-cases (get pool.active_tasks t.point)) [
  | inl e ↦
      let none_there : none ≡ some t = sym (rw (e, get_task, tasks_at) refl) ∙ h in
      absurd (ground arith)
  | inr (ts, e) ↦ (ts, e, sym (rw (e, get_task, tasks_at) refl) ∙ h)
]

-- The pool has a task with the name and the point, which is not held back.
unfoldable pub HasReleased : String → ℤ → TaskPool → Type 0
unfolding get_task
HasReleased name point pool =
    (t : TaskProxy) × (get_task pool point name ≡ some t)
    × (t.name ≡ name)
    × (t.point ≡ point)
    × (t.state.is_runahead ≡ false)

Has-HasReleased :
    (name : String) (point : ℤ) (pool : TaskPool)
    → Has name point (Free name point) pool
    → HasReleased name point pool
unfolding HasReleased Has Finds tasks_at
Has-HasReleased name point pool (ts, e, (t, f, ((a, b), free))) =
    (t, rw (tasks_at-eq name point pool point ts e, get_task) f, a, b, free)

-- When the merge of flow numbers keeps a proxy's name and point and whether the limit holds it back, each task that
-- the pool has at its own point, and that is not after the runahead limit or was not held back by it, is in the
-- pool after the release, under its name and point, and not held back.
pub release_runahead_tasks-HasReleased :
    (config : Config) (pool : TaskPool) (limit : ℤ) (t : TaskProxy)
    → KeepsProxy config
    → pool.runahead_limit_point ≡ some limit
    → get_task pool t.point t.name ≡ some t
    → (leb_ℤ t.point limit ≡ true) ⊎ (t.state.is_runahead ≡ false)
    → HasReleased t.name t.point (release_runahead_tasks config pool).0
unfolding release_runahead_tasks release_me Has Finds get_tasks
release_runahead_tasks-HasReleased config pool limit t proxy h found due =
    let (ts, e, f) = found_at pool t found in
    rw (h, release_runahead_tasks)
      (Has-HasReleased t.name t.point _ (elim (Bool-cases t.state.is_runahead) [
        | inl held ↦
            let now : is_due limit t ≡ true = elim due [
              | inl before ↦ rw (before, held) refl
              | inr free ↦ absurd (ground arith)
            ] in
            release_tasks-listed t.name t.point config pool (release_me limit pool) proxy
              (listed_in limit t pool.active_tasks t.point ts now e f) (ts, e, (t, f, (refl, refl)))
        | inr free ↦
            release_tasks-Free t.name t.point config pool (release_me limit pool) proxy
              (ts, e, (t, f, ((refl, refl), free)))
      ]))
