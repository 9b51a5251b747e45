-- ===== src/TaskQueues/Indep.antt =====
-- cylc/flow/task_queues/independent.py, `IndepQueueManager`, with `_expand_families` of
-- cylc/flow/task_queues/__init__.py. A dictionary is an association list in insertion order and a
-- set is a list; `discard` takes every copy of a name out of it.
pub mod Config
pub mod Owner
pub mod Release
mod Tests
use cylc_flow.Prelude.{
  ℕ, zero, suc, ◌+◌, ◌-◌, ◌*◌, ◌/◌, ◌%◌, ◌≤◌, ◌<◌, ◌≡◌, refl, sym, ◌∙◌, ap, subst, ◌≢◌, ◌↔◌, ◌⊎◌,
  inl, inr, String, Bool, true, false, not, ◌&&◌, ◌||◌, Option, none, some, List, [], ◌∷◌, ◌++◌,
  map, any, all, filter, contains, IsNodup, length, All, All-mono, All-append, contains-append,
  length-append, if◌then◌else◌, ◌==◌, Eq, is_yes, string_eq, nat_eq, String_discrete, ℕ_discrete,
  eq_refl, eq_of_==, ltb, leb, ltb→lt, leb→le, arith, Bool-cases, Option-cases, List-cases,
}
use cylc_flow.Prelude.Assoc.{
  Assoc, keys, get, put, has, get-put, has-put, has_of_get, get-none, get-some, All_get,
}
use cylc_flow.Prelude.Result.{Result, ok, err, ◌>>=◌, traverse, or_raise, >>=-eq-ok}
use cylc_flow.TaskQueues.Limited.{TaskProxy, Counter, LimitedTaskQueue, init_queue}
use cylc_flow.TaskQueues.Limited

pub data QueueError : Type 0 where
  key_error : QueueError

pub record QueueConfig : Type 0 where
  pub limit : ℕ
  pub members : List String

abbrev pub q_default : String
q_default = "default"

abbrev pub Configs : Type 0
Configs = Assoc String QueueConfig

-- A family name stands for its descendants that are tasks; other names that are no tasks are dropped.
abbrev pub add_name : List String → String → List String
add_name qmembers name = if contains qmembers name then qmembers else qmembers ++ name ∷ []

unfoldable pub add_family :
    Assoc String (List String) → List String → List String → List String → List String
add_family descendants all_task_names qmembers [] = qmembers
add_family descendants all_task_names qmembers (fmem ∷ fmems) =
    let is_task = not (has descendants fmem) && contains all_task_names fmem in
    add_family descendants all_task_names (if is_task then add_name qmembers fmem else qmembers)
      fmems

unfoldable pub expand_members :
    Assoc String (List String) → List String → List String → List String → List String
unfolding add_family
expand_members descendants all_task_names qmembers [] = qmembers
expand_members descendants all_task_names qmembers (mem ∷ mems) =
    let qmembers' : List String = elim (get descendants mem) [
      | some fmems ↦ add_family descendants all_task_names qmembers fmems
      | none ↦ if contains all_task_names mem then add_name qmembers mem else qmembers
    ] in
    expand_members descendants all_task_names qmembers' mems

unfoldable pub expand_families : Configs → List String → Assoc String (List String) → Configs
unfolding expand_members
expand_families [] all_task_names descendants = []
expand_families ((qname, queue) ∷ qconfig) all_task_names descendants =
    (qname, record queue { members = expand_members descendants all_task_names [] queue.members })
    ∷ expand_families qconfig all_task_names descendants

abbrev pub discard : List String → String → List String
discard xs a = filter (λ x. not (a == x)) xs

-- `queues[Q_DEFAULT]["members"].remove(qmem)` with `KeyError` suppressed.
unfoldable pub drop_default : Configs → String → Configs
drop_default queues qmem = elim (get queues q_default) [
  | none ↦ queues
  | some c ↦ put queues q_default (record c { members = discard c.members qmem })
]

-- `queues[oldq]["members"].remove(qmem)`
unfoldable pub remove_from : Configs → String → String → Result QueueError Configs
remove_from queues oldq qmem = elim (get queues oldq) [
  | none ↦ err key_error
  | some c ↦
      if contains c.members qmem
      then ok (put queues oldq (record c { members = discard c.members qmem }))
      else err key_error
]

-- `queues[qname]["members"].add(qmem)`
unfoldable pub add_to : Configs → String → String → Result QueueError Configs
add_to queues qname qmem = elim (get queues qname) [
  | none ↦ err key_error
  | some c ↦ ok (put queues qname (record c { members = add_name c.members qmem }))
]

pub record Assigned : Type 0 where
  pub queues : Configs
  pub seen : Assoc String String

-- The body of the inner loop of `_make_indep`.
unfoldable pub assign_member : String → Assigned → String → Result QueueError Assigned
assign_member qname s qmem = do
  let queues = drop_default s.queues qmem
  queues' ← elim (get s.seen qmem) [
    | some oldq ↦ remove_from queues oldq qmem
    | none ↦ add_to queues qname qmem
  ]
  ok (record { queues = queues'; seen = put s.seen qmem qname })

unfoldable pub assign_members : String → Assigned → List String → Result QueueError Assigned
unfolding assign_member
assign_members qname s [] = ok s
assign_members qname s (qmem ∷ qmems) = do
  s' ← assign_member qname s qmem
  assign_members qname s' qmems

-- The outer loop.
unfoldable pub make_indep_from : Assigned → Configs → Result QueueError Assigned
unfolding assign_members
make_indep_from s [] = ok s
make_indep_from s ((qname, qconfig) ∷ in_queues) = do
  let added = record s { queues = put s.queues qname qconfig }
  s' ← (if qname == q_default then ok added else assign_members qname added qconfig.members)
  make_indep_from s' in_queues

unfoldable pub make_indep : Configs → Result QueueError Configs
unfolding make_indep_from drop_default remove_from add_to
make_indep in_queues = do
  s ← make_indep_from (record { queues = []; seen = [] }) in_queues
  ok s.queues

abbrev pub Queues : Type 0
Queues = Assoc String LimitedTaskQueue

-- `self.queues[name] = LimitedTaskQueue(config["limit"], config["members"])` for every name.
abbrev pub build : Configs → Queues
build [] = []
build ((name, config) ∷ queues) = (name, init_queue config.limit config.members) ∷ build queues

-- `__init__`: the default queue's members are all task names.
unfoldable pub init : Configs → List String → Assoc String (List String) → Result QueueError Queues
unfolding make_indep expand_families init_queue
init qconfig all_task_names descendants = do
  d ← or_raise key_error (get qconfig q_default)
  queues ← make_indep (
      expand_families (put qconfig q_default (record d { members = all_task_names })) all_task_names
        descendants)
  ok (build queues)

unfoldable pub push_task : Queues → TaskProxy → Queues
unfolding Limited.push_task
push_task [] itask = []
push_task ((name, q) ∷ queues) itask = (name, Limited.push_task q itask) ∷ push_task queues itask

-- `any(...)` stops at the first queue that answers True.
unfoldable pub push_task_if_limited : Queues → TaskProxy → Counter → Queues × Bool
unfolding Limited.push_task_if_limited
push_task_if_limited [] itask active = ([], false)
push_task_if_limited ((name, q) ∷ queues) itask active =
    let (q', queued) = Limited.push_task_if_limited q itask active in
    let (queues', later) = push_task_if_limited queues itask active in
    if queued then ((name, q') ∷ queues, true) else ((name, q') ∷ queues', later)

-- The counter goes from queue to queue.
unfoldable pub release_tasks : Queues → Counter → Queues × List TaskProxy × Counter
unfolding Limited.release
release_tasks [] active = ([], [], active)
release_tasks ((name, q) ∷ queues) active =
    let (q', released, active') = Limited.release q active in
    let (queues', more, active'') = release_tasks queues active' in
    ((name, q') ∷ queues', released ++ more, active'')

unfoldable pub remove_task : Queues → TaskProxy → Queues × Bool
unfolding Limited.remove
remove_task [] itask = ([], false)
remove_task ((name, q) ∷ queues) itask =
    let (q', removed) = Limited.remove q itask in
    let (queues', later) = remove_task queues itask in
    if removed then ((name, q') ∷ queues, true) else ((name, q') ∷ queues', later)

unfoldable pub adopt_tasks : Queues → List String → Result QueueError Queues
unfolding Limited.adopt
adopt_tasks queues orphans = do
  q ← or_raise key_error (get queues q_default)
  ok (put queues q_default (Limited.adopt q orphans))
