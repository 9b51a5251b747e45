-- ===== src/TaskQueues/Limited.antt =====
-- cylc/flow/task_queues/independent.py, `LimitedTaskQueue`.
-- A task object is its identity with the fields that a queue reads. The deque is listed in the order
-- in which `pop` takes tasks, so `appendleft` adds at the end. A `Counter` is a function, 0 for a
-- name that it does not hold. `members` is a set, listed without repetitions.
pub mod Release
pub mod Members
use cylc_flow.Prelude.{
  ℕ, zero, suc, ◌+◌, ◌-◌, ◌*◌, ◌/◌, ◌%◌, ◌≤◌, ◌<◌, ◌≡◌, refl, sym, ◌∙◌, ap, subst, ◌≢◌, ◌↔◌, ◌⊎◌,
  inl, inr, String, Bool, true, false, not, ◌&&◌, ◌||◌, Option, none, some, List, [], ◌∷◌, ◌++◌,
  map, any, all, filter, contains, IsNodup, length, All, All-mono, All-append, contains-append,
  length-append, if◌then◌else◌, ◌==◌, Eq, is_yes, string_eq, nat_eq, String_discrete, ℕ_discrete,
  eq_refl, eq_of_==, ltb, leb, ltb→lt, leb→le, arith, Bool-cases, Option-cases, List-cases,
}
use cylc_flow.Prelude.Assoc.{
  Assoc, keys, get, put, has, get-put, has-put, has_of_get, get-none, get-some, All_get,
}
use cylc_flow.Prelude.Result.{Result, ok, err, ◌>>=◌, traverse, or_raise, >>=-eq-ok}

pub record TaskProxy : Type 0 where
  pub ident : ℕ
  pub name : String
  pub is_held : Bool

abbrev pub Counter : Type 0
Counter = String → ℕ

pub record LimitedTaskQueue : Type 0 where
  pub limit : ℕ
  pub members : List String
  pub deque : List TaskProxy

unfoldable pub init_queue : ℕ → List String → LimitedTaskQueue
init_queue limit members = record { limit = limit; members = members; deque = [] }

unfoldable pub push_task : LimitedTaskQueue → TaskProxy → LimitedTaskQueue
push_task q itask =
    if contains q.members itask.name then record q { deque = q.deque ++ itask ∷ [] } else q

-- `sum(active[mem] for mem in self.members)`
abbrev pub sum_active : Counter → List String → ℕ
sum_active active [] = 0
sum_active active (mem ∷ members) = active mem + sum_active active members

-- `self.limit and n_active >= self.limit`
abbrev pub is_limited : ℕ → ℕ → Bool
is_limited limit n_active = not (limit == 0) && leb limit n_active

unfoldable pub push_task_if_limited :
    LimitedTaskQueue → TaskProxy → Counter → LimitedTaskQueue × Bool
push_task_if_limited q itask active =
    if is_limited q.limit (sum_active active q.members) && contains q.members itask.name
    then (record q { deque = q.deque ++ itask ∷ [] }, true)
    else (q, false)

-- `active.update({name: 1})`
abbrev pub update_active : Counter → String → Counter
update_active active name j = if j == name then active j + 1 else active j

-- The variables of the loop of `release`.
pub record Loop : Type 0 where
  pub released : List TaskProxy
  pub held : List TaskProxy
  pub n_active : ℕ
  pub active : Counter

-- One turn of the loop, on the task that `pop` returns.
abbrev pub release_one : Loop → TaskProxy → Loop
release_one s itask = if itask.is_held then record s { held = s.held ++ itask ∷ [] } else record s {
  released = s.released ++ itask ∷ [];
  n_active = s.n_active + 1;
  active = update_active s.active itask.name;
}

-- The `while` loop: it ends at the limit, or with an empty deque.
unfoldable pub release_loop : ℕ → Loop → List TaskProxy → Loop × List TaskProxy
release_loop limit s [] = (s, [])
release_loop limit s (itask ∷ deque) =
    let next = release_loop limit (release_one s itask) deque in
    if limit == 0 || ltb s.n_active limit then next else (s, itask ∷ deque)

-- `release` returns the queue, the released tasks, and the counter that it updates in place.
unfoldable pub release : LimitedTaskQueue → Counter → LimitedTaskQueue × List TaskProxy × Counter
unfolding release_loop
release q active =
    let start : Loop = record {
      released = [];
      held = [];
      n_active = sum_active active q.members;
      active = active;
    } in
    let (s, rest) = release_loop q.limit start q.deque in
    (record q { deque = rest ++ s.held }, s.released, s.active)

-- `self.deque.remove(itask)`: tasks are compared by identity, and the leftmost one goes.
abbrev pub has_task : List TaskProxy → TaskProxy → Bool
has_task [] itask = false
has_task (t ∷ deque) itask = t.ident == itask.ident || has_task deque itask

abbrev pub remove_last : List TaskProxy → TaskProxy → List TaskProxy
remove_last [] itask = []
remove_last (t ∷ deque) itask =
    if t.ident == itask.ident && not (has_task deque itask)
    then deque
    else t ∷ remove_last deque itask

unfoldable pub remove : LimitedTaskQueue → TaskProxy → LimitedTaskQueue × Bool
remove q itask =
    if has_task q.deque itask
    then (record q { deque = remove_last q.deque itask }, true)
    else (q, false)

-- `self.members.update(orphans)`
abbrev pub union : List String → List String → List String
union members [] = members
union members (o ∷ orphans) =
    union (if contains members o then members else members ++ o ∷ []) orphans

unfoldable pub adopt : LimitedTaskQueue → List String → LimitedTaskQueue
adopt q orphans = record q { members = union q.members orphans }
