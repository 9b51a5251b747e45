-- ===== src/TaskQueues/Limited/Members.antt =====
-- A queue holds tasks of its members only, and releases no others.
use cylc_flow.Prelude.{
  ℕ, ◌≡◌, sym, subst, inl, inr, String, Bool, true, not, ◌&&◌, List, [], ◌∷◌, ◌++◌, filter,
  contains, All, All-mono, All-append, contains-append, if◌then◌else◌, ◌==◌, string_eq, nat_eq,
  arith, Bool-cases,
}
use cylc_flow.TaskQueues.Limited.{
  TaskProxy, Counter, LimitedTaskQueue, init_queue, push_task, push_task_if_limited, sum_active,
  is_limited, release, has_task, remove_last, remove, union, adopt,
}
use cylc_flow.TaskQueues.Limited.Release.{is_free, held_of, release_split}

abbrev pub IsMember : List String → TaskProxy → Type 0
IsMember members t = contains members t.name ≡ true

-- Each queued task is of a member.
abbrev pub IsOwned : LimitedTaskQueue → Type 0
IsOwned q = All (IsMember q.members) q.deque

pub All-filter :
    (P : TaskProxy → Type 0) (p : TaskProxy → Bool) (ts : List TaskProxy)
    → All P ts
    → All P (filter p ts)
All-filter P p [] h = tt
All-filter P p (t ∷ ts) h = elim (Bool-cases (p t)) [
  | inl e ↦ rw e (h.0, All-filter P p ts h.1)
  | inr e ↦ rw e (All-filter P p ts h.1)
]

All-left : (P : TaskProxy → Type 0) (xs ys : List TaskProxy) → All P (xs ++ ys) → All P xs
All-left P [] ys h = tt
All-left P (x ∷ xs) ys h = (h.0, All-left P xs ys h.1)

All-right : (P : TaskProxy → Type 0) (xs ys : List TaskProxy) → All P (xs ++ ys) → All P ys
All-right P [] ys h = h
All-right P (x ∷ xs) ys h = All-right P xs ys h.1

All-remove_last :
    (P : TaskProxy → Type 0) (ts : List TaskProxy) (itask : TaskProxy)
    → All P ts
    → All P (remove_last ts itask)
All-remove_last P [] itask h = tt
All-remove_last P (t ∷ ts) itask h =
    elim (Bool-cases (t.ident == itask.ident && not (has_task ts itask))) [
      | inl e ↦ rw e h.1
      | inr e ↦ rw e (h.0, All-remove_last P ts itask h.1)
    ]

contains-union :
    (members orphans : List String) (a : String)
    → contains members a ≡ true
    → contains (union members orphans) a ≡ true
contains-union members [] a h = h
contains-union members (o ∷ orphans) a h =
    contains-union (if contains members o then members else members ++ o ∷ []) orphans a
      (ground (arith, contains-append members (o ∷ []) a))

push_task-IsOwned :
    (q : LimitedTaskQueue) (itask : TaskProxy) → IsOwned q → IsOwned (push_task q itask)
unfolding push_task
push_task-IsOwned q itask h = elim (Bool-cases (contains q.members itask.name)) [
  | inl e ↦ rw e (All-append (IsMember q.members) q.deque (itask ∷ []) h (e, tt))
  | inr e ↦ rw e h
]

push_task_if_limited-IsOwned :
    (q : LimitedTaskQueue) (itask : TaskProxy) (active : Counter)
    → IsOwned q
    → IsOwned (push_task_if_limited q itask active).0
unfolding push_task_if_limited
push_task_if_limited-IsOwned q itask active h =
    elim (Bool-cases
      (is_limited q.limit (sum_active active q.members) && contains q.members itask.name)) [
        | inl e ↦ rw e (All-append (IsMember q.members) q.deque (itask ∷ []) h (ground arith, tt))
        | inr e ↦ rw e h
      ]

release-IsOwned :
    (q : LimitedTaskQueue) (active : Counter) → IsOwned q → IsOwned (release q active).0
release-IsOwned q active h =
    let (popped, rest, parts, released, deque, limit, members) = release_split q active in
    let all = subst (All (IsMember q.members)) parts h in
    subst (λ ms. All (IsMember ms) (release q active).0.deque) (sym members)
      (subst (All (IsMember q.members)) (sym deque) (
        All-append (IsMember q.members) rest (filter held_of popped)
          (All-right (IsMember q.members) popped rest all)
          (All-filter (IsMember q.members) held_of popped
            (All-left (IsMember q.members) popped rest all))))

pub released-IsMember :
    (q : LimitedTaskQueue) (active : Counter)
    → IsOwned q
    → All (IsMember q.members) (release q active).1
released-IsMember q active h =
    let (popped, rest, parts, released, deque, limit, members) = release_split q active in
    subst (All (IsMember q.members)) (sym released) (
      All-filter (IsMember q.members) is_free popped
        (All-left (IsMember q.members) popped rest (subst (All (IsMember q.members)) parts h)))

remove-IsOwned : (q : LimitedTaskQueue) (itask : TaskProxy) → IsOwned q → IsOwned (remove q itask).0
unfolding remove
remove-IsOwned q itask h = elim (Bool-cases (has_task q.deque itask)) [
  | inl e ↦ rw e (All-remove_last (IsMember q.members) q.deque itask h)
  | inr e ↦ rw e h
]

adopt-IsOwned :
    (q : LimitedTaskQueue) (orphans : List String) → IsOwned q → IsOwned (adopt q orphans)
unfolding adopt
adopt-IsOwned q orphans h =
    All-mono (IsMember q.members) (IsMember (union q.members orphans)) q.deque
      (λ t m. contains-union q.members orphans t.name m) h

-- The operations on a queue.
pub data Step : LimitedTaskQueue → LimitedTaskQueue → Type 0 where
  pushed : (q : LimitedTaskQueue) (itask : TaskProxy) → Step q (push_task q itask)
  limited :
      (q : LimitedTaskQueue) (itask : TaskProxy) (active : Counter)
      → Step q (push_task_if_limited q itask active).0
  released : (q : LimitedTaskQueue) (active : Counter) → Step q (release q active).0
  removed : (q : LimitedTaskQueue) (itask : TaskProxy) → Step q (remove q itask).0
  adopted : (q : LimitedTaskQueue) (orphans : List String) → Step q (adopt q orphans)

pub data Reach (q : LimitedTaskQueue) : LimitedTaskQueue → Type 0 where
  here : Reach q q
  next : {r s : LimitedTaskQueue} → Reach q r → Step r s → Reach q s

Step-IsOwned : {q r : LimitedTaskQueue} → Step q r → IsOwned q → IsOwned r
Step-IsOwned (pushed q itask) h = push_task-IsOwned q itask h
Step-IsOwned (limited q itask active) h = push_task_if_limited-IsOwned q itask active h
Step-IsOwned (released q active) h = release-IsOwned q active h
Step-IsOwned (removed q itask) h = remove-IsOwned q itask h
Step-IsOwned (adopted q orphans) h = adopt-IsOwned q orphans h

init_queue-IsOwned : (limit : ℕ) (members : List String) → IsOwned (init_queue limit members)
unfolding init_queue
init_queue-IsOwned limit members = tt

Reach-keeps : {q r : LimitedTaskQueue} → Reach q r → IsOwned q → IsOwned r
Reach-keeps here h = h
Reach-keeps (next r st) h = Step-IsOwned st (Reach-keeps r h)

-- Whatever operations are applied to a new queue, the tasks that it holds are of its members.
Reach-IsOwned :
    (limit : ℕ) (members : List String) (q : LimitedTaskQueue)
    → Reach (init_queue limit members) q
    → IsOwned q
Reach-IsOwned limit members q r = Reach-keeps r (init_queue-IsOwned limit members)
