-- ===== src/TaskQueues/Indep/Release.antt =====
-- `IndepQueueManager.release_tasks` keeps every queue within its limit, though the queues share one
-- counter of active tasks.
use cylc_flow.Prelude.{
  ◌+◌, ◌≤◌, ◌≡◌, refl, ◌∙◌, ap, ◌≢◌, String, Bool, true, false, ◌||◌, List, [], ◌∷◌, contains,
  IsNodup, length, All, All-mono, All-append, if◌then◌else◌, ◌==◌, string_eq, nat_eq, arith,
}
use cylc_flow.TaskQueues.Limited.{TaskProxy, Counter, LimitedTaskQueue, sum_active, release}
use cylc_flow.TaskQueues.Limited.Release.{
  count_named, count_named-append, release_split, release_limit, release-active,
}
use cylc_flow.TaskQueues.Limited.Members.{IsMember, IsOwned, released-IsMember}
use cylc_flow.TaskQueues.Indep.{Queues, release_tasks}

-- The queues hold tasks of their members only, and no name is a member of two queues.
abbrev pub member_of_any : Queues → String → Bool
member_of_any [] a = false
member_of_any ((name, q) ∷ queues) a = contains q.members a || member_of_any queues a

abbrev pub AreIndependent : Queues → Type 0
AreIndependent [] = Unit
AreIndependent ((name, q) ∷ queues) =
    (IsOwned q
      × IsNodup q.members
      × ((a : String) → contains q.members a ≡ true → member_of_any queues a ≡ false))
    × AreIndependent queues

-- A limited queue has at most its limit of active members.
abbrev pub IsWithin : Counter → LimitedTaskQueue → Type 0
IsWithin active q = q.limit ≢ 0 → sum_active active q.members ≤ q.limit

abbrev pub AreWithin : Counter → Queues → Type 0
AreWithin active [] = Unit
AreWithin active ((name, q) ∷ queues) = IsWithin active q × AreWithin active queues

one_named :
    (members : List String) (a : String)
    → contains members a ≡ false
    → sum_active (λ n. if n == a then 1 else 0) members ≡ 0
one_named [] a h = refl
one_named (m ∷ members) a h = ground (arith, one_named members a)

sum_named :
    (members : List String) (a : String)
    → IsNodup members
    → contains members a ≡ true
    → sum_active (λ n. if n == a then 1 else 0) members ≡ 1
sum_named [] a d h = absurd (cc)
sum_named (m ∷ members) a d h = elim (string_eq.dec a m) [
  | yes p ↦ ground (arith, one_named members a (ground arith))
  | no n ↦ ground (arith, sum_named members a d.1)
]

sum_active-add :
    (f g h : Counter) (members : List String)
    → ((a : String) → f a ≡ g a + h a)
    → sum_active f members ≡ sum_active g members + sum_active h members
sum_active-add f g h [] e = refl
sum_active-add f g h (m ∷ members) e = omega (arith, e m, sum_active-add f g h members e)

sum_active-zero : (members : List String) → sum_active (λ a. 0) members ≡ 0
sum_active-zero [] = refl
sum_active-zero (m ∷ members) = omega (arith, sum_active-zero members)

-- The tasks of a queue's members count once each.
sum_count_own :
    (members : List String) (ts : List TaskProxy)
    → IsNodup members
    → All (IsMember members) ts
    → sum_active (λ a. count_named a ts) members ≡ length ts
sum_count_own members [] d h = sum_active-zero members
sum_count_own members (t ∷ ts) d h = omega (
  arith,
  sum_active-add (λ a. count_named a (t ∷ ts)) (λ a. if a == t.name then 1 else 0)
      (λ a. count_named a ts) members (λ a. refl),
  sum_named members t.name d h.0,
  sum_count_own members ts d h.1,
)

-- Those of others do not count.
sum_count_other :
    (members : List String) (ts : List TaskProxy)
    → All (λ t. contains members t.name ≡ false) ts
    → sum_active (λ a. count_named a ts) members ≡ 0
sum_count_other members [] h = sum_active-zero members
sum_count_other members (t ∷ ts) h = omega (
  arith,
  sum_active-add (λ a. count_named a (t ∷ ts)) (λ a. if a == t.name then 1 else 0)
      (λ a. count_named a ts) members (λ a. refl),
  one_named members t.name h.0,
  sum_count_other members ts h.1,
)

release_tasks-active :
    (queues : Queues) (active : Counter) (a : String)
    → (release_tasks queues active).2 a ≡ active a + count_named a (release_tasks queues active).1
unfolding release_tasks
release_tasks-active [] active a = omega arith
release_tasks-active ((name, q) ∷ queues) active a = omega (
  arith,
  release-active q active a,
  release_tasks-active queues (release q active).2 a,
  count_named-append a (release q active).1 (release_tasks queues (release q active).2).1,
)

release_tasks-member :
    (queues : Queues) (active : Counter)
    → AreIndependent queues
    → All (λ t. member_of_any queues t.name ≡ true) (release_tasks queues active).1
unfolding release_tasks
release_tasks-member [] active h = tt
release_tasks-member ((name, q) ∷ queues) active h =
    All-append (λ t. member_of_any ((name, q) ∷ queues) t.name ≡ true) (release q active).1
      (release_tasks queues (release q active).2).1
      (All-mono (IsMember q.members) _ (release q active).1 (λ t e. ground arith)
        (released-IsMember q active h.0.0))
      (All-mono (λ t. member_of_any queues t.name ≡ true) _
        (release_tasks queues (release q active).2).1 (λ t e. ground arith)
        (release_tasks-member queues (release q active).2 h.1))

-- Releases of other queues' tasks leave the active members of these queues as they are.
AreWithin-others :
    (queues : Queues) (active active' : Counter) (ts : List TaskProxy)
    → ((a : String) → active' a ≡ active a + count_named a ts)
    → All (λ t. member_of_any queues t.name ≡ false) ts
    → AreWithin active queues
    → AreWithin active' queues
AreWithin-others [] active active' ts e h w = tt
AreWithin-others ((name, q) ∷ queues) active active' ts e h w = (
  λ ne. omega (
    arith,
    w.0 ne,
    sum_active-add active' active (λ a. count_named a ts) q.members e,
    sum_count_other q.members ts (
        All-mono (λ t. member_of_any ((name, q) ∷ queues) t.name ≡ false) _ ts (λ t p. ground arith)
          h),
  ),
  AreWithin-others queues active active' ts e
      (All-mono (λ t. member_of_any ((name, q) ∷ queues) t.name ≡ false) _ ts (λ t p. ground arith)
        h)
      w.1,
)

module _ (q : LimitedTaskQueue) (active : Counter) (owned : IsOwned q)
    (set : IsNodup q.members) where
  release-sum :
      sum_active (release q active).2 q.members
      ≡ sum_active active q.members + length (release q active).1
  release-sum = omega (
    arith,
    sum_active-add (release q active).2 active (λ a. count_named a (release q active).1) q.members
        (release-active q active),
    sum_count_own q.members (release q active).1 set (released-IsMember q active owned),
  )

  release-IsWithin :
      (final : Counter)
      → IsWithin active q
      → sum_active final q.members ≡ sum_active (release q active).2 q.members
      → IsWithin final (release q active).0
  release-IsWithin final w e ne =
      let (popped, rest, parts, released, deque, limit, members) = release_split q active in
      let old : q.limit ≢ 0 = λ z. ne (limit ∙ z) in
      omega (
        arith,
        release-sum,
        limit,
        ap (λ ms. sum_active final ms) members,
        (release_limit q active).0 old (w old),
      )

-- If every limited queue of independent queues has at most its limit of active members, then so it
-- has after all queues have released tasks, with the counter that they shared.
pub release_tasks-AreWithin :
    (queues : Queues) (active : Counter)
    → AreIndependent queues
    → AreWithin active queues
    → AreWithin (release_tasks queues active).2 (release_tasks queues active).0
unfolding release_tasks
release_tasks-AreWithin [] active h w = tt
release_tasks-AreWithin ((name, q) ∷ queues) active h w =
    let active' = (release q active).2 in
    let more = (release_tasks queues active').1 in
    let others =
      All-mono (λ t. member_of_any queues t.name ≡ true) (λ t. contains q.members t.name ≡ false)
        more (λ t p. ground (arith, h.0.2 t.name)) (release_tasks-member queues active' h.1) in
    let mine =
      All-mono (IsMember q.members) (λ t. member_of_any queues t.name ≡ false) (release q active).1
        (λ t p. h.0.2 t.name p) (released-IsMember q active h.0.0) in
    (
      release-IsWithin q active h.0.0 h.0.1 (release_tasks queues active').2 w.0 (
          omega (
            arith,
            sum_count_other q.members more others,
            sum_active-add (release_tasks queues active').2 active' (λ a. count_named a more)
                q.members (release_tasks-active queues active'),
          )),
      release_tasks-AreWithin queues active' h.1 (
          AreWithin-others queues active active' (release q active).1 (release-active q active) mine
            w.1),
    )
