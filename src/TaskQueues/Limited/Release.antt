-- ===== src/TaskQueues/Limited/Release.antt =====
-- What `LimitedTaskQueue.release` releases: which tasks, how many, and in which order.
use cylc_flow.Prelude.{
  ℕ, ◌+◌, ◌≤◌, ◌≡◌, refl, sym, ap, subst, ◌≢◌, inl, inr, String, Bool, true, false, not, ◌||◌, List,
  [], ◌∷◌, ◌++◌, any, filter, length, length-append, if◌then◌else◌, ◌==◌, string_eq, nat_eq, ltb,
  arith, Bool-cases,
}
use mathlib.Core.List.{append-nil, append_assoc}
use cylc_flow.TaskQueues.Limited.{
  TaskProxy, Counter, LimitedTaskQueue, sum_active, Loop, release_one, release_loop, release,
}

abbrev pub is_free : TaskProxy → Bool
is_free t = not t.is_held

abbrev pub held_of : TaskProxy → Bool
held_of t = t.is_held

-- How many of the tasks have the name.
abbrev pub count_named : String → List TaskProxy → ℕ
count_named name [] = 0
count_named name (t ∷ ts) = (if name == t.name then 1 else 0) + count_named name ts

pub count_named-append :
    (name : String) (xs ys : List TaskProxy)
    → count_named name (xs ++ ys) ≡ count_named name xs + count_named name ys
count_named-append name [] ys = omega arith
count_named-append name (x ∷ xs) ys = omega (arith, count_named-append name xs ys)

-- The tasks that the loop pops, `popped`, and those that it leaves.
record Split (s : Loop) (deque : List TaskProxy) (r : Loop × List TaskProxy) : Type 0 where
  popped : List TaskProxy
  parts : deque ≡ popped ++ r.1
  released : r.0.released ≡ s.released ++ filter is_free popped
  held : r.0.held ≡ s.held ++ filter held_of popped

module _ (limit : ℕ) where
  -- The count of active tasks keeps to the limit.
  release_loop-n_active :
      (s : Loop) (deque : List TaskProxy)
      → limit ≢ 0
      → s.n_active ≤ limit
      → (release_loop limit s deque).0.n_active ≤ limit
  unfolding release_loop
  release_loop-n_active s [] ne le = le
  release_loop-n_active s (t ∷ deque) ne le =
      ground (arith, release_loop-n_active (release_one s t) deque ne)

  -- It counts the released tasks.
  release_loop-length :
      (s : Loop) (deque : List TaskProxy)
      → (release_loop limit s deque).0.n_active + length s.released
        ≡ s.n_active + length (release_loop limit s deque).0.released
  unfolding release_loop
  release_loop-length s [] = refl
  release_loop-length s (t ∷ deque) =
      ground (arith, release_loop-length (release_one s t) deque, length-append s.released (t ∷ []))

  -- Tasks are left only at the limit.
  release_loop_full :
      (s : Loop) (deque : List TaskProxy)
      → (release_loop limit s deque).1 ≢ []
      → (limit ≢ 0) × (limit ≤ (release_loop limit s deque).0.n_active)
  unfolding release_loop
  release_loop_full s [] ne = absurd (ne refl)
  release_loop_full s (t ∷ deque) ne = ground (arith, release_loop_full (release_one s t) deque)

  release_loop-active :
      (s : Loop) (deque : List TaskProxy) (name : String)
      → (release_loop limit s deque).0.active name + count_named name s.released
        ≡ s.active name + count_named name (release_loop limit s deque).0.released
  unfolding release_loop
  release_loop-active s [] name = refl
  release_loop-active s (t ∷ deque) name = ground (
    arith,
    release_loop-active (release_one s t) deque name,
    count_named-append name s.released (t ∷ []),
  )

  module _ (s : Loop) (t : TaskProxy) (deque : List TaskProxy) where
    loop_stop :
        (limit == 0 || ltb s.n_active limit) ≡ false
        → release_loop limit s (t ∷ deque) ≡ (s, t ∷ deque)
    unfolding release_loop
    loop_stop e = rw e

    loop_go :
        (limit == 0 || ltb s.n_active limit) ≡ true
        → release_loop limit s (t ∷ deque) ≡ release_loop limit (release_one s t) deque
    unfolding release_loop
    loop_go e = rw e

    Split-cons :
        (r : Loop × List TaskProxy) → Split (release_one s t) deque r → Split s (t ∷ deque) r
    Split-cons r p = record {
      popped = t ∷ p.popped;
      parts = cc (p.parts);
      released =
          ground (arith, p.released, append_assoc s.released (t ∷ []) (filter is_free p.popped));
      held = ground (arith, p.held, append_assoc s.held (t ∷ []) (filter held_of p.popped));
    }

  release_loop-Split :
      (s : Loop) (deque : List TaskProxy) → Split s deque (release_loop limit s deque)
  unfolding release_loop
  release_loop-Split s [] = record {
    popped = [];
    parts = refl;
    released = sym (append-nil s.released);
    held = sym (append-nil s.held);
  }
  release_loop-Split s (t ∷ deque) = elim (Bool-cases (limit == 0 || ltb s.n_active limit)) [
    | inl go ↦
        subst (Split s (t ∷ deque)) (sym (loop_go s t deque go))
          (Split-cons s t deque _ (release_loop-Split (release_one s t) deque))
    | inr stop ↦ subst (Split s (t ∷ deque)) (sym (loop_stop s t deque stop)) (record {
      popped = [];
      parts = refl;
      released = sym (append-nil s.released);
      held = sym (append-nil s.held);
    })
  ]

any_free-held : (ts : List TaskProxy) → any is_free (filter held_of ts) ≡ false
any_free-held [] = refl
any_free-held (t ∷ ts) = ground (arith, any_free-held ts)

no_free_held :
    (limit : ℕ) (s : Loop) (deque : List TaskProxy)
    → s.held ≡ []
    → any is_free (release_loop limit s deque).0.held ≡ false
no_free_held limit s deque e =
    let p = release_loop-Split limit s deque in
    cc (ap (λ l. any is_free l) p.held, any_free-held p.popped)

-- The tasks that `release` pops are a prefix of the queue. The released tasks are those of them that
-- are not held, in queue order; the held ones go, in queue order, behind the tasks that were not
-- popped. The limit and the members stay. So no task is lost or added.
pub release_split :
    (q : LimitedTaskQueue) (active : Counter)
    → let (q', released, active') = release q active in
      (popped : List TaskProxy) × (rest : List TaskProxy) × (q.deque ≡ popped ++ rest)
      × (released ≡ filter is_free popped)
      × (q'.deque ≡ rest ++ filter held_of popped)
      × (q'.limit ≡ q.limit)
      × (q'.members ≡ q.members)
unfolding release
release_split q active =
    let start : Loop = record {
      released = [];
      held = [];
      n_active = sum_active active q.members;
      active = active;
    } in
    let p = release_loop-Split q.limit start q.deque in
    (
      p.popped,
      (release_loop q.limit start q.deque).1,
      p.parts,
      p.released,
      ap (λ l. (release_loop q.limit start q.deque).1 ++ l) p.held,
      refl,
      refl,
    )

-- With a limit, `release` never takes the active tasks of the queue's members past it. A queue that
-- keeps a task that is not held has a limit, and has reached it.
pub release_limit :
    (q : LimitedTaskQueue) (active : Counter)
    → let (q', released, active') = release q active in
      let n_active = sum_active active q.members in
      (q.limit ≢ 0 → n_active ≤ q.limit → n_active + length released ≤ q.limit)
      × (any is_free q'.deque ≡ true → (q.limit ≢ 0) × (q.limit ≤ n_active + length released))
unfolding release
release_limit q active =
    let n = sum_active active q.members in
    let start : Loop = record { released = []; held = []; n_active = n; active = active } in
    let (r, rest) = release_loop q.limit start q.deque in
    let counted = release_loop-length q.limit start q.deque in
    (
      λ ne le. omega (arith, release_loop-n_active q.limit start q.deque ne le, counted),
      λ some_free.
          let full =
            release_loop_full q.limit start q.deque
              (λ nothing. cc (no_free_held q.limit start q.deque refl)) in
          (full.0, omega (arith, counted, full.1)),
    )

-- The counter that `release` updates has grown by the number of released tasks of each name.
pub release-active :
    (q : LimitedTaskQueue) (active : Counter) (name : String)
    → let (q', released, active') = release q active in
      active' name ≡ active name + count_named name released
unfolding release
release-active q active name =
    let start : Loop = record {
      released = [];
      held = [];
      n_active = sum_active active q.members;
      active = active;
    } in
    omega (arith, release_loop-active q.limit start q.deque name)
