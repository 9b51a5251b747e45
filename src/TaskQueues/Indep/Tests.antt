-- ===== src/TaskQueues/Indep/Tests.antt =====
-- Two queues: `big` with a limit of 2 and the default queue.
use cylc_flow.Prelude.{
  ℕ, ◌+◌, ◌≤◌, ◌≡◌, refl, ◌≢◌, String, Bool, true, false, ◌||◌, List, [], ◌∷◌, ◌++◌, any, filter,
  contains, length, ◌==◌, string_eq, nat_eq, String_discrete, ℕ_discrete, arith,
}
use cylc_flow.Prelude.Assoc.{get, put, has}
use cylc_flow.Prelude.Result.{ok}
use cylc_flow.TaskQueues.Limited.{
  TaskProxy, Counter, LimitedTaskQueue, init_queue, release, sum_active,
}
use cylc_flow.TaskQueues.Limited.Release.{is_free, held_of, release_split, release_limit}
use cylc_flow.TaskQueues.Indep.{
  QueueConfig, Configs, Queues, q_default, init, make_indep, release_tasks,
}
use cylc_flow.TaskQueues.Indep.Config.{in_queue}
use cylc_flow.TaskQueues.Indep.Owner.{AreQueues, make_indep_owner}
use cylc_flow.TaskQueues.Indep.Release.{AreIndependent, AreWithin, release_tasks-AreWithin}

abbrev task : ℕ → String → Bool → TaskProxy
task ident name is_held = record { ident = ident; name = name; is_held = is_held }

abbrev config : ℕ → List String → QueueConfig
config limit members = record { limit = limit; members = members }

abbrev idle : Counter
idle name = 0

abbrev qconfig : Configs
qconfig =
    (q_default, config 100 [])
    ∷ ("big", config 2 ("FAM" ∷ "c" ∷ []))
    ∷ ("late", config 1 ("c" ∷ []))
    ∷ []

-- The family is expanded, and `c` goes to the queue that names it last.
init_lem :
    init qconfig ("a" ∷ "b" ∷ "c" ∷ "d" ∷ []) (("FAM", "a" ∷ "b" ∷ []) ∷ [])
    ≡ ok (
        (q_default, init_queue 100 ("d" ∷ []))
        ∷ ("big", init_queue 2 ("a" ∷ "b" ∷ []))
        ∷ ("late", init_queue 1 ("c" ∷ []))
        ∷ [])
unfolding init get put has String_discrete
init_lem = refl

abbrev big : LimitedTaskQueue
big = record {
  limit = 2;
  members = "a" ∷ "b" ∷ [];
  deque = task 1 "a" false ∷ task 2 "b" true ∷ task 3 "b" false ∷ task 4 "a" false ∷ [];
}

abbrev others : LimitedTaskQueue
others = record { limit = 1; members = "d" ∷ []; deque = task 5 "d" false ∷ task 6 "d" false ∷ [] }

release-big : (release big idle).1 ≡ task 1 "a" false ∷ task 3 "b" false ∷ []
unfolding release String_discrete ℕ_discrete
release-big = refl

big_left : (release big idle).0.deque ≡ task 4 "a" false ∷ task 2 "b" true ∷ []
unfolding release String_discrete ℕ_discrete
big_left = refl

release_split_example :
    (popped : List TaskProxy) × (rest : List TaskProxy) × (big.deque ≡ popped ++ rest)
    × ((release big idle).1 ≡ filter is_free popped)
    × ((release big idle).0.deque ≡ rest ++ filter held_of popped)
    × ((release big idle).0.limit ≡ 2)
    × ((release big idle).0.members ≡ "a" ∷ "b" ∷ [])
release_split_example = release_split big idle

release_limit_example :
    (big.limit ≢ 0
      → sum_active idle big.members ≤ 2
      → sum_active idle big.members + length (release big idle).1 ≤ 2)
    × (any is_free (release big idle).0.deque ≡ true
        → (big.limit ≢ 0) × (2 ≤ sum_active idle big.members + length (release big idle).1))
release_limit_example = release_limit big idle

abbrev overlapping : Configs
overlapping = ("big", config 2 ("a" ∷ "c" ∷ [])) ∷ ("late", config 1 ("c" ∷ [])) ∷ []

overlapping-AreQueues : AreQueues overlapping
unfolding String_discrete
overlapping-AreQueues = ((refl, (refl, tt)), refl, ((refl, (refl, tt)), ((refl, tt), tt)))

abbrev all_names : QueueConfig
all_names = config 100 ("a" ∷ "b" ∷ "c" ∷ [])

make_indep_owner_example :
    (out : Configs) × (make_indep ((q_default, all_names) ∷ overlapping) ≡ ok out)
    × ((a : String)
        → contains all_names.members a ≡ true
        → (q : String) × (in_queue out q a ≡ true))
    × ((a q q' : String) → in_queue out q a ≡ true → in_queue out q' a ≡ true → q ≡ q')
make_indep_owner_example = make_indep_owner all_names overlapping overlapping-AreQueues

-- With the default queue last its members stay in both queues.
default_last :
    make_indep (("big", config 2 ("a" ∷ [])) ∷ (q_default, config 100 ("a" ∷ "b" ∷ [])) ∷ [])
    ≡ ok (("big", config 2 ("a" ∷ [])) ∷ (q_default, config 100 ("a" ∷ "b" ∷ [])) ∷ [])
unfolding make_indep get put String_discrete
default_last = refl

abbrev queues : Queues
queues = ("big", big) ∷ (q_default, others) ∷ []

a_b_not_d : ((◌==◌ {A = String} "a" "d") ≡ false) × ((◌==◌ {A = String} "b" "d") ≡ false)
unfolding String_discrete
a_b_not_d = (refl, refl)

apart : (a : String) → contains big.members a ≡ true → contains others.members a || false ≡ false
apart a h = ground (arith, a_b_not_d)

queues-AreIndependent : AreIndependent queues
unfolding String_discrete
queues-AreIndependent = (
  ((refl, (refl, (refl, (refl, tt)))), (refl, (refl, tt)), apart),
  (((refl, (refl, tt)), (refl, tt), λ a h. refl), tt),
)

release_tasks-AreWithin_example :
    AreWithin (release_tasks queues idle).2 (release_tasks queues idle).0
release_tasks-AreWithin_example =
    release_tasks-AreWithin queues idle queues-AreIndependent (omega arith)
