-- ===== src/TaskState.antt =====
-- cylc/flow/task_state.py: the status of a task proxy, its flags, and its prerequisites and triggers.
-- The constructor takes the prerequisites and the labels of the triggers that the task's definition
-- gives at the point. The outputs (TaskOutputs) and the text forms are left out.
pub mod Reset
pub mod Order
pub mod Ready
mod Tests
use cylc_flow.Prelude.{
  ℕ, zero, suc, ◌+◌, ◌-◌, ◌*◌, ◌/◌, ◌%◌, ◌≤◌, ◌<◌, ◌≡◌, refl, sym, ◌∙◌, ap, subst, ◌≢◌, ◌↔◌, ◌⊎◌,
  inl, inr, String, Bool, true, false, not, ◌&&◌, ◌||◌, Option, none, some, List, [], ◌∷◌, ◌++◌,
  map, any, all, filter, contains, IsNodup, length, All, All-mono, All-append, contains-append,
  length-append, if◌then◌else◌, ◌==◌, Eq, is_yes, string_eq, nat_eq, String_discrete, ℕ_discrete,
  eq_refl, eq_of_==, ltb, leb, ltb→lt, leb→le, arith, Bool-cases, Option-cases, List-cases,
}
use cylc_flow.Prelude.Assoc.{
  Assoc, keys, get, put, has, get-put, has-put, has_of_get, get-none, get-some, All_get,
}
use cylc_flow.Prelude.Result.{Result, ok, err, ◌>>=◌, traverse, or_raise, >>=-eq-ok}
use cylc_flow.Prelude.Int.{
  ℤ, pos, negsuc, pos_part, neg_part, sub_ℕ, ◌+ℤ◌, ◌-ℤ◌, ◌*ℤ◌, ◌≤ℤ◌, ◌<ℤ◌, ltb_ℤ, leb_ℤ, emod,
  ℤ_discrete, int_eq, +ℤ_parts, -ℤ_parts, eq_of_parts, int_laws, emod-add, emod-lt,
}
use cylc_flow.Prerequisite.{
  PrereqTuple, SatisfiedState, truthy, PrereqError, key_error, Satisfied, Prerequisite,
  is_satisfied, set_satisfied,
}

pub data TaskStatus : Type 0 where
  waiting expired preparing submit_failed : TaskStatus
  submitted running failed succeeded : TaskStatus

unfoldable pub TaskStatus_discrete : Discrete TaskStatus
TaskStatus_discrete = hlevel

instance abbrev pub task_status_eq : Eq TaskStatus
task_status_eq = record { dec = TaskStatus_discrete }

-- `TASK_STATUSES_ORDERED`
abbrev pub task_statuses_ordered : List TaskStatus
task_statuses_ordered =
    waiting ∷ expired ∷ preparing ∷ submit_failed ∷ submitted ∷ running ∷ failed ∷ succeeded ∷ []

-- `list.index`; every status is in the list.
abbrev pub index : List TaskStatus → TaskStatus → ℕ
index [] s = 0
index (x ∷ xs) s = let later = index xs s in if x == s then 0 else suc later

abbrev pub rank : TaskStatus → ℕ
rank s = index task_statuses_ordered s

unfoldable pub status_leq : TaskStatus → TaskStatus → Bool
status_leq a b = leb (rank a) (rank b)

unfoldable pub status_geq : TaskStatus → TaskStatus → Bool
status_geq a b = leb (rank b) (rank a)

pub record TaskState : Type 0 where
  pub status : TaskStatus
  pub is_held : Bool
  pub is_queued : Bool
  pub is_runahead : Bool
  pub is_updated : Bool
  pub kill_failed : Bool
  pub time_updated : Option String
  pub prerequisites : List Prerequisite
  pub suicide_prerequisites : List Prerequisite
  pub external_triggers : Assoc String Bool
  pub xtriggers : Assoc String Bool

-- `add_xtrigger`
unfoldable pub add_xtrigger : TaskState → String → Bool → TaskState
add_xtrigger s label satisfied = record s { xtriggers = put s.xtriggers label satisfied }

-- Each trigger is unsatisfied at first.
abbrev pub unsatisfied_triggers : Assoc String Bool → List String → Assoc String Bool
unsatisfied_triggers d [] = d
unsatisfied_triggers d (label ∷ labels) = unsatisfied_triggers (put d label false) labels

unfoldable pub init :
    TaskStatus
    → Bool
    → List Prerequisite
    → List Prerequisite
    → List String
    → List String
    → TaskState
init status is_held prerequisites suicide_prerequisites external labels = record {
  status = status;
  is_held = is_held;
  is_queued = false;
  is_runahead = true;
  is_updated = false;
  kill_failed = false;
  time_updated = none;
  prerequisites = prerequisites;
  suicide_prerequisites = suicide_prerequisites;
  external_triggers = unsatisfied_triggers [] external;
  xtriggers = unsatisfied_triggers [] labels;
}

-- `get_xtrigger`
unfoldable pub get_xtrigger : TaskState → String → Result PrereqError Bool
get_xtrigger s label = or_raise key_error (get s.xtriggers label)

-- `x if x is not None else y`
abbrev pub or_current {ℓ} : {A : Type ℓ} → Option A → A → A
or_current none y = y
or_current (some x) y = x

-- `x is None or y == x`
abbrev pub same_flag : Option Bool → Bool → Bool
same_flag none y = true
same_flag (some true) y = y
same_flag (some false) y = not y

abbrev pub same_status : List TaskStatus → TaskStatus → Bool
same_status [] y = true
same_status (x ∷ xs) y = contains (x ∷ xs) y

-- `__call__`
unfoldable pub call : TaskState → List TaskStatus → Option Bool → Option Bool → Option Bool → Bool
call s statuses is_held is_queued is_runahead =
    same_status statuses s.status
    && same_flag is_held s.is_held
    && same_flag is_queued s.is_queued
    && same_flag is_runahead s.is_runahead

abbrev pub is_active : Option TaskStatus → Bool
is_active (some submitted) = true
is_active (some running) = true
is_active _ = false

-- `current_status == requested_status`
unfoldable pub is_current :
    TaskState → Option TaskStatus → Option Bool → Option Bool → Option Bool → Bool
is_current s status is_held is_queued is_runahead =
    s.status == or_current status s.status
    && same_flag is_held s.is_held
    && same_flag is_queued s.is_queued
    && same_flag is_runahead s.is_runahead

-- The answer is whether the state changed. `now` is the current time.
unfoldable pub reset :
    TaskState
    → Option TaskStatus
    → Option Bool
    → Option Bool
    → Option Bool
    → Bool
    → String
    → TaskState × Bool
reset s status is_held is_queued is_runahead forced now =
    let changed : TaskState = record s {
      status = or_current status s.status;
      is_held = or_current is_held s.is_held;
      is_queued = or_current is_queued s.is_queued;
      is_runahead = or_current is_runahead s.is_runahead;
      is_updated = true;
      kill_failed = false;
      time_updated = some now;
    } in
    if forced && is_active status
    then (s, false)
    else if is_current s status is_held is_queued is_runahead
    then (s, false)
    else (changed, true)

unfoldable pub is_gt : TaskState → TaskStatus → Bool
is_gt s status = ltb (rank status) (rank s.status)

unfoldable pub is_gte : TaskState → TaskStatus → Bool
is_gte s status = leb (rank status) (rank s.status)

abbrev pub all_values : Assoc String Bool → Bool
all_values [] = true
all_values ((label, satisfied) ∷ d) = satisfied && all_values d

unfoldable pub xtriggers_all_satisfied : TaskState → Bool
xtriggers_all_satisfied s = all_values s.xtriggers

unfoldable pub external_triggers_all_satisfied : TaskState → Bool
external_triggers_all_satisfied s = all_values s.external_triggers

abbrev pub Asked : Type 0
Asked = List Prerequisite × Result PrereqError Bool

-- `all` stops at the first one that is not satisfied, or raises.
abbrev pub keep_asking : Prerequisite → List Prerequisite → Asked → Result PrereqError Bool → Asked
keep_asking p ps rest (ok true) = (p ∷ rest.0, rest.1)
keep_asking p ps rest (ok false) = (p ∷ ps, ok false)
keep_asking p ps rest (err e) = (p ∷ ps, err e)

unfoldable pub ask_all : List Prerequisite → Asked
ask_all [] = ([], ok true)
ask_all (p ∷ ps) = keep_asking (is_satisfied p).0 ps (ask_all ps) (is_satisfied p).1

unfoldable pub prerequisites_all_satisfied : TaskState → TaskState × Result PrereqError Bool
prerequisites_all_satisfied s =
    let (preqs, answer) = ask_all s.prerequisites in (record s { prerequisites = preqs }, answer)

unfoldable pub suicide_prerequisites_all_satisfied : TaskState → TaskState × Result PrereqError Bool
suicide_prerequisites_all_satisfied s =
    let (preqs, answer) = ask_all s.suicide_prerequisites in
    (record s { suicide_prerequisites = preqs }, answer)

-- `not a() or not b()`
unfoldable pub prerequisites_are_not_all_satisfied : TaskState → TaskState × Result PrereqError Bool
prerequisites_are_not_all_satisfied s =
    let (s', answer) = prerequisites_all_satisfied s in
    let (s'', other) = suicide_prerequisites_all_satisfied s' in
    elim answer [
      | ok true ↦ (s'', other >>= λ b. ok (not b))
      | ok false ↦ (s', ok true)
      | err e ↦ (s', err e)
    ]

-- A loop over prerequisites, ended by an exception.
abbrev pub until_raised : Prerequisite → List Prerequisite → Asked → Result PrereqError Bool → Asked
until_raised p ps rest (ok b) = (p ∷ rest.0, rest.1)
until_raised p ps rest (err e) = (p ∷ ps, err e)

unfoldable pub set_each : List Prerequisite → Asked
set_each [] = ([], ok true)
set_each (p ∷ ps) = until_raised (set_satisfied p).0 ps (set_each ps) (set_satisfied p).1

unfoldable pub set_all_task_prerequisites_satisfied :
    TaskState → TaskState × Result PrereqError Bool
set_all_task_prerequisites_satisfied s =
    let (preqs, answer) = set_each s.prerequisites in (record s { prerequisites = preqs }, answer)

abbrev pub any_value : Satisfied → Bool
any_value [] = false
any_value ((k, s) ∷ d) = truthy s || any_value d

unfoldable pub any_satisfied_prerequisite_outputs : TaskState → Bool
any_satisfied_prerequisite_outputs s = any (λ p. any_value p.satisfied) s.prerequisites
