-- ===== src/TaskPool.antt =====
-- cylc/flow/task_pool.py: class TaskPool, the runahead limit, the stop point and holding.
-- Points and offsets are those of integer cycling, where the runahead limit is a number of cycles. The
-- calls on the data store and the database are recorded as effects; log lines are left out.

pub mod Limit
pub mod Operations
pub mod Release
pub mod Found
pub mod Kept
pub mod Rounds
pub mod Released
pub mod Points
pub mod Each
pub mod Runahead
pub mod Stop
pub mod Hold
pub mod Integer
mod Tests
use cylc_flow.Prelude.{
  get_elem?, sum, ℕ, zero, suc, ◌+◌, ◌-◌, ◌*◌, ◌/◌, ◌%◌, ◌≤◌, ◌<◌, ◌≡◌, refl, sym, ◌∙◌, ap, subst,
  ◌≢◌, ◌↔◌, ◌⊎◌, inl, inr, String, Bool, true, false, not, ◌&&◌, ◌||◌, Option, none, some, List, [],
  ◌∷◌, ◌++◌, map, any, all, filter, contains, IsNodup, length, All, All-mono, All-append,
  contains-append, length-append, if◌then◌else◌, ◌==◌, Eq, is_yes, string_eq, nat_eq,
  String_discrete, ℕ_discrete, eq_refl, eq_of_==, ltb, leb, ltb→lt, leb→le, arith, Bool-cases,
  Option-cases, List-cases,
}
use cylc_flow.Prelude.Assoc.{
  Assoc, keys, get, put, has, get-put, has-put, has_of_get, get-none, get-some, All_get,
}
use cylc_flow.Prelude.Result.{Result, ok, err, ◌>>=◌, traverse, or_raise, >>=-eq-ok}
use cylc_flow.Prelude.Int.{
  ℤ, pos, negsuc, pos_part, neg_part, sub_ℕ, ◌+ℤ◌, ◌-ℤ◌, ◌*ℤ◌, ◌≤ℤ◌, ◌<ℤ◌, ltb_ℤ, leb_ℤ, emod,
  ℤ_discrete, int_eq, +ℤ_parts, -ℤ_parts, eq_of_parts, int_laws, emod-add, emod-lt,
}
use cylc_flow.TaskState.{TaskState}

-- A recurrence, as the pool uses it: `get_first_point` and `get_next_point`.
pub record Sequence : Type 0 where
  pub get_first_point : ℤ → Option ℤ
  pub get_next_point : ℤ → Option ℤ

pub record TaskProxy : Type 0 where
  pub name : String
  pub point : ℤ
  pub state : TaskState
  pub flow_nums : List ℕ
  pub is_xtrigger_sequential : Bool
  pub max_future_prereq_offset : Option ℤ

pub data Effect : Type 0 where
  delta_task_state : String → ℤ → Effect
  put_tasks_to_hold : Effect
  put_workflow_hold_cycle_point : Option ℤ → Effect
  create_data_store_elements : String → ℤ → Effect
  delta_task_flow_nums : String → ℤ → Effect

-- The tasks of a point are in the order in which they were added. A set of points is an ascending list.
pub record TaskPool : Type 0 where
  pub active_tasks : Assoc ℤ (List TaskProxy)
  pub max_future_offset : Option ℤ
  pub prev_runahead_base_point : Option ℤ
  pub prev_runahead_sequence_points : List ℤ
  pub runahead_limit_point : Option ℤ
  pub stop_point : Option ℤ
  pub hold_point : Option ℤ
  pub tasks_to_hold : List (String × ℤ)
  pub effects : List Effect

-- What the pool is told, and what it calls. `next_point_parentless` is that of the definition of the task with a
-- name, for the start point and a point; `spawn_task` makes a proxy for a name, a point and flow numbers, from the
-- history of the task in the database, or none; `merge_flows` puts flow numbers into a proxy of the pool. The children
-- that the last two spawn for a task that waits for flows, or that is in no flow, are left out.
pub record Config : Type 0 where
  pub runahead_limit : ℕ
  pub start_point : ℤ
  pub sequences : List Sequence
  pub cylc7_back_compat : Bool
  pub current_time_string : String
  pub next_point_parentless : String → ℤ → ℤ → Option ℤ
  pub spawn_task : String → ℤ → List ℕ → TaskPool → Option TaskProxy
  pub merge_flows : List ℕ → TaskProxy → TaskProxy × List Effect

unfoldable pub tasks_of : Assoc ℤ (List TaskProxy) → List TaskProxy
tasks_of [] = []
tasks_of ((point, itasks) ∷ d) = itasks ++ tasks_of d

-- The list of the tasks, which the code keeps until `active_tasks` changes.
unfoldable pub get_tasks : TaskPool → List TaskProxy
get_tasks pool = tasks_of pool.active_tasks
