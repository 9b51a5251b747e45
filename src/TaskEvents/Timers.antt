-- ===== src/TaskEvents/Timers.antt =====
-- The poll timers and timeouts of an active job.
use cylc_flow.Prelude.{
  sum, ℕ, zero, suc, ◌+◌, ◌-◌, ◌/◌, Bool, true, false, not, ◌&&◌, ◌||◌, Option, none, some, List,
  [], ◌∷◌, ◌++◌, length, if◌then◌else◌, ◌==◌, string_eq, nat_eq, ltb,
}
use cylc_flow.Prelude.Result.{Result, ok, err, ◌>>=◌}
use cylc_flow.Prelude.Int.{int_eq}
use cylc_flow.Prerequisite.{RunMode, simulation}
use cylc_flow.TaskState.{running, task_status_eq}
use cylc_flow.TaskActionTimer.{TaskActionTimer}
use cylc_flow.TaskActionTimer
use cylc_flow.TaskEvents.{
  EventError, zero_division_error, TaskProxy, Manager, Settings, is_active_status,
}

abbrev pub remove_last : List ℕ → List ℕ
remove_last [] = []
remove_last (d ∷ []) = []
remove_last (d ∷ e ∷ delays) = d ∷ remove_last (e ∷ delays)

-- `while sum(delays) > time_limit: del delays[-1]`, in as many rounds as there are delays
unfoldable pub del_late : ℕ → ℕ → List ℕ → List ℕ
del_late zero limit delays = delays
del_late (suc rounds) limit delays =
    let later = del_late rounds limit (remove_last delays) in
    if ltb limit (sum delays) then later else delays

abbrev pub last_delay : ℕ → List ℕ → ℕ
last_delay d [] = d
last_delay d (e ∷ delays) = last_delay e delays

abbrev pub replicate : ℕ → ℕ → List ℕ
replicate zero d = []
replicate (suc n) d = d ∷ replicate n d

-- The delays up to the execution time limit.
unfoldable pub up_to_limit : List ℕ → ℕ → Result EventError (List ℕ)
unfolding del_late
up_to_limit [] limit = ok []
up_to_limit (d ∷ delays) limit =
    let all = d ∷ delays in
    let final = last_delay d delays in
    if ltb limit (sum all)
    then ok (del_late (length all) limit all)
    else if final == 0
    then err zero_division_error
    else ok (all ++ replicate ((limit - sum all) / final) final)

-- The time limit's own intervals, the first of them lengthened by the time left to the limit.
abbrev pub past_limit : ℕ → List ℕ → List ℕ
past_limit left [] = []
past_limit left (d ∷ []) = (d + left) ∷ d ∷ []
past_limit left (d ∷ e ∷ delays) = (d + left) ∷ e ∷ delays

unfoldable pub process_execution_polling_intervals :
    List ℕ → ℕ → List ℕ → Result EventError (List ℕ)
unfolding up_to_limit
process_execution_polling_intervals polling_intervals time_limit time_limit_polling_intervals = do
  delays ← up_to_limit polling_intervals time_limit
  ok (delays ++ past_limit (time_limit - sum delays) time_limit_polling_intervals)

-- `timeref + float(timeout)`, where either may be `None`
abbrev pub plus : Option ℕ → Option ℕ → Option ℕ
plus (some timeref) (some timeout) = some (timeref + timeout)
plus _ _ = none

abbrev pub is_set : Option ℕ → Bool
is_set none = false
is_set (some limit) = not (limit == 0)

abbrev pub time_limit_of : Option ℕ → ℕ
time_limit_of none = 0
time_limit_of (some limit) = limit

unfoldable pub execution_delays : Settings → Result EventError (List ℕ)
unfolding process_execution_polling_intervals
execution_delays env =
    if is_set env.execution_time_limit
    then process_execution_polling_intervals env.execution_polling_intervals
        (time_limit_of env.execution_time_limit) env.time_limit_polling_intervals
    else ok env.execution_polling_intervals

abbrev pub is_current : TaskProxy → Bool
is_current t = elim t.poll_timer [
  | none ↦ false
  | some p ↦ p.submit_num == t.submit_num && p.status == t.state.status
]

-- A new poll timer, which gives its first delay at once (`check_poll_time`).
abbrev pub start_polling : Settings → Option ℕ → List ℕ → TaskProxy → TaskProxy
start_polling env timeout delays t = record t {
  timeout = timeout;
  poll_timer = some (record {
    submit_num = t.submit_num;
    status = t.state.status;
    timer = (TaskActionTimer.next (TaskActionTimer.init (some delays) 0 none none) true env.now).0;
  });
}

abbrev pub stop_polling : TaskProxy → TaskProxy
stop_polling t = record t { timeout = none; poll_timer = none }

abbrev pub is_simulation : RunMode → Bool
is_simulation simulation = true
is_simulation _ = false

-- `_reset_job_timers` on the proxy
unfoldable pub reset_timers : Settings → TaskProxy → Result EventError TaskProxy
reset_timers env t =
    let executing : Result EventError TaskProxy = (do
      delays ← execution_delays env
      ok (start_polling env (plus t.started_time env.execution_timeout) delays t)) in
    if is_simulation t.run_mode || t.transient
    then ok t
    else if not (is_active_status t.state.status)
    then ok (stop_polling t)
    else if is_current t
    then ok t
    else if t.state.status == running
    then executing
    else ok (
        start_polling env (plus t.submitted_time env.submission_timeout)
          env.submission_polling_intervals t)

unfoldable pub reset_job_timers : Settings → Manager → Result EventError Manager
reset_job_timers env m = do itask ← reset_timers env m.itask; ok (record m { itask = itask })

-- `check_poll_time` with a time: whether a poll is due.
unfoldable pub check_poll_time : ℕ → TaskProxy → TaskProxy × Bool
check_poll_time now t =
    if not (is_active_status t.state.status && is_current t)
    then (stop_polling t, false)
    else elim t.poll_timer [
      | none ↦ (stop_polling t, false)
      | some p ↦
          if TaskActionTimer.is_delay_done p.timer now
          then (
            record t {
              poll_timer = some (record p { timer = (TaskActionTimer.next p.timer true now).0 });
            },
            true,
          )
          else (t, false)
    ]
