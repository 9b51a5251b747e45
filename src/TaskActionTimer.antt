-- ===== src/TaskActionTimer.antt =====
-- cylc/flow/task_action_timer.py: class TaskActionTimer, the delays before retries and polls.
-- Times and delays are natural numbers of seconds; `now` is what `time()` returns.
pub mod Sequence
mod Tests
use cylc_flow.Prelude.{
  get_elem?, sum, ℕ, zero, suc, ◌+◌, ◌-◌, ◌*◌, ◌/◌, ◌%◌, ◌≤◌, ◌<◌, ◌≡◌, refl, sym, ◌∙◌, ap, subst,
  ◌≢◌, ◌↔◌, ◌⊎◌, inl, inr, String, Bool, true, false, not, ◌&&◌, ◌||◌, Option, none, some, List, [],
  ◌∷◌, ◌++◌, map, any, all, filter, contains, IsNodup, length, All, All-mono, All-append,
  contains-append, length-append, if◌then◌else◌, ◌==◌, Eq, is_yes, string_eq, nat_eq,
  String_discrete, ℕ_discrete, eq_refl, eq_of_==, ltb, leb, ltb→lt, leb→le, arith, Bool-cases,
  Option-cases, List-cases,
}
use cylc_flow.Prelude.Assoc.{
  Assoc, keys, get, put, has, get-put, has-put, has_of_get, get-none, get-some, All_get,
}
use cylc_flow.Prelude.Result.{Result, ok, err, ◌>>=◌, traverse, or_raise, >>=-eq-ok}
use cylc_flow.Prelude.Int.{
  ℤ, pos, negsuc, pos_part, neg_part, sub_ℕ, ◌+ℤ◌, ◌-ℤ◌, ◌*ℤ◌, ◌≤ℤ◌, ◌<ℤ◌, ltb_ℤ, leb_ℤ, emod,
  ℤ_discrete, int_eq, +ℤ_parts, -ℤ_parts, eq_of_parts, int_laws, emod-add, emod-lt,
}

pub record TaskActionTimer : Type 0 where
  pub delays : List ℕ
  pub num : ℕ
  pub delay : Option ℕ
  pub timeout : Option ℕ
  pub is_waiting : Bool

-- `set_delays`; no delays are a single 0.
unfoldable pub set_delays : TaskActionTimer → Option (List ℕ) → TaskActionTimer
set_delays t none = record t { delays = 0 ∷ [] }
set_delays t (some delays) = record t { delays = delays }

unfoldable pub init : Option (List ℕ) → ℕ → Option ℕ → Option ℕ → TaskActionTimer
unfolding set_delays
init delays num delay timeout =
    set_delays
      (record { delays = []; num = num; delay = delay; timeout = timeout; is_waiting = false })
      delays

unfoldable pub is_delay_done : TaskActionTimer → ℕ → Bool
is_delay_done t now = elim t.timeout [ none ↦ false | some timeout ↦ ltb timeout now ]

unfoldable pub is_timeout_set : TaskActionTimer → Bool
is_timeout_set t = elim t.timeout [ none ↦ false | some timeout ↦ true ]

-- The delay that `next` finds.
abbrev pub next_delay : TaskActionTimer → Bool → Option ℕ
next_delay t no_exhaust = elim (get_elem? t.delays t.num) [
  | some delay ↦ some delay
  | none ↦ if no_exhaust then t.delay else none
]

abbrev pub start_delay : TaskActionTimer → ℕ → Option ℕ → TaskActionTimer
start_delay t now none = record t { delay = none }
start_delay t now (some delay) = record t {
  delay = some delay;
  timeout = some (now + delay);
  num = t.num + 1;
}

unfoldable pub next : TaskActionTimer → Bool → ℕ → TaskActionTimer × Option ℕ
next t no_exhaust now = (start_delay t now (next_delay t no_exhaust), next_delay t no_exhaust)

unfoldable pub reset : TaskActionTimer → TaskActionTimer
reset t = record t { num = 0; delay = none; timeout = none; is_waiting = false }

unfoldable pub set_waiting : TaskActionTimer → TaskActionTimer
set_waiting t = record t { delay = none; is_waiting = true; timeout = none }

unfoldable pub unset_waiting : TaskActionTimer → TaskActionTimer
unset_waiting t = record t { is_waiting = false }
