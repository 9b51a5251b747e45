-- ===== src/TaskState/Reset.antt =====
-- `reset` and `__call__` of TaskState.
use cylc_flow.Prelude.{
  ◌≡◌, refl, sym, ◌∙◌, inl, inr, String, Bool, true, false, not, ◌&&◌, Option, none, some, List, [],
  ◌∷◌, string_eq, nat_eq, eq_refl, arith, Bool-cases,
}
use cylc_flow.Prelude.Int.{int_eq}
use cylc_flow.TaskState.{
  TaskStatus, task_status_eq, TaskState, or_current, same_flag, same_status, call, is_active,
  is_current, reset,
}

-- The statuses that a reset asks for.
abbrev pub asked_for : Option TaskStatus → List TaskStatus
asked_for none = []
asked_for (some status) = status ∷ []

same_or_current : (x : Option Bool) (y : Bool) → same_flag x (or_current x y) ≡ true
same_or_current none y = refl
same_or_current (some true) y = refl
same_or_current (some false) y = refl

status_or_current :
    (x : Option TaskStatus) (y : TaskStatus) → same_status (asked_for x) (or_current x y) ≡ true
status_or_current none y = refl
status_or_current (some x) y = ground (arith, eq_refl x)

call-is_current :
    (s : TaskState) (status : Option TaskStatus) (is_held is_queued is_runahead : Option Bool)
    → is_current s status is_held is_queued is_runahead
      ≡ call s (asked_for status) is_held is_queued is_runahead
unfolding is_current call
call-is_current s none is_held is_queued is_runahead = rw (eq_refl s.status) refl
call-is_current s (some x) is_held is_queued is_runahead = ground arith

call-changed :
    (s s' : TaskState) (status : Option TaskStatus) (is_held is_queued is_runahead : Option Bool)
    → s'.status ≡ or_current status s.status
    → s'.is_held ≡ or_current is_held s.is_held
    → s'.is_queued ≡ or_current is_queued s.is_queued
    → s'.is_runahead ≡ or_current is_runahead s.is_runahead
    → call s' (asked_for status) is_held is_queued is_runahead ≡ true
unfolding call
call-changed s s' status is_held is_queued is_runahead a b c d =
    rw
      (
        a,
        b,
        c,
        d,
        status_or_current status s.status,
        same_or_current is_held s.is_held,
        same_or_current is_queued s.is_queued,
        same_or_current is_runahead s.is_runahead,
      )
      refl

-- The answer of `reset` is that it was not refused, as a forced change to submitted or running is,
-- and that the state was not yet as asked. It leaves the state as asked, unless it was refused. When
-- the answer is no, it leaves the state alone.
pub reset-call :
    (s : TaskState) (status : Option TaskStatus) (is_held is_queued is_runahead : Option Bool)
    (forced : Bool) (now : String)
    → let (s', changed) = reset s status is_held is_queued is_runahead forced now in
      let refused = forced && is_active status in
      (changed ≡ (not refused && not (call s (asked_for status) is_held is_queued is_runahead)))
      × (refused ≡ false → call s' (asked_for status) is_held is_queued is_runahead ≡ true)
      × (changed ≡ false → s' ≡ s)
unfolding reset
reset-call s status is_held is_queued is_runahead forced now =
    elim (Bool-cases (forced && is_active status)) [
      | inl r ↦ rw r (refl, λ f. absurd (ground arith), λ f. refl)
      | inr r ↦ elim (Bool-cases (is_current s status is_held is_queued is_runahead)) [
        | inl c ↦
            let k = sym (call-is_current s status is_held is_queued is_runahead) ∙ c in
            rw r (rw c (rw k refl, λ f. k, λ f. refl))
        | inr c ↦
            let k = sym (call-is_current s status is_held is_queued is_runahead) ∙ c in
            rw r (
              rw c (
                rw k refl,
                λ f. call-changed s _ status is_held is_queued is_runahead refl refl refl refl,
                λ f. absurd (ground arith),
              ))
      ]
    ]

-- A forced reset never makes a task submitted or running: a task that is so after it was so before.
pub reset_forced :
    (s : TaskState) (status : Option TaskStatus) (is_held is_queued is_runahead : Option Bool)
    (now : String)
    → is_active (some (reset s status is_held is_queued is_runahead true now).0.status) ≡ true
    → (reset s status is_held is_queued is_runahead true now).0.status ≡ s.status
unfolding reset
reset_forced s none is_held is_queued is_runahead now h = ground arith
reset_forced s (some x) is_held is_queued is_runahead now h = ground arith
