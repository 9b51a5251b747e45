-- ===== src/TaskEvents/Text.antt =====
-- Messages with a slash: `split_run_signal`, and custom outputs.
use cylc_flow.Prelude.{
  ◌≡◌, refl, sym, ◌∙◌, ap, inl, inr, String, Bool, true, false, ◌||◌, Option, none, some, [],
  if◌then◌else◌, ◌==◌, string_eq, nat_eq, ℕ_discrete, eq_of_==, arith, Bool-cases,
}
use cylc_flow.Prelude.Assoc.{get}
use cylc_flow.Prelude.Result.{ok, err}
use cylc_flow.Prelude.Int.{int_eq}
use Prim.Native.Char.{Char, char, code}
use Prim.Native.String.{◌++◌ as ◌<>◌}
use Prim.Native.String.append
use text.Mathlib.TextEquality.{Char-path}
use cylc_flow.TaskOutputs.{TaskOutputs, set_message_complete, get_incomplete_implied, implied_by}
use cylc_flow.TaskEvents.{
  key_error, TaskProxy, Manager, Settings, Call, Effect, emit, complete_output,
}
use cylc_flow.TaskEvents.Handlers.{on_task}
use cylc_flow.TaskEvents.Process.{
  count_event, Kind, process_custom, job_msg, is_non_unique, too_deep, is_slash, split_run_signal,
  process_message_check, kind_of, process_kind, complete_message, process_once, process_from,
  process_message, Outcome,
}

abbrev slash : Char
slash = char 47 tt

-- A text with a slash in it.
unfoldable pub has_slash : String → Bool
has_slash String.[] = false
has_slash (String.◌∷◌ c s) = is_slash c || has_slash s

-- `prefix/signal`, or the prefix alone
unfoldable pub join : String × Option String → String
join (prefix, none) = prefix
join (prefix, some signal) = prefix <> String.◌∷◌ slash signal

is_slash-eq : (c : Char) → is_slash c ≡ true → slash ≡ c
is_slash-eq c h = Char-path slash c (sym (eq_of_== (code c) 47 h))

join-cons :
    (c : Char) (r : String × Option String) → join (String.◌∷◌ c r.0, r.1) ≡ String.◌∷◌ c (join r)
unfolding join
join-cons c (prefix, none) = refl
join-cons c (prefix, some signal) = append.cons c prefix (String.◌∷◌ slash signal)

-- A message is split at its first slash, if it has one, and loses nothing.
join-split_run_signal :
    (message : String)
    → (join (split_run_signal message) ≡ message) × (has_slash (split_run_signal message).0 ≡ false)
unfolding join split_run_signal has_slash
join-split_run_signal String.[] = (refl, refl)
join-split_run_signal (String.◌∷◌ c s) =
    let (whole, clear) = join-split_run_signal s in
    elim (Bool-cases (is_slash c)) [
      | inl e ↦
          rw e (append.nil (String.◌∷◌ slash s) ∙ ap (λ d. String.◌∷◌ d s) (is_slash-eq c e), refl)
      | inr e ↦ rw e (join-cons c (split_run_signal s) ∙ ap (String.◌∷◌ c) whole, rw e clear)
    ]

split_run_signal-join :
    (prefix signal : String)
    → has_slash prefix ≡ false
    → split_run_signal (join (prefix, some signal)) ≡ (prefix, some signal)
unfolding join split_run_signal has_slash ℕ_discrete
split_run_signal-join String.[] signal h =
    ap split_run_signal (append.nil (String.◌∷◌ slash signal))
split_run_signal-join (String.◌∷◌ c s) signal h = elim (Bool-cases (is_slash c)) [
  | inl e ↦ absurd (ground arith)
  | inr e ↦
      let later = split_run_signal-join s signal (ground arith) in
      ap split_run_signal (append.cons c s (String.◌∷◌ slash signal))
      ∙ rw e (ap (λ (r : String × Option String). (String.◌∷◌ c r.0, r.1)) later)
]

-- A text with a slash is none of the standard messages.
differs :
    (message word : String)
    → has_slash message ≡ true
    → has_slash word ≡ false
    → (message == word) ≡ false
differs message word h k = elim (Bool-cases (message == word)) [
  | inl e ↦ absurd (ground (arith, eq_of_== message word e))
  | inr e ↦ e
]

has_slash-join : (prefix signal : String) → has_slash (join (prefix, some signal)) ≡ true
unfolding join has_slash ℕ_discrete
has_slash-join String.[] signal = ap has_slash (append.nil (String.◌∷◌ slash signal))
has_slash-join (String.◌∷◌ c s) signal =
    ap has_slash (append.cons c s (String.◌∷◌ slash signal))
    ∙ ground (arith, has_slash-join s signal)

-- A prefix that the branches of `process_message` do not name.
abbrev pub IsCustom : String → Type 0
IsCustom prefix =
    ((prefix == "aborted") ≡ false)
    × ((prefix == "failed") ≡ false)
    × ((prefix == "submit-failed") ≡ false)
    × ((prefix == "vacated") ≡ false)
    × (implied_by prefix ≡ [])

unhandled :
    (message prefix signal : String)
    → has_slash message ≡ true
    → IsCustom prefix
    → kind_of message prefix (some signal) false ≡ Kind.is_unhandled
unfolding kind_of has_slash ℕ_discrete
unhandled message prefix signal h (aborted, fails, submit_failed, vacated, implies) =
    rw
      (
        differs message "started" h refl,
        differs message "succeeded" h refl,
        differs message "expired" h refl,
        fails,
        differs message "submission failed" h refl,
        differs message "submitted" h refl,
        vacated,
      )
      refl

-- The task, with another's counter of warnings and custom messages.
abbrev pub uncounted : Manager → Manager → TaskProxy
uncounted n m = record n.itask { non_unique_events = m.itask.non_unique_events }

counted :
    (b : Bool) (severity : String) (e : Effect) (n m : Manager)
    → n.itask ≡ m.itask
    → uncounted (if b then emit e (on_task (count_event severity) n) else n) m ≡ m.itask
unfolding count_event
counted true severity e n m same =
    ap (λ (t : TaskProxy). record t { non_unique_events = m.itask.non_unique_events }) same
counted false severity e n m same =
    ap (λ (t : TaskProxy). record t { non_unique_events = m.itask.non_unique_events }) same

kept : (b : Bool) (e : Effect) (m : Manager) → (if b then m else emit e m).itask ≡ m.itask
kept true e m = refl
kept false e m = refl

-- A message that is no output's completes none.
not_completed :
    (call : Call) (message : String) (m : Manager)
    → get m.itask.outputs.completed message ≡ none
    → complete_message call message m ≡ (m, false)
unfolding complete_message complete_output set_message_complete
not_completed call message m h = rw (h, set_message_complete) (ground arith)

no_implied :
    (t : TaskOutputs) (message : String)
    → implied_by message ≡ []
    → get_incomplete_implied t message ≡ []
unfolding get_incomplete_implied
no_implied t message h = rw h refl

-- Nothing but calls on other components is left of the message.
once_unhandled :
    (again : Call → String → Manager → Outcome) (env : Settings) (call : Call)
    (message prefix signal : String) (m : Manager)
    → split_run_signal message ≡ (prefix, some signal)
    → has_slash message ≡ true
    → IsCustom prefix
    → get m.itask.outputs.completed prefix ≡ none
    → (n : Manager) × (process_once again env call message m ≡ ok (n, false))
      × (uncounted n m ≡ m.itask)
unfolding process_once process_kind
once_unhandled again env call message prefix signal m0 split h custom missing =
    let (aborted, fails, submit_failed, vacated, implies) = custom in
    let m : Manager = emit Effect.reset_inactivity m0 in
    let m1 : Manager =
      if call.forced then m else emit (Effect.delta_job_msg (job_msg call.flag message)) m in
    let same : m1.itask ≡ m0.itask =
      kept call.forced (Effect.delta_job_msg (job_msg call.flag message)) m in
    let completed = not_completed call prefix m1 (rw same missing) in
    let n : Manager = emit (Effect.db_events_insert call.severity message) m1 in
    let n' : Manager =
      if is_non_unique call.severity
      then emit (Effect.setup_event_handlers call.severity message)
          (on_task (count_event call.severity) n)
      else n in
    elim (Bool-cases (process_message_check call message m)) [
      | inl e ↦ (
        n',
        rw (split, aborted)
            (rw completed (
              rw (e, no_implied m1.itask.outputs prefix implies)
                (rw (unhandled message prefix signal h custom) refl))),
        counted (is_non_unique call.severity) call.severity
            (Effect.setup_event_handlers call.severity message) n m0 same,
      )
      | inr e ↦ (m, rw e refl, refl)
    ]

-- A message with a slash, where the text before its first slash is none of the words that `process_message`
-- knows and no output's message, leaves the task, its outputs included, as it is but for its counter of
-- warnings and custom messages, though the whole message may be an output's; it does not raise and asks for
-- no poll.
pub process_message_slash :
    (env : Settings) (call : Call) (prefix signal : String) (m : Manager)
    → has_slash prefix ≡ false
    → IsCustom prefix
    → get m.itask.outputs.completed prefix ≡ none
    → (n : Manager) × (process_message env call (join (prefix, some signal)) m ≡ ok (n, false))
      × (uncounted n m ≡ m.itask)
unfolding process_message process_from
process_message_slash env call prefix signal m h custom missing =
    once_unhandled (process_from too_deep env 2) env call (join (prefix, some signal)) prefix signal
      m (split_run_signal-join prefix signal h) (has_slash-join prefix signal) custom missing

-- A message of an output that is not complete completes it.
newly_completed :
    (call : Call) (message : String) (m : Manager)
    → get m.itask.outputs.completed message ≡ some false
    → (message == "failed") ≡ false
    → (message == "submit-failed") ≡ false
    → (complete_message call message m
        ≡ (emit (Effect.delta_task_output message) (complete_output message call.forced m).0, true))
      × ((complete_output message call.forced m).0.itask.outputs.message_to_trigger
          ≡ m.itask.outputs.message_to_trigger)
unfolding complete_message complete_output set_message_complete
newly_completed call message m h fails submit_failed =
    rw (fails, submit_failed) (rw (h, set_message_complete) (refl, refl))

custom_kind :
    (message prefix signal : String)
    → has_slash message ≡ true
    → IsCustom prefix
    → kind_of message prefix (some signal) true ≡ Kind.is_custom
unfolding kind_of has_slash ℕ_discrete
custom_kind message prefix signal h (aborted, fails, submit_failed, vacated, implies) =
    rw
      (
        differs message "started" h refl,
        differs message "succeeded" h refl,
        differs message "expired" h refl,
        fails,
        differs message "submission failed" h refl,
        differs message "submitted" h refl,
        vacated,
      )
      refl

once_raises :
    (again : Call → String → Manager → Outcome) (env : Settings) (call : Call)
    (message prefix signal : String) (m : Manager)
    → split_run_signal message ≡ (prefix, some signal)
    → has_slash message ≡ true
    → IsCustom prefix
    → get m.itask.outputs.completed prefix ≡ some false
    → get m.itask.outputs.message_to_trigger message ≡ none
    → process_message_check call message m ≡ true
    → process_once again env call message m ≡ err key_error
unfolding process_once process_kind process_custom process_message_check
once_raises again env call message prefix signal m0 split h custom missing unknown accepted =
    let (aborted, fails, submit_failed, vacated, implies) = custom in
    let m : Manager = emit Effect.reset_inactivity m0 in
    let m1 : Manager =
      if call.forced then m else emit (Effect.delta_job_msg (job_msg call.flag message)) m in
    let same : m1.itask ≡ m0.itask =
      kept call.forced (Effect.delta_job_msg (job_msg call.flag message)) m in
    let (completed, triggers) =
      newly_completed call prefix m1 (rw same missing) fails submit_failed in
    let m2 : Manager =
      emit (Effect.delta_task_output prefix) (complete_output prefix call.forced m1).0 in
    let raises : get m2.itask.outputs.message_to_trigger message ≡ none =
      rw (triggers, same) unknown in
    rw (split, aborted)
      (rw completed (
        rw (accepted, no_implied m2.itask.outputs prefix implies)
          (rw (custom_kind message prefix signal h custom) (rw raises refl))))

-- Where the text before the slash is the message of an output that is not complete, none of the words that
-- `process_message` knows, and the whole message is no output's, a message that passes the check raises:
-- no trigger of the whole message is found.
process_message_raises :
    (env : Settings) (call : Call) (prefix signal : String) (m : Manager)
    → has_slash prefix ≡ false
    → IsCustom prefix
    → get m.itask.outputs.completed prefix ≡ some false
    → get m.itask.outputs.message_to_trigger (join (prefix, some signal)) ≡ none
    → process_message_check call (join (prefix, some signal)) m ≡ true
    → process_message env call (join (prefix, some signal)) m ≡ err key_error
unfolding process_message process_from
process_message_raises env call prefix signal m h custom missing unknown accepted =
    once_raises (process_from too_deep env 2) env call (join (prefix, some signal)) prefix signal m
      (split_run_signal-join prefix signal h) (has_slash-join prefix signal) custom missing unknown
      accepted
