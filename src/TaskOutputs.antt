-- ===== src/TaskOutputs.antt =====
-- cylc/flow/task_outputs.py: class TaskOutputs, the outputs that a task completes.
-- A completion expression is what CompletionEvaluator reads: names joined by `and` and `or`, of which
-- Python evaluates the second operand only as needed. The completion variable of a trigger is an
-- argument of `add`, and the outputs of a task's definition that of `init`.
pub mod Monotone
pub mod Marks
mod Tests
use cylc_flow.Prelude.{
  ℕ, zero, suc, ◌+◌, ◌-◌, ◌*◌, ◌/◌, ◌%◌, ◌≤◌, ◌<◌, ◌≡◌, refl, sym, ◌∙◌, ap, subst, ◌≢◌, ◌↔◌, ◌⊎◌,
  inl, inr, String, Bool, true, false, not, ◌&&◌, ◌||◌, Option, none, some, List, [], ◌∷◌, ◌++◌,
  map, any, all, filter, contains, IsNodup, length, All, All-mono, All-append, contains-append,
  length-append, if◌then◌else◌, ◌==◌, Eq, is_yes, string_eq, nat_eq, String_discrete, ℕ_discrete,
  eq_refl, eq_of_==, ltb, leb, ltb→lt, leb→le, arith, Bool-cases, Option-cases, List-cases,
}
use cylc_flow.Prelude.Assoc.{
  Assoc, keys, get, put, has, get-put, has-put, has_of_get, get-none, get-some, All_get,
}
use cylc_flow.Prelude.Result.{Result, ok, err, ◌>>=◌, traverse, or_raise, >>=-eq-ok}
use cylc_flow.Prelude.Int.{
  ℤ, pos, negsuc, pos_part, neg_part, sub_ℕ, ◌+ℤ◌, ◌-ℤ◌, ◌*ℤ◌, ◌≤ℤ◌, ◌<ℤ◌, ltb_ℤ, leb_ℤ, emod,
  ℤ_discrete, int_eq, +ℤ_parts, -ℤ_parts, eq_of_parts, int_laws, emod-add, emod-lt,
}

pub data OutputError : Type 0 where
  key_error name_error : OutputError

pub data Completion : Type 0 where
  var : String → Completion
  both either : Completion → Completion → Completion

pub record TaskOutputs : Type 0 where
  pub message_to_trigger : Assoc String String
  pub message_to_compvar : Assoc String String
  pub completed : Assoc String Bool
  -- `none` is the empty text
  pub completion_expression : Option Completion
  pub forced : List String

-- A trigger, its completion variable, and its message.
pub record Output : Type 0 where
  pub trigger : String
  pub compvar : String
  pub message : String

unfoldable pub add : TaskOutputs → Output → TaskOutputs
add t o = record t {
  message_to_trigger = put t.message_to_trigger o.message o.trigger;
  message_to_compvar = put t.message_to_compvar o.message o.compvar;
  completed = put t.completed o.message false;
}

abbrev pub add_all : TaskOutputs → List Output → TaskOutputs
add_all t [] = t
add_all t (o ∷ os) = add_all (add t o) os

unfoldable pub init : Option Completion → List Output → TaskOutputs
unfolding add
init e outputs =
    add_all
      (record {
        message_to_trigger = [];
        message_to_compvar = [];
        completed = [];
        completion_expression = e;
        forced = [];
      })
      outputs

unfoldable pub get_trigger : TaskOutputs → String → Result OutputError String
get_trigger t message = or_raise key_error (get t.message_to_trigger message)

unfoldable pub set_message_complete : TaskOutputs → String → Bool → TaskOutputs × Option Bool
set_message_complete t message forced = elim (get t.completed message) [
  | none ↦ (t, none)
  | some true ↦ (t, some false)
  | some false ↦ (
    record t {
      completed = put t.completed message true;
      forced = if forced then t.forced ++ message ∷ [] else t.forced;
    },
    some true,
  )
]

-- `{v: k for k, v in items}`: the last message of a trigger.
abbrev pub invert : Assoc String String → Assoc String String → Assoc String String
invert d [] = d
invert d ((message, trigger) ∷ items) = invert (put d trigger message) items

unfoldable pub set_trigger_complete :
    TaskOutputs → String → Bool → TaskOutputs × Result OutputError (Option Bool)
set_trigger_complete t trigger forced = elim (get (invert [] t.message_to_trigger) trigger) [
  | none ↦ (t, err key_error)
  | some message ↦ let (t', answer) = set_message_complete t message forced in (t', ok answer)
]

unfoldable pub is_message_complete : TaskOutputs → String → Option Bool
is_message_complete t message = get t.completed message

abbrev pub forced_completion_msg : String
forced_completion_msg = "(manually completed)"

-- The loop of `get_completed_outputs`.
unfoldable pub completed_from :
    TaskOutputs → Assoc String String → Assoc String Bool → Result OutputError (Assoc String String)
completed_from t d [] = ok d
completed_from t d ((message, false) ∷ items) = completed_from t d items
completed_from t d ((message, true) ∷ items) = do
  trigger ← or_raise key_error (get t.message_to_trigger message)
  completed_from t
      (put d trigger (if contains t.forced message then forced_completion_msg else message)) items

unfoldable pub get_completed_outputs : TaskOutputs → Result OutputError (Assoc String String)
get_completed_outputs t = completed_from t [] t.completed

-- The values of the completion variables: of two messages with the same variable the later counts.
unfoldable pub variables :
    Assoc String String
    → Assoc String Bool
    → Assoc String Bool
    → Result OutputError (Assoc String Bool)
variables compvars env [] = ok env
variables compvars env ((message, done) ∷ items) = do
  v ← or_raise key_error (get compvars message)
  variables compvars (put env v done) items

unfoldable pub eval : Assoc String Bool → Completion → Result OutputError Bool
eval env (var v) = or_raise name_error (get env v)
eval env (both a b) = let other = eval env b in do x ← eval env a; if x then other else ok false
eval env (either a b) = let other = eval env b in do x ← eval env a; if x then ok true else other

-- `FINAL_OUTPUT_COMPLETION`
abbrev pub final_output_completion : Completion
final_output_completion =
    either (var "succeeded") (either (var "failed") (either (var "submit_failed") (var "expired")))

abbrev pub or_final : Option Completion → Completion
or_final none = final_output_completion
or_final (some e) = e

unfoldable pub is_complete : TaskOutputs → Result OutputError Bool
is_complete t = do
  env ← variables t.message_to_compvar [] t.completed
  eval env (or_final t.completion_expression)

abbrev pub implied_by : String → List String
implied_by message =
    if message == "succeeded" || message == "failed"
    then "submitted" ∷ "started" ∷ []
    else if message == "started"
    then "submitted" ∷ []
    else []

-- `not self.is_message_complete(message)`, also for a message of no output
abbrev pub is_incomplete : TaskOutputs → String → Bool
is_incomplete t message = elim (is_message_complete t message) [
  | none ↦ true
  | some done ↦ not done
]

unfoldable pub get_incomplete_implied : TaskOutputs → String → List String
unfolding is_message_complete
get_incomplete_implied t message = filter (is_incomplete t) (implied_by message)
