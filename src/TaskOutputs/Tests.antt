-- ===== src/TaskOutputs/Tests.antt =====
-- The outputs of a task with a custom output.
use cylc_flow.Prelude.{
  ◌≡◌, refl, String, true, false, some, [], ◌∷◌, string_eq, nat_eq, String_discrete,
}
use cylc_flow.Prelude.Assoc.{get, put, has}
use cylc_flow.Prelude.Result.{ok}
use cylc_flow.Prelude.Int.{int_eq}
use cylc_flow.TaskOutputs.{
  Completion, TaskOutputs, Output, init, set_message_complete, set_trigger_complete, completed_from,
  get_completed_outputs, variables, eval, is_complete, get_incomplete_implied,
}
use cylc_flow.TaskOutputs.Monotone.{is_complete-set_message_complete}

abbrev fresh : TaskOutputs
fresh = record {
  message_to_trigger =
      ("submitted", "submitted") ∷ ("succeeded", "succeeded") ∷ ("the file is there", "file") ∷ [];
  message_to_compvar =
      ("submitted", "submitted") ∷ ("succeeded", "succeeded") ∷ ("the file is there", "file") ∷ [];
  completed = ("submitted", false) ∷ ("succeeded", false) ∷ ("the file is there", false) ∷ [];
  completion_expression =
      some (Completion.either (Completion.var "succeeded") (Completion.var "file"));
  forced = [];
}

abbrev of_name : String → Output
of_name name = record { trigger = name; compvar = name; message = name }

new_outputs :
    init (some (Completion.either (Completion.var "succeeded") (Completion.var "file"))) (
      of_name "submitted"
      ∷ of_name "succeeded"
      ∷ record { trigger = "file"; compvar = "file"; message = "the file is there" }
      ∷ [])
    ≡ fresh
unfolding init put String_discrete
new_outputs = refl

implied : get_incomplete_implied fresh "succeeded" ≡ "submitted" ∷ "started" ∷ []
unfolding get_incomplete_implied get String_discrete
implied = refl

by_trigger : (set_trigger_complete fresh "file" true).0.forced ≡ "the file is there" ∷ []
unfolding set_trigger_complete set_message_complete get put String_discrete
by_trigger = refl

abbrev filed : TaskOutputs
filed = record fresh {
  completed = ("submitted", false) ∷ ("succeeded", false) ∷ ("the file is there", true) ∷ [];
  forced = "the file is there" ∷ [];
}

is_filed : get_completed_outputs filed ≡ ok (("file", "(manually completed)") ∷ [])
unfolding get_completed_outputs completed_from get put String_discrete
is_filed = refl

incomplete : is_complete fresh ≡ ok false
unfolding is_complete variables eval get put String_discrete
incomplete = refl

is_complete-set_message_complete_example :
    is_complete (set_message_complete filed "submitted" false).0 ≡ ok true
unfolding is_complete variables eval has get put String_discrete
is_complete-set_message_complete_example =
    is_complete-set_message_complete filed "submitted" false
      (("submitted", false) ∷ ("succeeded", false) ∷ ("file", true) ∷ []) refl (refl, refl) refl
