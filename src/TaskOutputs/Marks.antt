-- ===== src/TaskOutputs/Marks.antt =====
-- What setting a message complete does to the messages, and the implied outputs.
use cylc_flow.Prelude.{
  ◌≡◌, refl, ◌∙◌, ap, ◌≢◌, inl, inr, String, Bool, true, false, not, Option, none, some, [], ◌∷◌,
  ◌++◌, if◌then◌else◌, ◌==◌, string_eq, nat_eq, eq_of_==, arith, Bool-cases, Option-cases,
}
use cylc_flow.Prelude.Assoc.{Assoc, get, put, get-put}
use cylc_flow.Prelude.Int.{int_eq}
use mathlib.Core.Option
use cylc_flow.TaskOutputs.{TaskOutputs, set_message_complete, is_message_complete}

kept :
    (d : Assoc String Bool) (message m : String) (o : Option Bool)
    → get d message ≡ o
    → o ≡ Option.map (λ b. true) o
    → get d m ≡ (if m == message then Option.map (λ b. true) (get d m) else get d m)
kept d message m o e same = elim (Bool-cases (m == message)) [
  | inl h ↦ let q = ap (get d) (eq_of_== m message h) ∙ e in rw h (rw q same)
  | inr h ↦ rw h refl
]

marked :
    (d : Assoc String Bool) (message m : String) (b : Bool)
    → get d message ≡ some b
    → get (put d message true) m
      ≡ (if m == message then Option.map (λ b. true) (get d m) else get d m)
marked d message m b e = get-put d message m true ∙ elim (Bool-cases (m == message)) [
  | inl h ↦ let q = ap (get d) (eq_of_== m message h) ∙ e in rw h (rw q refl)
  | inr h ↦ rw h refl
]

-- `set_message_complete` answers `None` for a message of no output, else whether the output was
-- incomplete. After it the message is complete, if it is of an output, and all other messages are as
-- they were. When it answers yes, a forced message is recorded as such, and only then.
set_message_complete_lem :
    (t : TaskOutputs) (message : String) (forced : Bool)
    → let (t', answer) = set_message_complete t message forced in
      (answer ≡ Option.map not (is_message_complete t message))
      × ((m : String)
          → is_message_complete t' m ≡ (
              if m == message
              then Option.map (λ b. true) (is_message_complete t m)
              else is_message_complete t m))
      × (answer ≡ some true → t'.forced ≡ (if forced then t.forced ++ message ∷ [] else t.forced))
      × (answer ≢ some true → t' ≡ t)
unfolding set_message_complete is_message_complete
set_message_complete_lem t message forced = elim (Option-cases (get t.completed message)) [
  | inl e ↦
      rw (e, set_message_complete)
        (refl, λ m. kept t.completed message m none e refl, λ h. absurd (ground arith), λ h. refl)
  | inr (true, e) ↦
      rw (e, set_message_complete)
        (
          refl,
          λ m. kept t.completed message m (some true) e refl,
          λ h. absurd (ground arith),
          λ h. refl,
        )
  | inr (false, e) ↦
      rw (e, set_message_complete)
        (refl, λ m. marked t.completed message m false e, λ h. refl, λ h. absurd (h refl))
]
