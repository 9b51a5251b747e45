-- ===== src/Prerequisite/Tests.antt =====
-- A prerequisite of three outputs, `1/a & (1/b | 1/c)`.
use cylc_flow.Prelude.{
  ◌≡◌, refl, String, Bool, true, false, some, [], ◌∷◌, contains, IsNodup, string_eq, nat_eq,
}
use cylc_flow.Prelude.Assoc.{keys, get, put, has}
use cylc_flow.Prelude.Result.{ok, err}
use mathlib.Core.Option
use cylc_flow.Prerequisite.{
  PrereqTuple, PrereqTuple_discrete, prereq_tuple_eq, satisfied_state, satisfied_by_skip_mode,
  unsatisfied, state, skip, Expr, raw, all_of, any_of, trigger_expression_error, Prerequisite, init,
  set_item, get_item, set_conditional_expr, eval_satisfied, is_satisfied, satisfy_me,
}
use cylc_flow.Prerequisite.Reach.{Reach, Step, is_satisfied-eval}
use cylc_flow.Prerequisite.Effects.{after, get-satisfy_me}

abbrev dep : String → PrereqTuple
dep task = record { point = "1"; task = task; output = "succeeded" }

abbrev condition : Expr
condition = all_of (raw (dep "a")) (any_of (raw (dep "b")) (raw (dep "c")))

abbrev registered : Prerequisite
registered =
    set_item
      (set_item (set_item (init "1") (dep "a") (state unsatisfied)) (dep "b") (state unsatisfied))
      (dep "c") (state unsatisfied)

abbrev p : Prerequisite
p = set_conditional_expr registered condition

abbrev p_ac : Prerequisite
p_ac = satisfy_me p (dep "a" ∷ dep "c" ∷ dep "z" ∷ []) (some skip) false

waiting : (is_satisfied p).1 ≡ ok false
unfolding is_satisfied eval_satisfied set_conditional_expr set_item init put get has
    PrereqTuple_discrete
waiting = refl

satisfied_by_two : (is_satisfied p_ac).1 ≡ ok true
unfolding is_satisfied eval_satisfied set_conditional_expr set_item init put get has
    PrereqTuple_discrete satisfy_me
satisfied_by_two = refl

skipped : get_item p_ac (dep "c") ≡ ok satisfied_by_skip_mode
unfolding get_item eval_satisfied set_conditional_expr set_item init put get has
    PrereqTuple_discrete satisfy_me
skipped = refl

-- An output that is not registered leaves text that is no Python.
unregistered :
    (is_satisfied (set_conditional_expr registered (any_of (raw (dep "a")) (raw (dep "z"))))).1
    ≡ err trigger_expression_error
unfolding is_satisfied eval_satisfied set_conditional_expr set_item init put get has
    PrereqTuple_discrete
unregistered = refl

p-Reach : Reach (init "1") (is_satisfied p).0
p-Reach =
    Reach.next
      (Reach.next
        (Reach.next
          (Reach.next
            (Reach.next Reach.here (Step.set_item_step (init "1") (dep "a") (state unsatisfied)))
            (Step.set_item_step _ (dep "b") (state unsatisfied)))
          (Step.set_item_step _ (dep "c") (state unsatisfied)))
        (Step.conditional_step registered condition))
      (Step.query_step p)

is_satisfied-eval_example :
    ((is_satisfied (is_satisfied p).0).1 ≡ eval_satisfied (is_satisfied p).0)
    × ((b : Bool)
        → (is_satisfied (is_satisfied p).0).0.cached_satisfied ≡ some b
        → eval_satisfied (is_satisfied p).0 ≡ ok b)
unfolding is_satisfied eval_satisfied set_conditional_expr set_item init put get has
    PrereqTuple_discrete
is_satisfied-eval_example = is_satisfied-eval "1" (is_satisfied p).0 p-Reach refl

get-satisfy_me_example :
    get p_ac.satisfied (dep "c")
    ≡ Option.map
        (after
          (satisfied_state false (some skip))
          (contains (dep "a" ∷ dep "c" ∷ dep "z" ∷ []) (dep "c")))
        (get p.satisfied (dep "c"))
get-satisfy_me_example =
    get-satisfy_me (some skip) false p (dep "a" ∷ dep "c" ∷ dep "z" ∷ []) (dep "c")

keys-IsNodup : IsNodup (keys p_ac.satisfied)
unfolding set_conditional_expr set_item init put get has PrereqTuple_discrete satisfy_me
keys-IsNodup = (refl, (refl, (refl, tt)))
