-- ===== src/Prerequisite.antt =====
-- cylc/flow/prerequisite.py: the left-hand side of a graph arrow, with its cached state.
-- A conditional expression is its parse tree. `set_conditional_expr` replaces by text the messages of
-- the registered outputs; a message that is not registered stays (`raw`), and is no Python, so that
-- `eval` raises. A message has no `|` in it. Python's `&` and `|` evaluate both sides.
pub mod Monotone
pub mod Coherence
pub mod Reach
pub mod Effects
mod Tests
use cylc_flow.Prelude.{
  ℕ, zero, suc, ◌+◌, ◌-◌, ◌*◌, ◌/◌, ◌%◌, ◌≤◌, ◌<◌, ◌≡◌, refl, sym, ◌∙◌, ap, subst, ◌≢◌, ◌↔◌, ◌⊎◌,
  inl, inr, String, Bool, true, false, not, ◌&&◌, ◌||◌, Option, none, some, List, [], ◌∷◌, ◌++◌,
  map, any, all, filter, contains, IsNodup, length, All, All-mono, All-append, contains-append,
  length-append, if◌then◌else◌, ◌==◌, Eq, is_yes, string_eq, nat_eq, String_discrete, ℕ_discrete,
  eq_refl, eq_of_==, ltb, leb, ltb→lt, leb→le, arith, Bool-cases, Option-cases, List-cases,
}
use cylc_flow.Prelude.Assoc.{
  Assoc, keys, get, put, has, get-put, has-put, has_of_get, get-none, get-some, All_get,
}
use cylc_flow.Prelude.Result.{Result, ok, err, ◌>>=◌, traverse, or_raise, >>=-eq-ok}
use Prim.Native.String.{◌++◌ as str_append}

pub record PrereqTuple : Type 0 where
  pub point : String
  pub task : String
  pub output : String

unfoldable pub PrereqTuple_discrete : Discrete PrereqTuple
unfolding String_discrete
PrereqTuple_discrete = hlevel String_discrete

instance abbrev pub prereq_tuple_eq : Eq PrereqTuple
prereq_tuple_eq = record { dec = PrereqTuple_discrete }

-- `quick_relative_id` of cylc/flow/id.py, without a selector
unfoldable pub quick_relative_id : String → String → String
quick_relative_id cycle task = str_append cycle (str_append "/" task)

unfoldable pub get_id : PrereqTuple → String
unfolding quick_relative_id
get_id t = quick_relative_id t.point t.task

pub data SatisfiedState : Type 0 where
  satisfied_naturally satisfied_from_database satisfied_by_skip_mode force_satisfied :
      SatisfiedState
  unsatisfied : SatisfiedState

-- Python's truth of a state: the last one is `False`, the others are texts.
abbrev pub truthy : SatisfiedState → Bool
truthy unsatisfied = false
truthy _ = true

-- What `__setitem__` takes: a state, or `True`.
pub data Value : Type 0 where
  true_value : Value
  state : SatisfiedState → Value

abbrev pub to_state : Value → SatisfiedState
to_state true_value = satisfied_naturally
to_state (state s) = s

pub data RunMode : Type 0 where
  live simulation dummy skip : RunMode

pub data Expr : Type 0 where
  -- `1/foo succeeded`
  raw : PrereqTuple → Expr
  -- `bool(self._satisfied[("1", "foo", "succeeded")])`
  lookup : PrereqTuple → Expr
  all_of any_of : Expr → Expr → Expr

pub data PrereqError : Type 0 where
  key_error trigger_expression_error : PrereqError

abbrev pub Satisfied : Type 0
Satisfied = Assoc PrereqTuple SatisfiedState

pub record Prerequisite : Type 0 where
  pub point : String
  pub satisfied : Satisfied
  pub conditional_expression : Option Expr
  pub cached_satisfied : Option Bool

unfoldable pub init : String → Prerequisite
init point = record {
  point = point;
  satisfied = [];
  conditional_expression = none;
  cached_satisfied = none;
}

-- `__getitem__`
unfoldable pub get_item : Prerequisite → PrereqTuple → Result PrereqError SatisfiedState
unfolding get
get_item p key = or_raise key_error (get p.satisfied key)

abbrev pub is_true : Option Bool → Bool
is_true none = false
is_true (some b) = b

-- `__setitem__`
unfoldable pub set_item : Prerequisite → PrereqTuple → Value → Prerequisite
set_item p key value = record p {
  satisfied = put p.satisfied key (to_state value);
  cached_satisfied =
      if is_true p.cached_satisfied && truthy (to_state value) then p.cached_satisfied else none;
}

abbrev pub has_or : Expr → Bool
has_or (raw t) = false
has_or (lookup t) = false
has_or (all_of a b) = has_or a || has_or b
has_or (any_of a b) = true

abbrev pub substitute : Satisfied → Expr → Expr
substitute d (raw t) = if has d t then lookup t else raw t
substitute d (lookup t) = lookup t
substitute d (all_of a b) = all_of (substitute d a) (substitute d b)
substitute d (any_of a b) = any_of (substitute d a) (substitute d b)

unfoldable pub set_conditional_expr : Prerequisite → Expr → Prerequisite
set_conditional_expr p expr = record p {
  cached_satisfied = none;
  conditional_expression =
      if has_or expr then some (substitute p.satisfied expr) else p.conditional_expression;
}

abbrev pub has_raw : Expr → Bool
has_raw (raw t) = true
has_raw (lookup t) = false
has_raw (all_of a b) = has_raw a || has_raw b
has_raw (any_of a b) = has_raw a || has_raw b

unfoldable pub eval : Satisfied → Expr → Result PrereqError Bool
eval d (raw t) = err trigger_expression_error
eval d (lookup t) = do s ← or_raise key_error (get d t); ok (truthy s)
eval d (all_of a b) = do x ← eval d a; y ← eval d b; ok (x && y)
eval d (any_of a b) = do x ← eval d a; y ← eval d b; ok (x || y)

-- A text that is no Python is refused before any of it is evaluated.
abbrev pub eval_conditional : Satisfied → Expr → Result PrereqError Bool
eval_conditional d e = if has_raw e then err trigger_expression_error else eval d e

abbrev pub all_satisfied : Satisfied → Bool
all_satisfied [] = true
all_satisfied ((k, s) ∷ d) = truthy s && all_satisfied d

abbrev pub eval_with : Satisfied → Option Expr → Result PrereqError Bool
eval_with d none = ok (all_satisfied d)
eval_with d (some e) = eval_conditional d e

-- `_eval_satisfied`
unfoldable pub eval_satisfied : Prerequisite → Result PrereqError Bool
unfolding eval
eval_satisfied p = eval_with p.satisfied p.conditional_expression

abbrev pub is_empty : Satisfied → Bool
is_empty [] = true
is_empty (x ∷ d) = false

-- An exception leaves the cache as it was.
abbrev pub cache : Prerequisite → Result PrereqError Bool → Prerequisite × Result PrereqError Bool
cache p (ok b) = (record p { cached_satisfied = some b }, ok b)
cache p (err e) = (p, err e)

unfoldable pub is_satisfied : Prerequisite → Prerequisite × Result PrereqError Bool
is_satisfied p = elim p.cached_satisfied [
  | some b ↦ (p, ok b)
  | none ↦ if is_empty p.satisfied then (p, ok true) else cache p (eval_satisfied p)
]

abbrev pub satisfied_state : Bool → Option RunMode → SatisfiedState
satisfied_state true mode = force_satisfied
satisfied_state false (some skip) = satisfied_by_skip_mode
satisfied_state false _ = satisfied_naturally

-- The body of the loop of `satisfy_me`.
unfoldable pub satisfy_one : Option RunMode → Bool → Prerequisite → PrereqTuple → Prerequisite
unfolding set_item
satisfy_one mode forced p output = elim (get p.satisfied output) [
  | none ↦ p
  | some s ↦ if truthy s then p else set_item p output (state (satisfied_state forced mode))
]

unfoldable pub satisfy_me : Prerequisite → List PrereqTuple → Option RunMode → Bool → Prerequisite
unfolding satisfy_one
satisfy_me p [] mode forced = p
satisfy_me p (output ∷ outputs) mode forced =
    satisfy_me (satisfy_one mode forced p output) outputs mode forced

abbrev pub force_all : Satisfied → Satisfied
force_all [] = []
force_all ((k, s) ∷ d) = (k, if truthy s then s else force_satisfied) ∷ force_all d

-- The last branch of `set_satisfied`, on the conditional expression.
abbrev pub set_satisfied_from : Prerequisite → Option Expr → Prerequisite × Result PrereqError Bool
set_satisfied_from forced (some e) = cache forced (eval_satisfied forced)
set_satisfied_from forced none = (record forced { cached_satisfied = some true }, ok true)

unfoldable pub set_satisfied : Prerequisite → Prerequisite × Result PrereqError Bool
set_satisfied p =
    let forced : Prerequisite = record p { satisfied = force_all p.satisfied } in
    set_satisfied_from forced p.conditional_expression

abbrev pub is_natural : SatisfiedState → Bool
is_natural unsatisfied = false
is_natural force_satisfied = false
is_natural _ = true

-- The loop of `unset_naturally_satisfied` over the items.
unfoldable pub unset_items : String → Prerequisite → Satisfied → Prerequisite × Bool
unfolding set_item
unset_items id p [] = (p, false)
unset_items id p ((k, s) ∷ items) =
    let matches = get_id k == id && is_natural s in
    let (p', changed) =
      unset_items id (if matches then set_item p k (state unsatisfied) else p) items in
    (p', matches || changed)

unfoldable pub unset_naturally_satisfied : Prerequisite → String → Prerequisite × Bool
unfolding unset_items get_id
unset_naturally_satisfied p id = unset_items id p p.satisfied
