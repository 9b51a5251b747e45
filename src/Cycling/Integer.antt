-- ===== src/Cycling/Integer.antt =====
-- cylc/flow/cycling/integer.py with the exclusions of cylc/flow/cycling/__init__.py.
-- A point or an interval is its integer. An interval of a built sequence is not negative, as the
-- constructor sees to, and `if self.i_step` holds when it is not 0. A recurrence is what the regular
-- expressions of RECURRENCE_FORMAT_RECS take out of its text.
-- The methods that call themselves after an excluded point take fuel, and so does a `while` loop.
pub mod Grid
pub mod Next
pub mod First
pub mod Back
pub mod Prev
mod Tests
use cylc_flow.Prelude.{
  ℕ, zero, suc, ◌+◌, ◌-◌, ◌*◌, ◌/◌, ◌%◌, ◌≤◌, ◌<◌, ◌≡◌, refl, sym, ◌∙◌, ap, subst, ◌≢◌, ◌↔◌, ◌⊎◌,
  inl, inr, String, Bool, true, false, not, ◌&&◌, ◌||◌, Option, none, some, List, [], ◌∷◌, ◌++◌,
  map, any, all, filter, contains, IsNodup, length, All, All-mono, All-append, contains-append,
  length-append, if◌then◌else◌, ◌==◌, Eq, is_yes, string_eq, nat_eq, String_discrete, ℕ_discrete,
  eq_refl, eq_of_==, ltb, leb, ltb→lt, leb→le, arith, Bool-cases, Option-cases, List-cases,
}
use cylc_flow.Prelude.Assoc.{
  Assoc, keys, get, put, has, get-put, has-put, has_of_get, get-none, get-some, All_get,
}
use cylc_flow.Prelude.Result.{Result, ok, err, ◌>>=◌, traverse, or_raise, >>=-eq-ok}
use cylc_flow.Prelude.Int.{
  ℤ, pos, negsuc, pos_part, neg_part, sub_ℕ, ◌+ℤ◌, ◌-ℤ◌, ◌*ℤ◌, ◌≤ℤ◌, ◌<ℤ◌, ltb_ℤ, leb_ℤ, emod,
  ℤ_discrete, int_eq, +ℤ_parts, -ℤ_parts, eq_of_parts, int_laws, emod-add, emod-lt,
}

pub data SequenceError : Type 0 where
  -- Python's `TypeError` for an operation on `None`
  type_error : SequenceError
  recursion_error : SequenceError

-- A sequence without its exclusions.
pub record Base : Type 0 where
  pub p_start : ℤ
  pub p_stop : Option ℤ
  pub i_step : Option ℕ

pub record Exclusions : Type 0 where
  pub exclusion_points : List ℤ
  pub exclusion_sequences : List Base

pub record IntegerSequence : Type 0 where
  pub base : Base
  pub open base use *
  pub exclusions : Option Exclusions

-- `int(self.i_step)`, 0 for `None`
abbrev pub step_of : Option ℕ → ℕ
step_of none = 0
step_of (some n) = n

abbrev pub within_stop : Option ℤ → ℤ → Bool
within_stop none point = true
within_stop (some stop) point = leb_ℤ point stop

-- `is_on_sequence`, with no exclusions
unfoldable pub on_sequence : Base → ℤ → Bool
on_sequence s point =
    if step_of s.i_step == 0
    then point == s.p_start
    else emod (point -ℤ s.p_start) (step_of s.i_step) == 0

abbrev pub in_bounds : Base → ℤ → Bool
in_bounds s point = leb_ℤ s.p_start point && within_stop s.p_stop point

-- `is_valid`, with no exclusions
abbrev pub base_is_valid : Base → ℤ → Bool
base_is_valid s point = on_sequence s point && in_bounds s point

-- `ExclusionBase.__contains__`
unfoldable pub is_excluded : Exclusions → ℤ → Bool
unfolding on_sequence
is_excluded e point =
    contains e.exclusion_points point || any (λ seq. base_is_valid seq point) e.exclusion_sequences

-- `self.exclusions and point in self.exclusions`
abbrev pub excluded : IntegerSequence → ℤ → Bool
excluded s point = elim s.exclusions [ none ↦ false | some e ↦ is_excluded e point ]

unfoldable pub get_interval : IntegerSequence → Option ℕ
get_interval s = s.i_step

unfoldable pub is_on_sequence : IntegerSequence → ℤ → Bool
is_on_sequence s point = if excluded s point then false else on_sequence s.base point

-- `_get_point_in_bounds`
unfoldable pub get_point_in_bounds : IntegerSequence → ℤ → Option ℤ
get_point_in_bounds s point = if in_bounds s.base point then some point else none

unfoldable pub is_valid : IntegerSequence → ℤ → Bool
is_valid s point = is_on_sequence s point && in_bounds s.base point

abbrev pub Answer : Type 0
Answer = Result SequenceError (Option ℤ)

-- `if self.exclusions and ret and ret in self.exclusions: return again(ret)`, else `return ret`
abbrev pub unless_excluded : IntegerSequence → (ℤ → Answer) → Option ℤ → Answer
unless_excluded s again none = ok none
unless_excluded s again (some ret) = elim (excluded s ret) [
  | true ↦ again ret
  | false ↦ ok (some ret)
]

-- The same test without `and ret`: for `None` the exclusion sequences compute `None - p_start`.
abbrev pub unless_excluded_or_none : IntegerSequence → (ℤ → Answer) → Option ℤ → Answer
unless_excluded_or_none s again none = elim s.exclusions [
  | none ↦ ok none
  | some e ↦
      if any (λ seq. not (step_of seq.i_step == 0)) e.exclusion_sequences
      then err type_error
      else ok none
]
unless_excluded_or_none s again (some ret) = elim (excluded s ret) [
  | true ↦ again ret
  | false ↦ ok (some ret)
]

unfoldable pub get_prev_point : ℕ → IntegerSequence → ℤ → Answer
get_prev_point zero s point = err recursion_error
get_prev_point (suc fuel) s point =
    let step = step_of s.i_step in
    let i = emod (point -ℤ s.p_start) step in
    let prev_point = if i == 0 then point -ℤ pos step else point -ℤ pos i in
    let ret =
      unless_excluded_or_none s (get_prev_point fuel s) (get_point_in_bounds s prev_point) in
    if step == 0 then ok none else ret

unfoldable pub get_next_point : ℕ → IntegerSequence → ℤ → Answer
get_next_point zero s point = err recursion_error
get_next_point (suc fuel) s point =
    let step = step_of s.i_step in
    let i = emod (point -ℤ s.p_start) step in
    let next_point = point +ℤ pos step -ℤ pos i in
    let ret = unless_excluded s (get_next_point fuel s) (get_point_in_bounds s next_point) in
    if step == 0 then ok (if ltb_ℤ point s.p_start then some s.p_start else none) else ret

unfoldable pub get_next_point_on_sequence : ℕ → IntegerSequence → ℤ → Answer
get_next_point_on_sequence zero s point = err recursion_error
get_next_point_on_sequence (suc fuel) s point =
    let step = step_of s.i_step in
    let ret =
      unless_excluded s (get_next_point_on_sequence fuel s)
        (get_point_in_bounds s (point +ℤ pos step)) in
    if step == 0 then ok none else ret

unfoldable pub get_first_point : ℕ → IntegerSequence → ℤ → Answer
get_first_point fuel s point = do
  first ←
      (if leb_ℤ point s.p_start
        then ok (get_point_in_bounds s s.p_start)
        else if is_on_sequence s point
        then ok (get_point_in_bounds s point)
        else get_next_point fuel s point)
  unless_excluded s (get_next_point_on_sequence fuel s) first

unfoldable pub get_start_point : ℕ → IntegerSequence → Answer
get_start_point fuel s = unless_excluded s (get_next_point_on_sequence fuel s) (some s.p_start)

unfoldable pub get_stop_point : ℕ → IntegerSequence → Answer
get_stop_point fuel s = unless_excluded_or_none s (get_prev_point fuel s) s.p_stop

-- The `while` loop of `get_nearest_prev_point`.
unfoldable pub scan_prev : ℕ → ℕ → IntegerSequence → ℤ → Option ℤ → Option ℤ → Answer
scan_prev zero depth s point prev_point sequence_point = err recursion_error
scan_prev (suc rounds) depth s point prev_point none = ok prev_point
scan_prev (suc rounds) depth s point prev_point (some sequence_point) =
    let rest : Answer = (do
      next ← get_next_point depth s sequence_point
      scan_prev rounds depth s point (some sequence_point) next) in
    if ltb_ℤ point sequence_point then ok prev_point else rest

unfoldable pub get_nearest_prev_point : ℕ → ℕ → IntegerSequence → ℤ → Answer
get_nearest_prev_point zero depth s point = err recursion_error
get_nearest_prev_point (suc fuel) depth s point =
    let scanned : Answer = (do
      prev_point ← scan_prev depth depth s point none (get_point_in_bounds s s.p_start)
      unless_excluded_or_none s (get_nearest_prev_point fuel depth s) prev_point) in
    let on_it : Answer = get_prev_point depth s point in
    if is_on_sequence s point then on_it else scanned
