-- ===== src/Cycling/Integer/Prev.antt =====
-- `get_prev_point` of cylc/flow/cycling/integer.py.
use cylc_flow.Prelude.{
  ℕ, zero, suc, ◌<◌, ◌≡◌, refl, ◌∙◌, ap, inl, inr, Bool, true, false, not, Option, none, some, any,
  ◌==◌, string_eq, nat_eq, arith, Bool-cases, Option-cases,
}
use cylc_flow.Prelude.Result.{ok}
use cylc_flow.Prelude.Int.{ℤ, pos, ◌+ℤ◌, ◌≤ℤ◌, ◌<ℤ◌, int_eq, int_laws}
use cylc_flow.Cycling.Integer.{
  Base, Exclusions, IntegerSequence, Answer, step_of, within_stop, in_bounds, excluded,
  unless_excluded_or_none, get_point_in_bounds, is_valid, get_prev_point,
}
use cylc_flow.Cycling.Integer.Grid.{pos-==_zero}
use cylc_flow.Cycling.Integer.Next.{
  valid_on, valid_in, valid-not_excluded, valid_of, false_of, lt_of_ne, bounds_eq,
}
use cylc_flow.Cycling.Integer.Back.{prev_of, prev_lt, prev_on, prev_greatest}

-- The answer for the point before `point`: a valid point with none between, or none before it.
abbrev pub IsPrev : IntegerSequence → ℤ → Option ℤ → Type 0
IsPrev s point none = (r : ℤ) → r <ℤ point → is_valid s r ≡ false
IsPrev s point (some q) =
    (q <ℤ point) × (is_valid s q ≡ true) × ((r : ℤ) → q <ℤ r → r <ℤ point → is_valid s r ≡ false)

abbrev pub PrevAnswer : IntegerSequence → ℕ → ℤ → Type 0
PrevAnswer s fuel point = (a : Option ℤ) × (get_prev_point fuel s point ≡ ok a) × IsPrev s point a

-- No exclusion is a sequence with a step.
abbrev pub IsPlain : IntegerSequence → Type 0
IsPlain s =
    (e : Exclusions)
    → s.exclusions ≡ some e
    → any (λ seq. not (step_of seq.i_step == 0)) e.exclusion_sequences ≡ false

none_answered :
    (s : IntegerSequence) (again : ℤ → Answer)
    → IsPlain s
    → unless_excluded_or_none s again none ≡ ok none
none_answered s again plain = elim (Option-cases s.exclusions) [
  | inl n ↦ rw n refl
  | inr (e, q) ↦ rw q (rw (plain e q) refl)
]

excluded_or_none-eq :
    (s : IntegerSequence) (again : ℤ → Answer) (y : ℤ) (t : Bool)
    → excluded s y ≡ t
    → unless_excluded_or_none s again (some y) ≡ elim t [ true ↦ again y | false ↦ ok (some y) ]
excluded_or_none-eq s again y t e = ap (λ u. elim u [ true ↦ again y | false ↦ ok (some y) ]) e

get_prev_point-suc :
    (s : IntegerSequence) (n fuel : ℕ) (point : ℤ)
    → 0 < n
    → step_of s.i_step ≡ n
    → get_prev_point (suc fuel) s point
      ≡ unless_excluded_or_none s
          (get_prev_point fuel s)
          (get_point_in_bounds s (prev_of s.base n point))
unfolding get_prev_point
get_prev_point-suc s n fuel point h e = rw (e, pos-==_zero n h) refl

before_bounds :
    (b : Base) (point y r : ℤ)
    → within_stop b.p_stop point ≡ true
    → y <ℤ point
    → r ≤ℤ y
    → in_bounds b r ≡ true
    → in_bounds b y ≡ true
before_bounds b point y r within lt le inside = ground arith

within_before :
    (b : Base) (point y : ℤ)
    → within_stop b.p_stop point ≡ true
    → y <ℤ point
    → within_stop b.p_stop y ≡ true
within_before b point y within lt = ground arith

prev_after_excluded :
    (s : IntegerSequence) (y r : ℤ) → r ≤ℤ y → excluded s y ≡ true → is_valid s r ≡ true → r <ℤ y
prev_after_excluded s y r le ex v =
    lt_of_ne r y le (λ e. ground (arith, ex, ap (excluded s) e, valid-not_excluded s r v))

IsPrev-again :
    (s : IntegerSequence) (point y : ℤ) (a : Option ℤ)
    → y <ℤ point
    → ((r : ℤ) → r <ℤ point → is_valid s r ≡ true → r ≤ℤ y)
    → excluded s y ≡ true
    → IsPrev s y a
    → IsPrev s point a
IsPrev-again s point y none lt greatest ex none_before =
    λ r r_lt. false_of _ (λ v. none_before r (prev_after_excluded s y r (greatest r r_lt v) ex v))
IsPrev-again s point y (some q) lt greatest ex (q_y, q_valid, between) = (
  omega arith,
  q_valid,
  λ r q_r r_lt.
      false_of _ (λ v. between r q_r (prev_after_excluded s y r (greatest r r_lt v) ex v)),
)

prev_call :
    (s : IntegerSequence) (n fuel : ℕ) (point : ℤ)
    → 0 < n
    → step_of s.i_step ≡ n
    → IsPlain s
    → within_stop s.p_stop point ≡ true
    → (in_bounds s.base (prev_of s.base n point) ≡ true
        → PrevAnswer s fuel (prev_of s.base n point))
    → PrevAnswer s (suc fuel) point
prev_call s n fuel point h e plain within again =
    let y = prev_of s.base n point in
    let before = prev_lt s.base n point h in
    let greatest : (r : ℤ) → r <ℤ point → is_valid s r ≡ true → r ≤ℤ y =
      (λ r lt v. prev_greatest s.base n point r h e lt (valid_on s r v)) in
    let called = get_prev_point-suc s n fuel point h e in
    elim (Bool-cases (in_bounds s.base y)) [
      | inr out ↦ (
        none,
        called
            ∙ ap (unless_excluded_or_none s (get_prev_point fuel s)) (bounds_eq s y false out)
            ∙ none_answered s (get_prev_point fuel s) plain,
        λ r lt. false_of _ (λ v. absurd (
            ground (
              arith,
              before_bounds s.base point y r within before (greatest r lt v) (valid_in s r v),
              out,
            ))),
      )
      | inl inside ↦ elim (Bool-cases (excluded s y)) [
        | inr free ↦ (
          some y,
          called
              ∙ ap (unless_excluded_or_none s (get_prev_point fuel s)) (bounds_eq s y true inside)
              ∙ excluded_or_none-eq s (get_prev_point fuel s) y false free,
          (
            before,
            valid_of s y (prev_on s.base n point h e) inside free,
            λ r y_r r_lt. false_of _ (λ v. absurd (omega (arith, greatest r r_lt v))),
          ),
        )
        | inl ex ↦
            let (a, answer, is_prev) = again inside in
            (
              a,
              called
                  ∙ ap (unless_excluded_or_none s (get_prev_point fuel s))
                      (bounds_eq s y true inside)
                  ∙ excluded_or_none-eq s (get_prev_point fuel s) y true ex
                  ∙ answer,
              IsPrev-again s point y a before greatest ex is_prev,
            )
      ]
    ]

started : (b : Base) (y : ℤ) → in_bounds b y ≡ true → b.p_start ≤ℤ y
started b y inside = ground arith

-- With a step, no exclusion sequence with a step, and enough calls for the points back to the start,
-- `get_prev_point` from a point that is not past the stop returns: the valid point before it with no
-- valid point between, or `None` when no earlier point is valid.
pub get_prev_point-IsPrev :
    (s : IntegerSequence) (n fuel : ℕ) (point : ℤ)
    → 0 < n
    → step_of s.i_step ≡ n
    → IsPlain s
    → within_stop s.p_stop point ≡ true
    → point <ℤ s.p_start +ℤ pos (suc fuel)
    → (a : Option ℤ) × (get_prev_point (suc fuel) s point ≡ ok a) × IsPrev s point a
get_prev_point-IsPrev s n zero point h e plain within room =
    prev_call s n zero point h e plain within (λ inside.
      absurd (
        omega (int_laws, started s.base (prev_of s.base n point) inside, prev_lt s.base n point h)))
get_prev_point-IsPrev s n (suc fuel) point h e plain within room =
    prev_call s n (suc fuel) point h e plain within (λ inside.
      get_prev_point-IsPrev s n fuel (prev_of s.base n point) h e plain
        (within_before s.base point (prev_of s.base n point) within (prev_lt s.base n point h))
        (omega (int_laws, prev_lt s.base n point h)))
