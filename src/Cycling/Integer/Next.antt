-- ===== src/Cycling/Integer/Next.antt =====
-- `get_next_point` of cylc/flow/cycling/integer.py.
use cylc_flow.Prelude.{
  ℕ, zero, suc, ◌<◌, ◌≡◌, refl, ◌∙◌, ap, ◌≢◌, inl, inr, Bool, true, false, Option, none, some,
  if◌then◌else◌, string_eq, nat_eq, ltb→lt, arith, Bool-cases,
}
use cylc_flow.Prelude.Result.{ok}
use cylc_flow.Prelude.Int.{ℤ, pos, ◌+ℤ◌, ◌≤ℤ◌, ◌<ℤ◌, ltb_ℤ, int_eq, eq_of_parts, int_laws}
use cylc_flow.Cycling.Integer.{
  Base, IntegerSequence, Answer, step_of, on_sequence, in_bounds, excluded, unless_excluded,
  get_point_in_bounds, is_on_sequence, is_valid, get_next_point,
}
use cylc_flow.Cycling.Integer.Grid.{pos-==_zero, next_of, next_of-lt, next_of-on, next_of-least}

-- The answer for the next point of `point`: a valid point with none between, or none after `point`.
abbrev pub IsNext : IntegerSequence → ℤ → Option ℤ → Type 0
IsNext s point none = (r : ℤ) → point <ℤ r → is_valid s r ≡ false
IsNext s point (some q) =
    (point <ℤ q) × (is_valid s q ≡ true) × ((r : ℤ) → point <ℤ r → r <ℤ q → is_valid s r ≡ false)

pub valid_on : (s : IntegerSequence) (r : ℤ) → is_valid s r ≡ true → on_sequence s.base r ≡ true
unfolding is_valid is_on_sequence
valid_on s r h = ground arith

pub valid_in : (s : IntegerSequence) (r : ℤ) → is_valid s r ≡ true → in_bounds s.base r ≡ true
unfolding is_valid
valid_in s r h = ground arith

pub valid-not_excluded : (s : IntegerSequence) (r : ℤ) → is_valid s r ≡ true → excluded s r ≡ false
unfolding is_valid is_on_sequence
valid-not_excluded s r h = ground arith

pub valid_of :
    (s : IntegerSequence) (r : ℤ)
    → on_sequence s.base r ≡ true
    → in_bounds s.base r ≡ true
    → excluded s r ≡ false
    → is_valid s r ≡ true
unfolding is_valid is_on_sequence
valid_of s r on inside free = rw (free, on, inside) refl

pub false_of : (t : Bool) → (t ≡ true → t ≡ false) → t ≡ false
false_of true h = h refl
false_of false h = refl

pub in_bounds_mono :
    (b : Base) (y r : ℤ) → b.p_start ≤ℤ y → y ≤ℤ r → in_bounds b r ≡ true → in_bounds b y ≡ true
in_bounds_mono b y r started le inside = ground arith

pub lt_of_ne : (y r : ℤ) → y ≤ℤ r → y ≢ r → y <ℤ r
lt_of_ne y r le ne = elim (Bool-cases (ltb_ℤ y r)) [
  | inl t ↦ ltb→lt _ _ t
  | inr t ↦ absurd (ne (eq_of_parts y r (ground arith)))
]

-- Past the end: the next point is out of bounds, and so is what follows it.
IsNext-out :
    (s : IntegerSequence) (point y : ℤ)
    → s.p_start ≤ℤ point
    → point <ℤ y
    → ((r : ℤ) → point <ℤ r → is_valid s r ≡ true → y ≤ℤ r)
    → in_bounds s.base y ≡ false
    → IsNext s point none
IsNext-out s point y started lt least out r r_after = false_of _ (λ v. absurd (
    ground
      (arith, in_bounds_mono s.base y r (omega arith) (least r r_after v) (valid_in s r v), out)))

-- The next point is in bounds and not excluded.
IsNext-hit :
    (s : IntegerSequence) (point y : ℤ)
    → point <ℤ y
    → ((r : ℤ) → point <ℤ r → is_valid s r ≡ true → y ≤ℤ r)
    → is_valid s y ≡ true
    → IsNext s point (some y)
IsNext-hit s point y lt least v =
    (lt, v, λ r r_after r_before. false_of _ (λ w. absurd (omega (arith, least r r_after w))))

-- The next point is excluded: what follows it follows `point`.
pub after_excluded :
    (s : IntegerSequence) (point y r : ℤ)
    → ((r : ℤ) → point <ℤ r → is_valid s r ≡ true → y ≤ℤ r)
    → excluded s y ≡ true
    → point <ℤ r
    → is_valid s r ≡ true
    → y <ℤ r
after_excluded s point y r least ex lt v =
    lt_of_ne y r (least r lt v)
      (λ e. ground (arith, ex, ap (excluded s) e, valid-not_excluded s r v))

pub IsNext-again :
    (s : IntegerSequence) (point y : ℤ) (a : Option ℤ)
    → point <ℤ y
    → ((r : ℤ) → point <ℤ r → is_valid s r ≡ true → y ≤ℤ r)
    → excluded s y ≡ true
    → IsNext s y a
    → IsNext s point a
IsNext-again s point y none lt least ex none_after =
    λ r r_after. false_of _ (λ v. none_after r (after_excluded s point y r least ex r_after v))
IsNext-again s point y (some q) lt least ex (y_q, q_valid, between) = (
  omega arith,
  q_valid,
  λ r r_after r_before.
      false_of _ (λ v. between r (after_excluded s point y r least ex r_after v) r_before),
)

pub get_next_point-suc :
    (s : IntegerSequence) (n fuel : ℕ) (point : ℤ)
    → 0 < n
    → step_of s.i_step ≡ n
    → get_next_point (suc fuel) s point
      ≡ unless_excluded s (get_next_point fuel s) (get_point_in_bounds s (next_of s.base n point))
unfolding get_next_point
get_next_point-suc s n fuel point h e = rw (e, pos-==_zero n h) refl

pub bounds_eq :
    (s : IntegerSequence) (y : ℤ) (t : Bool)
    → in_bounds s.base y ≡ t
    → get_point_in_bounds s y ≡ (if t then some y else none)
unfolding get_point_in_bounds
bounds_eq s y t e = rw e refl

pub stop_room :
    (s : IntegerSequence) (stop y : ℤ)
    → s.p_stop ≡ some stop
    → in_bounds s.base y ≡ true
    → y ≤ℤ stop
stop_room s stop y e inside = ground arith

pub unless_excluded-eq :
    (s : IntegerSequence) (again : ℤ → Answer) (y : ℤ) (t : Bool)
    → excluded s y ≡ t
    → unless_excluded s again (some y) ≡ elim t [ true ↦ again y | false ↦ ok (some y) ]
unless_excluded-eq s again y t e = ap (λ u. elim u [ true ↦ again y | false ↦ ok (some y) ]) e

abbrev pub NextAnswer : IntegerSequence → ℕ → ℤ → Type 0
NextAnswer s fuel point = (a : Option ℤ) × (get_next_point fuel s point ≡ ok a) × IsNext s point a

-- One call, given the answer of the call that it makes from an excluded point.
next_call :
    (s : IntegerSequence) (n fuel : ℕ) (point : ℤ)
    → 0 < n
    → step_of s.i_step ≡ n
    → s.p_start ≤ℤ point
    → (in_bounds s.base (next_of s.base n point) ≡ true
        → NextAnswer s fuel (next_of s.base n point))
    → NextAnswer s (suc fuel) point
next_call s n fuel point h e started again =
    let y = next_of s.base n point in
    let after = next_of-lt s.base n point h in
    let least : (r : ℤ) → point <ℤ r → is_valid s r ≡ true → y ≤ℤ r =
      (λ r lt v. next_of-least s.base n point r h e lt (valid_on s r v)) in
    let called = get_next_point-suc s n fuel point h e in
    elim (Bool-cases (in_bounds s.base y)) [
      | inr out ↦ (
        none,
        called ∙ rw (bounds_eq s y false out) refl,
        IsNext-out s point y started after least out,
      )
      | inl inside ↦ elim (Bool-cases (excluded s y)) [
        | inr free ↦ (
          some y,
          called
              ∙ ap (unless_excluded s (get_next_point fuel s)) (bounds_eq s y true inside)
              ∙ unless_excluded-eq s (get_next_point fuel s) y false free,
          IsNext-hit s point y after least
              (valid_of s y (next_of-on s.base n point h e) inside free),
        )
        | inl ex ↦
            let (a, answer, is_next) = again inside in
            (
              a,
              called
                  ∙ ap (unless_excluded s (get_next_point fuel s)) (bounds_eq s y true inside)
                  ∙ unless_excluded-eq s (get_next_point fuel s) y true ex
                  ∙ answer,
              IsNext-again s point y a after least ex is_next,
            )
      ]
    ]

-- With a step and an end, and enough calls for the points up to the end, `get_next_point` from a
-- point that is not before the start returns: the next valid point with no valid point between, or
-- `None` when no later point is valid.
pub get_next_point-IsNext :
    (s : IntegerSequence) (n fuel : ℕ) (stop point : ℤ)
    → 0 < n
    → step_of s.i_step ≡ n
    → s.p_stop ≡ some stop
    → s.p_start ≤ℤ point
    → stop <ℤ point +ℤ pos (suc fuel)
    → (a : Option ℤ) × (get_next_point (suc fuel) s point ≡ ok a) × IsNext s point a
get_next_point-IsNext s n zero stop point h e ends started room =
    next_call s n zero point h e started (λ inside. absurd (
      omega (
        int_laws,
        stop_room s stop (next_of s.base n point) ends inside,
        next_of-lt s.base n point h,
      )))
get_next_point-IsNext s n (suc fuel) stop point h e ends started room =
    next_call s n (suc fuel) point h e started (λ inside.
      get_next_point-IsNext s n fuel stop (next_of s.base n point) h e ends
        (omega (arith, next_of-lt s.base n point h))
        (omega (
          int_laws,
          stop_room s stop (next_of s.base n point) ends inside,
          next_of-lt s.base n point h,
        )))
