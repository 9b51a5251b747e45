-- ===== src/TaskPool/Integer.antt =====
-- The recurrences of integer cycling increase, as the runahead limit takes them to.
use cylc_flow.Prelude.{
  ℕ, zero, suc, ◌<◌, ◌≡◌, sym, ◌∙◌, ap, subst, inl, inr, true, false, Option, none, some, string_eq,
  nat_eq, arith, Bool-cases,
}
use cylc_flow.Prelude.Result.{ok, err}
use cylc_flow.Prelude.Int.{ℤ, ◌<ℤ◌, int_eq}
use cylc_flow.Cycling.Integer.{
  IntegerSequence, Answer, step_of, excluded, unless_excluded, in_bounds, get_point_in_bounds,
  get_next_point, get_first_point,
}
use cylc_flow.Cycling.Integer.Grid.{next_of, next_of-lt}
use cylc_flow.Cycling.Integer.Next.{get_next_point-suc, bounds_eq, unless_excluded-eq}
use cylc_flow.TaskPool.{Sequence}
use cylc_flow.TaskPool.Runahead.{IsIncreasing}

abbrev pub point_of : Answer → Option ℤ
point_of (err e) = none
point_of (ok point) = point

-- A recurrence of the pool. A method that raises has no point here.
abbrev pub of_integer : ℕ → IntegerSequence → Sequence
of_integer fuel s = record {
  get_first_point = λ point. point_of (get_first_point fuel s point);
  get_next_point = λ point. point_of (get_next_point fuel s point);
}

IsBefore : ℤ → Answer → Type 0
IsBefore p a = (q : ℤ) → point_of a ≡ some q → p <ℤ q

some_after : (p r q : ℤ) → p <ℤ r → some r ≡ some q → p <ℤ q
some_after p r q h e = let e' : r ≡ q = cc in subst (λ t. p <ℤ t) e' h

after_both : (p r q : ℤ) → p <ℤ r → r <ℤ q → p <ℤ q
after_both p r q h k = omega arith

unless_excluded-IsBefore :
    (s : IntegerSequence) (again : ℤ → Answer) (p r : ℤ)
    → p <ℤ r
    → ((t : ℤ) → IsBefore t (again t))
    → IsBefore p (unless_excluded s again (get_point_in_bounds s r))
unfolding IsBefore
unless_excluded-IsBefore s again p r h k q e = elim (Bool-cases (in_bounds s.base r)) [
  | inr out ↦
      let e' = sym (ap (λ o. point_of (unless_excluded s again o)) (bounds_eq s r false out)) ∙ e in
      absurd (ground (arith, e'))
  | inl inside ↦
      let e' =
        sym (ap (λ o. point_of (unless_excluded s again o)) (bounds_eq s r true inside)) ∙ e in
      elim (Bool-cases (excluded s r)) [
        | inl ex ↦
            after_both p r q h
              (k r q (sym (ap point_of (unless_excluded-eq s again r true ex)) ∙ e'))
        | inr free ↦
            some_after p r q h (sym (ap point_of (unless_excluded-eq s again r false free)) ∙ e')
      ]
]

get_next_point-IsBefore :
    (s : IntegerSequence) (n fuel : ℕ) (p : ℤ)
    → 0 < n
    → step_of s.i_step ≡ n
    → IsBefore p (get_next_point fuel s p)
unfolding IsBefore get_next_point
get_next_point-IsBefore s n zero p h e q k = absurd (ground arith)
get_next_point-IsBefore s n (suc fuel) p h e q k =
    unless_excluded-IsBefore s (get_next_point fuel s) p (next_of s.base n p)
      (next_of-lt s.base n p h) (λ t. get_next_point-IsBefore s n fuel t h e) q
      (sym (ap point_of (get_next_point-suc s n fuel p h e)) ∙ k)

pub of_integer-IsIncreasing :
    (s : IntegerSequence) (n fuel : ℕ)
    → 0 < n
    → step_of s.i_step ≡ n
    → IsIncreasing (of_integer fuel s)
unfolding IsBefore
of_integer-IsIncreasing s n fuel h e = record {
  next = λ p q k. get_next_point-IsBefore s n fuel p h e q k;
}
