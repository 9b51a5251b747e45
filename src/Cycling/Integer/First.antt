-- ===== src/Cycling/Integer/First.antt =====
-- `get_next_point_on_sequence` and `get_first_point` of cylc/flow/cycling/integer.py.
use cylc_flow.Prelude.{
  ℕ, zero, suc, ◌<◌, ◌≡◌, refl, sym, ◌∙◌, ap, inl, inr, true, false, Option, none, some, string_eq,
  nat_eq, eq_of_==, leb→le, arith, Bool-cases,
}
use cylc_flow.Prelude.Result.{ok, ◌>>=◌}
use cylc_flow.Prelude.Int.{ℤ, pos, ◌+ℤ◌, ◌-ℤ◌, ◌≤ℤ◌, ◌<ℤ◌, leb_ℤ, emod, int_eq, int_laws}
use cylc_flow.Cycling.Integer.{
  Base, IntegerSequence, Answer, step_of, on_sequence, in_bounds, excluded, unless_excluded,
  get_point_in_bounds, is_on_sequence, is_valid, get_next_point, get_next_point_on_sequence,
  get_first_point,
}
use cylc_flow.Cycling.Integer.Grid.{pos-==_zero, next_of, next_of-on, on_sequence-emod, emod_self}
use cylc_flow.Cycling.Integer.Next.{
  IsNext, valid_in, valid-not_excluded, valid_of, false_of, in_bounds_mono, lt_of_ne, bounds_eq,
  unless_excluded-eq, get_next_point-suc, get_next_point-IsNext,
}

on-next_of :
    (b : Base) (n : ℕ) (point : ℤ)
    → 0 < n
    → step_of b.i_step ≡ n
    → on_sequence b point ≡ true
    → point +ℤ pos n ≡ next_of b n point
on-next_of b n point h e on =
    omega (
      int_laws,
      eq_of_== (emod (point -ℤ b.p_start) n) 0 (sym (on_sequence-emod b n point h e) ∙ on),
    )

get_next_point_on_sequence-suc :
    (s : IntegerSequence) (n fuel : ℕ) (point : ℤ)
    → 0 < n
    → step_of s.i_step ≡ n
    → get_next_point_on_sequence (suc fuel) s point
      ≡ unless_excluded s
          (get_next_point_on_sequence fuel s)
          (get_point_in_bounds s (point +ℤ pos n))
unfolding get_next_point_on_sequence
get_next_point_on_sequence-suc s n fuel point h e = rw (e, pos-==_zero n h) refl

unless_excluded-ap :
    (s : IntegerSequence) (f g : ℤ → Answer) (y : ℤ)
    → f y ≡ g y
    → unless_excluded s f (get_point_in_bounds s y) ≡ unless_excluded s g (get_point_in_bounds s y)
unless_excluded-ap s f g y e = elim (Bool-cases (in_bounds s.base y)) [
  | inl inside ↦
      rw (bounds_eq s y true inside)
        (ap (λ z. elim (excluded s y) [ true ↦ z | false ↦ ok (some y) ]) e)
  | inr out ↦ rw (bounds_eq s y false out) refl
]

no_calls :
    (s : IntegerSequence) (point : ℤ)
    → get_next_point_on_sequence 0 s point ≡ get_next_point 0 s point
unfolding get_next_point_on_sequence get_next_point
no_calls s point = refl

-- On a sequence with a step, `get_next_point_on_sequence`, which adds the step and takes no
-- remainder, gives the same as `get_next_point` from every point that is on the sequence.
get_next_point_on_sequence-eq :
    (s : IntegerSequence) (n fuel : ℕ) (point : ℤ)
    → 0 < n
    → step_of s.i_step ≡ n
    → on_sequence s.base point ≡ true
    → get_next_point_on_sequence fuel s point ≡ get_next_point fuel s point
get_next_point_on_sequence-eq s n zero point h e on = no_calls s point
get_next_point_on_sequence-eq s n (suc fuel) point h e on =
    get_next_point_on_sequence-suc s n fuel point h e
    ∙ ap (λ y. unless_excluded s (get_next_point_on_sequence fuel s) (get_point_in_bounds s y))
        (on-next_of s.base n point h e on)
    ∙ unless_excluded-ap s (get_next_point_on_sequence fuel s) (get_next_point fuel s)
        (next_of s.base n point)
        (get_next_point_on_sequence-eq s n fuel (next_of s.base n point) h e
          (next_of-on s.base n point h e))
    ∙ sym (get_next_point-suc s n fuel point h e)

-- The answer for the first point from `point` on.
abbrev pub IsFirst : IntegerSequence → ℤ → Option ℤ → Type 0
IsFirst s point none = (r : ℤ) → point ≤ℤ r → is_valid s r ≡ false
IsFirst s point (some q) =
    (point ≤ℤ q) × (is_valid s q ≡ true) × ((r : ℤ) → point ≤ℤ r → r <ℤ q → is_valid s r ≡ false)

excluded-not_valid :
    (s : IntegerSequence) (point : ℤ) → excluded s point ≡ true → is_valid s point ≡ false
unfolding is_valid is_on_sequence
excluded-not_valid s point ex = rw ex refl

-- The next valid point after one that is itself not valid is the first from it on.
IsFirst-of_next :
    (s : IntegerSequence) (point : ℤ) (a : Option ℤ)
    → is_valid s point ≡ false
    → IsNext s point a
    → IsFirst s point a
IsFirst-of_next s point none v none_after = λ r le.
    false_of _
      (λ w. none_after r (lt_of_ne point r le (λ e. ground (arith, v, w, ap (is_valid s) e))))
IsFirst-of_next s point (some q) v (lt, q_valid, between) = (
  omega arith,
  q_valid,
  λ r le before.
      false_of _ (λ w.
        between r (lt_of_ne point r le (λ e. ground (arith, v, w, ap (is_valid s) e))) before),
)

-- What lies before the start is not valid.
IsFirst-of_start :
    (s : IntegerSequence) (point : ℤ) (a : Option ℤ)
    → point ≤ℤ s.p_start
    → IsFirst s s.p_start a
    → IsFirst s point a
IsFirst-of_start s point none le none_from =
    λ r r_le. false_of _ (λ w. none_from r (ground (arith, valid_in s r w)))
IsFirst-of_start s point (some q) le (q_le, q_valid, before) = (
  omega arith,
  q_valid,
  λ r r_le r_lt. false_of _ (λ w. before r (ground (arith, valid_in s r w)) r_lt),
)

on-start : (b : Base) (n : ℕ) → 0 < n → step_of b.i_step ≡ n → on_sequence b b.p_start ≡ true
on-start b n h e = on_sequence-emod b n b.p_start h e ∙ emod_self b.p_start n

-- The last step of `get_first_point`: past `point` when it is excluded.
abbrev first_from : ℕ → IntegerSequence → ℤ → Answer
first_from fuel s point =
    unless_excluded s (get_next_point_on_sequence fuel s) (get_point_in_bounds s point)

-- From a point of the sequence.
first_from-IsFirst :
    (s : IntegerSequence) (n fuel : ℕ) (stop point : ℤ)
    → 0 < n
    → step_of s.i_step ≡ n
    → s.p_stop ≡ some stop
    → s.p_start ≤ℤ point
    → stop <ℤ point +ℤ pos (suc fuel)
    → on_sequence s.base point ≡ true
    → (a : Option ℤ) × (first_from (suc fuel) s point ≡ ok a) × IsFirst s point a
first_from-IsFirst s n fuel stop point h e ends started room on =
    elim (Bool-cases (in_bounds s.base point)) [
      | inr out ↦ (
        none,
        rw (bounds_eq s point false out) refl,
        λ r le. false_of _ (λ w.
            absurd
              (ground (arith, in_bounds_mono s.base point r started le (valid_in s r w), out))),
      )
      | inl inside ↦ elim (Bool-cases (excluded s point)) [
        | inr free ↦ (
          some point,
          ap (unless_excluded s (get_next_point_on_sequence (suc fuel) s))
                (bounds_eq s point true inside)
              ∙ unless_excluded-eq s (get_next_point_on_sequence (suc fuel) s) point false free,
          (omega arith, valid_of s point on inside free, λ r le before. absurd (omega arith)),
        )
        | inl ex ↦
            let (a, answer, is_next) =
              get_next_point-IsNext s n fuel stop point h e ends started room in
            (
              a,
              ap (unless_excluded s (get_next_point_on_sequence (suc fuel) s))
                    (bounds_eq s point true inside)
                  ∙ unless_excluded-eq s (get_next_point_on_sequence (suc fuel) s) point true ex
                  ∙ get_next_point_on_sequence-eq s n (suc fuel) point h e on
                  ∙ answer,
              IsFirst-of_next s point a (excluded-not_valid s point ex) is_next,
            )
      ]
    ]

room_later :
    (point start stop : ℤ) (fuel : ℕ)
    → point ≤ℤ start
    → stop <ℤ point +ℤ pos fuel
    → stop <ℤ start +ℤ pos fuel
room_later point start stop fuel le room = omega int_laws

before-start :
    (fuel : ℕ) (s : IntegerSequence) (point : ℤ)
    → leb_ℤ point s.p_start ≡ true
    → get_first_point fuel s point ≡ first_from fuel s s.p_start
unfolding get_first_point
before-start fuel s point t = rw t refl

on-point :
    (fuel : ℕ) (s : IntegerSequence) (point : ℤ)
    → leb_ℤ point s.p_start ≡ false
    → is_on_sequence s point ≡ true
    → get_first_point fuel s point ≡ first_from fuel s point
unfolding get_first_point
on-point fuel s point t on = rw (t, on) refl

off-point :
    (fuel : ℕ) (s : IntegerSequence) (point : ℤ)
    → leb_ℤ point s.p_start ≡ false
    → is_on_sequence s point ≡ false
    → get_first_point fuel s point
      ≡ (get_next_point fuel s point >>= unless_excluded s (get_next_point_on_sequence fuel s))
unfolding get_first_point
off-point fuel s point t off = rw (t, off) refl

-- A valid answer stays.
keep_next :
    (s : IntegerSequence) (again : ℤ → Answer) (point : ℤ) (a : Option ℤ)
    → IsNext s point a
    → unless_excluded s again a ≡ ok a
keep_next s again point none is_next = refl
keep_next s again point (some q) (lt, q_valid, between) =
    unless_excluded-eq s again q false (valid-not_excluded s q q_valid)

on_of_is_on :
    (s : IntegerSequence) (point : ℤ)
    → is_on_sequence s point ≡ true
    → on_sequence s.base point ≡ true
unfolding is_on_sequence
on_of_is_on s point on = ground arith

off-not_valid :
    (s : IntegerSequence) (point : ℤ) → is_on_sequence s point ≡ false → is_valid s point ≡ false
unfolding is_valid
off-not_valid s point off = rw off refl

-- With a step and an end, and enough calls for the points up to the end, `get_first_point` of any
-- point returns: the valid point at or after it with no valid point between, or `None` when no valid
-- point is at or after it.
pub get_first_point-IsFirst :
    (s : IntegerSequence) (n fuel : ℕ) (stop point : ℤ)
    → 0 < n
    → step_of s.i_step ≡ n
    → s.p_stop ≡ some stop
    → stop <ℤ point +ℤ pos (suc fuel)
    → (a : Option ℤ) × (get_first_point (suc fuel) s point ≡ ok a) × IsFirst s point a
get_first_point-IsFirst s n fuel stop point h e ends room =
    elim (Bool-cases (leb_ℤ point s.p_start)) [
      | inl before ↦
          let (a, answer, first) =
            first_from-IsFirst s n fuel stop s.p_start h e ends (omega arith)
              (room_later point s.p_start stop (suc fuel) (leb→le _ _ before) room)
              (on-start s.base n h e) in
          (
            a,
            before-start (suc fuel) s point before ∙ answer,
            IsFirst-of_start s point a (leb→le _ _ before) first,
          )
      | inr started ↦ elim (Bool-cases (is_on_sequence s point)) [
        | inl on ↦
            let (a, answer, first) =
              first_from-IsFirst s n fuel stop point h e ends (ground arith) room
                (on_of_is_on s point on) in
            (a, on-point (suc fuel) s point started on ∙ answer, first)
        | inr off ↦
            let (a, answer, is_next) =
              get_next_point-IsNext s n fuel stop point h e ends (ground arith) room in
            (
              a,
              off-point (suc fuel) s point started off
                  ∙ ap (λ x. x >>= unless_excluded s (get_next_point_on_sequence (suc fuel) s))
                      answer
                  ∙ keep_next s (get_next_point_on_sequence (suc fuel) s) point a is_next,
              IsFirst-of_next s point a (off-not_valid s point off) is_next,
            )
      ]
    ]
