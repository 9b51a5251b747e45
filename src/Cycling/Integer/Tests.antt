-- ===== src/Cycling/Integer/Tests.antt =====
-- Runs of the sequences of cylc/flow/cycling/integer.py.
use cylc_flow.Prelude.{
  ◌≡◌, refl, subst, false, not, Option, none, some, List, [], ◌∷◌, any, ◌==◌, string_eq, nat_eq,
  ℕ_discrete, arith,
}
use cylc_flow.Prelude.Result.{ok, err}
use cylc_flow.Prelude.Int.{ℤ, pos, negsuc, ◌+ℤ◌, ◌-ℤ◌, emod, ℤ_discrete, int_eq}
use cylc_flow.Cycling.Integer.{
  Base, Exclusions, IntegerSequence, type_error, step_of, on_sequence, is_excluded,
  get_point_in_bounds, is_on_sequence, get_next_point, get_next_point_on_sequence, get_first_point,
  get_prev_point, get_start_point, get_stop_point, scan_prev, get_nearest_prev_point,
}
use cylc_flow.Cycling.Integer.Next.{IsNext, get_next_point-IsNext}
use cylc_flow.Cycling.Integer.Prev.{IsPrev, get_prev_point-IsPrev}
use cylc_flow.Cycling.Integer.First.{IsFirst, get_first_point-IsFirst}

abbrev every_sixth : Base
every_sixth = record { p_start = pos 1; p_stop = none; i_step = some 6 }

abbrev evens : Base
evens = record { p_start = pos 2; p_stop = none; i_step = some 2 }

-- `R/-2/P3` to 10, less 4 and each sixth point from 1: -2, (1), (4), (7), 10
abbrev thirds : IntegerSequence
thirds = record {
  base = record { p_start = negsuc 1; p_stop = some (pos 10); i_step = some 3 };
  exclusions =
      some (record { exclusion_points = pos 4 ∷ []; exclusion_sequences = every_sixth ∷ [] });
}

-- Every day from 1 on, without the even ones.
abbrev odds : IntegerSequence
odds = record {
  base = record { p_start = pos 1; p_stop = none; i_step = some 1 };
  exclusions = some (record { exclusion_points = []; exclusion_sequences = evens ∷ [] });
}

next_thirds : get_next_point 20 thirds (pos 0) ≡ ok (some (pos 10))
unfolding get_next_point get_point_in_bounds is_excluded on_sequence ◌+ℤ◌ ◌-ℤ◌ emod ℕ_discrete
    ℤ_discrete
next_thirds = refl

first_thirds : get_first_point 20 thirds (negsuc 0) ≡ ok (some (pos 10))
unfolding get_first_point get_next_point_on_sequence is_on_sequence get_next_point
    get_point_in_bounds is_excluded on_sequence ◌+ℤ◌ ◌-ℤ◌ emod ℕ_discrete ℤ_discrete
first_thirds = refl

prev_odds : get_prev_point 20 odds (pos 5) ≡ ok (some (pos 3))
unfolding get_prev_point get_point_in_bounds is_excluded on_sequence ◌+ℤ◌ ◌-ℤ◌ emod ℕ_discrete
    ℤ_discrete
prev_odds = refl

-- Before the first point there is none, and `None` meets the exclusion sequence.
prev_of_start : get_prev_point 20 odds (pos 1) ≡ err type_error
unfolding get_prev_point get_point_in_bounds is_excluded on_sequence ◌+ℤ◌ ◌-ℤ◌ emod ℕ_discrete
    ℤ_discrete
prev_of_start = refl

nearest_thirds : get_nearest_prev_point 20 20 thirds (pos 9) ≡ ok (some (negsuc 1))
unfolding get_nearest_prev_point scan_prev is_on_sequence get_next_point get_prev_point
    get_point_in_bounds is_excluded on_sequence ◌+ℤ◌ ◌-ℤ◌ emod ℕ_discrete ℤ_discrete
nearest_thirds = refl

start_and_stop :
    (get_start_point 20 odds ≡ ok (some (pos 1))) × (get_stop_point 20 odds ≡ err type_error)
unfolding get_start_point get_stop_point is_excluded on_sequence ◌+ℤ◌ ◌-ℤ◌ emod ℕ_discrete
    ℤ_discrete
start_and_stop = (refl, refl)

get_next_point-IsNext_example :
    (a : Option ℤ) × (get_next_point 20 thirds (pos 0) ≡ ok a) × IsNext thirds (pos 0) a
unfolding ◌+ℤ◌
get_next_point-IsNext_example =
    get_next_point-IsNext thirds 3 19 (pos 10) (pos 0) (omega arith) refl refl (omega arith)
      (omega arith)

get_first_point-IsFirst_example :
    (a : Option ℤ) × (get_first_point 20 thirds (negsuc 4) ≡ ok a) × IsFirst thirds (negsuc 4) a
unfolding ◌+ℤ◌
get_first_point-IsFirst_example =
    get_first_point-IsFirst thirds 3 19 (pos 10) (negsuc 4) (omega arith) refl refl (omega arith)

-- `R/-2/P3` to 10, less 4.
abbrev less_four : IntegerSequence
less_four = record {
  base = record { p_start = negsuc 1; p_stop = some (pos 10); i_step = some 3 };
  exclusions = some (record { exclusion_points = pos 4 ∷ []; exclusion_sequences = [] });
}

sequences_of : Option Exclusions → List Base
sequences_of none = []
sequences_of (some e) = e.exclusion_sequences

no_steps :
    (e : Exclusions)
    → less_four.exclusions ≡ some e
    → any (λ seq. not (step_of seq.i_step == 0)) e.exclusion_sequences ≡ false
unfolding sequences_of
no_steps e h =
    subst (λ o. any (λ seq. not (step_of seq.i_step == 0)) (sequences_of o) ≡ false) h refl

get_prev_point-IsPrev_example :
    (a : Option ℤ) × (get_prev_point 20 less_four (pos 7) ≡ ok a) × IsPrev less_four (pos 7) a
unfolding ◌+ℤ◌
get_prev_point-IsPrev_example =
    get_prev_point-IsPrev less_four 3 19 (pos 7) (omega arith) refl no_steps refl (omega arith)
