-- ===== src/TaskPool/Limit.antt =====
-- The runahead limit: `compute_runahead` and `set_max_future_offset`.
use cylc_flow.Prelude.{
  ℕ, zero, suc, Bool, true, false, not, ◌&&◌, ◌||◌, Option, none, some, List, [], ◌∷◌, all,
  if◌then◌else◌, ◌==◌, string_eq, nat_eq,
}
use cylc_flow.Prelude.Assoc.{Assoc}
use cylc_flow.Prelude.Int.{ℤ, ◌+ℤ◌, ltb_ℤ, leb_ℤ, int_eq}
use cylc_flow.TaskState.{failed, task_status_eq}
use cylc_flow.TaskPool.{Sequence, Config, TaskProxy, TaskPool, get_tasks}

-- `min` of points, with a default of `None`
unfoldable pub min_point : List ℤ → Option ℤ
min_point [] = none
min_point (p ∷ ps) = elim (min_point ps) [
  | none ↦ some p
  | some q ↦ some (if leb_ℤ p q then p else q)
]

unfoldable pub first_points : List Sequence → ℤ → List ℤ
first_points [] start = []
first_points (seq ∷ seqs) start = elim (seq.get_first_point start) [
  | none ↦ first_points seqs start
  | some point ↦ point ∷ first_points seqs start
]

-- The points of the pool, without those that Cylc 7 leaves out since all of their tasks failed.
unfoldable pub unfinished_points : Bool → Assoc ℤ (List TaskProxy) → List ℤ
unfinished_points back_compat [] = []
unfinished_points back_compat ((point, itasks) ∷ d) =
    let later = unfinished_points back_compat d in
    if back_compat && all (λ (t : TaskProxy). t.state.status == failed) itasks
    then later
    else point ∷ later

-- The base point of `compute_runahead`: the first of the sorted points is their minimum.
unfoldable pub runahead_base_point : Config → TaskPool → Option ℤ
unfolding min_point first_points unfinished_points
runahead_base_point config pool = elim pool.active_tasks [
  | [] ↦ min_point (first_points config.sequences config.start_point)
  | x ∷ d ↦ min_point (unfinished_points config.cylc7_back_compat (x ∷ d))
]

-- `sequence_points.add`
unfoldable pub add_point : ℤ → List ℤ → List ℤ
add_point p [] = p ∷ []
add_point p (q ∷ qs) =
    let later = add_point p qs in
    if ltb_ℤ p q then p ∷ q ∷ qs else if p == q then q ∷ qs else q ∷ later

-- The `while` loop over the points of a sequence, as long as the count allows.
unfoldable pub add_points : ℕ → Sequence → Option ℤ → List ℤ → List ℤ
unfolding add_point
add_points zero seq point points = points
add_points (suc left) seq none points = points
add_points (suc left) seq (some point) points =
    add_points left seq (seq.get_next_point point) (add_point point points)

unfoldable pub sequence_points : List Sequence → ℕ → ℤ → List ℤ → List ℤ
unfolding add_points
sequence_points [] limit base points = points
sequence_points (seq ∷ seqs) limit base points =
    sequence_points seqs limit base (add_points (suc limit) seq (seq.get_first_point base) points)

unfoldable pub take : ℕ → List ℤ → List ℤ
take zero points = []
take (suc n) [] = []
take (suc n) (p ∷ points) = p ∷ take n points

-- `points[-1]`, or the default with none
unfoldable pub last : ℤ → List ℤ → ℤ
last d [] = d
last d (p ∷ points) = last p points

-- `sorted(sequence_points)[:ilimit + 1][-1]`
unfoldable pub unadjusted_limit : ℤ → ℕ → List ℤ → ℤ
unfolding take last
unadjusted_limit base limit points = last base (take (suc limit) points)

abbrev pub plus_offset : Option ℤ → ℤ → ℤ
plus_offset none limit_point = limit_point
plus_offset (some offset) limit_point = limit_point +ℤ offset

abbrev pub at_most : Option ℤ → ℤ → ℤ
at_most none limit_point = limit_point
at_most (some stop_point) limit_point =
    if ltb_ℤ stop_point limit_point then stop_point else limit_point

-- `self.runahead_limit_point == self.stop_point`
abbrev pub same_point : ℤ → Option ℤ → Bool
same_point point none = false
same_point point (some other) = point == other

-- The limit has been computed, and need not be computed again.
abbrev pub is_up_to_date : TaskPool → ℤ → ℤ → Bool
is_up_to_date pool base prev = elim pool.runahead_limit_point [
  | none ↦ false
  | some limit ↦ base == prev || same_point limit pool.stop_point
]

abbrev pub is_nonempty : List ℤ → Bool
is_nonempty [] = false
is_nonempty (p ∷ points) = true

abbrev pub or_else : Option ℤ → ℤ → ℤ
or_else none base = base
or_else (some prev) base = prev

-- `compute_runahead` once the base point is known.
unfoldable pub compute_from : Config → Bool → ℤ → TaskPool → TaskPool × Bool
unfolding sequence_points unadjusted_limit
compute_from config force base pool =
    let prev = or_else pool.prev_runahead_base_point base in
    let kept = not force && is_nonempty pool.prev_runahead_sequence_points && base == prev in
    let points =
      if kept
      then pool.prev_runahead_sequence_points
      else sequence_points config.sequences config.runahead_limit base [] in
    let limit_point = unadjusted_limit base config.runahead_limit points in
    if not force && is_up_to_date pool base prev
    then (record pool { prev_runahead_base_point = some prev }, false)
    else (
      record pool {
        prev_runahead_base_point = some base;
        prev_runahead_sequence_points = points;
        runahead_limit_point =
            some (at_most pool.stop_point (plus_offset pool.max_future_offset limit_point));
      },
      true,
    )

-- The answer is whether the limit was computed.
unfoldable pub compute_runahead : Config → Bool → TaskPool → TaskPool × Bool
unfolding runahead_base_point compute_from
compute_runahead config force pool = elim (runahead_base_point config pool) [
  | none ↦ (pool, false)
  | some base ↦ compute_from config force base pool
]

abbrev pub larger : Option ℤ → Option ℤ → Option ℤ
larger none m = m
larger (some offset) none = some offset
larger (some offset) (some m) = some (if ltb_ℤ m offset then offset else m)

unfoldable pub max_offset : Option ℤ → List TaskProxy → Option ℤ
max_offset m [] = m
max_offset m (itask ∷ itasks) = max_offset (larger itask.max_future_prereq_offset m) itasks

abbrev pub same_offset : Option ℤ → Option ℤ → Bool
same_offset none none = true
same_offset (some a) (some b) = a == b
same_offset _ _ = false

unfoldable pub set_max_future_offset : Config → TaskPool → TaskPool
unfolding max_offset get_tasks compute_runahead
set_max_future_offset config pool =
    let offset = max_offset none (get_tasks pool) in
    let pool' : TaskPool = record pool { max_future_offset = offset } in
    if same_offset offset pool.max_future_offset
    then pool'
    else (compute_runahead config true pool').0
