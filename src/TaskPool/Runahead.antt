-- ===== src/TaskPool/Runahead.antt =====
-- The runahead limit admits as many cycle points as the configuration says.
use cylc_flow.Prelude.{
  get_elem?, ℕ, zero, suc, ◌≤◌, ◌<◌, ◌≡◌, refl, sym, ◌∙◌, ap, subst, ◌⊎◌, inl, inr, Bool, true,
  Option, none, some, List, [], ◌∷◌, length, All, string_eq, nat_eq, leb, leb→le, arith, Bool-cases,
}
use cylc_flow.Prelude.Int.{ℤ, ◌≤ℤ◌, ◌<ℤ◌, int_eq}
use cylc_flow.TaskPool.{Sequence, Config, TaskPool}
use cylc_flow.TaskPool.Limit.{
  add_point, add_points, sequence_points, take, unadjusted_limit, plus_offset, at_most,
  runahead_base_point, compute_from, compute_runahead,
}
use cylc_flow.TaskPool.Points.{
  IsAfter, IsAscending, IsIn, AreIn, count_before, add_point-IsAscending, add_point-IsIn,
  add_point_lem, count_before-length, take-IsIn, last-take,
}

-- The next point of a recurrence is a later one.
pub record IsIncreasing (seq : Sequence) : Type 0 where
  pub next : (p q : ℤ) → seq.get_next_point p ≡ some q → p <ℤ q

-- A point that the recurrence comes to, from a first one.
pub data IsPoint (seq : Sequence) : Option ℤ → ℤ → Type 0 where
  here : {first : Option ℤ} {p : ℤ} → first ≡ some p → IsPoint seq first p
  later :
      {first : Option ℤ} {p q : ℤ}
      → first ≡ some q
      → IsPoint seq (seq.get_next_point q) p
      → IsPoint seq first p

-- The first points of a recurrence.
abbrev pub run : ℕ → Sequence → Option ℤ → List ℤ
run zero seq point = []
run (suc n) seq none = []
run (suc n) seq (some p) = p ∷ run n seq (seq.get_next_point p)

abbrev pub IsBeforeAll : ℤ → Option ℤ → Type 0
IsBeforeAll q point = (r : ℤ) → point ≡ some r → q <ℤ r

trans_lt : (a b c : ℤ) → a <ℤ b → b <ℤ c → a <ℤ c
trans_lt a b c h k = omega arith

next_after :
    (seq : Sequence) (q p : ℤ) → IsIncreasing seq → q <ℤ p → IsBeforeAll q (seq.get_next_point p)
next_after seq q p inc h r e = trans_lt q p r h (inc.next p r e)

run-All :
    (n : ℕ) (seq : Sequence) (q : ℤ) (point : Option ℤ)
    → IsIncreasing seq
    → IsBeforeAll q point
    → All (IsAfter q) (run n seq point)
run-All zero seq q point inc h = tt
run-All (suc n) seq q none inc h = tt
run-All (suc n) seq q (some p) inc h =
    (h p refl, run-All n seq q (seq.get_next_point p) inc (next_after seq q p inc (h p refl)))

run-IsAscending :
    (n : ℕ) (seq : Sequence) (point : Option ℤ) → IsIncreasing seq → IsAscending (run n seq point)
run-IsAscending zero seq point inc = tt
run-IsAscending (suc n) seq none inc = tt
run-IsAscending (suc n) seq (some p) inc = (
  run-All n seq p (seq.get_next_point p) inc (inc.next p),
  run-IsAscending n seq (seq.get_next_point p) inc,
)

IsPoint-after :
    {seq : Sequence} {point : Option ℤ} {p : ℤ} (q : ℤ)
    → IsIncreasing seq
    → IsPoint seq point p
    → IsBeforeAll q point
    → q <ℤ p
IsPoint-after {seq} {point} {p} q inc (here e) h = h p e
IsPoint-after {seq} {point} {p} q inc (later {q = r} e i) h =
    IsPoint-after q inc i (next_after seq q r inc (h r e))

-- A point of a recurrence is among the first `n`, or after `n` others.
reached :
    {seq : Sequence} {point : Option ℤ} {p : ℤ} (n : ℕ)
    → IsIncreasing seq
    → IsPoint seq point p
    → IsIn p (run n seq point)
      ⊎ ((length (run n seq point) ≡ n) × All (λ q. q <ℤ p) (run n seq point))
reached zero inc i = inr (refl, tt)
reached {seq} {point} {p} (suc n) inc (here e) = rw e (inl (inl refl))
reached {seq} {point} {p} (suc n) inc (later {q = q} e i) = rw e (elim (reached n inc i) [
  | inl k ↦ inl (inr k)
  | inr (l, a) ↦ inr (ap suc l, (IsPoint-after q inc i (inc.next q), a))
])

add_points-IsAscending :
    (n : ℕ) (seq : Sequence) (point : Option ℤ) (ps : List ℤ)
    → IsAscending ps
    → IsAscending (add_points n seq point ps)
unfolding add_points
add_points-IsAscending zero seq point ps a = a
add_points-IsAscending (suc n) seq none ps a = a
add_points-IsAscending (suc n) seq (some p) ps a =
    add_points-IsAscending n seq (seq.get_next_point p) (add_point p ps)
      (add_point-IsAscending p ps a)

add_points-IsIn :
    (n : ℕ) (seq : Sequence) (point : Option ℤ) (ps : List ℤ) (r : ℤ)
    → IsIn r ps
    → IsIn r (add_points n seq point ps)
unfolding add_points
add_points-IsIn zero seq point ps r h = h
add_points-IsIn (suc n) seq none ps r h = h
add_points-IsIn (suc n) seq (some p) ps r h =
    add_points-IsIn n seq (seq.get_next_point p) (add_point p ps) r (add_point-IsIn p r ps h)

add_points_lem :
    (n : ℕ) (seq : Sequence) (point : Option ℤ) (ps : List ℤ) (r : ℤ)
    → IsIn r (run n seq point)
    → IsIn r (add_points n seq point ps)
unfolding add_points
add_points_lem zero seq point ps r h = absurd h
add_points_lem (suc n) seq none ps r h = absurd h
add_points_lem (suc n) seq (some p) ps r (inl e) =
    add_points-IsIn n seq (seq.get_next_point p) (add_point p ps) r
      (subst (λ t. IsIn t (add_point p ps)) (sym e) (add_point_lem p ps))
add_points_lem (suc n) seq (some p) ps r (inr h) =
    add_points_lem n seq (seq.get_next_point p) (add_point p ps) r h

sequence_points-IsAscending :
    (seqs : List Sequence) (limit : ℕ) (base : ℤ) (ps : List ℤ)
    → IsAscending ps
    → IsAscending (sequence_points seqs limit base ps)
unfolding sequence_points
sequence_points-IsAscending [] limit base ps a = a
sequence_points-IsAscending (seq ∷ seqs) limit base ps a =
    sequence_points-IsAscending seqs limit base _
      (add_points-IsAscending (suc limit) seq (seq.get_first_point base) ps a)

sequence_points-IsIn :
    (seqs : List Sequence) (limit : ℕ) (base : ℤ) (ps : List ℤ) (r : ℤ)
    → IsIn r ps
    → IsIn r (sequence_points seqs limit base ps)
unfolding sequence_points
sequence_points-IsIn [] limit base ps r h = h
sequence_points-IsIn (seq ∷ seqs) limit base ps r h =
    sequence_points-IsIn seqs limit base _ r
      (add_points-IsIn (suc limit) seq (seq.get_first_point base) ps r h)

sequence_points_lem :
    (seqs : List Sequence) (limit : ℕ) (base : ℤ) (ps : List ℤ) (k : ℕ) (seq : Sequence) (r : ℤ)
    → get_elem? seqs k ≡ some seq
    → IsIn r (run (suc limit) seq (seq.get_first_point base))
    → IsIn r (sequence_points seqs limit base ps)
unfolding sequence_points
sequence_points_lem [] limit base ps k seq r e h = absurd (ground arith)
sequence_points_lem (x ∷ seqs) limit base ps zero seq r e h =
    let e' : x ≡ seq = cc in
    sequence_points-IsIn seqs limit base _ r (
      add_points_lem (suc limit) x (x.get_first_point base) ps r
        (subst (λ (s : Sequence). IsIn r (run (suc limit) s (s.get_first_point base))) (sym e') h))
sequence_points_lem (x ∷ seqs) limit base ps (suc k) seq r e h =
    sequence_points_lem seqs limit base _ k seq r e h

AreIn-run :
    (p : ℤ) (qs ps : List ℤ)
    → ((q : ℤ) → IsIn q qs → IsIn q ps)
    → All (λ q. q <ℤ p) qs
    → AreIn p qs ps
AreIn-run p [] ps h a = tt
AreIn-run p (q ∷ qs) ps h (a, b) = ((h q (inl refl), a), AreIn-run p qs ps (λ r i. h r (inr i)) b)

pub length-take : (n : ℕ) (ps : List ℤ) → length (take n ps) ≤ n
unfolding take
length-take zero ps = omega arith
length-take (suc n) [] = omega arith
length-take (suc n) (p ∷ ps) = omega (arith, length-take n ps)

leb_or_lt : (m n : ℕ) → (m ≤ n) ⊎ (n < m)
leb_or_lt m n = elim (Bool-cases (leb m n)) [
  | inl e ↦ inl (leb→le m n e)
  | inr e ↦ inr (ground arith)
]

beyond : (p q : ℤ) → p ≤ℤ q → q <ℤ p → ⊥
beyond p q h k = omega arith

-- A point that is not after the unadjusted limit is among the first points.
admitted :
    (config : Config) (base : ℤ) (k : ℕ) (seq : Sequence) (p : ℤ)
    → get_elem? config.sequences k ≡ some seq
    → IsIncreasing seq
    → IsPoint seq (seq.get_first_point base) p
    → let points = sequence_points config.sequences config.runahead_limit base [] in
      p ≤ℤ unadjusted_limit base config.runahead_limit points
      → IsIn p (take (suc config.runahead_limit) points)
unfolding unadjusted_limit
admitted config base k seq p found inc i h =
    let n = config.runahead_limit in
    let points = sequence_points config.sequences n base [] in
    let ascending = sequence_points-IsAscending config.sequences n base [] tt in
    let firsts = run (suc n) seq (seq.get_first_point base) in
    elim (leb_or_lt (suc n) (count_before p points)) [
      | inl many ↦ absurd (beyond p _ h (last-take n p base points ascending many))
      | inr few ↦ elim (reached (suc n) inc i) [
        | inl j ↦
            take-IsIn (suc n) p points ascending
              (sequence_points_lem config.sequences n base [] k seq p found j) few
        | inr (full, before) ↦
            let held =
              AreIn-run p firsts points
                (λ r j. sequence_points_lem config.sequences n base [] k seq r found j) before in
            let counted =
              count_before-length p firsts points
                (run-IsAscending (suc n) seq (seq.get_first_point base) inc) ascending held in
            absurd (omega (arith, counted, full, few))
      ]
    ]

at_most-le : (stop : Option ℤ) (point : ℤ) → at_most stop point ≤ℤ point
at_most-le none point = omega arith
at_most-le (some stop) point = ground arith

le_trans : (a b c : ℤ) → a ≤ℤ b → b ≤ℤ c → a ≤ℤ c
le_trans a b c h k = omega arith

below :
    (stop offset : Option ℤ) (u limit : ℤ)
    → offset ≡ none
    → some (at_most stop (plus_offset offset u)) ≡ some limit
    → limit ≤ℤ u
below stop (some o) u limit e h = absurd (ground arith)
below stop none u limit e h =
    let e' : at_most stop u ≡ limit = cc in subst (λ t. t ≤ℤ u) e' (at_most-le stop u)

-- Once the runahead limit is computed with `force`, from some base point and with no future offset, each
-- point that an increasing recurrence comes to, from its first point at the base point on, and that is
-- not after the limit, is one of at most `runahead_limit + 1` points: the first of those that were found.
pub compute_runahead-take :
    (config : Config) (pool : TaskPool) (base limit_point p : ℤ) (k : ℕ) (seq : Sequence)
    → runahead_base_point config pool ≡ some base
    → pool.max_future_offset ≡ none
    → (compute_runahead config true pool).0.runahead_limit_point ≡ some limit_point
    → get_elem? config.sequences k ≡ some seq
    → IsIncreasing seq
    → IsPoint seq (seq.get_first_point base) p
    → p ≤ℤ limit_point
    → let points = (compute_runahead config true pool).0.prev_runahead_sequence_points in
      let first = take (suc config.runahead_limit) points in
      (length first ≤ suc config.runahead_limit) × IsIn p first
unfolding compute_runahead compute_from
compute_runahead-take config pool base limit_point p k seq based offset computed found inc i h =
    let u =
      unadjusted_limit base config.runahead_limit
        (sequence_points config.sequences config.runahead_limit base []) in
    let run : compute_runahead config true pool ≡ compute_from config true base pool =
      rw (based, compute_runahead) refl in
    let limit : some (at_most pool.stop_point (plus_offset pool.max_future_offset u))
        ≡ some limit_point =
      ap (λ (r : TaskPool × Bool). r.0.runahead_limit_point) (sym run) ∙ computed in
    rw run (
      length-take (suc config.runahead_limit) _,
      admitted config base k seq p found inc i (
          le_trans p limit_point u h
            (below pool.stop_point pool.max_future_offset u limit_point offset limit)),
    )
