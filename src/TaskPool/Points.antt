-- ===== src/TaskPool/Points.antt =====
-- Ascending sets of points, and the points of a recurrence.
use cylc_flow.Prelude.{
  ℕ, zero, suc, ◌≤◌, ◌<◌, ◌≡◌, refl, sym, subst, ◌⊎◌, inl, inr, false, List, [], ◌∷◌, length, All,
  if◌then◌else◌, ◌==◌, string_eq, nat_eq, eq_of_==, ltb→lt, arith, Bool-cases,
}
use cylc_flow.Prelude.Int.{ℤ, ◌<ℤ◌, ltb_ℤ, int_eq, eq_of_parts}
use cylc_flow.TaskPool.Limit.{add_point, take, last}

-- Each point is before those that follow it.
abbrev pub IsAfter : ℤ → ℤ → Type 0
IsAfter p q = p <ℤ q

abbrev pub IsAscending : List ℤ → Type 0
IsAscending [] = Unit {0}
IsAscending (p ∷ ps) = All (IsAfter p) ps × IsAscending ps

IsBefore-trans : (p q : ℤ) (ps : List ℤ) → p <ℤ q → All (IsAfter q) ps → All (IsAfter p) ps
IsBefore-trans p q [] h k = tt
IsBefore-trans p q (r ∷ ps) h (k, l) = (omega arith, IsBefore-trans p q ps h l)

pub add_point-All : (P : ℤ → Type 0) (q : ℤ) (ps : List ℤ) → P q → All P ps → All P (add_point q ps)
unfolding add_point
add_point-All P q [] h k = (h, tt)
add_point-All P q (p ∷ ps) h (k, l) = elim (Bool-cases (ltb_ℤ q p)) [
  | inl a ↦ rw (a, add_point) (h, (k, l))
  | inr a ↦ elim (Bool-cases (q == p)) [
    | inl b ↦ rw (a, add_point) (rw b (k, l))
    | inr b ↦ rw (a, add_point) (rw b (k, add_point-All P q ps h l))
  ]
]

not_lt : (p q : ℤ) → ltb_ℤ q p ≡ false → (q == p) ≡ false → p <ℤ q
not_lt p q a b = ground (arith, eq_of_parts q p)

pub add_point-IsAscending : (q : ℤ) (ps : List ℤ) → IsAscending ps → IsAscending (add_point q ps)
unfolding add_point
add_point-IsAscending q [] h = (tt, tt)
add_point-IsAscending q (p ∷ ps) (h, k) = elim (Bool-cases (ltb_ℤ q p)) [
  | inl a ↦ let l = ltb→lt _ _ a in rw (a, add_point) ((l, IsBefore-trans q p ps l h), (h, k))
  | inr a ↦ elim (Bool-cases (q == p)) [
    | inl b ↦ rw (a, add_point) (rw b (h, k))
    | inr b ↦
        rw (a, add_point)
          (rw b (add_point-All (IsAfter p) q ps (not_lt p q a b) h, add_point-IsAscending q ps k))
  ]
]

abbrev pub IsIn : ℤ → List ℤ → Type 0
IsIn r [] = ⊥
IsIn r (p ∷ ps) = (r ≡ p) ⊎ IsIn r ps

pub add_point-IsIn : (q r : ℤ) (ps : List ℤ) → IsIn r ps → IsIn r (add_point q ps)
unfolding add_point
add_point-IsIn q r [] h = absurd h
add_point-IsIn q r (p ∷ ps) h = elim (Bool-cases (ltb_ℤ q p)) [
  | inl a ↦ rw (a, add_point) (inr h)
  | inr a ↦ elim (Bool-cases (q == p)) [
    | inl b ↦ rw (a, add_point) (rw b h)
    | inr b ↦
        rw (a, add_point) (rw b (elim h [ inl e ↦ inl e | inr k ↦ inr (add_point-IsIn q r ps k) ]))
  ]
]

pub add_point_lem : (q : ℤ) (ps : List ℤ) → IsIn q (add_point q ps)
unfolding add_point
add_point_lem q [] = inl refl
add_point_lem q (p ∷ ps) = elim (Bool-cases (ltb_ℤ q p)) [
  | inl a ↦ rw (a, add_point) (inl refl)
  | inr a ↦ elim (Bool-cases (q == p)) [
    | inl b ↦ rw (a, add_point) (rw b (inl (eq_of_== q p b)))
    | inr b ↦ rw (a, add_point) (rw b (inr (add_point_lem q ps)))
  ]
]

pub IsIn-All : (P : ℤ → Type 0) (r : ℤ) (ps : List ℤ) → IsIn r ps → All P ps → P r
IsIn-All P r [] h k = absurd h
IsIn-All P r (p ∷ ps) h (k, l) = elim h [ inl e ↦ subst P (sym e) k | inr i ↦ IsIn-All P r ps i l ]

-- How many of the points are before `p`.
abbrev pub count_before : ℤ → List ℤ → ℕ
count_before p [] = 0
count_before p (q ∷ qs) = let n = count_before p qs in if ltb_ℤ q p then suc n else n

-- Some of the points, all of them before `p`.
abbrev pub AreIn : ℤ → List ℤ → List ℤ → Type 0
AreIn p qs ps = All (λ q. IsIn q ps × (q <ℤ p)) qs

AreIn-tail : (p x : ℤ) (qs ps : List ℤ) → All (IsAfter x) qs → AreIn p qs (x ∷ ps) → AreIn p qs ps
AreIn-tail p x [] ps h k = tt
AreIn-tail p x (q ∷ qs) ps (h, h') ((i, j), k) = (
  (elim i [ inl e ↦ absurd (let k' = subst (λ t. x <ℤ t) e h in omega arith) | inr l ↦ l ], j),
  AreIn-tail p x qs ps h' k,
)

count_before-cons :
    (p x : ℤ) (ps : List ℤ) → x <ℤ p → count_before p (x ∷ ps) ≡ suc (count_before p ps)
count_before-cons p x ps h = ground arith

count_before_mono : (p x : ℤ) (ps : List ℤ) → count_before p ps ≤ count_before p (x ∷ ps)
count_before_mono p x ps = ground arith

-- As many ascending points of an ascending list as are before `p` are counted.
pub count_before-length :
    (p : ℤ) (qs ps : List ℤ)
    → IsAscending qs
    → IsAscending ps
    → AreIn p qs ps
    → length qs ≤ count_before p ps
count_before-length p [] ps a b h = omega arith
count_before-length p (q ∷ qs) [] a b ((h, k), l) = absurd h
count_before-length p (q ∷ qs) (x ∷ ps) (a, a') (b, b') ((inl e, k), l) =
    let e' : x <ℤ p = subst (λ t. t <ℤ p) e k in
    let ih =
      count_before-length p qs ps a' b'
        (AreIn-tail p x qs ps (subst (λ t. All (IsAfter t) qs) e a) l) in
    omega (arith, ih, count_before-cons p x ps e')
count_before-length p (q ∷ qs) (x ∷ ps) (a, a') (b, b') ((inr i, k), l) =
    let later = IsIn-All (IsAfter x) q ps i b in
    let ih =
      count_before-length p (q ∷ qs) ps (a, a') b'
        ((i, k), AreIn-tail p x qs ps (IsBefore-trans x q qs later a) l) in
    omega (arith, ih, count_before_mono p x ps)

-- A point of an ascending list is among the first `n` if fewer than `n` are before it.
pub take-IsIn :
    (n : ℕ) (p : ℤ) (ps : List ℤ)
    → IsAscending ps
    → IsIn p ps
    → count_before p ps < n
    → IsIn p (take n ps)
unfolding take
take-IsIn zero p ps a i h = absurd (omega arith)
take-IsIn (suc n) p [] a i h = i
take-IsIn (suc n) p (x ∷ ps) (a, a') (inl e) h = inl e
take-IsIn (suc n) p (x ∷ ps) (a, a') (inr i) h = inr (
    take-IsIn n p ps a' i
      (omega (arith, h, count_before-cons p x ps (IsIn-All (IsAfter x) p ps i a))))

none_before :
    (p x : ℤ) (ps : List ℤ) → ltb_ℤ x p ≡ false → All (IsAfter x) ps → count_before p ps ≡ 0
none_before p x [] h k = refl
none_before p x (q ∷ ps) h (k, l) = ground (arith, none_before p x ps h l)

head_before : (p x : ℤ) (ps : List ℤ) → All (IsAfter x) ps → 0 < count_before p (x ∷ ps) → x <ℤ p
head_before p x ps a h = elim (Bool-cases (ltb_ℤ x p)) [
  | inl e ↦ ltb→lt _ _ e
  | inr e ↦ absurd (ground (arith, none_before p x ps e a))
]

-- The last of the first `n` points is before `p`, if `n` points are.
pub last-take :
    (n : ℕ) (p d : ℤ) (ps : List ℤ)
    → IsAscending ps
    → n < count_before p ps
    → last d (take (suc n) ps) <ℤ p
unfolding take last
last-take n p d [] a h = absurd (omega arith)
last-take zero p d (x ∷ ps) (a, a') h = head_before p x ps a h
last-take (suc n) p d (x ∷ ps) (a, a') h =
    let first = head_before p x ps a (omega (arith, h)) in
    last-take n p x ps a' (omega (arith, h, count_before-cons p x ps first))
