-- ===== src/Prerequisite/Monotone.antt =====
-- The value of a condition only grows when outputs become satisfied.
use cylc_flow.Prelude.{
  ◌≡◌, refl, ◌∙◌, ap, inl, inr, Bool, true, ◌&&◌, ◌||◌, Option, none, some, [], ◌∷◌, if◌then◌else◌,
  ◌==◌, string_eq, nat_eq, arith, Bool-cases, Option-cases,
}
use cylc_flow.Prelude.Assoc.{get, put, get-put}
use cylc_flow.Prelude.Result.{ok, >>=-eq-ok}
use mathlib.Core.Option
use cylc_flow.Prerequisite.{
  force_satisfied, PrereqTuple, prereq_tuple_eq, SatisfiedState, truthy, Expr, raw, lookup, all_of,
  any_of, Satisfied, has_raw, eval, eval_with, all_satisfied, force_all,
}

-- Every output stays registered, and satisfied if it was.
pub record Grows (d d' : Satisfied) : Type 0 where
  pub at :
      (k : PrereqTuple) (s : SatisfiedState)
      → get d k ≡ some s
      → (s' : SatisfiedState) × (get d' k ≡ some s') × (truthy s ≡ true → truthy s' ≡ true)

-- The value of an expression only grows: it has no negation.
pub eval-Grows :
    (d d' : Satisfied) (e : Expr) (b : Bool)
    → Grows d d'
    → eval d e ≡ ok b
    → (b' : Bool) × (eval d' e ≡ ok b') × (b ≡ true → b' ≡ true)
unfolding eval
eval-Grows d d' (raw t) b g h = absurd (ground arith)
eval-Grows d d' (lookup t) b g h = elim (Option-cases (get d t)) [
  | inl n ↦ absurd (ground arith)
  | inr (s, e) ↦ let (s', e', up) = g.at t s e in (truthy s', rw e', λ p. up (ground arith))
]
eval-Grows d d' (all_of x y) b g h =
    let (p, ep, rest) = >>=-eq-ok (eval d x) _ h in
    let (q, eq, last) = >>=-eq-ok (eval d y) _ rest in
    let (p', ep', up) = eval-Grows d d' x p g ep in
    let (q', eq', uq) = eval-Grows d d' y q g eq in
    (p' && q', rw (ep', eq'), λ t. ground (arith, up, uq))
eval-Grows d d' (any_of x y) b g h =
    let (p, ep, rest) = >>=-eq-ok (eval d x) _ h in
    let (q, eq, last) = >>=-eq-ok (eval d y) _ rest in
    let (p', ep', up) = eval-Grows d d' x p g ep in
    let (q', eq', uq) = eval-Grows d d' y q g eq in
    (p' || q', rw (ep', eq'), λ t. ground (arith, up, uq))

pub Grows-put :
    (d : Satisfied) (k : PrereqTuple) (s : SatisfiedState) → truthy s ≡ true → Grows d (put d k s)
Grows-put d k s h = record {
  at = λ j v e. elim (prereq_tuple_eq.dec j k) [
    | yes p ↦ (s, ground (arith, get-put d k j s), λ t. h)
    | no n ↦ (v, ground (arith, get-put d k j s), λ t. t)
  ];
}

pub all_satisfied-put :
    (d : Satisfied) (k : PrereqTuple) (s : SatisfiedState)
    → truthy s ≡ true
    → all_satisfied d ≡ true
    → all_satisfied (put d k s) ≡ true
unfolding put
all_satisfied-put [] k s t h = ground arith
all_satisfied-put ((j, v) ∷ d) k s t h = ground (arith, all_satisfied-put d k s)

pub eval_with-put :
    (d : Satisfied) (c : Option Expr) (k : PrereqTuple) (s : SatisfiedState)
    → truthy s ≡ true
    → eval_with d c ≡ ok true
    → eval_with (put d k s) c ≡ ok true
eval_with-put d none k s t h = ground (arith, all_satisfied-put d k s)
eval_with-put d (some e) k s t h = elim (Bool-cases (has_raw e)) [
  | inl r ↦ absurd (ground arith)
  | inr r ↦
      let (b, q, up) = eval-Grows d (put d k s) e true (Grows-put d k s t) (rw r at h) in
      ground (arith, up)
]

pub all_satisfied-force_all : (d : Satisfied) → all_satisfied (force_all d) ≡ true
all_satisfied-force_all [] = refl
all_satisfied-force_all ((k, s) ∷ d) = ground (arith, all_satisfied-force_all d)

pub get-force_all :
    (d : Satisfied) (k : PrereqTuple)
    → get (force_all d) k ≡ Option.map (λ s. if truthy s then s else force_satisfied) (get d k)
unfolding get
get-force_all [] k = refl
get-force_all ((j, s) ∷ d) k = elim (Bool-cases (k == j)) [
  | inl e ↦ rw e
  | inr e ↦ rw e (get-force_all d k)
]

pub Grows-force_all : (d : Satisfied) → Grows d (force_all d)
Grows-force_all d = record {
  at = λ k s e. (
    if truthy s then s else force_satisfied,
    get-force_all d k ∙ ap (Option.map (λ s. if truthy s then s else force_satisfied)) e,
    λ t. rw t t,
  );
}

pub eval_with-force_all :
    (d : Satisfied) (c : Option Expr) (b : Bool)
    → eval_with d c ≡ ok b
    → (b' : Bool) × (eval_with (force_all d) c ≡ ok b')
eval_with-force_all d none b h = (all_satisfied (force_all d), refl)
eval_with-force_all d (some e) b h = elim (Bool-cases (has_raw e)) [
  | inl r ↦ absurd (ground arith)
  | inr r ↦
      let (b', q, up) = eval-Grows d (force_all d) e b (Grows-force_all d) (rw r at h) in
      (b', rw r q)
]
