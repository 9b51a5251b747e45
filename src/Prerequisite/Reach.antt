-- ===== src/Prerequisite/Reach.antt =====
-- The cached state in the states that the operations reach from a new prerequisite.
use cylc_flow.Prelude.{
  ◌≡◌, refl, sym, ◌∙◌, inl, inr, String, Bool, false, Option, some, List, string_eq, nat_eq,
  Bool-cases, Option-cases,
}
use cylc_flow.Prelude.Result.{Result, ok, err}
use cylc_flow.Prerequisite.{
  PrereqTuple, prereq_tuple_eq, Value, RunMode, Expr, PrereqError, Prerequisite, init, set_item,
  set_conditional_expr, eval_satisfied, is_empty, cache, is_satisfied, satisfy_me, set_satisfied,
  unset_naturally_satisfied,
}
use cylc_flow.Prerequisite.Coherence.{
  IsCoherent, set_item-IsCoherent, set_conditional_expr-IsCoherent, is_satisfied-IsCoherent,
  satisfy_me-IsCoherent, set_satisfied-IsCoherent, unset-IsCoherent,
}

-- The operations that change a prerequisite.
pub data Step : Prerequisite → Prerequisite → Type 0 where
  set_item_step : (p : Prerequisite) (k : PrereqTuple) (v : Value) → Step p (set_item p k v)
  conditional_step : (p : Prerequisite) (e : Expr) → Step p (set_conditional_expr p e)
  query_step : (p : Prerequisite) → Step p (is_satisfied p).0
  satisfy_step :
      (p : Prerequisite) (outputs : List PrereqTuple) (mode : Option RunMode) (forced : Bool)
      → Step p (satisfy_me p outputs mode forced)
  force_step : (p : Prerequisite) → Step p (set_satisfied p).0
  unset_step : (p : Prerequisite) (id : String) → Step p (unset_naturally_satisfied p id).0

pub data Reach (p : Prerequisite) : Prerequisite → Type 0 where
  here : Reach p p
  next : {q r : Prerequisite} → Reach p q → Step q r → Reach p r

Step-IsCoherent : {p q : Prerequisite} → Step p q → IsCoherent p → IsCoherent q
Step-IsCoherent (set_item_step p k v) h = set_item-IsCoherent p k v h
Step-IsCoherent (conditional_step p e) h = set_conditional_expr-IsCoherent p e
Step-IsCoherent (query_step p) h = is_satisfied-IsCoherent p h
Step-IsCoherent (satisfy_step p outputs mode forced) h =
    satisfy_me-IsCoherent p outputs mode forced h
Step-IsCoherent (force_step p) h = set_satisfied-IsCoherent p h
Step-IsCoherent (unset_step p id) h = unset-IsCoherent p id h

init-IsCoherent : (point : String) → IsCoherent (init point)
unfolding init
init-IsCoherent point b h = absurd (cc)

Reach-IsCoherent : {p q : Prerequisite} → Reach p q → IsCoherent p → IsCoherent q
Reach-IsCoherent here h = h
Reach-IsCoherent (next r s) h = Step-IsCoherent s (Reach-IsCoherent r h)

cache_lem : (p : Prerequisite) (r : Result PrereqError Bool) → (cache p r).1 ≡ r
cache_lem p (ok b) = refl
cache_lem p (err e) = refl

cache_kept :
    (p : Prerequisite) (r : Result PrereqError Bool)
    → eval_satisfied (cache p r).0 ≡ eval_satisfied p
unfolding eval_satisfied
cache_kept p (ok b) = refl
cache_kept p (err e) = refl

is_satisfied_kept :
    (p : Prerequisite) (b : Bool)
    → eval_satisfied (is_satisfied p).0 ≡ ok b
    → eval_satisfied p ≡ ok b
unfolding is_satisfied
is_satisfied_kept p b h = elim (Option-cases p.cached_satisfied) [
  | inl n ↦ elim (Bool-cases (is_empty p.satisfied)) [
    | inl e ↦ rw e at (rw (n, is_satisfied) at h)
    | inr e ↦ sym (cache_kept p (eval_satisfied p)) ∙ (rw e at (rw (n, is_satisfied) at h))
  ]
  | inr (c, e) ↦ rw (e, is_satisfied) at h
]

is_satisfied_lem :
    (p : Prerequisite)
    → IsCoherent p
    → is_empty p.satisfied ≡ false
    → (is_satisfied p).1 ≡ eval_satisfied p
unfolding is_satisfied eval_satisfied
is_satisfied_lem p h ne = elim (Option-cases p.cached_satisfied) [
  | inl n ↦ rw (n, is_satisfied) (rw ne (cache_lem p (eval_satisfied p)))
  | inr (b, e) ↦ rw (e, is_satisfied) (sym (h b e))
]

-- In every state that the operations reach from a new prerequisite, if some output is registered,
-- `is_satisfied` answers or raises what an evaluation of the outputs gives: the cache never shows.
-- So does its own answer stay true of the state that it leaves.
pub is_satisfied-eval :
    (point : String) (p : Prerequisite)
    → Reach (init point) p
    → is_empty p.satisfied ≡ false
    → ((is_satisfied p).1 ≡ eval_satisfied p)
      × ((b : Bool) → (is_satisfied p).0.cached_satisfied ≡ some b → eval_satisfied p ≡ ok b)
is_satisfied-eval point p r ne =
    let h = Reach-IsCoherent r (init-IsCoherent point) in
    (is_satisfied_lem p h ne, λ b e. is_satisfied_kept p b (is_satisfied-IsCoherent p h b e))
