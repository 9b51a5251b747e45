-- ===== src/Prerequisite/Coherence.antt =====
-- Each operation keeps the cached state what an evaluation would give.
use cylc_flow.Prelude.{
  ◌≡◌, refl, ◌∙◌, inl, inr, String, Bool, true, ◌&&◌, Option, none, some, List, [], ◌∷◌, ◌==◌,
  string_eq, nat_eq, arith, Bool-cases, Option-cases,
}
use cylc_flow.Prelude.Assoc.{get}
use cylc_flow.Prelude.Result.{Result, ok, err}
use cylc_flow.Prerequisite.{
  set_satisfied_from, satisfied_state, get_id, is_natural, PrereqTuple, prereq_tuple_eq,
  unsatisfied, truthy, Value, state, to_state, RunMode, Expr, PrereqError, Satisfied, Prerequisite,
  set_item, set_conditional_expr, eval_with, eval_satisfied, is_empty, cache, is_satisfied,
  satisfy_one, satisfy_me, force_all, set_satisfied, unset_items, unset_naturally_satisfied,
}
use cylc_flow.Prerequisite.Monotone.{eval_with-put, all_satisfied-force_all, eval_with-force_all}

-- The cache holds no more than what an evaluation gives.
abbrev pub IsCoherent : Prerequisite → Type 0
IsCoherent p = (b : Bool) → p.cached_satisfied ≡ some b → eval_satisfied p ≡ ok b

pub set_item-IsCoherent :
    (p : Prerequisite) (k : PrereqTuple) (v : Value) → IsCoherent p → IsCoherent (set_item p k v)
unfolding set_item eval_satisfied
set_item-IsCoherent p k v h b e =
    ground (arith, h true, eval_with-put p.satisfied p.conditional_expression k (to_state v))

pub set_conditional_expr-IsCoherent :
    (p : Prerequisite) (e : Expr) → IsCoherent (set_conditional_expr p e)
unfolding set_conditional_expr
set_conditional_expr-IsCoherent p e b h = absurd (cc)

pub cache-IsCoherent :
    (p : Prerequisite) (r : Result PrereqError Bool)
    → eval_satisfied p ≡ r
    → IsCoherent p
    → IsCoherent (cache p r).0
unfolding eval_satisfied
cache-IsCoherent p (ok c) e h b q = ground arith
cache-IsCoherent p (err x) e h b q = h b q

pub is_satisfied-IsCoherent : (p : Prerequisite) → IsCoherent p → IsCoherent (is_satisfied p).0
unfolding is_satisfied
is_satisfied-IsCoherent p h = elim (Option-cases p.cached_satisfied) [
  | inl n ↦ elim (Bool-cases (is_empty p.satisfied)) [
    | inl e ↦ rw (n, is_satisfied) (rw e h)
    | inr e ↦ rw (n, is_satisfied) (rw e (cache-IsCoherent p (eval_satisfied p) refl h))
  ]
  | inr (c, e) ↦ rw (e, is_satisfied) h
]

pub satisfy_one-IsCoherent :
    (mode : Option RunMode) (forced : Bool) (p : Prerequisite) (output : PrereqTuple)
    → IsCoherent p
    → IsCoherent (satisfy_one mode forced p output)
unfolding satisfy_one
satisfy_one-IsCoherent mode forced p output h = elim (Option-cases (get p.satisfied output)) [
  | inl n ↦ rw (n, satisfy_one) h
  | inr (s, e) ↦ elim (Bool-cases (truthy s)) [
    | inl t ↦ rw (e, satisfy_one) (rw t h)
    | inr t ↦
        rw (e, satisfy_one)
          (rw t (set_item-IsCoherent p output (state (satisfied_state forced mode)) h))
  ]
]

pub satisfy_me-IsCoherent :
    (p : Prerequisite) (outputs : List PrereqTuple) (mode : Option RunMode) (forced : Bool)
    → IsCoherent p
    → IsCoherent (satisfy_me p outputs mode forced)
unfolding satisfy_me
satisfy_me-IsCoherent p [] mode forced h = h
satisfy_me-IsCoherent p (output ∷ outputs) mode forced h =
    satisfy_me-IsCoherent (satisfy_one mode forced p output) outputs mode forced
      (satisfy_one-IsCoherent mode forced p output h)

pub forced_IsCoherent :
    (p : Prerequisite) (r : Result PrereqError Bool)
    → eval_with (force_all p.satisfied) p.conditional_expression ≡ r
    → IsCoherent p
    → IsCoherent (cache (record p { satisfied = force_all p.satisfied }) r).0
unfolding eval_satisfied
forced_IsCoherent p (ok c) e h b q = e ∙ ground arith
forced_IsCoherent p (err x) e h b q =
    let (b', e') = eval_with-force_all p.satisfied p.conditional_expression b (h b q) in absurd (cc)

pub set_satisfied_from-IsCoherent :
    (p : Prerequisite) (c : Option Expr)
    → p.conditional_expression ≡ c
    → IsCoherent p
    → IsCoherent (set_satisfied_from (record p { satisfied = force_all p.satisfied }) c).0
unfolding eval_satisfied
set_satisfied_from-IsCoherent p none e h b q = ground (arith, all_satisfied-force_all p.satisfied)
set_satisfied_from-IsCoherent p (some x) e h b q =
    forced_IsCoherent p (eval_with (force_all p.satisfied) p.conditional_expression) refl h b q

pub set_satisfied-IsCoherent : (p : Prerequisite) → IsCoherent p → IsCoherent (set_satisfied p).0
unfolding set_satisfied
set_satisfied-IsCoherent p h = set_satisfied_from-IsCoherent p p.conditional_expression refl h

pub unset_items-IsCoherent :
    (id : String) (p : Prerequisite) (items : Satisfied)
    → IsCoherent p
    → IsCoherent (unset_items id p items).0
unfolding unset_items
unset_items-IsCoherent id p [] h = h
unset_items-IsCoherent id p ((k, s) ∷ items) h =
    elim (Bool-cases (get_id k == id && is_natural s)) [
      | inl e ↦ rw e (
          unset_items-IsCoherent id (set_item p k (state unsatisfied)) items
            (set_item-IsCoherent p k (state unsatisfied) h))
      | inr e ↦ rw e (unset_items-IsCoherent id p items h)
    ]

pub unset-IsCoherent :
    (p : Prerequisite) (id : String) → IsCoherent p → IsCoherent (unset_naturally_satisfied p id).0
unfolding unset_naturally_satisfied
unset-IsCoherent p id h = unset_items-IsCoherent id p p.satisfied h
