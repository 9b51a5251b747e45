-- ===== src/TaskOutputs/Monotone.antt =====
-- More completed outputs never make a complete task incomplete.
use cylc_flow.Prelude.{
  ◌≡◌, refl, sym, ◌∙◌, ap, subst, ◌≢◌, inl, inr, String, Bool, true, false, ◌&&◌, ◌||◌, some, [],
  ◌∷◌, if◌then◌else◌, ◌==◌, string_eq, nat_eq, arith, Bool-cases, Option-cases,
}
use cylc_flow.Prelude.Assoc.{Assoc, get, put, has, get-put, get-some}
use cylc_flow.Prelude.Result.{Result, ok, or_raise, >>=-eq-ok}
use cylc_flow.Prelude.Int.{int_eq}
use cylc_flow.TaskOutputs.{
  OutputError, key_error, Completion, TaskOutputs, set_message_complete, variables, eval, or_final,
  is_complete,
}

abbrev pub Env : Type 0
Env = Assoc String Bool

-- The variables of an expression have values.
abbrev pub AreKnown : Env → Completion → Type 0
AreKnown env (Completion.var v) = has env v ≡ true
AreKnown env (Completion.both a b) = AreKnown env a × AreKnown env b
AreKnown env (Completion.either a b) = AreKnown env a × AreKnown env b

-- Each value of `d` is in `d'`, or has become true there.
abbrev pub Grows : Env → Env → Type 0
Grows d d' =
    (k : String) (b : Bool)
    → get d k ≡ some b
    → (b' : Bool) × (get d' k ≡ some b') × (b ≡ true → b' ≡ true)

Grows-put :
    (d d' : Env) (k : String) (b b' : Bool)
    → (b ≡ true → b' ≡ true)
    → Grows d d'
    → Grows (put d k b) (put d' k b')
Grows-put d d' k b b' h g j c e = elim (Bool-cases (j == k)) [
  | inl same ↦ (b', get-put d' k j b' ∙ rw same refl, λ t. h (ground (arith, get-put d k j b)))
  | inr other ↦
      let (c', e', t) = g j c (ground (arith, get-put d k j b)) in
      (c', get-put d' k j b' ∙ rw other e', t)
]

-- The same messages in the same places, with values that have grown.
abbrev pub Raised : Env → Env → Type 0
Raised [] [] = Unit {0}
Raised [] (x ∷ d') = ⊥
Raised (x ∷ d) [] = ⊥
Raised ((m, b) ∷ d) ((m', b') ∷ d') = (m ≡ m') × (b ≡ true → b' ≡ true) × Raised d d'

pub Raised-refl : (d : Env) → Raised d d
Raised-refl [] = tt
Raised-refl ((m, b) ∷ d) = (refl, λ h. h, Raised-refl d)

pub Raised-put : (d : Env) (m : String) (b : Bool) → get d m ≡ some b → Raised d (put d m true)
unfolding get put
Raised-put [] m b h = absurd (ground arith)
Raised-put ((j, c) ∷ d) m b h = elim (Bool-cases (m == j)) [
  | inl same ↦ rw same (refl, λ t. refl, Raised-refl d)
  | inr other ↦ rw other (refl, λ t. t, Raised-put d m b (rw other at h))
]

variables_grow :
    (compvars : Assoc String String) (env env' items items' out : Env)
    → Grows env env'
    → Raised items items'
    → variables compvars env items ≡ ok out
    → (out' : Env) × (variables compvars env' items' ≡ ok out') × Grows out out'
unfolding variables
variables_grow compvars env env' [] [] out g r h =
    let e : env ≡ out = cc in (env', refl, subst (λ o. Grows o env') e g)
variables_grow compvars env env' [] (x ∷ items') out g r h = absurd r
variables_grow compvars env env' (x ∷ items) [] out g r h = absurd r
variables_grow compvars env env' ((m, b) ∷ items) ((m', b') ∷ items') out g (same, t, r) h =
    let (v, found, rest) = >>=-eq-ok (or_raise key_error (get compvars m)) _ h in
    let (out', e, g') =
      variables_grow compvars (put env v b) (put env' v b') items items' out
        (Grows-put env env' v b b' t g) r rest in
    (out', rw (sym same, found) e, g')

and_ok :
    (b c : Bool) (other : Result OutputError Bool)
    → other ≡ ok c
    → (if b then other else ok false) ≡ ok (b && c)
and_ok true c other h = h
and_ok false c other h = refl

or_ok :
    (b c : Bool) (other : Result OutputError Bool)
    → other ≡ ok c
    → (if b then ok true else other) ≡ ok (b || c)
or_ok true c other h = refl
or_ok false c other h = h

eval_grow :
    (env env' : Env) (e : Completion)
    → Grows env env'
    → AreKnown env e
    → (b : Bool) × (b' : Bool) × (eval env e ≡ ok b)
      × (eval env' e ≡ ok b')
      × (b ≡ true → b' ≡ true)
unfolding eval
eval_grow env env' (Completion.var v) g known =
    let (b, e) = get-some env v known in
    let (b', e', t) = g v b e in (b, b', rw e refl, rw e' refl, t)
eval_grow env env' (Completion.both x y) g (kx, ky) =
    let (b, b', e, e', t) = eval_grow env env' x g kx in
    let (c, c', f, f', u) = eval_grow env env' y g ky in
    (
      b && c,
      b' && c',
      rw e (and_ok b c (eval env y) f),
      rw e' (and_ok b' c' (eval env' y) f'),
      λ h. ground (arith, t, u),
    )
eval_grow env env' (Completion.either x y) g (kx, ky) =
    let (b, b', e, e', t) = eval_grow env env' x g kx in
    let (c, c', f, f', u) = eval_grow env env' y g ky in
    (
      b || c,
      b' || c',
      rw e (or_ok b c (eval env y) f),
      rw e' (or_ok b' c' (eval env' y) f'),
      λ h. ground (arith, t, u),
    )

no_value : (k : String) (b : Bool) → get {K = String} {V = Bool} [] k ≢ some b
unfolding get
no_value k b q = ground arith

-- Completing messages of the outputs keeps complete what is complete.
pub complete_grow :
    (t t' : TaskOutputs) (env : Env)
    → t'.message_to_compvar ≡ t.message_to_compvar
    → t'.completion_expression ≡ t.completion_expression
    → Raised t.completed t'.completed
    → variables t.message_to_compvar [] t.completed ≡ ok env
    → AreKnown env (or_final t.completion_expression)
    → is_complete t ≡ ok true
    → is_complete t' ≡ ok true
unfolding is_complete
complete_grow t t' env e f r vars known h =
    let (env', vars', g) =
      variables_grow t.message_to_compvar [] [] t.completed t'.completed env
        (λ k b q. absurd (no_value k b q)) r vars in
    let (b, b', was, is, up) = eval_grow env env' (or_final t.completion_expression) g known in
    let was_true : eval env (or_final t.completion_expression) ≡ ok true = rw vars at h in
    let b_true : b ≡ true = cc in rw (e, f, vars') (is ∙ ap ok (up b_true))

-- If the variables of the completion expression are those of outputs, then a task whose outputs are
-- complete stays complete when any message is set complete, forced or not.
pub is_complete-set_message_complete :
    (t : TaskOutputs) (message : String) (forced : Bool) (env : Env)
    → variables t.message_to_compvar [] t.completed ≡ ok env
    → AreKnown env (or_final t.completion_expression)
    → is_complete t ≡ ok true
    → is_complete (set_message_complete t message forced).0 ≡ ok true
unfolding set_message_complete
is_complete-set_message_complete t message forced env vars known h =
    elim (Option-cases (get t.completed message)) [
      | inl e ↦ rw (e, set_message_complete) h
      | inr (true, e) ↦ rw (e, set_message_complete) h
      | inr (false, e) ↦
          rw (e, set_message_complete)
            (complete_grow t _ env refl refl (Raised-put t.completed message false e) vars known h)
    ]
