-- ===== src/XtriggerMgr/Active.antt =====
-- A function is not called again before it has returned.
use cylc_flow.Prelude.{
  ℕ, ◌+◌, ◌≡◌, refl, ◌∙◌, ◌⊎◌, inl, inr, String, Bool, true, false, ◌||◌, Option, none, some, List,
  [], ◌∷◌, ◌++◌, contains, IsNodup, contains-append, if◌then◌else◌, ◌==◌, string_eq, nat_eq,
  eq_of_==, arith, Bool-cases, Option-cases,
}
use cylc_flow.Prelude.Assoc.{get, has}
use cylc_flow.Prelude.Result.{ok, ◌>>=◌, or_raise}
use cylc_flow.Prelude.Int.{int_eq}
use cylc_flow.BroadcastMgr.Operations.{BroadcastMgr, Interface, put_broadcast}
use cylc_flow.Prelude.Result.{Ensures, Ensures-any, Ensures->>=, Ensures-fold_result, Ensures-ok}
use cylc_flow.XtriggerMgr.{
  value_error, Effect, delta_xtrigger, put_xtriggers, put_command, delta_task_xtrigger, Results,
  XtriggerManager, TaskProxy, Env, get_xtrigs, Calling, satisfy, call_clock, lift, xtrigger_env,
  broadcast_results, call_satisfied, is_too_soon, call_function, call_other, call_one,
  call_xtriggers_async, remove, record_results, callback, all_xtrigs, housekeep,
  load_xtrigger_for_restart,
}

-- The number of calls of a signature that were put into the pool.
unfoldable pub commands : String → List Effect → ℕ
commands sig [] = 0
commands sig (put_command s ∷ effects) = (if sig == s then 1 else 0) + commands sig effects
commands sig (delta_xtrigger s ∷ effects) = commands sig effects
commands sig (put_xtriggers s ∷ effects) = commands sig effects
commands sig (delta_task_xtrigger s l b ∷ effects) = commands sig effects

unfoldable pub count : String → List String → ℕ
count sig [] = 0
count sig (s ∷ sigs) = (if sig == s then 1 else 0) + count sig sigs

commands-append :
    (sig : String) (xs ys : List Effect)
    → commands sig (xs ++ ys) ≡ commands sig xs + commands sig ys
unfolding commands
commands-append sig [] ys = omega arith
commands-append sig (put_command s ∷ xs) ys = omega (arith, commands-append sig xs ys)
commands-append sig (delta_xtrigger s ∷ xs) ys = commands-append sig xs ys
commands-append sig (put_xtriggers s ∷ xs) ys = commands-append sig xs ys
commands-append sig (delta_task_xtrigger s l b ∷ xs) ys = commands-append sig xs ys

count-append :
    (sig : String) (xs ys : List String) → count sig (xs ++ ys) ≡ count sig xs + count sig ys
unfolding count
count-append sig [] ys = omega arith
count-append sig (s ∷ xs) ys = omega (arith, count-append sig xs ys)

-- Each call that was put into the pool has returned or is active, and a signature is active once at most.
unfoldable pub IsAccounted : List String → XtriggerManager → Type 0
unfolding commands count
IsAccounted returned mgr =
    IsNodup mgr.active
    × ((sig : String) → commands sig mgr.effects ≡ count sig returned + count sig mgr.active)

IsNodup-snoc :
    (xs : List String) (x : String) → IsNodup xs → contains xs x ≡ false → IsNodup (xs ++ x ∷ [])
IsNodup-snoc [] x h e = (refl, tt)
IsNodup-snoc (y ∷ xs) x (a, b) e =
    (ground (arith, contains-append xs (x ∷ []) y), IsNodup-snoc xs x b (ground arith))

commands-recorded :
    (s sig : String) (effects : List Effect)
    → commands s (effects ++ delta_xtrigger sig ∷ put_xtriggers sig ∷ []) ≡ commands s effects
unfolding commands
commands-recorded s sig effects =
    omega (arith, commands-append s effects (delta_xtrigger sig ∷ put_xtriggers sig ∷ []))

commands-called :
    (s sig : String) (effects : List Effect) (active : List String)
    → commands s (effects ++ put_command sig ∷ []) + count s active
      ≡ commands s effects + count s (active ++ sig ∷ [])
unfolding commands count
commands-called s sig effects active =
    omega
      (arith, commands-append s effects (put_command sig ∷ []), count-append s active (sig ∷ []))

module _ (returned : List String) where
  abbrev Accounts : Calling → Type 0
  Accounts c = IsAccounted returned c.mgr

  call_clock-Accounts :
      (env : Env) (c : Calling) (label sig : String)
      → Accounts c
      → Accounts (call_clock env c label sig)
  unfolding call_clock IsAccounted
  call_clock-Accounts env c label sig (h, k) = elim (Bool-cases (has c.mgr.sat_xtrig sig)) [
    | inl old ↦ rw (old, call_clock) (h, k)
    | inr new ↦ elim (Bool-cases (env.wall_clock sig)) [
      | inl rings ↦
          rw (new, rings, call_clock) (h, λ s. commands-recorded s sig c.mgr.effects ∙ k s)
      | inr waits ↦ rw (new, waits, call_clock) (h, k)
    ]
  ]

  call_function-Accounts :
      (env : Env) (c : Calling) (label sig : String)
      → Accounts c
      → Accounts (call_function env c label sig)
  unfolding call_function IsAccounted
  call_function-Accounts env c label sig (h, k) =
      elim (Bool-cases
        (contains c.mgr.active sig || is_too_soon env.now (get c.mgr.t_next_call sig))) [
          | inl waits ↦ rw (waits, call_function) (h, k)
          | inr calls ↦
              rw (calls, call_function)
                (
                  IsNodup-snoc c.mgr.active sig h (ground arith),
                  λ s. omega (arith, commands-called s sig c.mgr.effects c.mgr.active, k s),
                )
        ]

  broadcast_results-Accounts :
      (i : Interface) (itask : TaskProxy) (c : Calling) (label : String) (results : Results)
      → Accounts c
      → Ensures Accounts (broadcast_results i itask c label results)
  unfolding broadcast_results IsAccounted
  broadcast_results-Accounts i itask c label [] h = h
  broadcast_results-Accounts i itask c label (r ∷ rs) h =
      let put = lift (
        put_broadcast i c.broadcasts (itask.point ∷ []) (itask.name ∷ [])
          (xtrigger_env label (r ∷ rs))) in
      Ensures->>= (λ changed. Accounts c) Accounts put _ (Ensures-any (Accounts c) put h)
        (λ changed k. h)

  call_other-Accounts :
      (i : Interface) (env : Env) (itask : TaskProxy) (c : Calling) (label sig : String)
      (found : Option Results) (waits : Option Bool)
      → get c.satisfied label ≡ waits
      → Accounts c
      → Ensures Accounts (call_other i env itask c label sig found)
  unfolding call_other call_satisfied
  call_other-Accounts i env itask c label sig none waits e h =
      call_function-Accounts env c label sig h
  call_other-Accounts i env itask c label sig (some results) none e h = rw e tt
  call_other-Accounts i env itask c label sig (some results) (some true) e h = rw e h
  call_other-Accounts i env itask c label sig (some results) (some false) e h =
      rw e (broadcast_results-Accounts i itask (satisfy label c) label results h)

  call_one-Accounts :
      (i : Interface) (env : Env) (itask : TaskProxy) (c : Calling) (x : String × String)
      → Accounts c
      → Ensures Accounts (call_one i env itask c x)
  unfolding call_one
  call_one-Accounts i env itask c (label, sig) h =
      elim (Bool-cases (contains c.mgr.wall_clock_labels label)) [
        | inl clock ↦ rw (clock, call_one) (call_clock-Accounts env c label sig h)
        | inr other ↦
            rw (other, call_one)
              (call_other-Accounts i env itask c label sig (get c.mgr.sat_xtrig sig)
                (get c.satisfied label) refl h)
      ]

  call_xtriggers_async-Accounts :
      (i : Interface) (env : Env) (mgr : XtriggerManager) (b : BroadcastMgr) (itask : TaskProxy)
      → IsAccounted returned mgr
      → Ensures Accounts (call_xtriggers_async i env mgr b itask)
  unfolding call_xtriggers_async
  call_xtriggers_async-Accounts i env mgr b itask h =
      let xtrigs = get_xtrigs env itask true itask.xtriggers in
      Ensures->>= (λ xs. IsAccounted returned mgr) Accounts xtrigs _
        (Ensures-any (IsAccounted returned mgr) xtrigs h)
        (λ xs k.
          Ensures-fold_result Accounts (call_one i env itask)
            (λ c x. call_one-Accounts i env itask c x) _ xs k)

remove_cases :
    (x : String) (xs ys : List String) (sig : String)
    → remove (x ∷ xs) sig ≡ some ys
    → ((sig ≡ x) × (ys ≡ xs)) ⊎ ((zs : List String) × (remove xs sig ≡ some zs) × (ys ≡ x ∷ zs))
remove_cases x xs ys sig h = elim (Bool-cases (sig == x)) [
  | inl same ↦ inl (eq_of_== sig x same, ground arith)
  | inr other ↦ elim (Option-cases (remove xs sig)) [
    | inl e ↦ absurd (ground arith)
    | inr (zs, e) ↦ inr (zs, e, ground arith)
  ]
]

count-remove :
    (xs ys : List String) (sig s : String)
    → remove xs sig ≡ some ys
    → count s xs ≡ (if s == sig then 1 else 0) + count s ys
unfolding count
count-remove [] ys sig s h = absurd (ground arith)
count-remove (x ∷ xs) ys sig s h = elim (remove_cases x xs ys sig h) [
  | inl (same, e) ↦ rw (e, same) refl
  | inr (zs, e, f) ↦ rw f (omega (arith, count-remove xs zs sig s e))
]

contains-remove :
    (xs ys : List String) (sig s : String)
    → remove xs sig ≡ some ys
    → contains xs s ≡ false
    → contains ys s ≡ false
contains-remove [] ys sig s h k = absurd (ground arith)
contains-remove (x ∷ xs) ys sig s h k = elim (remove_cases x xs ys sig h) [
  | inl (same, e) ↦ rw e (ground arith)
  | inr (zs, e, f) ↦ rw f (ground (arith, contains-remove xs zs sig s e))
]

IsNodup-remove :
    (xs ys : List String) (sig : String) → remove xs sig ≡ some ys → IsNodup xs → IsNodup ys
IsNodup-remove [] ys sig h k = absurd (ground arith)
IsNodup-remove (x ∷ xs) ys sig h (a, b) = elim (remove_cases x xs ys sig h) [
  | inl (same, e) ↦ rw e b
  | inr (zs, e, f) ↦ rw f (contains-remove xs zs sig x e a, IsNodup-remove xs zs sig e b)
]

record_results-IsAccounted :
    (returned : List String) (mgr : XtriggerManager) (sig : String) (out : Option (Bool × Results))
    → IsAccounted returned mgr
    → IsAccounted returned (record_results mgr sig out)
unfolding IsAccounted
record_results-IsAccounted returned mgr sig none h = h
record_results-IsAccounted returned mgr sig (some (false, results)) h = h
record_results-IsAccounted returned mgr sig (some (true, results)) (h, k) =
    (h, λ s. commands-recorded s sig mgr.effects ∙ k s)

callback-IsAccounted :
    (returned : List String) (mgr : XtriggerManager) (sig : String) (out : Option (Bool × Results))
    → IsAccounted returned mgr
    → Ensures (IsAccounted (sig ∷ returned)) (callback mgr sig out)
unfolding callback IsAccounted count
callback-IsAccounted returned mgr sig out (h, k) = go (remove mgr.active sig) refl
  where
    go :
        (active : Option (List String))
        → remove mgr.active sig ≡ active
        → Ensures (IsAccounted (sig ∷ returned)) (
            or_raise value_error active >>= λ active.
            ok (record_results (record mgr { active = active }) sig out))
    go none e = tt
    go (some active) e =
        record_results-IsAccounted (sig ∷ returned) (record mgr { active = active }) sig out
          (
            IsNodup-remove mgr.active active sig e h,
            λ s. omega (arith, k s, count-remove mgr.active active sig s e),
          )

-- A manager as it is made, and after each operation, with the signatures of the functions that returned.
pub data Reach : List String → XtriggerManager → Type 0 where
  init :
      (labels clocks : List String)
      → Reach [] (record {
        labels = labels;
        wall_clock_labels = clocks;
        t_next_call = [];
        sat_xtrig = [];
        active = [];
        do_housekeeping = false;
        effects = [];
      })
  load :
      (returned : List String) (mgr : XtriggerManager) (sig : String) (results : Results)
      → Reach returned mgr
      → Reach returned (load_xtrigger_for_restart mgr sig results)
  call :
      (returned : List String) (mgr : XtriggerManager) (i : Interface) (env : Env)
      (b : BroadcastMgr) (itask : TaskProxy) (c : Calling)
      → Reach returned mgr
      → call_xtriggers_async i env mgr b itask ≡ ok c
      → Reach returned c.mgr
  return :
      (returned : List String) (mgr mgr' : XtriggerManager) (sig : String)
      (out : Option (Bool × Results))
      → Reach returned mgr
      → callback mgr sig out ≡ ok mgr'
      → Reach (sig ∷ returned) mgr'
  clean :
      (returned : List String) (mgr mgr' : XtriggerManager) (env : Env) (itasks : List TaskProxy)
      → Reach returned mgr
      → housekeep env mgr itasks ≡ ok mgr'
      → Reach returned mgr'

housekeep-IsAccounted :
    (returned : List String) (env : Env) (mgr : XtriggerManager) (itasks : List TaskProxy)
    → IsAccounted returned mgr
    → Ensures (IsAccounted returned) (housekeep env mgr itasks)
unfolding housekeep IsAccounted
housekeep-IsAccounted returned env mgr itasks h =
    Ensures->>= (λ sigs. IsAccounted returned mgr) (IsAccounted returned) (all_xtrigs env itasks) _
      (Ensures-any (IsAccounted returned mgr) (all_xtrigs env itasks) h) (λ sigs k. k)

-- In every state that a manager reaches by loading results, calling functions, callbacks and housekeeping, a
-- signature is active once at most, and the calls of each signature that were put into the pool are as many
-- as its callbacks, and one more if it is active: none is called again before it has returned.
pub Reach-IsAccounted :
    (returned : List String) (mgr : XtriggerManager) → Reach returned mgr → IsAccounted returned mgr
unfolding IsAccounted load_xtrigger_for_restart commands count
Reach-IsAccounted returned mgr (init labels clocks) = (tt, λ s. omega arith)
Reach-IsAccounted returned mgr (load r m sig results reach) =
    let (h, k) = Reach-IsAccounted r m reach in
    (h, λ s. omega (arith, commands-append s m.effects (delta_xtrigger sig ∷ []), k s))
Reach-IsAccounted returned mgr (call r m i env b itask c reach e) =
    Ensures-ok (Accounts r) (call_xtriggers_async i env m b itask) c e
      (call_xtriggers_async-Accounts r i env m b itask (Reach-IsAccounted r m reach))
Reach-IsAccounted returned mgr (return r m m' sig out reach e) =
    Ensures-ok (IsAccounted (sig ∷ r)) (callback m sig out) m' e
      (callback-IsAccounted r m sig out (Reach-IsAccounted r m reach))
Reach-IsAccounted returned mgr (clean r m m' env itasks reach e) =
    Ensures-ok (IsAccounted r) (housekeep env m itasks) m' e
      (housekeep-IsAccounted r env m itasks (Reach-IsAccounted r m reach))
