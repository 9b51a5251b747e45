-- ===== src/XtriggerMgr/Sound.antt =====
-- A task's triggers are satisfied by results of functions, and by no other thing.
use cylc_flow.Prelude.{
  ◌≡◌, refl, sym, ◌∙◌, ap, subst, ◌⊎◌, inl, inr, String, Bool, true, false, ◌||◌, Option, none,
  some, List, [], ◌∷◌, map, contains, All, All-mono, if◌then◌else◌, ◌==◌, string_eq, nat_eq,
  eq_refl, eq_of_==, arith, Bool-cases,
}
use cylc_flow.Prelude.Assoc.{Assoc, get, put, has, get-put, has-put, has_of_get, get-some}
use cylc_flow.Prelude.Result.{Result, ok, err}
use cylc_flow.Prelude.Int.{int_eq}
use cylc_flow.BroadcastMgr.{BroadcastError}
use cylc_flow.BroadcastMgr.Dict.{Shape, HasShape, whole}
use cylc_flow.BroadcastMgr.Operations.{BroadcastMgr, Interface, put_broadcast, Changed}
use cylc_flow.BroadcastMgr.Operations.Rows.{IsReportable}
use cylc_flow.BroadcastMgr.Operations.Overrides.{IsSound, IsPut, put_broadcast-IsPut}
use cylc_flow.Prelude.Result.{fold_result, Returns, Returns->>=, Returns-mono}
use cylc_flow.XtriggerMgr.{
  Results, XtriggerManager, TaskProxy, Env, get_xtrigs, Calling, satisfy, call_clock, lift,
  xtrigger_env, broadcast_results, call_satisfied, is_too_soon, call_function, call_other, call_one,
  call_xtriggers_async,
}

lift-Returns {ℓ} :
    {A : Type ℓ} (P : A → Type 0) (r : Result BroadcastError A) → Returns P r → Returns P (lift r)
lift-Returns P (err e) h = h
lift-Returns P (ok a) h = h

xtrigger_env-IsReportable :
    (label : String) (results : Results) → All IsReportable (xtrigger_env label results)
unfolding xtrigger_env IsReportable
xtrigger_env-IsReportable label [] = tt
xtrigger_env-IsReportable label ((key, val) ∷ results) =
    (tt, xtrigger_env-IsReportable label results)

-- What is kept when more is satisfied.
Grows : Calling → Calling → Type 0
Grows c c' =
    ((l : String) → get c.satisfied l ≡ some true → get c'.satisfied l ≡ some true)
    × ((s : String) → has c.mgr.sat_xtrig s ≡ true → has c'.mgr.sat_xtrig s ≡ true)
    × ((l : String) → has c.satisfied l ≡ true → has c'.satisfied l ≡ true)

Grows-refl : (c : Calling) → Grows c c
unfolding Grows
Grows-refl c = (λ l h. h, λ s h. h, λ l h. h)

Grows-trans : (a b c : Calling) → Grows a b → Grows b c → Grows a c
unfolding Grows
Grows-trans a b c (h, k, m) (h', k', m') =
    (λ l e. h' l (h l e), λ s e. k' s (k s e), λ l e. m' l (m l e))

get-none-has : (d : Assoc String Results) (s : String) → get d s ≡ none → has d s ≡ true → ⊥
get-none-has d s e h = let (v, f) = get-some d s h in ground arith

module _ (shape : Shape) (sigs : String → String) (old : Assoc String Bool) where
  -- A trigger that is satisfied was so before, or has a result.
  Sound : Calling → Type 0
  unfolding HasShape
  Sound c =
      HasShape (whole shape) c.broadcasts.broadcasts
      × ((l : String)
          → get c.satisfied l ≡ some true
          → (get old l ≡ some true) ⊎ (has c.mgr.sat_xtrig (sigs l) ≡ true))

  After : String → Calling → Calling → Type 0
  unfolding Sound Grows
  After label c c' =
      Sound c'
      × Grows c c'
      × (has c.mgr.sat_xtrig (sigs label) ≡ true → get c'.satisfied label ≡ some true)

  satisfied-After :
      (label : String) (c c' : Calling)
      → Sound c
      → HasShape (whole shape) c'.broadcasts.broadcasts
      → c'.satisfied ≡ put c.satisfied label true
      → ((s : String) → has c.mgr.sat_xtrig s ≡ true → has c'.mgr.sat_xtrig s ≡ true)
      → has c'.mgr.sat_xtrig (sigs label) ≡ true
      → After label c c'
  unfolding Sound Grows After
  satisfied-After label c c' (shaped, sound) shaped' e grows known =
      let got : (l : String)
          → get c'.satisfied l ≡ (if l == label then some true else get c.satisfied l) =
        λ l. ap (λ (d : Assoc String Bool). get d l) e ∙ get-put c.satisfied label l true in
      let kept : (l : String) → has c'.satisfied l ≡ (l == label || has c.satisfied l) =
        λ l. ap (λ (d : Assoc String Bool). has d l) e ∙ has-put c.satisfied label l true in
      (
        (
          shaped',
          λ l h. elim (Bool-cases (l == label)) [
            | inl same ↦ inr (
                subst (λ x. has c'.mgr.sat_xtrig (sigs x) ≡ true) (sym (eq_of_== l label same))
                  known)
            | inr other ↦ elim (sound l (ground (arith, got l))) [
              | inl was ↦ inl was
              | inr found ↦ inr (grows (sigs l) found)
            ]
          ],
        ),
        (λ l h. ground (arith, got l), grows, λ l h. ground (arith, kept l)),
        λ h. ground (arith, got label, eq_refl label),
      )

  same-After :
      (label : String) (c : Calling)
      → Sound c
      → (has c.mgr.sat_xtrig (sigs label) ≡ true → get c.satisfied label ≡ some true)
      → After label c c
  unfolding Sound Grows After
  same-After label c sound h = (sound, Grows-refl c, h)

  call_clock-After :
      (env : Env) (c : Calling) (label : String)
      → Sound c
      → After label c (call_clock env c label (sigs label))
  unfolding call_clock Sound
  call_clock-After env c label sound = elim (Bool-cases (has c.mgr.sat_xtrig (sigs label))) [
    | inl known ↦
        rw (known, call_clock)
          (satisfied-After label c (satisfy label c) sound sound.0 refl (λ s h. h) known)
    | inr new ↦ elim (Bool-cases (env.wall_clock (sigs label))) [
      | inl rings ↦
          rw (new, rings, call_clock)
            (satisfied-After label c _ sound sound.0 refl
              (λ s h. has-put c.mgr.sat_xtrig (sigs label) s [] ∙ ground arith)
              (has-put c.mgr.sat_xtrig (sigs label) (sigs label) []
                ∙ ground (arith, eq_refl (sigs label))))
      | inr waits ↦
          rw (new, waits, call_clock) (same-After label c sound (λ h. absurd (ground arith)))
    ]
  ]

  broadcast_results-After :
      (i : Interface) (itask : TaskProxy) (c c' : Calling) (label : String) (results : Results)
      → IsSound i shape
      → After label c c'
      → Returns (After label c) (broadcast_results i itask c' label results)
  unfolding broadcast_results After Sound Grows IsPut
  broadcast_results-After i itask c c' label [] sound h = h
  broadcast_results-After i itask c c' label (r ∷ rs) sound ((shaped, a), grows, done) =
      let put : Result BroadcastError Changed =
        put_broadcast i c'.broadcasts (itask.point ∷ []) (itask.name ∷ [])
          (xtrigger_env label (r ∷ rs)) in
      Returns->>= (IsPut i shape c'.broadcasts) (After label c) (lift put) _
        (lift-Returns (IsPut i shape c'.broadcasts) put (
          put_broadcast-IsPut i shape c'.broadcasts (itask.point ∷ []) (itask.name ∷ [])
            (xtrigger_env label (r ∷ rs)) sound shaped (xtrigger_env-IsReportable label (r ∷ rs))))
        (λ changed p. ((p.0, a), grows, done))

  call_function-After :
      (env : Env) (c : Calling) (label : String)
      → Sound c
      → get c.mgr.sat_xtrig (sigs label) ≡ none
      → After label c (call_function env c label (sigs label))
  unfolding call_function After Sound Grows
  call_function-After env c label sound new =
      elim (Bool-cases (
        contains c.mgr.active (sigs label)
        || is_too_soon env.now (get c.mgr.t_next_call (sigs label)))) [
          | inl waits ↦
              rw (waits, call_function)
                (same-After label c sound
                  (λ h. absurd (get-none-has c.mgr.sat_xtrig (sigs label) new h)))
          | inr calls ↦
              rw (calls, call_function)
                (
                  sound,
                  (λ l h. h, λ s h. h, λ l h. h),
                  λ h. absurd (get-none-has c.mgr.sat_xtrig (sigs label) new h),
                )
        ]

  call_other-After :
      (i : Interface) (env : Env) (itask : TaskProxy) (c : Calling) (label : String)
      (found : Option Results) (waits : Option Bool)
      → IsSound i shape
      → Sound c
      → has c.satisfied label ≡ true
      → get c.mgr.sat_xtrig (sigs label) ≡ found
      → get c.satisfied label ≡ waits
      → Returns (After label c) (call_other i env itask c label (sigs label) found)
  unfolding call_other call_satisfied Sound
  call_other-After i env itask c label none waits ok_i sound has_label f w =
      call_function-After env c label sound f
  call_other-After i env itask c label (some results) none ok_i sound has_label f w =
      let (v, e) = get-some c.satisfied label has_label in absurd (ground arith)
  call_other-After i env itask c label (some results) (some true) ok_i sound has_label f w =
      rw w (same-After label c sound (λ h. w))
  call_other-After i env itask c label (some results) (some false) ok_i sound has_label f w = rw w (
      broadcast_results-After i itask c (satisfy label c) label results ok_i (
        satisfied-After label c (satisfy label c) sound sound.0 refl (λ s h. h)
          (has_of_get c.mgr.sat_xtrig (sigs label) results f)))

  call_one-After :
      (i : Interface) (env : Env) (itask : TaskProxy) (c : Calling) (label : String)
      → IsSound i shape
      → Sound c
      → has c.satisfied label ≡ true
      → Returns (After label c) (call_one i env itask c (label, sigs label))
  unfolding call_one
  call_one-After i env itask c label ok_i sound has_label =
      elim (Bool-cases (contains c.mgr.wall_clock_labels label)) [
        | inl clock ↦ rw (clock, call_one) (call_clock-After env c label sound)
        | inr other ↦
            rw (other, call_one)
              (call_other-After i env itask c label (get c.mgr.sat_xtrig (sigs label))
                (get c.satisfied label) ok_i sound has_label refl refl)
      ]

  -- A label with its signature, of a trigger of the task.
  abbrev Labels : Assoc String Bool → String × String → Type 0
  Labels d (label, sig) = (sig ≡ sigs label) × (has d label ≡ true)

  -- Each of the triggers that has a result is satisfied.
  AllAfter : Calling → List (String × String) → Calling → Type 0
  unfolding Sound Grows
  AllAfter c xs c' =
      Sound c'
      × Grows c c'
      × ((l : String)
          → contains (map (λ x. x.0) xs) l ≡ true
          → has c.mgr.sat_xtrig (sigs l) ≡ true
          → get c'.satisfied l ≡ some true)

  AllAfter-cons :
      (label : String) (xs : List (String × String)) (c c1 c2 : Calling)
      → After label c c1
      → AllAfter c1 xs c2
      → AllAfter c ((label, sigs label) ∷ xs) c2
  unfolding AllAfter After Grows
  AllAfter-cons label xs c c1 c2 (sound1, grows1, done1) (sound2, grows2, done2) = (
    sound2,
    Grows-trans c c1 c2 grows1 grows2,
    λ l listed known. elim (Bool-cases (l == label)) [
      | inl same ↦ grows2.0 l (
          subst (λ x. get c1.satisfied x ≡ some true) (sym (eq_of_== l label same))
            (done1
              (subst (λ x. has c.mgr.sat_xtrig (sigs x) ≡ true) (eq_of_== l label same) known)))
      | inr other ↦ done2 l (ground arith) (grows1.1 (sigs l) known)
    ],
  )

  calls-AllAfter :
      (i : Interface) (env : Env) (itask : TaskProxy) (xs : List (String × String)) (c : Calling)
      → IsSound i shape
      → Sound c
      → All (Labels c.satisfied) xs
      → Returns (AllAfter c xs) (fold_result (call_one i env itask) c xs)
  unfolding fold_result After AllAfter Grows
  calls-AllAfter i env itask [] c ok_i sound h = (sound, Grows-refl c, λ l e. absurd (ground arith))
  calls-AllAfter i env itask ((label, sig) ∷ xs) c ok_i sound ((e, has_label), h) = rw e (
      Returns->>= (After label c) (AllAfter c ((label, sigs label) ∷ xs))
        (call_one i env itask c (label, sigs label)) _
        (call_one-After i env itask c label ok_i sound has_label)
        (λ c1 after.
          Returns-mono (AllAfter c1 xs) (AllAfter c ((label, sigs label) ∷ xs))
            (fold_result (call_one i env itask) c1 xs)
            (calls-AllAfter i env itask xs c1 ok_i after.0 (
              All-mono (Labels c.satisfied) (Labels c1.satisfied) xs
                (λ x k. (k.0, (after.1).2 x.0 k.1)) h))
            (λ c2 rest. AllAfter-cons label xs c c1 c2 after rest)))

  -- The triggers that are not satisfied, with their signatures.
  Lists : Assoc String Bool → Assoc String Bool → List (String × String) → Type 0
  Lists all_triggers d xs =
      All (Labels all_triggers) xs
      × ((l : String) → get d l ≡ some false → contains (map (λ x. x.0) xs) l ≡ true)

  get_xtrigs-Lists :
      (env : Env) (itask : TaskProxy) (triggers d : Assoc String Bool)
      → ((l : String)
          → has d l ≡ true
          → (env.signature itask l ≡ some (sigs l)) × (has triggers l ≡ true))
      → Returns (Lists triggers d) (get_xtrigs env itask true d)
  unfolding get_xtrigs has get Lists
  get_xtrigs-Lists env itask triggers [] h = (tt, λ l e. absurd (ground arith))
  get_xtrigs-Lists env itask triggers ((label, true) ∷ d) h =
      Returns-mono (Lists triggers d) (Lists triggers ((label, true) ∷ d)) _
        (get_xtrigs-Lists env itask triggers d (λ l e. h l (ground arith)))
        (λ xs p. (p.0, λ l e. p.1 l (ground arith)))
  get_xtrigs-Lists env itask triggers ((label, false) ∷ d) h =
      let (known, here) = h label (ground (arith, eq_refl label)) in
      rw known (
        Returns->>= (Lists triggers d) (Lists triggers ((label, false) ∷ d))
          (get_xtrigs env itask true d) _
          (get_xtrigs-Lists env itask triggers d (λ l e. h l (ground arith)))
          (λ xs p. (((refl, here), p.0), λ l e. ground (arith, p.1 l))))

-- What `call_xtriggers_async` promises.
unfoldable pub IsCalled : Shape → (String → String) → XtriggerManager → TaskProxy → Calling → Type 0
unfolding HasShape get has
IsCalled shape sigs mgr itask c =
    HasShape (whole shape) c.broadcasts.broadcasts
    × ((l : String)
        → get c.satisfied l ≡ some true
        → (get itask.xtriggers l ≡ some true) ⊎ (has c.mgr.sat_xtrig (sigs l) ≡ true))
    × ((l : String) → get itask.xtriggers l ≡ some true → get c.satisfied l ≡ some true)
    × ((l : String)
        → get itask.xtriggers l ≡ some false
        → has mgr.sat_xtrig (sigs l) ≡ true
        → get c.satisfied l ≡ some true)

-- When each trigger of the task is defined, with a signature, the validator returns settings in the
-- shape of the configuration, and the broadcasts have it, `call_xtriggers_async` raises nothing and keeps
-- the shape. A trigger of the task is satisfied afterwards only if it was before or its signature has a
-- result; none is taken back; and each whose signature had a result before is satisfied.
pub call_xtriggers_async-IsCalled :
    (i : Interface) (shape : Shape) (env : Env) (sigs : String → String) (mgr : XtriggerManager)
    (broadcasts : BroadcastMgr) (itask : TaskProxy)
    → IsSound i shape
    → HasShape (whole shape) broadcasts.broadcasts
    → ((l : String) → has itask.xtriggers l ≡ true → env.signature itask l ≡ some (sigs l))
    → Returns (IsCalled shape sigs mgr itask) (call_xtriggers_async i env mgr broadcasts itask)
unfolding call_xtriggers_async IsCalled AllAfter Sound Grows Lists
call_xtriggers_async-IsCalled i shape env sigs mgr broadcasts itask ok_i h defined =
    let c : Calling = record { mgr = mgr; broadcasts = broadcasts; satisfied = itask.xtriggers } in
    Returns->>= (Lists shape sigs itask.xtriggers itask.xtriggers itask.xtriggers)
      (IsCalled shape sigs mgr itask) (get_xtrigs env itask true itask.xtriggers) _
      (get_xtrigs-Lists shape sigs itask.xtriggers env itask itask.xtriggers itask.xtriggers
        (λ l e. (defined l e, e)))
      (λ xs listed.
        Returns-mono (AllAfter shape sigs itask.xtriggers c xs) (IsCalled shape sigs mgr itask)
          (fold_result (call_one i env itask) c xs)
          (calls-AllAfter shape sigs itask.xtriggers i env itask xs c ok_i (h, λ l e. inl e)
            listed.0)
          (λ c' p. ((p.0).0, (p.0).1, (p.1).0, λ l waits known. p.2 l (listed.1 l waits) known)))
