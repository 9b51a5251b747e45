-- ===== src/Prerequisite/Effects.antt =====
-- What the operations do to the registered outputs.
use cylc_flow.Prelude.{
  ◌≡◌, refl, sym, ◌∙◌, ap, subst, inl, inr, String, Bool, true, false, not, ◌&&◌, ◌||◌, Option,
  none, some, List, [], ◌∷◌, contains, IsNodup, if◌then◌else◌, ◌==◌, string_eq, nat_eq, arith,
  Bool-cases, Option-cases,
}
use cylc_flow.Prelude.Assoc.{keys, get, get-put}
use cylc_flow.Prelude.Result.{ok, >>=-eq-ok}
use mathlib.Core.Option
use cylc_flow.Prerequisite.{
  PrereqTuple, prereq_tuple_eq, SatisfiedState, satisfied_state, force_satisfied, unsatisfied,
  truthy, state, RunMode, Expr, raw, lookup, all_of, any_of, Satisfied, Prerequisite, get_id,
  is_natural, set_item, has_raw, eval, eval_with, eval_satisfied, is_satisfied, satisfy_one,
  satisfy_me, force_all, set_satisfied, set_satisfied_from, unset_items, unset_naturally_satisfied,
}
use cylc_flow.Prerequisite.Monotone.{get-force_all, all_satisfied-force_all}

-- An unsatisfied output that is among the outputs gets the new state.
abbrev pub after : SatisfiedState → Bool → SatisfiedState → SatisfiedState
after new listed s = if not (truthy s) && listed then new else s

truthy-satisfied_state :
    (forced : Bool) (mode : Option RunMode) → truthy (satisfied_state forced mode) ≡ true
truthy-satisfied_state true mode = refl
truthy-satisfied_state false none = refl
truthy-satisfied_state false (some RunMode.live) = refl
truthy-satisfied_state false (some RunMode.simulation) = refl
truthy-satisfied_state false (some RunMode.dummy) = refl
truthy-satisfied_state false (some RunMode.skip) = refl

get-satisfy_one :
    (mode : Option RunMode) (forced : Bool) (p : Prerequisite) (output k : PrereqTuple)
    → get (satisfy_one mode forced p output).satisfied k
      ≡ Option.map (after (satisfied_state forced mode) (k == output)) (get p.satisfied k)
unfolding satisfy_one
get-satisfy_one mode forced p output k =
    ground (arith, get-put p.satisfied output k (satisfied_state forced mode))

-- `satisfy_me` gives each listed output that is registered and not satisfied the state for the mode
-- (forced, skip mode or natural), leaves all others as they are, and registers none.
pub get-satisfy_me :
    (mode : Option RunMode) (forced : Bool) (p : Prerequisite) (outputs : List PrereqTuple)
    (k : PrereqTuple)
    → get (satisfy_me p outputs mode forced).satisfied k
      ≡ Option.map (after (satisfied_state forced mode) (contains outputs k)) (get p.satisfied k)
unfolding satisfy_me
get-satisfy_me mode forced p [] k = ground arith
get-satisfy_me mode forced p (output ∷ outputs) k = ground (
  arith,
  get-satisfy_me mode forced (satisfy_one mode forced p output) outputs k,
  get-satisfy_one mode forced p output k,
  truthy-satisfied_state forced mode,
)

-- All outputs that an expression reads are satisfied in `d`.
eval-true :
    (d d' : Satisfied) (e : Expr) (b : Bool)
    → ((k : PrereqTuple) (s : SatisfiedState)
        → get d k ≡ some s
        → (s' : SatisfiedState) × (get d' k ≡ some s') × (truthy s' ≡ true))
    → eval d e ≡ ok b
    → eval d' e ≡ ok true
unfolding eval
eval-true d d' (raw t) b h q = absurd (ground arith)
eval-true d d' (lookup t) b h q = elim (Option-cases (get d t)) [
  | inl n ↦ absurd (ground arith)
  | inr (s, e) ↦ let (s', e', t') = h t s e in rw e' (ap ok t')
]
eval-true d d' (all_of x y) b h q =
    let (b₁, e₁, rest) = >>=-eq-ok (eval d x) _ q in
    let (b₂, e₂, last) = >>=-eq-ok (eval d y) _ rest in
    rw (eval-true d d' x b₁ h e₁) (rw (eval-true d d' y b₂ h e₂))
eval-true d d' (any_of x y) b h q =
    let (b₁, e₁, rest) = >>=-eq-ok (eval d x) _ q in
    let (b₂, e₂, last) = >>=-eq-ok (eval d y) _ rest in
    rw (eval-true d d' x b₁ h e₁) (rw (eval-true d d' y b₂ h e₂))

force_all-true :
    (d : Satisfied) (k : PrereqTuple) (s : SatisfiedState)
    → get d k ≡ some s
    → (s' : SatisfiedState) × (get (force_all d) k ≡ some s') × (truthy s' ≡ true)
force_all-true d k s e =
    (if truthy s then s else force_satisfied, ground (arith, get-force_all d k), ground arith)

eval_with_forced :
    (d : Satisfied) (c : Option Expr) (b : Bool)
    → eval_with d c ≡ ok b
    → eval_with (force_all d) c ≡ ok true
eval_with_forced d none b h = ap ok (all_satisfied-force_all d)
eval_with_forced d (some e) b h = elim (Bool-cases (has_raw e)) [
  | inl r ↦ absurd (ground arith)
  | inr r ↦ rw r (eval-true d (force_all d) e b (force_all-true d) (rw r at h))
]

forced_lem :
    (p : Prerequisite) (c : Option Expr)
    → p.conditional_expression ≡ c
    → eval_with (force_all p.satisfied) c ≡ ok true
    → let p' = (set_satisfied_from (record p { satisfied = force_all p.satisfied }) c).0 in
      (p'.cached_satisfied ≡ some true) × (p'.satisfied ≡ force_all p.satisfied)
unfolding eval_satisfied
forced_lem p none e h = (refl, refl)
forced_lem p (some x) e h = rw (ap (eval_with (force_all p.satisfied)) e ∙ h) (refl, refl)

set_satisfied_from-answer :
    (p : Prerequisite) (c : Option Expr)
    → p.conditional_expression ≡ c
    → eval_with (force_all p.satisfied) c ≡ ok true
    → (set_satisfied_from (record p { satisfied = force_all p.satisfied }) c).1 ≡ ok true
unfolding eval_satisfied
set_satisfied_from-answer p none e h = refl
set_satisfied_from-answer p (some x) e h = rw (ap (eval_with (force_all p.satisfied)) e ∙ h) refl

-- `set_satisfied` does not raise for a condition that can be evaluated.
pub set_satisfied-answer :
    (p : Prerequisite) (b : Bool) → eval_satisfied p ≡ ok b → (set_satisfied p).1 ≡ ok true
unfolding set_satisfied eval_satisfied
set_satisfied-answer p b h =
    set_satisfied_from-answer p p.conditional_expression refl
      (eval_with_forced p.satisfied p.conditional_expression b h)

-- If the condition of a prerequisite can be evaluated, then `set_satisfied` leaves it satisfied.
pub set_satisfied-is_satisfied :
    (p : Prerequisite) (b : Bool)
    → eval_satisfied p ≡ ok b
    → let p' = (set_satisfied p).0 in
      ((is_satisfied p').1 ≡ ok true)
      × ((k : PrereqTuple)
          → get p'.satisfied k
            ≡ Option.map (λ s. if truthy s then s else force_satisfied) (get p.satisfied k))
unfolding set_satisfied eval_satisfied is_satisfied
set_satisfied-is_satisfied p b h =
    let (e, f) =
      forced_lem p p.conditional_expression refl
        (eval_with_forced p.satisfied p.conditional_expression b h) in
    (rw (e, is_satisfied), λ k. ap (λ d. get d k) f ∙ get-force_all p.satisfied k)

abbrev pub unset : String → PrereqTuple → SatisfiedState → SatisfiedState
unset id k s = if get_id k == id && is_natural s then unsatisfied else s

abbrev pub any_unset : String → Satisfied → Bool
any_unset id [] = false
any_unset id ((k, s) ∷ d) = (get_id k == id && is_natural s) || any_unset id d

-- What the loop of `unset_naturally_satisfied` makes of an output, by its state among the items.
abbrev unset_by :
    String → PrereqTuple → Option SatisfiedState → Option SatisfiedState → Option SatisfiedState
unset_by id k none old = old
unset_by id k (some s) old = if get_id k == id && is_natural s then some unsatisfied else old

get_not_key : (d : Satisfied) (k : PrereqTuple) → contains (keys d) k ≡ false → get d k ≡ none
unfolding get
get_not_key [] k h = refl
get_not_key ((j, s) ∷ d) k h = ground (arith, get_not_key d k)

get-set_item_if :
    (p : Prerequisite) (test : Bool) (j k : PrereqTuple)
    → get (if test then set_item p j (state unsatisfied) else p).satisfied k
      ≡ (if test && k == j then some unsatisfied else get p.satisfied k)
unfolding set_item
get-set_item_if p true j k = ground (arith, get-put p.satisfied j k unsatisfied)
get-set_item_if p false j k = refl

get-unset_items :
    (id : String) (p : Prerequisite) (items : Satisfied) (k : PrereqTuple)
    → IsNodup (keys items)
    → get (unset_items id p items).0.satisfied k ≡ unset_by id k (get items k) (get p.satisfied k)
unfolding unset_items get
get-unset_items id p [] k d = refl
get-unset_items id p ((j, s) ∷ items) k d =
    let matches = get_id j == id && is_natural s in
    let ih =
      get-unset_items id (if matches then set_item p j (state unsatisfied) else p) items k d.1 in
    elim (prereq_tuple_eq.dec k j) [
      | yes e ↦ ground (
        arith,
        ih,
        get-set_item_if p matches j k,
        get_not_key items k (subst (λ i. contains (keys items) i ≡ false) (sym e) d.0),
        ap get_id e,
      )
      | no n ↦ ground (arith, ih, get-set_item_if p matches j k)
    ]

unset_items-changed :
    (id : String) (p : Prerequisite) (items : Satisfied)
    → (unset_items id p items).1 ≡ any_unset id items
unfolding unset_items
unset_items-changed id p [] = refl
unset_items-changed id p ((k, s) ∷ items) = ground (
  arith,
  unset_items-changed id
      (if get_id k == id && is_natural s then set_item p k (state unsatisfied) else p) items,
)

unset_by-map :
    (id : String) (k : PrereqTuple) (o : Option SatisfiedState)
    → unset_by id k o o ≡ Option.map (unset id k) o
unset_by-map id k none = refl
unset_by-map id k (some s) = ground arith

-- `unset_naturally_satisfied` makes exactly the outputs of the task with the ID unsatisfied that are
-- satisfied and not by force, leaves the others as they are, and says whether there was any.
get-unset_naturally_satisfied :
    (p : Prerequisite) (id : String) (k : PrereqTuple)
    → IsNodup (keys p.satisfied)
    → (get (unset_naturally_satisfied p id).0.satisfied k
        ≡ Option.map (unset id k) (get p.satisfied k))
      × ((unset_naturally_satisfied p id).1 ≡ any_unset id p.satisfied)
unfolding unset_naturally_satisfied
get-unset_naturally_satisfied p id k d = (
  get-unset_items id p p.satisfied k d ∙ unset_by-map id k (get p.satisfied k),
  unset_items-changed id p p.satisfied,
)
