-- ===== src/C3Mro/Mro.antt =====
-- `mro`: the linearisation of a hierarchy without cycles.
use cylc_flow.Prelude.{
  ℕ, zero, suc, ◌<◌, ◌≡◌, refl, ◌∙◌, ap, subst, ◌≢◌, ◌⊎◌, inl, inr, String, true, false, Option,
  none, some, List, [], ◌∷◌, ◌++◌, any, filter, contains, IsNodup, All, All-mono, All-append, ◌==◌,
  string_eq, nat_eq, arith,
}
use cylc_flow.Prelude.Assoc.{get, has, get-some, All_get}
use cylc_flow.Prelude.Result.{Result, ok, err, traverse, or_raise, >>=-eq-ok}
use mathlib.Core.List.{Sublistᴰ}
use cylc_flow.C3Mro.{
  MroError, key_error, bad_hierarchy, is_nonempty, in_tail, find_cand, next_cand, Tree, merge, mro,
}
use cylc_flow.C3Mro.Rounds.{Merges, merge-Merges, next_cand_lem, merge_err}
use cylc_flow.C3Mro.Order.{merge-Sublist, Absent, merge-IsNodup}

-- `mro` with its parts: the parents of `c` and their linearisations.
record Parts (depth : ℕ) (tree : Tree) (c : String) (out : List String) : Type 0 where
  parents : List String
  linear : List (List String)
  found : get tree c ≡ some parents
  linearised : traverse (mro depth tree) parents ≡ ok linear
  merged : merge ((c ∷ []) ∷ linear ++ parents ∷ []) ≡ ok out

or_raise-eq-ok {ℓ} :
    {E : Type 0} {A : Type ℓ} (e : E) (o : Option A) {a : A} → or_raise e o ≡ ok a → o ≡ some a
or_raise-eq-ok e none h = absurd (cc)
or_raise-eq-ok e (some b) h = cc

mro-Parts :
    (depth : ℕ) (tree : Tree) (c : String) (out : List String)
    → mro (suc depth) tree c ≡ ok out
    → Parts depth tree c out
unfolding mro
mro-Parts depth tree c out h =
    let (parents, found, rest) = >>=-eq-ok (or_raise key_error (get tree c)) _ h in
    let (linear, linearised, merged) = >>=-eq-ok (traverse (mro depth tree) parents) _ rest in
    record {
      parents = parents;
      linear = linear;
      found = or_raise-eq-ok _ _ found;
      linearised = linearised;
      merged = merged;
    }

All-of_append_left {ℓ κ} :
    {A : Type ℓ} (P : A → Type κ) (xs ys : List A) → All P (xs ++ ys) → All P xs
All-of_append_left P [] ys h = tt
All-of_append_left P (x ∷ xs) ys h = (h.0, All-of_append_left P xs ys h.1)

All-of_append_right {ℓ κ} :
    {A : Type ℓ} (P : A → Type κ) (xs ys : List A) → All P (xs ++ ys) → All P ys
All-of_append_right P [] ys h = h
All-of_append_right P (x ∷ xs) ys h = All-of_append_right P xs ys h.1

-- The linearisation of `c` is a list without repetitions that keeps the order in which `c` names
-- its parents and the order of each parent's own linearisation.
pub mro_monotonic :
    (depth : ℕ) (tree : Tree) (c : String) (out : List String)
    → mro (suc depth) tree c ≡ ok out
    → IsNodup out
      × ((parents : List String) × (linear : List (List String)) × (get tree c ≡ some parents)
          × (traverse (mro depth tree) parents ≡ ok linear)
          × Sublistᴰ parents out
          × All (λ s. Sublistᴰ s out) linear)
mro_monotonic depth tree c out h =
    let parts = mro-Parts depth tree c out h in
    let extends = merge-Sublist _ out parts.merged in
    (
      (merge-IsNodup _ out parts.merged).0,
      (
        parts.parents,
        parts.linear,
        parts.found,
        parts.linearised,
        (All-of_append_right (λ s. Sublistᴰ s out) parts.linear _ extends.1).0,
        All-of_append_left (λ s. Sublistᴰ s out) parts.linear _ extends.1,
      ),
    )

-- `rank` falls from each name to its parents, and each parent is in the tree.
abbrev pub IsRanked : Tree → (String → ℕ) → Type 0
IsRanked tree rank =
    All (λ item. All (λ p. (rank p < rank item.0) × (has tree p ≡ true)) item.1) tree

falls :
    (tree : Tree) (rank : String → ℕ) (c : String) (parents : List String)
    → IsRanked tree rank
    → get tree c ≡ some parents
    → All (λ p. (rank p < rank c) × (has tree p ≡ true)) parents
falls tree rank c parents h e =
    All_get (λ b ps. All (λ p. (rank p < rank b) × (has tree p ≡ true)) ps) tree c parents h e

traverse-All {ℓ κ} :
    {E : Type 0} {A : Type ℓ} {B : Type κ} (f : A → Result E B) (P : A → Type 0) (Q : B → Type 0)
    → ((x : A) (y : B) → P x → f x ≡ ok y → Q y)
    → (xs : List A) (ys : List B) → All P xs
    → traverse f xs ≡ ok ys
    → All Q ys
traverse-All f P Q keep [] ys p h = let e : [] ≡ ys = cc in subst (All Q) e tt
traverse-All f P Q keep (x ∷ xs) ys p h =
    let (y, q, rest) = >>=-eq-ok (f x) _ h in
    let (ys', q', last) = >>=-eq-ok (traverse f xs) _ rest in
    let e : y ∷ ys' ≡ ys = cc in
    subst (All Q) e (keep x y p.0 q, traverse-All f P Q keep xs ys' p.1 q')

-- A list, or the hierarchy error.
abbrev pub Ends {ℓ} : {A : Type ℓ} → Result MroError A → Type ℓ
Ends {A = A} r = (r ≡ err bad_hierarchy) ⊎ ((a : A) × (r ≡ ok a))

traverse-Ends {ℓ κ} :
    {A : Type ℓ} {B : Type κ} (f : A → Result MroError B) (xs : List A)
    → All (λ x. Ends (f x)) xs
    → Ends (traverse f xs)
traverse-Ends f [] h = inr ([], refl)
traverse-Ends f (x ∷ xs) h = elim h.0 [
  | inl e ↦ inl (rw e)
  | inr (y, e) ↦ elim (traverse-Ends f xs h.1) [
    | inl e' ↦ inl (rw e (rw e'))
    | inr (ys, e') ↦ inr (y ∷ ys, rw e (rw e'))
  ]
]

Result-cases {ℓ} :
    {E : Type 0} {A : Type ℓ} (r : Result E A) → ((e : E) × (r ≡ err e)) ⊎ ((a : A) × (r ≡ ok a))
Result-cases (ok a) = inr (a, refl)
Result-cases (err e) = inl (e, refl)

merge-Ends : (seqs : List (List String)) → Ends (merge seqs)
merge-Ends seqs = elim (Result-cases (merge seqs)) [
  | inl (e, h) ↦ inl (h ∙ ap err (merge_err seqs e h))
  | inr r ↦ inr r
]

module _ (tree : Tree) (rank : String → ℕ) (ranked : IsRanked tree rank) where
  not_contains_above :
      (a : String) (xs : List String) → All (λ p. rank p < rank a) xs → contains xs a ≡ false
  not_contains_above a [] h = refl
  not_contains_above a (x ∷ xs) h = elim (string_eq.dec a x) [
    | yes p ↦ absurd (omega (arith, ap rank p))
    | no n ↦ ground (arith, not_contains_above a xs h.1)
  ]

  -- Every name of the linearisation of `c` ranks at most as high as `c`.
  mro-not_contains :
      (depth : ℕ) (c a : String) (out : List String)
      → mro depth tree c ≡ ok out
      → rank c < rank a
      → contains out a ≡ false
  mro-not_contains zero c a out h lt = absurd (unfold mro in ground arith)
  mro-not_contains (suc depth) c a out h lt =
      let parts = mro-Parts depth tree c out h in
      let below =
        All-mono _ (λ p. rank p < rank c) parts.parents (λ p q. q.0)
          (falls tree rank c parts.parents ranked parts.found) in
      let parents_below =
        All-mono _ (λ p. rank p < rank a) parts.parents (λ p q. omega arith) below in
      (merge-IsNodup _ out parts.merged).1 a (
        not_contains_above a (c ∷ []) (lt, tt),
        All-append (λ s. contains s a ≡ false) parts.linear (parts.parents ∷ [])
            (traverse-All (mro depth tree) (λ p. rank p < rank a) (λ s. contains s a ≡ false)
              (λ p s q e. mro-not_contains depth p a s e q) parts.parents parts.linear parents_below
              parts.linearised)
            (not_contains_above a parts.parents parents_below, tt),
      )

  free_of_Absent :
      (a : String) (seqs : List (List String)) → Absent a seqs → any (in_tail a) seqs ≡ false
  free_of_Absent a [] h = refl
  free_of_Absent a ([] ∷ seqs) h = free_of_Absent a seqs h.1
  free_of_Absent a ((x ∷ s) ∷ seqs) h = ground (arith, free_of_Absent a seqs h.1)

  find_cand_first :
      (c : String) (seqs : List (List String))
      → any (in_tail c) seqs ≡ false
      → find_cand ((c ∷ []) ∷ seqs) ((c ∷ []) ∷ seqs) ≡ some c
  unfolding find_cand
  find_cand_first c seqs free = rw free

  first_cand :
      (c : String) (seqs : List (List String))
      → (c == "") ≡ false
      → any (in_tail c) seqs ≡ false
      → next_cand ((c ∷ []) ∷ seqs) ≡ some c
  first_cand c seqs named free = rw next_cand_lem (rw (find_cand_first c seqs free) (rw named))

  Merges-head :
      {seqs : List (List String)} {out : List String} (c : String)
      → Merges seqs out
      → next_cand seqs ≡ some c
      → filter is_nonempty seqs ≢ []
      → (rest : List String) × (out ≡ c ∷ rest)
  Merges-head c (Merges.done e) p ne = absurd (ne e)
  Merges-head c (Merges.pick {out = out} d q m) p ne = (out, cc)

  -- In a ranked hierarchy the linearisation of a name begins with that name.
  mro-head :
      (depth : ℕ) (c : String) (out : List String)
      → (c == "") ≡ false
      → mro depth tree c ≡ ok out
      → (rest : List String) × (out ≡ c ∷ rest)
  mro-head zero c out named h = absurd (unfold mro in ground arith)
  mro-head (suc depth) c out named h =
      let parts = mro-Parts depth tree c out h in
      let below =
        All-mono _ (λ p. rank p < rank c) parts.parents (λ p q. q.0)
          (falls tree rank c parts.parents ranked parts.found) in
      let absent =
        All-append (λ s. contains s c ≡ false) parts.linear (parts.parents ∷ [])
          (traverse-All (mro depth tree) (λ p. rank p < rank c) (λ s. contains s c ≡ false)
            (λ p s q e. mro-not_contains depth p c s e q) parts.parents parts.linear below
            parts.linearised)
          (not_contains_above c parts.parents below, tt) in
      Merges-head c (merge-Merges _ out parts.merged)
        (first_cand c _ named (free_of_Absent c _ absent)) (λ e. cc)

  step_terminates :
      (depth : ℕ) (c : String)
      → ((p : String) → (rank p < rank c) × (has tree p ≡ true) → Ends (mro depth tree p))
      → has tree c ≡ true
      → Ends (mro (suc depth) tree c)
  unfolding mro
  step_terminates depth c ih h =
      let (parents, found) = get-some tree c h in
      elim (traverse-Ends (mro depth tree) parents (
        All-mono _ (λ p. Ends (mro depth tree p)) parents ih
          (falls tree rank c parents ranked found))) [
            | inl e ↦ inl (rw found (rw e))
            | inr (linear, e) ↦ rw found (rw e (merge-Ends ((c ∷ []) ∷ linear ++ parents ∷ [])))
          ]

  -- With more depth than the name's rank the linearisation of a name in the tree ends: it returns
  -- a list or raises the hierarchy error.
  pub mro_terminates :
      (depth : ℕ) (c : String) → rank c < depth → has tree c ≡ true → Ends (mro depth tree c)
  mro_terminates zero c lt h = absurd (omega arith)
  mro_terminates (suc depth) c lt h =
      step_terminates depth c (λ p (below, known). mro_terminates depth p (omega arith) known) h
