-- ===== src/C3Mro/Rounds.antt =====
-- The runs of the loop of `merge` as a relation, and the loop's termination.
use cylc_flow.Prelude.{
  ℕ, zero, suc, ◌≤◌, ◌<◌, ◌≡◌, refl, sym, ◌∙◌, ap, inl, inr, String, Bool, true, false, ◌||◌, none,
  some, List, [], ◌∷◌, ◌++◌, map, any, filter, contains, ◌==◌, string_eq, nat_eq, arith,
  Option-cases, List-cases,
}
use cylc_flow.Prelude.Result.{ok, err}
use mathlib.Core.List.{append_assoc, append-nil}
use cylc_flow.C3Mro.{
  MroError, bad_hierarchy, is_nonempty, in_tail, find_cand, del_head, truthy, next_cand,
  merge_rounds, total, merge,
}

-- `Merges seqs out`: the rounds of `merge` on `seqs` emit `out`.
pub data Merges : List (List String) → List String → Type 0 where
  done : {seqs : List (List String)} → filter is_nonempty seqs ≡ [] → Merges seqs []
  pick :
      {seqs : List (List String)} {out : List String} (c : String)
      → next_cand seqs ≡ some c
      → Merges (map (del_head c) seqs) out
      → Merges seqs (c ∷ out)

module _ (fuel : ℕ) (res : List String) (seqs : List (List String)) where
  pub merge_rounds_done : filter is_nonempty seqs ≡ [] → merge_rounds (suc fuel) res seqs ≡ ok res
  unfolding merge_rounds
  merge_rounds_done e = rw (e, merge_rounds)

  module _ {s : List String} {rest : List (List String)}
      (e : filter is_nonempty seqs ≡ s ∷ rest) where
    pub merge_rounds_bad :
        next_cand seqs ≡ none → merge_rounds (suc fuel) res seqs ≡ err bad_hierarchy
    unfolding merge_rounds
    merge_rounds_bad n = rw (e, n, merge_rounds)

    pub merge_rounds_pick :
        (c : String)
        → next_cand seqs ≡ some c
        → merge_rounds (suc fuel) res seqs
          ≡ merge_rounds fuel (res ++ c ∷ []) (map (del_head c) seqs)
    unfolding merge_rounds
    merge_rounds_pick c p = rw (e, p, merge_rounds)

pub merge_rounds-Merges :
    (fuel : ℕ) (res : List String) (seqs : List (List String)) (out : List String)
    → merge_rounds fuel res seqs ≡ ok out
    → (tail : List String) × (out ≡ res ++ tail) × Merges seqs tail
merge_rounds-Merges zero res seqs out h = absurd (unfold merge_rounds in ground arith)
merge_rounds-Merges (suc fuel) res seqs out h = elim (List-cases (filter is_nonempty seqs)) [
  | inl e ↦ ([], cc (append-nil res, merge_rounds_done fuel res seqs e), Merges.done e)
  | inr (s, rest, e) ↦ elim (Option-cases (next_cand seqs)) [
    | inl n ↦ absurd (cc (merge_rounds_bad fuel res seqs e n))
    | inr (c, p) ↦
        let (tail, q, m) =
          merge_rounds-Merges fuel (res ++ c ∷ []) (map (del_head c) seqs) out
            (sym (merge_rounds_pick fuel res seqs e c p) ∙ h) in
        (c ∷ tail, q ∙ append_assoc res (c ∷ []) tail, Merges.pick c p m)
  ]
]

-- An empty list is no candidate and blocks none.
any-in_tail-filter :
    (c : String) (seqs : List (List String))
    → any (in_tail c) (filter is_nonempty seqs) ≡ any (in_tail c) seqs
any-in_tail-filter c [] = refl
any-in_tail-filter c ([] ∷ seqs) = any-in_tail-filter c seqs
any-in_tail-filter c ((x ∷ s) ∷ seqs) = ap (λ b. contains s c || b) (any-in_tail-filter c seqs)

find_cand-filter :
    (seqs rest : List (List String))
    → find_cand (filter is_nonempty seqs) (filter is_nonempty rest) ≡ find_cand seqs rest
unfolding find_cand
find_cand-filter seqs [] = refl
find_cand-filter seqs ([] ∷ rest) = find_cand-filter seqs rest
find_cand-filter seqs ((x ∷ s) ∷ rest) = rw (any-in_tail-filter, find_cand-filter seqs rest)

pub next_cand_lem : (seqs : List (List String)) → next_cand seqs ≡ truthy (find_cand seqs seqs)
unfolding next_cand
next_cand_lem seqs = ap truthy (find_cand-filter seqs seqs)

abbrev pub is_head : String → List String → Bool
is_head c [] = false
is_head c (x ∷ xs) = x == c

pub find_cand-head :
    (seqs rest : List (List String)) (c : String)
    → find_cand seqs rest ≡ some c
    → any (is_head c) rest ≡ true
unfolding find_cand
find_cand-head seqs [] c h = absurd (ground arith)
find_cand-head seqs ([] ∷ rest) c h = find_cand-head seqs rest c h
find_cand-head seqs ((x ∷ s) ∷ rest) c h = ground (arith, find_cand-head seqs rest c)

pub find_cand-free :
    (seqs rest : List (List String)) (c : String)
    → find_cand seqs rest ≡ some c
    → any (in_tail c) seqs ≡ false
unfolding find_cand
find_cand-free seqs [] c h = absurd (ground arith)
find_cand-free seqs ([] ∷ rest) c h = find_cand-free seqs rest c h
find_cand-free seqs ((x ∷ s) ∷ rest) c h = ground (arith, find_cand-free seqs rest c)

pub next_cand-free :
    (seqs : List (List String)) (c : String)
    → next_cand seqs ≡ some c
    → any (in_tail c) seqs ≡ false
next_cand-free seqs c h = find_cand-free seqs seqs c (ground (arith, next_cand_lem seqs))

pub next_cand-head :
    (seqs : List (List String)) (c : String) → next_cand seqs ≡ some c → any (is_head c) seqs ≡ true
next_cand-head seqs c h = find_cand-head seqs seqs c (ground (arith, next_cand_lem seqs))

total-del_head-le :
    (c : String) (seqs : List (List String)) → total (map (del_head c) seqs) ≤ total seqs
total-del_head-le c [] = omega arith
total-del_head-le c ([] ∷ seqs) = omega (arith, total-del_head-le c seqs)
total-del_head-le c ((x ∷ s) ∷ seqs) = ground (arith, total-del_head-le c seqs)

pub total-del_head-lt :
    (c : String) (seqs : List (List String))
    → any (is_head c) seqs ≡ true
    → total (map (del_head c) seqs) < total seqs
total-del_head-lt c [] h = absurd (ground arith)
total-del_head-lt c ([] ∷ seqs) h = omega (arith, total-del_head-lt c seqs h)
total-del_head-lt c ((x ∷ s) ∷ seqs) h =
    ground (arith, total-del_head-le c seqs, total-del_head-lt c seqs)

merge_rounds_err :
    (fuel : ℕ) (res : List String) (seqs : List (List String)) (e : MroError)
    → total seqs < fuel
    → merge_rounds fuel res seqs ≡ err e
    → e ≡ bad_hierarchy
merge_rounds_err zero res seqs e lt = absurd (omega arith)
merge_rounds_err (suc fuel) res seqs e lt = elim (List-cases (filter is_nonempty seqs)) [
  | inl nothing ↦ λ h. absurd (cc (merge_rounds_done fuel res seqs nothing))
  | inr (s, rest, left) ↦ elim (Option-cases (next_cand seqs)) [
    | inl n ↦ λ h. cc (merge_rounds_bad fuel res seqs left n)
    | inr (c, p) ↦ λ h.
        merge_rounds_err fuel (res ++ c ∷ []) (map (del_head c) seqs) e
          (omega (arith, total-del_head-lt c seqs (next_cand-head seqs c p)))
          (sym (merge_rounds_pick fuel res seqs left c p) ∙ h)
  ]
]

-- The only error of `merge` is the hierarchy error, so its loop ends on all sequences within the
-- rounds that it is given.
pub merge_err : (seqs : List (List String)) (e : MroError) → merge seqs ≡ err e → e ≡ bad_hierarchy
unfolding merge
merge_err seqs e = merge_rounds_err (suc (total seqs)) [] seqs e (omega arith)

pub merge-Merges :
    (seqs : List (List String)) (out : List String) → merge seqs ≡ ok out → Merges seqs out
unfolding merge
merge-Merges seqs out h =
    let (tail, e, m) = merge_rounds-Merges (suc (total seqs)) [] seqs out h in rw e m
