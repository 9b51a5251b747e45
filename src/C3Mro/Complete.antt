-- ===== src/C3Mro/Complete.antt =====
-- `merge` raises only where no order extends every sequence.
use cylc_flow.Prelude.{
  ℕ, zero, suc, ◌<◌, ◌≡◌, refl, ◌∙◌, ap, inl, inr, String, true, false, none, List, [], ◌∷◌, ◌++◌,
  map, any, filter, contains, IsNodup, All, ◌==◌, string_eq, nat_eq, arith, Bool-cases,
  Option-cases, List-cases,
}
use cylc_flow.Prelude.Result.{ok}
use mathlib.Core.List.{Sublistᴰ}
use cylc_flow.C3Mro.{
  is_nonempty, in_tail, del_head, find_cand, next_cand, merge_rounds, total, merge,
}
use cylc_flow.C3Mro.Rounds.{
  is_head, total-del_head-lt, find_cand-head, next_cand_lem, next_cand-head, merge_rounds_pick,
  merge_rounds_done,
}

-- `order` lists every sequence's names in the sequence's order.
abbrev pub Extends : List String → List (List String) → Type 0
Extends order seqs = All (λ s. Sublistᴰ s order) seqs

-- A head that `find_cand` passed over is in some tail.
abbrev Blocked : List (List String) → List String → Type 0
Blocked seqs [] = Unit
Blocked seqs (x ∷ s) = any (in_tail x) seqs ≡ true

find_cand-Blocked :
    (seqs rest : List (List String)) → find_cand seqs rest ≡ none → All (Blocked seqs) rest
unfolding find_cand
find_cand-Blocked seqs [] h = tt
find_cand-Blocked seqs ([] ∷ rest) h = (tt, find_cand-Blocked seqs rest h)
find_cand-Blocked seqs ((x ∷ s) ∷ rest) h =
    (ground arith, find_cand-Blocked seqs rest (ground arith))

Sublist-not_contains :
    (a : String) {s t : List String} → Sublistᴰ s t → contains t a ≡ false → contains s a ≡ false
Sublist-not_contains a Sublistᴰ.slnil h = refl
Sublist-not_contains a (Sublistᴰ.cons p) h = Sublist-not_contains a p (ground arith)
Sublist-not_contains a (Sublistᴰ.cons-cons e p) h = ground (arith, Sublist-not_contains a p)

Sublist-not_in_tail :
    (x : String) {s t : List String}
    → Sublistᴰ s (x ∷ t)
    → contains t x ≡ false
    → in_tail x s ≡ false
Sublist-not_in_tail x {s = []} p h = refl
Sublist-not_in_tail x {s = y ∷ s} (Sublistᴰ.cons p) h = ground (arith, Sublist-not_contains x p h)
Sublist-not_in_tail x {s = y ∷ s} (Sublistᴰ.cons-cons e p) h = Sublist-not_contains x p h

Extends-not_in_tail :
    (x : String) (t : List String) (seqs : List (List String))
    → Extends (x ∷ t) seqs
    → contains t x ≡ false
    → any (in_tail x) seqs ≡ false
Extends-not_in_tail x t [] e h = refl
Extends-not_in_tail x t (s ∷ seqs) e h =
    ground (arith, Sublist-not_in_tail x e.0 h, Extends-not_in_tail x t seqs e.1 h)

-- If all heads are blocked, then the first name of the order heads no sequence.
shrink :
    (x : String) (t s : List String) (seqs : List (List String))
    → any (in_tail x) seqs ≡ false
    → Blocked seqs s
    → Sublistᴰ s (x ∷ t)
    → Sublistᴰ s t
shrink x t s seqs free b (Sublistᴰ.cons p) = p
shrink x t s seqs free b (Sublistᴰ.cons-cons {a = y} e p) =
    absurd (cc (ap (λ n. any (in_tail n) seqs) e))

shrink-All :
    (x : String) (t : List String) (rest seqs : List (List String))
    → any (in_tail x) seqs ≡ false
    → All (Blocked seqs) rest
    → Extends (x ∷ t) rest
    → Extends t rest
shrink-All x t [] seqs free b e = tt
shrink-All x t (s ∷ rest) seqs free b e =
    (shrink x t s seqs free b.0 e.0, shrink-All x t rest seqs free b.1 e.1)

Extends-nil : (seqs : List (List String)) → Extends [] seqs → filter is_nonempty seqs ≡ []
Extends-nil [] e = refl
Extends-nil ([] ∷ seqs) e = Extends-nil seqs e.1
Extends-nil ((x ∷ s) ∷ seqs) e = absurd (elim e.0 [ ])

find_cand_complete :
    (order : List String) (seqs : List (List String))
    → IsNodup order
    → Extends order seqs
    → find_cand seqs seqs ≡ none
    → filter is_nonempty seqs ≡ []
find_cand_complete [] seqs d e h = Extends-nil seqs e
find_cand_complete (x ∷ order) seqs d e h =
    find_cand_complete order seqs d.1
      (shrink-All x order seqs seqs (Extends-not_in_tail x order seqs e d.0)
        (find_cand-Blocked seqs seqs h) e)
      h

Sublist-tail : (x : String) {s t : List String} → Sublistᴰ (x ∷ s) t → Sublistᴰ s t
Sublist-tail x (Sublistᴰ.cons p) = Sublistᴰ.cons (Sublist-tail x p)
Sublist-tail x (Sublistᴰ.cons-cons e p) = Sublistᴰ.cons p

Sublist-del_head :
    (c : String) (s order : List String) → Sublistᴰ s order → Sublistᴰ (del_head c s) order
Sublist-del_head c [] order p = p
Sublist-del_head c (x ∷ s) order p = elim (Bool-cases (x == c)) [
  | inl same ↦ rw same (Sublist-tail x p)
  | inr other ↦ rw other p
]

Extends-del_head :
    (c : String) (order : List String) (seqs : List (List String))
    → Extends order seqs
    → Extends order (map (del_head c) seqs)
Extends-del_head c order [] e = tt
Extends-del_head c order (s ∷ seqs) e =
    (Sublist-del_head c s order e.0, Extends-del_head c order seqs e.1)

contains_head :
    (c : String) {s order : List String}
    → Sublistᴰ s order
    → is_head c s ≡ true
    → contains order c ≡ true
contains_head c {s = []} p h = absurd (cc)
contains_head c {s = x ∷ s} (Sublistᴰ.cons p) h = ground (arith, contains_head c p h)
contains_head c {s = x ∷ s} (Sublistᴰ.cons-cons e p) h = ground arith

contains-any_head :
    (c : String) (order : List String) (seqs : List (List String))
    → Extends order seqs
    → any (is_head c) seqs ≡ true
    → contains order c ≡ true
contains-any_head c order [] e h = absurd (cc)
contains-any_head c order (s ∷ seqs) e h = elim (Bool-cases (is_head c s)) [
  | inl here ↦ contains_head c e.0 here
  | inr there ↦ contains-any_head c order seqs e.1 (ground arith)
]

next_cand_complete :
    (order : List String) (seqs : List (List String))
    → IsNodup order
    → contains order "" ≡ false
    → Extends order seqs
    → next_cand seqs ≡ none
    → filter is_nonempty seqs ≡ []
next_cand_complete order seqs d named e h = elim (Option-cases (find_cand seqs seqs)) [
  | inl n ↦ find_cand_complete order seqs d e n
  | inr (c, p) ↦
      let head = contains-any_head c order seqs e (find_cand-head seqs seqs c p) in
      absurd (ground (arith, next_cand_lem seqs))
]

merge_rounds_complete :
    (fuel : ℕ) (res order : List String) (seqs : List (List String))
    → total seqs < fuel
    → IsNodup order
    → contains order "" ≡ false
    → Extends order seqs
    → (out : List String) × (merge_rounds fuel res seqs ≡ ok out)
merge_rounds_complete zero res order seqs lt d named e = absurd (omega arith)
merge_rounds_complete (suc fuel) res order seqs lt d named e =
    elim (List-cases (filter is_nonempty seqs)) [
      | inl nothing ↦ (res, merge_rounds_done fuel res seqs nothing)
      | inr (s, rest, some_left) ↦ elim (Option-cases (next_cand seqs)) [
        | inl n ↦ absurd (cc (next_cand_complete order seqs d named e n))
        | inr (c, p) ↦
            let (out, q) =
              merge_rounds_complete fuel (res ++ c ∷ []) order (map (del_head c) seqs)
                (omega (arith, total-del_head-lt c seqs (next_cand-head seqs c p))) d named
                (Extends-del_head c order seqs e) in
            (out, merge_rounds_pick fuel res seqs some_left c p ∙ q)
      ]
    ]

-- If some order without repetitions, whose names are not empty, has every sequence as a
-- subsequence, then the merge does not raise: it returns a list.
pub merge_complete :
    (order : List String) (seqs : List (List String))
    → IsNodup order
    → contains order "" ≡ false
    → Extends order seqs
    → (out : List String) × (merge seqs ≡ ok out)
unfolding merge
merge_complete order seqs d named e =
    merge_rounds_complete (suc (total seqs)) [] order seqs (omega arith) d named e
