-- ===== src/C3Mro/Order.antt =====
-- What a successful `merge` returns: an order that extends every given sequence.
use cylc_flow.Prelude.{
  ◌≡◌, refl, subst, String, true, false, List, [], ◌∷◌, map, any, filter, contains, IsNodup, All,
  ◌==◌, string_eq, nat_eq, arith,
}
use cylc_flow.Prelude.Result.{ok}
use mathlib.Core.List.{Sublistᴰ}
use cylc_flow.C3Mro.{is_nonempty, in_tail, del_head, merge}
use cylc_flow.C3Mro.Rounds.{Merges, merge-Merges, next_cand-free, next_cand-head, is_head}

pub Sublist-of_del_head :
    (c : String) (s out : List String) → Sublistᴰ (del_head c s) out → Sublistᴰ s (c ∷ out)
Sublist-of_del_head c [] out h = Sublistᴰ.cons h
Sublist-of_del_head c (x ∷ s) out h = elim (string_eq.dec x c) [
  | yes p ↦
      let e : del_head c (x ∷ s) ≡ s = ground arith in
      Sublistᴰ.cons-cons p (subst (λ l. Sublistᴰ l out) e h)
  | no n ↦
      let e : del_head c (x ∷ s) ≡ x ∷ s = ground arith in
      Sublistᴰ.cons (subst (λ l. Sublistᴰ l out) e h)
]

All-of_del_head :
    (c : String) (seqs : List (List String)) (out : List String)
    → All (λ s. Sublistᴰ s out) (map (del_head c) seqs)
    → All (λ s. Sublistᴰ s (c ∷ out)) seqs
All-of_del_head c [] out h = tt
All-of_del_head c (s ∷ seqs) out h =
    (Sublist-of_del_head c s out h.0, All-of_del_head c seqs out h.1)

All-nil : (seqs : List (List String)) → filter is_nonempty seqs ≡ [] → All (λ s. Sublistᴰ s []) seqs
All-nil [] e = tt
All-nil ([] ∷ seqs) e = (Sublistᴰ.slnil, All-nil seqs e)
All-nil ((x ∷ s) ∷ seqs) e = absurd (cc)

Merges-Sublist :
    {seqs : List (List String)} {out : List String}
    → Merges seqs out
    → All (λ s. Sublistᴰ s out) seqs
Merges-Sublist {seqs} (Merges.done e) = All-nil seqs e
Merges-Sublist {seqs} (Merges.pick {out = out} c p m) =
    All-of_del_head c seqs out (Merges-Sublist m)

-- A merge that succeeds keeps the order of every sequence that it is given: each of them is a
-- subsequence of the result.
pub merge-Sublist :
    (seqs : List (List String)) (out : List String)
    → merge seqs ≡ ok out
    → All (λ s. Sublistᴰ s out) seqs
merge-Sublist seqs out h = Merges-Sublist (merge-Merges seqs out h)

-- No sequence holds `a`.
abbrev pub Absent : String → List (List String) → Type 0
Absent a seqs = All (λ s. contains s a ≡ false) seqs

Absent-del_head :
    (a c : String) (seqs : List (List String)) → Absent a seqs → Absent a (map (del_head c) seqs)
Absent-del_head a c [] h = tt
Absent-del_head a c ([] ∷ seqs) h = (refl, Absent-del_head a c seqs h.1)
Absent-del_head a c ((x ∷ s) ∷ seqs) h = (ground arith, Absent-del_head a c seqs h.1)

-- The candidate is in no sequence after its round.
Absent-after_pick :
    (c : String) (seqs : List (List String))
    → any (in_tail c) seqs ≡ false
    → Absent c (map (del_head c) seqs)
Absent-after_pick c [] h = tt
Absent-after_pick c ([] ∷ seqs) h = (refl, Absent-after_pick c seqs h)
Absent-after_pick c ((x ∷ s) ∷ seqs) h = (ground arith, Absent-after_pick c seqs (ground arith))

Absent-ne :
    (a c : String) (seqs : List (List String))
    → Absent a seqs
    → any (is_head c) seqs ≡ true
    → (a == c) ≡ false
Absent-ne a c [] h k = absurd (ground arith)
Absent-ne a c ([] ∷ seqs) h k = Absent-ne a c seqs h.1 k
Absent-ne a c ((x ∷ s) ∷ seqs) h k = ground (arith, Absent-ne a c seqs h.1)

pub Merges-Absent :
    {seqs : List (List String)} {out : List String} (a : String)
    → Merges seqs out
    → Absent a seqs
    → contains out a ≡ false
Merges-Absent a (Merges.done e) h = refl
Merges-Absent {seqs} a (Merges.pick {out = out} c p m) h = ground (
  arith,
  Absent-ne a c seqs h (next_cand-head seqs c p),
  Merges-Absent a m (Absent-del_head a c seqs h),
)

Merges-IsNodup : {seqs : List (List String)} {out : List String} → Merges seqs out → IsNodup out
Merges-IsNodup (Merges.done e) = tt
Merges-IsNodup {seqs} (Merges.pick {out = out} c p m) =
    (Merges-Absent c m (Absent-after_pick c seqs (next_cand-free seqs c p)), Merges-IsNodup m)

-- A merge that succeeds emits no name twice, whatever the sequences are, and no name that is in
-- none of them.
pub merge-IsNodup :
    (seqs : List (List String)) (out : List String)
    → merge seqs ≡ ok out
    → IsNodup out × ((a : String) → Absent a seqs → contains out a ≡ false)
merge-IsNodup seqs out h =
    let m = merge-Merges seqs out h in (Merges-IsNodup m, λ a. Merges-Absent a m)
