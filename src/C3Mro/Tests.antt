-- ===== src/C3Mro/Tests.antt =====
-- `mro` on the hierarchy of example 5 of the module's documentation string, and on a disagreement.
use cylc_flow.Prelude.{
  ℕ, ◌≡◌, refl, String, false, some, List, [], ◌∷◌, contains, IsNodup, All, if◌then◌else◌, ◌==◌,
  string_eq, nat_eq, String_discrete, arith,
}
use cylc_flow.Prelude.Assoc.{get, has}
use cylc_flow.Prelude.Result.{ok, err, traverse}
use mathlib.Core.List.{Sublistᴰ}
use cylc_flow.C3Mro.{bad_hierarchy, recursion_error, key_error, Tree, merge, mro}
use cylc_flow.C3Mro.Order.{merge-Sublist, merge-IsNodup, Absent}
use cylc_flow.C3Mro.Complete.{merge_complete, Extends}
use cylc_flow.C3Mro.Mro.{IsRanked, Ends, mro_monotonic, mro_terminates}

abbrev classes : Tree
classes =
    ("A", "B" ∷ "C" ∷ [])
    ∷ ("B", "D" ∷ "E" ∷ [])
    ∷ ("C", "D" ∷ "F" ∷ [])
    ∷ ("D", "O" ∷ [])
    ∷ ("E", "O" ∷ [])
    ∷ ("F", "O" ∷ [])
    ∷ ("O", [])
    ∷ []

abbrev linear_a : List String
linear_a = "A" ∷ "B" ∷ "C" ∷ "D" ∷ "E" ∷ "F" ∷ "O" ∷ []

mro-a : mro 4 classes "A" ≡ ok linear_a
unfolding mro String_discrete
mro-a = refl

abbrev disagreement : Tree
disagreement =
    ("Z", "A" ∷ "B" ∷ [])
    ∷ ("A", "X" ∷ "Y" ∷ [])
    ∷ ("B", "Y" ∷ "X" ∷ [])
    ∷ ("X", [])
    ∷ ("Y", [])
    ∷ []

mro-z : mro 4 disagreement "Z" ≡ err bad_hierarchy
unfolding mro String_discrete
mro-z = refl

mro_loop : mro 9 (("A", "A" ∷ []) ∷ []) "A" ≡ err recursion_error
unfolding mro String_discrete
mro_loop = refl

mro_missing : mro 9 (("A", "B" ∷ []) ∷ []) "A" ≡ err key_error
unfolding mro String_discrete
mro_missing = refl

abbrev orders : List (List String)
orders = ("a" ∷ "b" ∷ []) ∷ ("c" ∷ "b" ∷ []) ∷ ("a" ∷ "c" ∷ []) ∷ []

abbrev merged : List String
merged = "a" ∷ "c" ∷ "b" ∷ []

merge-orders : merge orders ≡ ok merged
unfolding merge String_discrete
merge-orders = refl

merge-Sublist_example : All (λ s. Sublistᴰ s merged) orders
merge-Sublist_example = merge-Sublist orders merged merge-orders

merge-IsNodup_example :
    IsNodup merged × ((a : String) → Absent a orders → contains merged a ≡ false)
merge-IsNodup_example = merge-IsNodup orders merged merge-orders

orders-Extends : Extends merged orders
orders-Extends = (
  Sublistᴰ.cons-cons refl (Sublistᴰ.cons (Sublistᴰ.cons-cons refl Sublistᴰ.slnil)),
  (
    Sublistᴰ.cons (Sublistᴰ.cons-cons refl (Sublistᴰ.cons-cons refl Sublistᴰ.slnil)),
    (Sublistᴰ.cons-cons refl (Sublistᴰ.cons-cons refl (Sublistᴰ.cons Sublistᴰ.slnil)), tt),
  ),
)

merged-IsNodup : IsNodup merged
unfolding String_discrete
merged-IsNodup = (refl, (refl, (refl, tt)))

merged_named : contains merged "" ≡ false
unfolding String_discrete
merged_named = refl

merge_complete_example : (out : List String) × (merge orders ≡ ok out)
merge_complete_example = merge_complete merged orders merged-IsNodup merged_named orders-Extends

mro_monotonic_example :
    IsNodup linear_a
    × ((parents : List String) × (linear : List (List String)) × (get classes "A" ≡ some parents)
        × (traverse (mro 3 classes) parents ≡ ok linear)
        × Sublistᴰ parents linear_a
        × All (λ s. Sublistᴰ s linear_a) linear)
mro_monotonic_example = mro_monotonic 3 classes "A" linear_a mro-a

abbrev chain : Tree
chain = ("b", "a" ∷ []) ∷ ("a", []) ∷ []

abbrev chain_rank : String → ℕ
chain_rank s = if s == "b" then 1 else 0

chain-IsRanked : IsRanked chain chain_rank
unfolding get has String_discrete
chain-IsRanked = (((omega arith, refl), tt), (tt, tt))

mro-chain : mro 2 chain "b" ≡ ok ("b" ∷ "a" ∷ [])
unfolding mro String_discrete
mro-chain = refl

b_named : (◌==◌ {A = String} "b" "") ≡ false
unfolding String_discrete
b_named = refl

mro_terminates_example : Ends (mro 2 chain "b")
unfolding has String_discrete
mro_terminates_example = mro_terminates chain chain_rank chain-IsRanked 2 "b" (omega arith) refl

abbrev clash : List (List String)
clash = ("x" ∷ "y" ∷ []) ∷ ("y" ∷ "x" ∷ []) ∷ []

merge-clash : merge clash ≡ err bad_hierarchy
unfolding merge String_discrete
merge-clash = refl
