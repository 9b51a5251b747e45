-- ===== src/C3Mro.antt =====
-- cylc/flow/c3mro.py: the linearisation of the runtime inheritance hierarchy.
-- A `while True` loop takes fuel; `merge` gives it one round for each name that can be emitted.
-- `del seq[0]` on the shared lists is the map of `del_head` over all of them (an empty list stays
-- empty). `mro` takes fuel for the depth of Python's recursion.
pub mod Rounds
pub mod Order
pub mod Complete
pub mod Mro
mod Tests
use cylc_flow.Prelude.{
  ℕ, zero, suc, ◌+◌, String, Bool, true, false, not, Option, none, some, List, [], ◌∷◌, ◌++◌, map,
  any, filter, contains, length, if◌then◌else◌, ◌==◌, string_eq,
}
use cylc_flow.Prelude.Assoc.{Assoc, get}
use cylc_flow.Prelude.Result.{Result, ok, err, ◌>>=◌, traverse, or_raise}

pub data MroError : Type 0 where
  -- "bad runtime namespace inheritance hierarchy"
  bad_hierarchy : MroError
  key_error : MroError
  recursion_error : MroError

abbrev pub is_nonempty : List String → Bool
is_nonempty [] = false
is_nonempty (x ∷ xs) = true

-- `cand in seq[1:]`
abbrev pub in_tail : String → List String → Bool
in_tail c [] = false
in_tail c (x ∷ xs) = contains xs c

-- The `for` loop over the heads. `None` is a rejected candidate.
unfoldable pub find_cand : List (List String) → List (List String) → Option String
find_cand seqs [] = none
find_cand seqs ([] ∷ rest) = find_cand seqs rest
find_cand seqs ((c ∷ _) ∷ rest) =
    let later = find_cand seqs rest in if any (in_tail c) seqs then later else some c

-- `if seq[0] == cand: del seq[0]`
abbrev pub del_head : String → List String → List String
del_head c [] = []
del_head c (x ∷ xs) = if x == c then xs else x ∷ xs

-- `if not cand` holds of `None` and of the empty name.
abbrev pub truthy : Option String → Option String
truthy none = none
truthy (some c) = if c == "" then none else some c

unfoldable pub next_cand : List (List String) → Option String
next_cand seqs = let heads = filter is_nonempty seqs in truthy (find_cand heads heads)

unfoldable pub merge_rounds : ℕ → List String → List (List String) → Result MroError (List String)
merge_rounds zero res seqs = err recursion_error
merge_rounds (suc fuel) res seqs = elim (filter is_nonempty seqs) [
  | [] ↦ ok res
  | _ ∷ _ ↦ elim (next_cand seqs) [
    | none ↦ err bad_hierarchy
    | some c ↦ merge_rounds fuel (res ++ c ∷ []) (map (del_head c) seqs)
  ]
]

-- The names left in all sequences: each round removes one at least.
abbrev pub total : List (List String) → ℕ
total [] = 0
total (s ∷ seqs) = length s + total seqs

unfoldable pub merge : List (List String) → Result MroError (List String)
unfolding merge_rounds next_cand find_cand
merge seqs = merge_rounds (suc (total seqs)) [] seqs

abbrev pub Tree : Type 0
Tree = Assoc String (List String)

unfoldable pub mro : ℕ → Tree → String → Result MroError (List String)
unfolding merge get
mro zero tree c = err recursion_error
mro (suc depth) tree c = do
  parents ← or_raise key_error (get tree c)
  linear ← traverse (mro depth tree) parents
  merge ((c ∷ []) ∷ linear ++ parents ∷ [])
