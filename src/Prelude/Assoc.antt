-- ===== src/Prelude/Assoc.antt =====
-- Python's `dict` as an association list in insertion order.
use mathlib.Core.Path.{◌≡◌, refl, sym, subst}
use mathlib.Core.Bool.{Bool, true, false, ◌||◌}
use mathlib.Core.Option.{Option, none, some}
use mathlib.Core.List.{List, [], ◌∷◌}
use native.Mathlib.Omega.{arith}
use cylc_flow.Prelude.Lists.{All}
use mathlib.Core.Logic.{inl, inr}
use cylc_flow.Prelude.Tests.{if◌then◌else◌, Bool-cases}
use cylc_flow.Prelude.Equality.{Eq, ◌==◌}

abbrev pub Assoc {ℓ κ} : Type ℓ → Type κ → Type (ℓ ⊔ κ)
Assoc K V = List (K × V)

module _ {ℓ κ} {K : Type ℓ} {V : Type κ} where
  abbrev pub keys : Assoc K V → List K
  keys [] = []
  keys ((k, v) ∷ d) = k ∷ keys d

module _ {ℓ κ} {K : Type ℓ} {V : Type κ} ⦃e : Eq K⦄ where
  -- `d.get(k)`
  unfoldable pub get : Assoc K V → K → Option V
  get [] k = none
  get ((j, v) ∷ d) k = if k == j then some v else get d k

  -- `d[k] = v`: an old key keeps its place, a new one goes to the end.
  unfoldable pub put : Assoc K V → K → V → Assoc K V
  put [] k v = (k, v) ∷ []
  put ((j, w) ∷ d) k v = if k == j then (j, v) ∷ d else (j, w) ∷ put d k v

  -- `k in d`
  unfoldable pub has : Assoc K V → K → Bool
  has [] k = false
  has ((j, v) ∷ d) k = k == j || has d k

  pub get-put :
      (d : Assoc K V) (k j : K) (v : V) → get (put d k v) j ≡ (if j == k then some v else get d j)
  unfolding get put
  get-put [] k j v = refl
  get-put ((i, w) ∷ d) k j v = ground (arith, get-put d k j v)

  pub has-put : (d : Assoc K V) (k j : K) (v : V) → has (put d k v) j ≡ (j == k || has d j)
  unfolding has put
  has-put [] k j v = refl
  has-put ((i, w) ∷ d) k j v = ground (arith, has-put d k j v)

  pub has_of_get : (d : Assoc K V) (k : K) (v : V) → get d k ≡ some v → has d k ≡ true
  unfolding get has
  has_of_get [] k v h = ground arith
  has_of_get ((j, w) ∷ d) k v h = ground (arith, has_of_get d k v)

  pub get-none : (d : Assoc K V) (k : K) → has d k ≡ false → get d k ≡ none
  unfolding get has
  get-none [] k h = refl
  get-none ((j, w) ∷ d) k h = ground (arith, get-none d k)

  pub get-some : (d : Assoc K V) (k : K) → has d k ≡ true → (v : V) × (get d k ≡ some v)
  unfolding get has
  get-some [] k h = absurd (ground arith)
  get-some ((j, w) ∷ d) k h = elim (Bool-cases (k == j)) [
    | inl here ↦ (w, rw here)
    | inr there ↦ rw there (get-some d k (ground arith))
  ]

  -- What holds of every item holds of the one that is found.
  pub All_get {μ} :
      (P : K → V → Type μ) (d : Assoc K V) (k : K) (v : V)
      → All (λ item. P item.0 item.1) d
      → get d k ≡ some v
      → P k v
  unfolding get
  All_get P [] k v h q = absurd (ground arith)
  All_get P ((j, w) ∷ d) k v h q = elim (e.dec k j) [
    | yes p ↦ let same : w ≡ v = ground arith in subst (λ i. P i v) (sym p) (subst (P j) same h.0)
    | no n ↦ All_get P d k v h.1 (ground arith)
  ]
