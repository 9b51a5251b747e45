-- ===== src/Prelude/Result.antt =====
-- A value or a Python exception.
use mathlib.Core.Path.{◌≡◌, refl, subst}
use mathlib.Core.List.{List, [], ◌∷◌, ◌++◌}
use mathlib.Core.Option.{Option, none, some}

pub data Result {ℓ} (E : Type 0) (A : Type ℓ) : Type ℓ where
  err : E → Result E A
  ok : A → Result E A

infixl 5 ◌>>=◌
abbrev pub ◌>>=◌ {ℓ κ} :
    {E : Type 0} {A : Type ℓ} {B : Type κ} → Result E A → (A → Result E B) → Result E B
err raised >>= next = err raised
ok value >>= next = next value

-- `[f(x) for x in xs]`, where `f` may raise.
abbrev pub traverse {ℓ κ} :
    {E : Type 0} {A : Type ℓ} {B : Type κ} → (A → Result E B) → List A → Result E (List B)
traverse f [] = ok []
traverse f (x ∷ xs) = do b ← f x; bs ← traverse f xs; ok (b ∷ bs)

-- A failed lookup raises.
abbrev pub or_raise {ℓ} : {E : Type 0} {A : Type ℓ} → E → Option A → Result E A
or_raise e none = err e
or_raise e (some a) = ok a

-- A step that is followed by a success has succeeded.
pub >>=-eq-ok {ℓ κ} :
    {E : Type 0} {A : Type ℓ} {B : Type κ} (first : Result E A) (next : A → Result E B) {last : B}
    → (first >>= next) ≡ ok last
    → (value : A) × (first ≡ ok value) × (next value ≡ ok last)
>>=-eq-ok (err raised) next h = cc
>>=-eq-ok (ok value) next h = (value, refl, h)

-- What holds of a value that is returned.
abbrev pub Ensures {ℓ κ} : {E : Type 0} {A : Type ℓ} → (A → Type κ) → Result E A → Type κ
Ensures P (err raised) = Unit
Ensures P (ok value) = P value

pub Ensures->>= {ℓ κ μ ν} :
    {E : Type 0} {A : Type ℓ} {B : Type κ} (P : A → Type μ) (Q : B → Type ν) (first : Result E A)
    (next : A → Result E B)
    → Ensures P first
    → ((value : A) → P value → Ensures Q (next value))
    → Ensures Q (first >>= next)
Ensures->>= P Q (err raised) next h k = tt
Ensures->>= P Q (ok value) next h k = k value h

-- `for a in xs: ...` on a state, where a round may raise.
unfoldable pub fold_result {ℓ κ} :
    {E : Type 0} {S : Type ℓ} {A : Type κ} → (S → A → Result E S) → S → List A → Result E S
fold_result f s [] = ok s
fold_result f s (x ∷ xs) = f s x >>= λ s'. fold_result f s' xs

-- A value is returned, and this holds of it.
abbrev pub Returns {ℓ} : {E : Type 0} {A : Type ℓ} → (A → Type 0) → Result E A → Type 0
Returns P (err raised) = ⊥
Returns P (ok value) = P value

pub Returns->>= {ℓ κ} :
    {E : Type 0} {A : Type ℓ} {B : Type κ} (P : A → Type 0) (Q : B → Type 0) (first : Result E A)
    (next : A → Result E B)
    → Returns P first
    → ((value : A) → P value → Returns Q (next value))
    → Returns Q (first >>= next)
Returns->>= P Q (err raised) next h k = absurd h
Returns->>= P Q (ok value) next h k = k value h

pub Returns-mono {ℓ} :
    {E : Type 0} {A : Type ℓ} (P Q : A → Type 0) (r : Result E A)
    → Returns P r
    → ((value : A) → P value → Q value)
    → Returns Q r
Returns-mono P Q (err raised) h k = absurd h
Returns-mono P Q (ok value) h k = k value h

-- What each round keeps, the loop keeps.
pub Returns-fold_result {ℓ κ} :
    {E : Type 0} {S : Type ℓ} {A : Type κ} (P : S → Type 0) (f : S → A → Result E S)
    → ((s : S) (a : A) → P s → Returns P (f s a))
    → (s : S) (xs : List A) → P s
    → Returns P (fold_result f s xs)
unfolding fold_result
Returns-fold_result P f step s [] h = h
Returns-fold_result P f step s (x ∷ xs) h =
    Returns->>= P P (f s x) (λ s'. fold_result f s' xs) (step s x h)
      (λ s' h'. Returns-fold_result P f step s' xs h')

-- A loop over two lists, one after the other.
pub fold_result-append {ℓ κ} :
    {E : Type 0} {S : Type ℓ} {A : Type κ} (f : S → A → Result E S) (s : S) (xs ys : List A)
    → fold_result f s (xs ++ ys) ≡ (fold_result f s xs >>= λ s'. fold_result f s' ys)
unfolding fold_result
fold_result-append f s [] ys = refl
fold_result-append f s (x ∷ xs) ys =
    elim (f s x)
      as (λ r.
        (r >>= λ s'. fold_result f s' (xs ++ ys))
        ≡ ((r >>= λ s'. fold_result f s' xs) >>= λ s''. fold_result f s'' ys)) [
          | err e ↦ refl
          | ok v ↦ fold_result-append f v xs ys
        ]

-- What each round ensures of the value that it returns, the loop ensures.
pub Ensures-fold_result {ℓ κ} :
    {E : Type 0} {S : Type ℓ} {A : Type κ} (P : S → Type 0) (f : S → A → Result E S)
    → ((s : S) (a : A) → P s → Ensures P (f s a))
    → (s : S) (xs : List A) → P s
    → Ensures P (fold_result f s xs)
unfolding fold_result
Ensures-fold_result P f step s [] h = h
Ensures-fold_result P f step s (x ∷ xs) h =
    Ensures->>= P P (f s x) (λ s'. fold_result f s' xs) (step s x h)
      (λ s' h'. Ensures-fold_result P f step s' xs h')

-- The value that is returned.
pub Ensures-ok {ℓ} :
    {E : Type 0} {A : Type ℓ} (P : A → Type 0) (r : Result E A) (a : A)
    → r ≡ ok a
    → Ensures P r
    → P a
Ensures-ok P r a e h = subst (Ensures P) e h

-- What holds already holds of any value.
pub Ensures-any {ℓ} :
    {E : Type 0} {A : Type ℓ} (P : Type 0) (r : Result E A) → P → Ensures (λ (a : A). P) r
Ensures-any P (err e) p = tt
Ensures-any P (ok a) p = p
