-- ===== src/Prelude/Int.antt =====
-- Signed integers over the native numbers, under the library's names.
use Prim.Native.Nat.{ℕ, zero, suc, ◌+◌, ◌-◌, ◌*◌, ◌≤◌, ◌<◌, ◌%◌}
use mathlib.Core.Path.{◌≡◌, sym, ◌∙◌, ap}
use mathlib.Core.Bool.{Bool}
use native.Mathlib.Omega.{arith}
use native.Mathlib.Decide.{ℕ_discrete}
use native.Mathlib.Nat.{mod-add-mod, mod-lt, add-mul-mod_self_right}
use cylc_flow.Prelude.Tests.{ltb, leb, if◌then◌else◌}
use cylc_flow.Prelude.Equality.{Eq}

-- `negsuc n` is -(n + 1).
pub data ℤ : Type 0 where
  pos : ℕ → ℤ
  negsuc : ℕ → ℤ

abbrev pub pos_part : ℤ → ℕ
pos_part (pos n) = n
pos_part (negsuc n) = 0

abbrev pub neg_part : ℤ → ℕ
neg_part (pos n) = 0
neg_part (negsuc n) = suc n

abbrev pub sub_ℕ : ℕ → ℕ → ℤ
sub_ℕ a b = if leb b a then pos (a - b) else negsuc (b - a - 1)

infixl 65 ◌+ℤ◌ ◌-ℤ◌
infixl 70 ◌*ℤ◌
infix 50 ◌≤ℤ◌ ◌<ℤ◌
unfoldable pub ◌+ℤ◌ : ℤ → ℤ → ℤ
a +ℤ b = sub_ℕ (pos_part a + pos_part b) (neg_part a + neg_part b)

unfoldable pub ◌-ℤ◌ : ℤ → ℤ → ℤ
a -ℤ b = sub_ℕ (pos_part a + neg_part b) (neg_part a + pos_part b)

unfoldable pub ◌*ℤ◌ : ℤ → ℤ → ℤ
a *ℤ b =
    sub_ℕ (pos_part a * pos_part b + neg_part a * neg_part b)
      (pos_part a * neg_part b + neg_part a * pos_part b)

abbrev pub ◌≤ℤ◌ : ℤ → ℤ → Type 0
a ≤ℤ b = pos_part a + neg_part b ≤ pos_part b + neg_part a

abbrev pub ◌<ℤ◌ : ℤ → ℤ → Type 0
a <ℤ b = pos_part a + neg_part b < pos_part b + neg_part a

abbrev pub ltb_ℤ : ℤ → ℤ → Bool
ltb_ℤ a b = ltb (pos_part a + neg_part b) (pos_part b + neg_part a)

abbrev pub leb_ℤ : ℤ → ℤ → Bool
leb_ℤ a b = leb (pos_part a + neg_part b) (pos_part b + neg_part a)

-- The remainder of Python's `%` for a positive divisor: -m has that of m * (k - 1).
unfoldable pub emod : ℤ → ℕ → ℕ
emod a zero = pos_part a
emod a (suc j) = (pos_part a + neg_part a * j) % suc j

unfoldable pub ℤ_discrete : Discrete ℤ
ℤ_discrete = hlevel ℕ_discrete

instance abbrev pub int_eq : Eq ℤ
int_eq = record { dec = ℤ_discrete }

pub +ℤ_parts :
    (a b : ℤ)
    → pos_part (a +ℤ b) + neg_part a + neg_part b ≡ neg_part (a +ℤ b) + pos_part a + pos_part b
unfolding ◌+ℤ◌
+ℤ_parts a b = ground arith

pub -ℤ_parts :
    (a b : ℤ)
    → pos_part (a -ℤ b) + neg_part a + pos_part b ≡ neg_part (a -ℤ b) + pos_part a + neg_part b
unfolding ◌-ℤ◌
-ℤ_parts a b = ground arith

pub eq_of_parts : (a b : ℤ) → pos_part a + neg_part b ≡ pos_part b + neg_part a → a ≡ b
eq_of_parts a b h = ground arith

pub ruleset int_laws = (arith, +ℤ_parts, -ℤ_parts, eq_of_parts)

-- Sums that differ by multiples of `k` have the same remainder.
mod-eq : (k x y n m : ℕ) → x + n * k ≡ y + m * k → x % k ≡ y % k
mod-eq k x y n m h =
    sym (add-mul-mod_self_right x n k) ∙ ap (λ t. t % k) h ∙ add-mul-mod_self_right y m k

emod-add_mul :
    (p n p' n' d j : ℕ) → p' + n ≡ n' + p + d → p' + n' * j + n * suc j ≡ p + n * j + d + n' * suc j
emod-add_mul p n p' n' d j h = omega arith

-- A step of `d` adds to the remainder.
pub emod-add : (a : ℤ) (d k : ℕ) → 0 < k → emod (a +ℤ pos d) k ≡ (emod a k + d) % k
unfolding emod
emod-add a d zero h = absurd (omega arith)
emod-add a d (suc j) h =
    mod-eq (suc j) _ _ (neg_part a) (neg_part (a +ℤ pos d)) (
      emod-add_mul (pos_part a) (neg_part a) (pos_part (a +ℤ pos d)) (neg_part (a +ℤ pos d)) d j
        (omega int_laws))
    ∙ sym (mod-add-mod (pos_part a + neg_part a * j) (suc j) d)

pub emod-lt : (a : ℤ) (k : ℕ) → 0 < k → emod a k < k
unfolding emod
emod-lt a zero h = absurd (omega arith)
emod-lt a (suc j) h = mod-lt (pos_part a + neg_part a * j) (omega arith)
