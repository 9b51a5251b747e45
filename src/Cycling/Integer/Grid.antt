-- ===== src/Cycling/Integer/Grid.antt =====
-- The points of an integer sequence, its exclusions and its stop aside: those a whole number of steps
-- from the start (`is_on_sequence` of cylc/flow/cycling/integer.py).
use cylc_flow.Prelude.{
  ℕ, zero, suc, ◌+◌, ◌-◌, ◌*◌, ◌%◌, ◌≤◌, ◌<◌, ◌≡◌, refl, sym, ◌∙◌, ap, inl, inr, true, false, ◌==◌,
  string_eq, nat_eq, eq_refl, eq_of_==, ltb, ltb→lt, arith, Bool-cases,
}
use cylc_flow.Prelude.Int.{
  ℤ, pos, pos_part, neg_part, ◌+ℤ◌, ◌-ℤ◌, ◌≤ℤ◌, ◌<ℤ◌, emod, int_eq, int_laws, emod-add, emod-lt,
}
use native.Mathlib.Nat.{mod-eq_of_lt, mod_self, zero-mod}
use cylc_flow.Cycling.Integer.{Base, step_of, on_sequence}

mod-small : (i n d : ℕ) → 0 < d → (i + d) % n ≡ 0 → i + d < n → n ≤ i + d
mod-small i n d h e small = absurd (omega (arith, sym (mod-eq_of_lt small)))

le_of_mod : (i n d : ℕ) → 0 < d → (i + d) % n ≡ 0 → n ≤ i + d
le_of_mod i n d h e = elim (Bool-cases (ltb (i + d) n)) [
  | inl t ↦ mod-small i n d h e (ltb→lt _ _ t)
  | inr t ↦ ground arith
]

-- How far `b` lies after `a`.
pub gap : ℤ → ℤ → ℕ
gap a b = pos_part b + neg_part a - (pos_part a + neg_part b)

pub add_gap : (a b : ℤ) → a <ℤ b → a +ℤ pos (gap a b) ≡ b
unfolding ◌+ℤ◌ gap
add_gap a b h = omega int_laws

pub shift : (a b : ℤ) (d : ℕ) → (a +ℤ pos d) -ℤ b ≡ (a -ℤ b) +ℤ pos d
shift a b d = omega int_laws

pub pos-==_zero : (n : ℕ) → 0 < n → (n == 0) ≡ false
pos-==_zero n h = elim (Bool-cases (n == 0)) [
  | inl t ↦ absurd (omega (arith, eq_of_== n 0 t))
  | inr t ↦ t
]

add_rest : (i n : ℕ) → i < n → i + (n - i) ≡ n
add_rest i n h = omega arith

pub rest_mod : (i n : ℕ) → i < n → ((i + (n - i)) % n == 0) ≡ true
rest_mod i n h = rw (add_rest i n h, mod_self n) (eq_refl {A = ℕ} 0)

pub on_sequence-emod :
    (b : Base) (n : ℕ) (point : ℤ)
    → 0 < n
    → step_of b.i_step ≡ n
    → on_sequence b point ≡ (emod (point -ℤ b.p_start) n == 0)
unfolding on_sequence
on_sequence-emod b n point n_pos e = rw (e, pos-==_zero n n_pos)

no_parts : (n : ℕ) → 0 + 0 * n ≡ 0
no_parts n = omega arith

sub_self : (a : ℤ) → a -ℤ a ≡ pos 0
sub_self a = omega int_laws

emod-zero : (n : ℕ) → emod (pos 0) n ≡ 0
unfolding emod
emod-zero zero = refl
emod-zero (suc n) = ap (λ x. x % suc n) (no_parts n) ∙ zero-mod (suc n)

pub emod_self : (a : ℤ) (n : ℕ) → (emod (a -ℤ a) n == 0) ≡ true
emod_self a n = rw (sub_self a, emod-zero n) (eq_refl {A = ℕ} 0)

-- A point on the sequence, `d` after `point`, is at least the rest of the step away.
step-le :
    (b : Base) (n d : ℕ) (point : ℤ)
    → 0 < n
    → 0 < d
    → step_of b.i_step ≡ n
    → on_sequence b (point +ℤ pos d) ≡ true
    → n ≤ emod (point -ℤ b.p_start) n + d
step-le b n d point n_pos d_pos e on = le_of_mod _ n d d_pos (
    sym (emod-add (point -ℤ b.p_start) d n n_pos)
    ∙ ap (λ x. emod x n) (sym (shift point b.p_start d))
    ∙ eq_of_== _ _ (sym (on_sequence-emod b n (point +ℤ pos d) n_pos e) ∙ on))

-- The rest of the step leads to a point on the sequence.
on-next :
    (b : Base) (n : ℕ) (point : ℤ)
    → 0 < n
    → step_of b.i_step ≡ n
    → on_sequence b (point +ℤ pos (n - emod (point -ℤ b.p_start) n)) ≡ true
on-next b n point n_pos e =
    on_sequence-emod b n _ n_pos e
    ∙ rw
        (
          shift point b.p_start (n - emod (point -ℤ b.p_start) n),
          emod-add (point -ℤ b.p_start) (n - emod (point -ℤ b.p_start) n) n n_pos,
        )
        (rest_mod _ n (emod-lt (point -ℤ b.p_start) n n_pos))

pub next_sum :
    (b : Base) (n : ℕ) (point : ℤ)
    → 0 < n
    → (point +ℤ pos n) -ℤ pos (emod (point -ℤ b.p_start) n)
      ≡ point +ℤ pos (n - emod (point -ℤ b.p_start) n)
next_sum b n point n_pos = omega (int_laws, emod-lt (point -ℤ b.p_start) n n_pos)

-- The next point of the sequence, its exclusions aside.
abbrev pub next_of : Base → ℕ → ℤ → ℤ
next_of b n point = (point +ℤ pos n) -ℤ pos (emod (point -ℤ b.p_start) n)

pub next_of-lt : (b : Base) (n : ℕ) (point : ℤ) → 0 < n → point <ℤ next_of b n point
next_of-lt b n point h = omega (int_laws, emod-lt (point -ℤ b.p_start) n h)

pub next_of-on :
    (b : Base) (n : ℕ) (point : ℤ)
    → 0 < n
    → step_of b.i_step ≡ n
    → on_sequence b (next_of b n point) ≡ true
next_of-on b n point h e = rw (next_sum b n point h) (on-next b n point h e)

le_of_gap :
    (b : Base) (n : ℕ) (point r : ℤ)
    → 0 < n
    → point <ℤ r
    → n ≤ emod (point -ℤ b.p_start) n + gap point r
    → next_of b n point ≤ℤ r
unfolding gap
le_of_gap b n point r h lt le = omega (int_laws, emod-lt (point -ℤ b.p_start) n h)

pub gap-pos : (a b : ℤ) → a <ℤ b → 0 < gap a b
unfolding gap
gap-pos a b h = omega arith

pub next_of-least :
    (b : Base) (n : ℕ) (point r : ℤ)
    → 0 < n
    → step_of b.i_step ≡ n
    → point <ℤ r
    → on_sequence b r ≡ true
    → next_of b n point ≤ℤ r
next_of-least b n point r h e lt on = le_of_gap b n point r h lt (
    step-le b n (gap point r) point h (gap-pos point r lt) e
      (ap (on_sequence b) (add_gap point r lt) ∙ on))
