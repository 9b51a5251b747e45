-- ===== src/Cycling/Integer/Back.antt =====
-- The point of the sequence before a point, exclusions and the stop aside.
use cylc_flow.Prelude.{
  ℕ, ◌+◌, ◌-◌, ◌%◌, ◌≤◌, ◌<◌, ◌≡◌, sym, ◌∙◌, ap, ◌⊎◌, inl, inr, true, if◌then◌else◌, ◌==◌,
  string_eq, nat_eq, eq_refl, eq_of_==, ltb, ltb→lt, arith, Bool-cases,
}
use cylc_flow.Prelude.Int.{
  ℤ, pos, pos_part, neg_part, ◌+ℤ◌, ◌-ℤ◌, ◌≤ℤ◌, ◌<ℤ◌, emod, int_eq, +ℤ_parts, -ℤ_parts, int_laws,
  emod-add, emod-lt,
}
use native.Mathlib.Nat.{mod-eq_of_lt, add-mod_right, mod-le}
use cylc_flow.Cycling.Integer.{Base, step_of, on_sequence}
use cylc_flow.Cycling.Integer.Grid.{on_sequence-emod, shift, gap, add_gap, gap-pos}

-- The way back to the point before, from a point with remainder `i`.
abbrev back : ℕ → ℕ → ℕ
back i n = if i == 0 then n else i

abbrev pub prev_of : Base → ℕ → ℤ → ℤ
prev_of b n point =
    let i = emod (point -ℤ b.p_start) n in if i == 0 then point -ℤ pos n else point -ℤ pos i

prev_of-back :
    (b : Base) (n : ℕ) (point : ℤ)
    → prev_of b n point +ℤ pos (back (emod (point -ℤ b.p_start) n) n) ≡ point
prev_of-back b n point = elim (Bool-cases (emod (point -ℤ b.p_start) n == 0)) [
  | inl z ↦ rw z (omega int_laws)
  | inr z ↦ rw z (omega int_laws)
]

whole_step : (r n : ℕ) → r < n → (r + n) % n ≡ r
whole_step r n h = add-mod_right r n ∙ mod-eq_of_lt h

past_step : (m n : ℕ) → n ≤ m → m < n + n → m % n + n ≡ m
past_step m n lo hi =
    let e : m - n + n ≡ m = omega arith in
    let q : m % n ≡ m - n = ap (λ x. x % n) (sym e) ∙ whole_step (m - n) n (omega arith) in
    omega arith

-- Two remainders add up to their sum, or to what it has past a step.
two_remainders : (r i n : ℕ) → r < n → i < n → ((r + i) % n ≡ r + i) ⊎ ((r + i) % n + n ≡ r + i)
two_remainders r i n hr hi = elim (Bool-cases (ltb (r + i) n)) [
  | inl t ↦ inl (mod-eq_of_lt (ltb→lt _ _ t))
  | inr t ↦ inr (past_step (r + i) n (ground arith) (ground arith))
]

-- A remainder that adds nothing is zero.
no_remainder : (r i n : ℕ) → r < n → i < n → (r + back i n) % n ≡ i → r ≡ 0
no_remainder r i n hr hi e = elim (Bool-cases (i == 0)) [
  | inl z ↦
      let q : (r + n) % n ≡ i = rw z at e in omega (arith, q, whole_step r n hr, eq_of_== i 0 z)
  | inr z ↦
      let q : (r + i) % n ≡ i = rw z at e in
      elim (two_remainders r i n hr hi) [
        | inl s ↦ omega (arith, q, s)
        | inr s ↦ absurd (omega (arith, q, s))
      ]
]

-- A distance with remainder `i` is at least the way back.
back-le : (g i n : ℕ) → 0 < g → i < n → g % n ≡ i → back i n ≤ g
back-le g i n hg hi e = elim (Bool-cases (i == 0)) [
  | inl z ↦ rw z (elim (Bool-cases (ltb g n)) [
    | inl t ↦ absurd (omega (arith, eq_of_== i 0 z, sym (mod-eq_of_lt (ltb→lt g n t))))
    | inr t ↦ ground arith
  ])
  | inr z ↦ rw z (omega (arith, mod-le g n))
]

pub prev_lt : (b : Base) (n : ℕ) (point : ℤ) → 0 < n → prev_of b n point <ℤ point
prev_lt b n point h = elim (Bool-cases (emod (point -ℤ b.p_start) n == 0)) [
  | inl z ↦ rw z (omega int_laws)
  | inr z ↦ rw z (ground (arith, -ℤ_parts point (pos (emod (point -ℤ b.p_start) n)), z))
]

pub prev_on :
    (b : Base) (n : ℕ) (point : ℤ)
    → 0 < n
    → step_of b.i_step ≡ n
    → on_sequence b (prev_of b n point) ≡ true
prev_on b n point h e =
    let i = emod (point -ℤ b.p_start) n in
    let d = back i n in
    let y = prev_of b n point in
    let sum : emod (point -ℤ b.p_start) n ≡ (emod (y -ℤ b.p_start) n + d) % n =
      ap (λ p. emod (p -ℤ b.p_start) n) (sym (prev_of-back b n point))
      ∙ ap (λ x. emod x n) (shift y b.p_start d)
      ∙ emod-add (y -ℤ b.p_start) d n h in
    on_sequence-emod b n y h e
    ∙ ap (λ r. r == 0)
        (no_remainder _ i n (emod-lt (y -ℤ b.p_start) n h) (emod-lt (point -ℤ b.p_start) n h)
          (sym sum))
    ∙ eq_refl {A = ℕ} 0

le_of_steps : (r y p : ℤ) (d g : ℕ) → y +ℤ pos d ≡ p → r +ℤ pos g ≡ p → d ≤ g → r ≤ℤ y
le_of_steps r y p d g e f h = omega (
  arith,
  +ℤ_parts y (pos d),
  +ℤ_parts r (pos g),
  ap pos_part e,
  ap neg_part e,
  ap pos_part f,
  ap neg_part f,
)

zero_sum : (g : ℕ) → 0 + g ≡ g
zero_sum g = omega arith

pub prev_greatest :
    (b : Base) (n : ℕ) (point r : ℤ)
    → 0 < n
    → step_of b.i_step ≡ n
    → r <ℤ point
    → on_sequence b r ≡ true
    → r ≤ℤ prev_of b n point
prev_greatest b n point r h e lt on =
    let i = emod (point -ℤ b.p_start) n in
    let g = gap r point in
    let zero_r : emod (r -ℤ b.p_start) n ≡ 0 =
      eq_of_== (emod (r -ℤ b.p_start) n) 0 (sym (on_sequence-emod b n r h e) ∙ on) in
    let sum : i ≡ (emod (r -ℤ b.p_start) n + g) % n =
      ap (λ p. emod (p -ℤ b.p_start) n) (sym (add_gap r point lt))
      ∙ ap (λ x. emod x n) (shift r b.p_start g)
      ∙ emod-add (r -ℤ b.p_start) g n h in
    le_of_steps r (prev_of b n point) point (back i n) g (prev_of-back b n point)
      (add_gap r point lt)
      (back-le g i n (gap-pos r point lt) (emod-lt (point -ℤ b.p_start) n h)
        (sym (sum ∙ ap (λ x. (x + g) % n) zero_r ∙ ap (λ x. x % n) (zero_sum g))))
