-- ===== src/TaskActionTimer/Sequence.antt =====
-- The delays that a timer gives one after the other.
use cylc_flow.Prelude.{
  get_elem?, ℕ, zero, suc, ◌+◌, ◌≡◌, refl, sym, ◌∙◌, ap, inl, inr, Bool, true, false, Option, none,
  some, List, [], ◌∷◌, if◌then◌else◌, string_eq, nat_eq, arith, Option-cases,
}
use cylc_flow.Prelude.Int.{int_eq}
use cylc_flow.TaskActionTimer.{TaskActionTimer, next_delay, start_delay, next}

-- The answers of `next` at the given times.
abbrev pub answers : TaskActionTimer → Bool → List ℕ → List (Option ℕ)
answers t no_exhaust [] = []
answers t no_exhaust (now ∷ times) =
    let (t', delay) = next t no_exhaust now in delay ∷ answers t' no_exhaust times

abbrev pub drop : List ℕ → ℕ → List ℕ
drop xs zero = xs
drop [] (suc n) = []
drop (x ∷ xs) (suc n) = drop xs n

-- What a schedule of delays gives: each in order, and then nothing, or the final one for ever.
abbrev pub schedule : Bool → List ℕ → Option ℕ → List ℕ → List (Option ℕ)
schedule no_exhaust delays last [] = []
schedule no_exhaust [] last (now ∷ times) = last ∷ schedule no_exhaust [] last times
schedule no_exhaust (d ∷ delays) last (now ∷ times) =
    some d ∷ schedule no_exhaust delays (if no_exhaust then some d else none) times

drop_end : (xs : List ℕ) (n : ℕ) → get_elem? xs n ≡ none → drop xs n ≡ []
drop_end [] zero h = refl
drop_end [] (suc n) h = refl
drop_end (x ∷ xs) zero h = cc
drop_end (x ∷ xs) (suc n) h = drop_end xs n h

drop_nil : (n : ℕ) → drop [] n ≡ []
drop_nil zero = refl
drop_nil (suc n) = refl

drop_elem : (xs : List ℕ) (n d : ℕ) → get_elem? xs n ≡ some d → drop xs n ≡ d ∷ drop xs (suc n)
drop_elem [] n d h = cc
drop_elem (x ∷ xs) zero d h = cc
drop_elem (x ∷ xs) (suc n) d h = drop_elem xs n d h

suc-add : (n : ℕ) → suc n ≡ n + 1
suc-add n = omega arith

end_suc : (xs : List ℕ) (n : ℕ) → get_elem? xs n ≡ none → drop xs (suc n) ≡ []
end_suc [] n h = refl
end_suc (x ∷ xs) zero h = cc
end_suc (x ∷ xs) (suc n) h = end_suc xs n h

end_later : (xs : List ℕ) (n : ℕ) → get_elem? xs n ≡ none → drop xs (n + 1) ≡ []
end_later xs n h = sym (ap (drop xs) (suc-add n)) ∙ end_suc xs n h

abbrev pub last_of : Bool → Option ℕ → Option ℕ
last_of no_exhaust delay = if no_exhaust then delay else none

-- What follows an answer, when no delay is left, and after a delay.
rest_end :
    (t : TaskActionTimer) (no_exhaust : Bool) (now : ℕ) (times : List ℕ) (v : Option ℕ)
    → get_elem? t.delays t.num ≡ none
    → v ≡ last_of no_exhaust v
    → let t' = start_delay t now v in
      schedule no_exhaust (drop t'.delays t'.num) (last_of no_exhaust t'.delay) times
      ≡ schedule no_exhaust [] v times
rest_end t true now times none e h = rw (drop_end t.delays t.num e) refl
rest_end t false now times none e h = rw (drop_end t.delays t.num e) refl
rest_end t true now times (some d) e h = rw (end_later t.delays t.num e) refl
rest_end t false now times (some d) e h = cc

last_of_last :
    (no_exhaust : Bool) (v : Option ℕ)
    → last_of no_exhaust v ≡ last_of no_exhaust (last_of no_exhaust v)
last_of_last true v = refl
last_of_last false v = refl

-- From any state of the timer, the answers of successive calls of `next` are the delays from the
-- current number on, in order; then `None` for ever, or with `no_exhaust` the final delay for ever.
pub answers-schedule :
    (t : TaskActionTimer) (no_exhaust : Bool) (times : List ℕ)
    → answers t no_exhaust times
      ≡ schedule no_exhaust (drop t.delays t.num) (last_of no_exhaust t.delay) times
unfolding next
answers-schedule t no_exhaust [] = refl
answers-schedule t no_exhaust (now ∷ times) = elim (Option-cases (get_elem? t.delays t.num)) [
  | inl e ↦
      let v = last_of no_exhaust t.delay in
      let given : next_delay t no_exhaust ≡ v = rw (e, next_delay) refl in
      rw (given, drop_end t.delays t.num e)
        (ap (λ l. v ∷ l)
          (answers-schedule (start_delay t now v) no_exhaust times
            ∙ rest_end t no_exhaust now times v e (last_of_last no_exhaust t.delay)))
  | inr (d, e) ↦
      let given : next_delay t no_exhaust ≡ some d = rw (e, next_delay) refl in
      rw (given, drop_elem t.delays t.num d e)
        (ap (λ l. some d ∷ l)
          (answers-schedule (start_delay t now (some d)) no_exhaust times
            ∙ ap (λ n. schedule no_exhaust (drop t.delays n) (last_of no_exhaust (some d)) times)
                (sym (suc-add t.num))))
]
