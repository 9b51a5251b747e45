-- ===== src/BroadcastMgr/ExtTriggers/Conserved.antt =====
-- An event from outside satisfies one trigger of one task, and no event is lost.
use cylc_flow.Prelude.{
  ℕ, suc, ◌+◌, ◌-◌, ◌<◌, ◌≡◌, refl, sym, ◌∙◌, ap, subst, inl, inr, String, Bool, true, false, ◌&&◌,
  Option, none, some, List, [], ◌∷◌, contains, IsNodup, if◌then◌else◌, ◌==◌, string_eq, nat_eq,
  eq_refl, eq_of_==, arith, Bool-cases, Option-cases,
}
use cylc_flow.Prelude.Assoc.{Assoc, keys, get, put, has, has_of_get}
use cylc_flow.Prelude.Result.{ok}
use cylc_flow.Prelude.Int.{int_eq}
use cylc_flow.BroadcastMgr.Dict.{Shape, HasShape, whole}
use cylc_flow.BroadcastMgr.Operations.{ExtTrigger, BroadcastMgr, Interface, put_broadcast}
use cylc_flow.BroadcastMgr.Operations.Rows.{IsReportable}
use cylc_flow.BroadcastMgr.Operations.Overrides.{IsSound, IsPut, put_broadcast-IsPut}
use cylc_flow.BroadcastMgr.ExtTriggers.{
  Events, same_id, same_event, add_event, add_events, take_event, find_event, first_match,
  id_settings, broadcast_id, Checked, satisfy, match_ext_trigger, check_ext_triggers,
}
use cylc_flow.Prelude.Result.{Returns, Returns->>=}

-- Equality of events: of messages and of identities.
abbrev pub is_event : ExtTrigger → ExtTrigger → Bool
is_event (m, none) (m', none) = m == m'
is_event (m, some id) (m', some id') = m == m' && id == id'
is_event (m, none) (m', some id') = false
is_event (m, some id) (m', none) = false

abbrev once : ExtTrigger → ExtTrigger → ℕ
once e e' = if is_event e e' then 1 else 0

-- How often an event is kept.
unfoldable pub count_of : ExtTrigger → Events → ℕ
count_of e [] = 0
count_of e ((e', n) ∷ events) = (if is_event e e' then n else 0) + count_of e events

-- How often an event stands in the queue.
unfoldable pub occurrences : ExtTrigger → List ExtTrigger → ℕ
occurrences e [] = 0
occurrences e (e' ∷ queue) = once e e' + occurrences e queue

-- Every count is positive.
unfoldable pub IsCounted : Events → Type 0
IsCounted [] = Unit {0}
IsCounted ((e, n) ∷ events) = (0 < n) × IsCounted events

same_id_refl : (q : Option String) → same_id q q ≡ true
same_id_refl none = refl
same_id_refl (some s) = eq_refl s

same_id_eq : (q q' : Option String) → same_id q q' ≡ true → q ≡ q'
same_id_eq none none h = refl
same_id_eq none (some t) h = absurd (ground arith)
same_id_eq (some s) none h = absurd (ground arith)
same_id_eq (some s) (some t) h = ap some (eq_of_== s t h)

same_event_eq : (e e' : ExtTrigger) → same_event e e' ≡ true → e ≡ e'
same_event_eq (m, q) (m', q') h = ground (arith, eq_of_== m m', same_id_eq q q')

count_of-added :
    (x e : ExtTrigger) (n : ℕ)
    → (if is_event x e then suc n else 0) ≡ once x e + (if is_event x e then n else 0)
count_of-added x e n = elim (Bool-cases (is_event x e)) [
  | inl b ↦ rw b (omega arith)
  | inr b ↦ rw b refl
]

count_of-add_event :
    (x : ExtTrigger) (events : Events) (e : ExtTrigger)
    → count_of x (add_event events e) ≡ once x e + count_of x events
unfolding count_of add_event
count_of-add_event x [] e = refl
count_of-add_event x ((e', n) ∷ events) e = elim (Bool-cases (same_event e e')) [
  | inl same ↦
      let one : once x e ≡ once x e' = ap (once x) (same_event_eq e e' same) in
      rw same (omega (arith, count_of-added x e' n, one))
  | inr other ↦ rw other (omega (arith, count_of-add_event x events e))
]

add_event-IsCounted :
    (events : Events) (e : ExtTrigger) → IsCounted events → IsCounted (add_event events e)
unfolding IsCounted add_event
add_event-IsCounted [] e h = (omega arith, tt)
add_event-IsCounted ((e', n) ∷ events) e (a, b) = elim (Bool-cases (same_event e e')) [
  | inl same ↦ rw same (omega arith, b)
  | inr other ↦ rw other (a, add_event-IsCounted events e b)
]

count_of-add_events :
    (x : ExtTrigger) (queue : List ExtTrigger) (events : Events)
    → count_of x (add_events events queue) ≡ occurrences x queue + count_of x events
unfolding occurrences
count_of-add_events x [] events = omega arith
count_of-add_events x (e ∷ queue) events =
    omega (arith, count_of-add_events x queue (add_event events e), count_of-add_event x events e)

add_events-IsCounted :
    (queue : List ExtTrigger) (events : Events)
    → IsCounted events
    → IsCounted (add_events events queue)
add_events-IsCounted [] events h = h
add_events-IsCounted (e ∷ queue) events h =
    add_events-IsCounted queue (add_event events e) (add_event-IsCounted events e h)

find_event-eq :
    (trig : String) (events : Events) (e : ExtTrigger)
    → find_event trig events ≡ some e
    → trig ≡ e.0
unfolding find_event
find_event-eq trig [] e h = absurd (ground arith)
find_event-eq trig ((e', n) ∷ events) e h = elim (Bool-cases (trig == e'.0)) [
  | inl same ↦ let found : e' ≡ e = ground arith in eq_of_== trig e'.0 same ∙ ap (λ x. x.0) found
  | inr other ↦ find_event-eq trig events e (ground arith)
]

same_event_refl : (e : ExtTrigger) → same_event e e ≡ true
same_event_refl (m, q) = ground (arith, eq_refl m, same_id_refl q)

count_of-taken :
    (x e : ExtTrigger) (n : ℕ) (events : Events)
    → 0 < n
    → count_of x (if n - 1 == 0 then events else (e, n - 1) ∷ events) + once x e
      ≡ (if is_event x e then n else 0) + count_of x events
unfolding count_of
count_of-taken x e n events h = elim (Bool-cases (is_event x e)) [
  | inl b ↦ rw b (ground arith)
  | inr b ↦ rw b (ground arith)
]

differs :
    (e e' : ExtTrigger) (trig : String)
    → trig ≡ e.0
    → (trig == e'.0) ≡ false
    → same_event e e' ≡ false
differs (m, q) (m', q') trig h k = ground arith

count_of-take_event :
    (x : ExtTrigger) (trig : String) (events : Events) (e : ExtTrigger)
    → IsCounted events
    → find_event trig events ≡ some e
    → count_of x (take_event events e) + once x e ≡ count_of x events
unfolding IsCounted count_of take_event find_event
count_of-take_event x trig [] e h k = absurd (ground arith)
count_of-take_event x trig ((e', n) ∷ events) e (a, b) k = elim (Bool-cases (trig == e'.0)) [
  | inl same ↦
      let found : e' ≡ e = ground arith in
      let kept : same_event e e' ≡ true =
        subst (λ x. same_event e x ≡ true) (sym found) (same_event_refl e) in
      let one : once x e' ≡ once x e = ap (once x) found in
      rw kept (omega (arith, count_of-taken x e' n events a, one))
  | inr other ↦
      let later : find_event trig events ≡ some e = ground arith in
      rw (differs e e' trig (find_event-eq trig events e later) other)
        (omega (arith, count_of-take_event x trig events e b later))
]

not_event :
    (e e' : ExtTrigger) (trig : String)
    → trig ≡ e.0
    → (trig == e'.0) ≡ false
    → is_event e e' ≡ false
not_event (m, none) (m', none) trig h k = ground arith
not_event (m, none) (m', some q') trig h k = refl
not_event (m, some q) (m', none) trig h k = refl
not_event (m, some q) (m', some q') trig h k = ground arith

find_event-none :
    (e : ExtTrigger) (trig : String) (events : Events)
    → trig ≡ e.0
    → find_event trig events ≡ none
    → count_of e events ≡ 0
unfolding count_of find_event
find_event-none e trig [] h k = refl
find_event-none e trig ((e', n) ∷ events) h k = elim (Bool-cases (trig == e'.0)) [
  | inl same ↦ absurd (ground arith)
  | inr other ↦
      rw (not_event e e' trig h other)
        (omega (arith, find_event-none e trig events h (ground arith)))
]

taken-IsCounted :
    (e : ExtTrigger) (n : ℕ) (events : Events)
    → IsCounted events
    → IsCounted (if n - 1 == 0 then events else (e, n - 1) ∷ events)
unfolding IsCounted
taken-IsCounted e n events h = elim (Bool-cases (n - 1 == 0)) [
  | inl last ↦ rw last h
  | inr more ↦ rw more (ground arith, h)
]

take_event-IsCounted :
    (events : Events) (e : ExtTrigger) → IsCounted events → IsCounted (take_event events e)
unfolding IsCounted take_event
take_event-IsCounted [] e h = tt
take_event-IsCounted ((e', n) ∷ events) e (a, b) = elim (Bool-cases (same_event e e')) [
  | inl same ↦ rw same (taken-IsCounted e' n events b)
  | inr other ↦ rw other (a, take_event-IsCounted events e b)
]

contains-keys : (d : Assoc String Bool) (k : String) → contains (keys d) k ≡ has d k
unfolding has
contains-keys [] k = refl
contains-keys ((j, v) ∷ d) k = ground (arith, contains-keys d k)

-- The trigger and the event of a match.
Matches : Assoc String Bool → Events → String × ExtTrigger → Type 0
Matches triggers events (trig, event) =
    (get triggers trig ≡ some false) × (find_event trig events ≡ some event)

Matches-later :
    (trig : String) (satisfied : Bool) (triggers : Assoc String Bool) (events : Events)
    (found : String × ExtTrigger)
    → contains (keys triggers) trig ≡ false
    → Matches triggers events found
    → Matches ((trig, satisfied) ∷ triggers) events found
unfolding Matches get
Matches-later trig satisfied triggers events (t, event) fresh (a, b) =
    (ground (arith, has_of_get triggers t false, contains-keys triggers trig, eq_of_== t trig), b)

first_match-Matches :
    (triggers : Assoc String Bool) (events : Events) (found : String × ExtTrigger)
    → IsNodup (keys triggers)
    → first_match triggers events ≡ some found
    → Matches triggers events found
unfolding first_match Matches get
first_match-Matches [] events found u h = absurd (ground arith)
first_match-Matches ((trig, true) ∷ triggers) events found (fresh, u) h =
    Matches-later trig true triggers events found fresh
      (first_match-Matches triggers events found u h)
first_match-Matches ((trig, false) ∷ triggers) events found (fresh, u) h =
    elim (Option-cases (find_event trig events)) [
      | inl e ↦
          Matches-later trig false triggers events found fresh
            (first_match-Matches triggers events found u (ground arith))
      | inr (event, e) ↦
          let same : (trig, event) ≡ found = ground arith in
          subst (Matches ((trig, false) ∷ triggers) events) same (rw (eq_refl trig) refl, e)
    ]

first_match-none :
    (triggers : Assoc String Bool) (events : Events) (trig : String)
    → first_match triggers events ≡ none
    → get triggers trig ≡ some false
    → find_event trig events ≡ none
unfolding first_match get
first_match-none [] events trig h k = absurd (ground arith)
first_match-none ((t, true) ∷ triggers) events trig h k =
    ground (arith, first_match-none triggers events trig)
first_match-none ((t, false) ∷ triggers) events trig h k = elim (Bool-cases (trig == t)) [
  | inl same ↦ subst (λ x. find_event x events ≡ none) (sym (eq_of_== trig t same)) (ground arith)
  | inr other ↦ first_match-none triggers events trig (ground arith) (ground arith)
]

-- What `check_ext_triggers` promises: what it does with the events, the triggers and the broadcasts.
unfoldable pub IsChecked :
    Shape → BroadcastMgr → Assoc String Bool → List ExtTrigger → Checked → Type 0
unfolding HasShape IsCounted count_of occurrences get put
IsChecked shape mgr triggers queue (after, triggers', true) =
    HasShape (whole shape) after.broadcasts
    × IsCounted after.ext_triggers
    × (used : ExtTrigger) × (get triggers used.0 ≡ some false)
    × (triggers' ≡ put triggers used.0 true)
    × ((e : ExtTrigger)
        → count_of e after.ext_triggers + (if is_event e used then 1 else 0)
          ≡ occurrences e queue + count_of e mgr.ext_triggers)
IsChecked shape mgr triggers queue (after, triggers', false) =
    (after.broadcasts ≡ mgr.broadcasts)
    × IsCounted after.ext_triggers
    × ((e : ExtTrigger)
        → count_of e after.ext_triggers ≡ occurrences e queue + count_of e mgr.ext_triggers)
    × (triggers' ≡ triggers)
    × ((e : ExtTrigger) → get triggers e.0 ≡ some false → count_of e after.ext_triggers ≡ 0)

KeepsEvents : Shape → BroadcastMgr → BroadcastMgr → Type 0
unfolding HasShape
KeepsEvents shape mgr m = HasShape (whole shape) m.broadcasts × (m.ext_triggers ≡ mgr.ext_triggers)

broadcast_id-KeepsEvents :
    (i : Interface) (shape : Shape) (mgr : BroadcastMgr) (cycle : String) (id : Option String)
    → IsSound i shape
    → HasShape (whole shape) mgr.broadcasts
    → Returns (KeepsEvents shape mgr) (broadcast_id i mgr cycle id)
unfolding broadcast_id KeepsEvents IsPut IsReportable
broadcast_id-KeepsEvents i shape mgr cycle none sound h = (h, refl)
broadcast_id-KeepsEvents i shape mgr cycle (some id) sound h =
    Returns->>= (IsPut i shape mgr) (KeepsEvents shape mgr)
      (put_broadcast i mgr (cycle ∷ []) ("root" ∷ []) (id_settings id)) (λ changed. ok changed.0)
      (put_broadcast-IsPut i shape mgr (cycle ∷ []) ("root" ∷ []) (id_settings id) sound h (tt, tt))
      (λ c p. (p.0, p.3))

satisfy-IsChecked :
    (i : Interface) (shape : Shape) (mgr m : BroadcastMgr) (cycle : String)
    (triggers : Assoc String Bool) (queue : List ExtTrigger) (found : Option (String × ExtTrigger))
    → IsSound i shape
    → HasShape (whole shape) m.broadcasts
    → m.broadcasts ≡ mgr.broadcasts
    → IsCounted m.ext_triggers
    → ((e : ExtTrigger)
        → count_of e m.ext_triggers ≡ occurrences e queue + count_of e mgr.ext_triggers)
    → IsNodup (keys triggers)
    → first_match triggers m.ext_triggers ≡ found
    → Returns (IsChecked shape mgr triggers queue) (satisfy i m cycle triggers found)
unfolding satisfy IsChecked KeepsEvents Matches
satisfy-IsChecked i shape mgr m cycle triggers queue none sound h b c t u e = (
  b,
  c,
  t,
  refl,
  λ x waits.
      find_event-none x x.0 m.ext_triggers refl
        (first_match-none triggers m.ext_triggers x.0 e waits),
)
satisfy-IsChecked i shape mgr m cycle triggers queue (some (trig, (msg, id))) sound h b c t u e =
    let (waits, event) = first_match-Matches triggers m.ext_triggers (trig, (msg, id)) u e in
    let named : trig ≡ msg = find_event-eq trig m.ext_triggers (msg, id) event in
    Returns->>= (KeepsEvents shape m) (IsChecked shape mgr triggers queue) _ _
      (broadcast_id-KeepsEvents i shape m cycle id sound h)
      (λ m' (shaped, same). rw same (
        shaped,
        take_event-IsCounted m.ext_triggers (msg, id) c,
        (msg, id),
        subst (λ x. get triggers x ≡ some false) named waits,
        ap (λ x. put triggers x true) named,
        λ x. count_of-take_event x trig m.ext_triggers (msg, id) c event ∙ t x,
      ))

-- When the validator returns settings in the shape of the configuration, the broadcasts have it, each event
-- that is kept has a positive count, and each trigger of the task stands once, `check_ext_triggers` raises
-- nothing and keeps the shape and the counts. Either a trigger of the task that was not satisfied is
-- satisfied now and one event with this trigger as its message is used up: that event is counted once less than it
-- is kept and in the queue together, and every other event as often. Or no trigger is satisfied and no event
-- used up: every event is counted as often as it is kept and in the queue, broadcasts and triggers are as they were, and
-- no trigger of the task that is not satisfied is the message of an event.
pub check_ext_triggers-IsChecked :
    (i : Interface) (shape : Shape) (mgr : BroadcastMgr) (cycle : String)
    (triggers : Assoc String Bool) (queue : List ExtTrigger)
    → IsSound i shape
    → HasShape (whole shape) mgr.broadcasts
    → IsCounted mgr.ext_triggers
    → IsNodup (keys triggers)
    → Returns (IsChecked shape mgr triggers queue) (check_ext_triggers i mgr cycle triggers queue)
unfolding check_ext_triggers match_ext_trigger
check_ext_triggers-IsChecked i shape mgr cycle triggers queue sound h c u =
    let m : BroadcastMgr = record mgr { ext_triggers = add_events mgr.ext_triggers queue } in
    satisfy-IsChecked i shape mgr m cycle triggers queue (first_match triggers m.ext_triggers) sound
      h refl (add_events-IsCounted queue mgr.ext_triggers c)
      (λ x. count_of-add_events x queue mgr.ext_triggers) u refl
