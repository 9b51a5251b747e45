-- ===== src/BroadcastMgr/ExtTriggers.antt =====
-- cylc/flow/broadcast_mgr.py: check_ext_triggers and _match_ext_trigger. The events are counted by their message
-- and identity.
pub mod Conserved
use cylc_flow.Prelude.{
  ℕ, suc, ◌-◌, String, Bool, true, false, ◌&&◌, Option, none, some, List, [], ◌∷◌, ◌++◌,
  if◌then◌else◌, ◌==◌, string_eq, nat_eq,
}
use cylc_flow.Prelude.Assoc.{Assoc, put}
use cylc_flow.Prelude.Result.{Result, ok, ◌>>=◌}
use cylc_flow.BroadcastMgr.{text, Settings, empty, leaf, section, BroadcastError}
use cylc_flow.BroadcastMgr.Operations.{
  ExtTrigger, delta_task_ext_trigger, BroadcastMgr, Interface, put_broadcast,
}

abbrev pub Events : Type 0
Events = Assoc ExtTrigger ℕ

abbrev pub same_id : Option String → Option String → Bool
same_id none none = true
same_id (some s) (some t) = s == t
same_id _ _ = false

abbrev pub same_event : ExtTrigger → ExtTrigger → Bool
same_event (m, q) (m', q') = m == m' && same_id q q'

-- `setdefault` and an increment
unfoldable pub add_event : Events → ExtTrigger → Events
add_event [] event = (event, 1) ∷ []
add_event ((e, n) ∷ events) event =
    let later = add_event events event in
    if same_event event e then (e, suc n) ∷ events else (e, n) ∷ later

abbrev pub add_events : Events → List ExtTrigger → Events
add_events events [] = events
add_events events (event ∷ queue) = add_events (add_event events event) queue

-- A decrement, and deletion at 0. A count that is kept is positive.
unfoldable pub take_event : Events → ExtTrigger → Events
take_event [] event = []
take_event ((e, n) ∷ events) event =
    let later = take_event events event in
    if same_event event e
    then (if n - 1 == 0 then events else (e, n - 1) ∷ events)
    else (e, n) ∷ later

-- The first event with the message of a trigger.
unfoldable pub find_event : String → Events → Option ExtTrigger
find_event trig [] = none
find_event trig ((e, n) ∷ events) =
    let later = find_event trig events in if trig == e.0 then some e else later

unfoldable pub first_match : Assoc String Bool → Events → Option (String × ExtTrigger)
unfolding find_event
first_match [] events = none
first_match ((trig, satisfied) ∷ triggers) events =
    let later = first_match triggers events in
    if satisfied
    then later
    else elim (find_event trig events) [ none ↦ later | some event ↦ some (trig, event) ]

abbrev pub id_settings : String → List Settings
id_settings id =
    section "environment" (leaf "CYLC_EXT_TRIGGER_ID" (some (text id)) empty) empty ∷ []

-- The identity of the event, as a broadcast to the task's cycle point.
unfoldable pub broadcast_id :
    Interface → BroadcastMgr → String → Option String → Result BroadcastError BroadcastMgr
unfolding put_broadcast
broadcast_id i mgr cycle none = ok mgr
broadcast_id i mgr cycle (some id) =
    put_broadcast i mgr (cycle ∷ []) ("root" ∷ []) (id_settings id) >>= λ changed. ok changed.0

-- The manager, the task's triggers, and whether one was newly satisfied.
abbrev pub Checked : Type 0
Checked = BroadcastMgr × Assoc String Bool × Bool

unfoldable pub satisfy :
    Interface
    → BroadcastMgr
    → String
    → Assoc String Bool
    → Option (String × ExtTrigger)
    → Result BroadcastError Checked
unfolding take_event broadcast_id put
satisfy i mgr cycle triggers none = ok (mgr, triggers, false)
satisfy i mgr cycle triggers (some (trig, (msg, id))) = broadcast_id i mgr cycle id >>= λ m. ok (
  record m {
    ext_triggers = take_event m.ext_triggers (msg, id);
    effects = m.effects ++ delta_task_ext_trigger id msg ∷ [];
  },
  put triggers trig true,
  true,
)

unfoldable pub match_ext_trigger :
    Interface → BroadcastMgr → String → Assoc String Bool → Result BroadcastError Checked
unfolding satisfy first_match
match_ext_trigger i mgr cycle triggers =
    satisfy i mgr cycle triggers (first_match triggers mgr.ext_triggers)

unfoldable pub check_ext_triggers :
    Interface
    → BroadcastMgr
    → String
    → Assoc String Bool
    → List ExtTrigger
    → Result BroadcastError Checked
unfolding match_ext_trigger add_event
check_ext_triggers i mgr cycle triggers queue =
    match_ext_trigger i (record mgr { ext_triggers = add_events mgr.ext_triggers queue }) cycle
      triggers
