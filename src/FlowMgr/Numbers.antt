-- ===== src/FlowMgr/Numbers.antt =====
-- The number of a new flow.
use cylc_flow.Prelude.{
  ℕ, zero, suc, ◌+◌, ◌≤◌, ◌<◌, ◌≡◌, refl, inl, inr, String, true, false, Option, none, some, [],
  ◌∷◌, ◌++◌, if◌then◌else◌, ◌==◌, string_eq, nat_eq, ℕ_discrete, arith, Bool-cases,
}
use cylc_flow.Prelude.Assoc.{get, put, has, get-put}
use cylc_flow.FlowMgr.{
  FlowMeta, Flows, FlowMgr, max_flow, skip, describe, record_flow, next_number, get_flow,
  load_from_db,
}

has-max_flow : (flows : Flows) (n : ℕ) → max_flow flows < n → has flows n ≡ false
unfolding has
has-max_flow [] n h = refl
has-max_flow ((k, m) ∷ flows) n h = ground (arith, has-max_flow flows n)

le-max_flow : (flows : Flows) (n : ℕ) → has flows n ≡ true → n ≤ max_flow flows
unfolding has
le-max_flow [] n h = absurd (cc)
le-max_flow ((k, m) ∷ flows) n h = ground (arith, le-max_flow flows n)

-- The loop stops at the first unused number.
pub skip_lem :
    (fuel : ℕ) (flows : Flows) (n : ℕ)
    → max_flow flows < n + fuel
    → (n ≤ skip fuel flows n)
      × (has flows (skip fuel flows n) ≡ false)
      × ((m : ℕ) → n ≤ m → m < skip fuel flows n → has flows m ≡ true)
unfolding skip
skip_lem zero flows n h =
    (omega arith, has-max_flow flows n (omega arith), λ m le lt. absurd (omega arith))
skip_lem (suc fuel) flows n h = elim (Bool-cases (has flows n)) [
  | inr free ↦ rw free (omega arith, free, λ m le lt. absurd (omega arith))
  | inl used ↦
      let (le, free, below) = skip_lem fuel flows (n + 1) (omega arith) in
      rw used (
        omega arith,
        free,
        λ m le' lt. elim (ℕ_discrete m n) [ yes e ↦ rw e used | no ne ↦ below m (omega arith) lt ],
      )
]

next_number_lem :
    (mgr : FlowMgr)
    → (mgr.counter < next_number mgr)
      × (has mgr.flows (next_number mgr) ≡ false)
      × ((m : ℕ) → mgr.counter < m → m < next_number mgr → has mgr.flows m ≡ true)
unfolding next_number
next_number_lem mgr =
    let (le, free, below) =
      skip_lem (suc (max_flow mgr.flows)) mgr.flows (mgr.counter + 1) (omega arith) in
    (omega arith, free, λ m lo hi. below m (omega arith) hi)

record_flow_new :
    (mgr : FlowMgr) (n : ℕ) (meta : Option String) (now : String)
    → has mgr.flows n ≡ false
    → let row : FlowMeta = record { description = describe meta; start_time = now } in
      record_flow mgr n meta now
      ≡ (record mgr { flows = put mgr.flows n row; db = mgr.db ++ (n, row) ∷ [] }, n)
unfolding record_flow
record_flow_new mgr n meta now h = rw h

get_flow_eq :
    (mgr : FlowMgr) (meta : Option String) (now : String)
    → let n = next_number mgr in
      let row : FlowMeta = record { description = describe meta; start_time = now } in
      get_flow mgr none meta now
      ≡ (record mgr { counter = n; flows = put mgr.flows n row; db = mgr.db ++ (n, row) ∷ [] }, n)
unfolding get_flow
get_flow_eq mgr meta now =
    record_flow_new (record mgr { counter = next_number mgr }) (next_number mgr) meta now
      (next_number_lem mgr).1

-- A new flow gets the first number behind the counter that no flow has. The counter moves there, and
-- the flow is recorded with its description, once, as the new row; no other flow changes.
pub get_flow_new :
    (mgr : FlowMgr) (meta : Option String) (now : String)
    → let (mgr', n) = get_flow mgr none meta now in
      let row : FlowMeta = record { description = describe meta; start_time = now } in
      (mgr.counter < n)
      × (has mgr.flows n ≡ false)
      × ((m : ℕ) → mgr.counter < m → m < n → has mgr.flows m ≡ true)
      × (mgr'.counter ≡ n)
      × (mgr'.db ≡ mgr.db ++ (n, row) ∷ [])
      × ((m : ℕ) → get mgr'.flows m ≡ (if m == n then some row else get mgr.flows m))
get_flow_new mgr meta now =
    let (le, free, below) = next_number_lem mgr in
    rw (get_flow_eq mgr meta now) (
      omega arith,
      free,
      λ m lo hi. below m lo hi,
      refl,
      refl,
      λ m.
          get-put mgr.flows (next_number mgr) m
            (record { description = describe meta; start_time = now }),
    )

-- A given number is returned as it is and the counter stays. If a flow has the number, then nothing
-- changes; if none has it, then it is recorded with its row.
get_flow_given :
    (mgr : FlowMgr) (n : ℕ) (meta : Option String) (now : String)
    → let (mgr', result) = get_flow mgr (some n) meta now in
      let row : FlowMeta = record { description = describe meta; start_time = now } in
      (result ≡ n)
      × (mgr'.counter ≡ mgr.counter)
      × (has mgr.flows n ≡ true → mgr' ≡ mgr)
      × (has mgr.flows n ≡ false
          → (mgr'.flows ≡ put mgr.flows n row) × (mgr'.db ≡ mgr.db ++ (n, row) ∷ []))
unfolding get_flow record_flow
get_flow_given mgr n meta now = (ground arith, ground arith, λ h. rw h, λ h. rw h (refl, refl))

-- After a restart a new flow never takes a number of the database, though only some of its flows are
-- loaded.
pub load_from_db-get_flow :
    (mgr : FlowMgr) (db_flows selected : Flows) (meta : Option String) (now : String) (n : ℕ)
    → has db_flows n ≡ true
    → n < (get_flow (load_from_db mgr (max_flow db_flows) selected) none meta now).1
unfolding load_from_db
load_from_db-get_flow mgr db_flows selected meta now n h =
    let restarted : FlowMgr = record mgr { counter = max_flow db_flows; flows = selected } in
    omega (arith, le-max_flow db_flows n h, (get_flow_new restarted meta now).0)
