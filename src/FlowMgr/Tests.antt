-- ===== src/FlowMgr/Tests.antt =====
-- Flows 1 and 3 in use, then two new ones.
use cylc_flow.Prelude.{
  ℕ, ◌<◌, ◌≡◌, refl, true, false, none, some, [], ◌∷◌, ◌++◌, if◌then◌else◌, ◌==◌, string_eq, nat_eq,
  ℕ_discrete,
}
use cylc_flow.Prelude.Assoc.{get, put, has}
use cylc_flow.Prelude.Result.{Result, ok, err}
use cylc_flow.FlowMgr.{
  FlowMeta, Flows, FlowMgr, flow_new, flow_int, value_error, init, max_flow, skip, describe,
  record_flow, next_number, get_flow, get_flows, cli_to_flow_nums, load_from_db,
}
use cylc_flow.FlowMgr.Numbers.{get_flow_new, load_from_db-get_flow}
use cylc_flow.FlowMgr.Rows.{Reach, IsRecorded, Reach-IsRecorded}

abbrev old : FlowMeta
old = record { description = "x"; start_time = "t" }

abbrev flows : Flows
flows = (1, old) ∷ (3, old) ∷ []

abbrev mgr : FlowMgr
mgr = record { flows = flows; counter = 1; db = [] }

first_new : (get_flow mgr none none "now").1 ≡ 2
unfolding get_flow record_flow next_number skip has put ℕ_discrete
first_new = refl

second_new : (get_flow (get_flow mgr none none "now").0 none (some "") "now").1 ≡ 4
unfolding get_flow record_flow next_number skip has put ℕ_discrete
second_new = refl

abbrev ap_numbers {ℓ} : {E : Type 0} {A : Type ℓ} → Result E (FlowMgr × A) → Result E A
ap_numbers (ok r) = ok r.1
ap_numbers (err e) = err e

cli_two :
    ap_numbers (cli_to_flow_nums mgr (flow_int 3 ∷ flow_int 7 ∷ []) none "now") ≡ ok (3 ∷ 7 ∷ [])
unfolding cli_to_flow_nums get_flows get_flow record_flow has put ℕ_discrete
cli_two = refl

cli_mixed : cli_to_flow_nums mgr (flow_int 3 ∷ flow_new ∷ []) none "now" ≡ err value_error
unfolding cli_to_flow_nums get_flows get_flow record_flow has put ℕ_discrete
cli_mixed = refl

get_flow_new_example :
    let (mgr', n) = get_flow mgr none (some "again") "now" in
    let row : FlowMeta = record { description = describe (some "again"); start_time = "now" } in
    (1 < n)
    × (has flows n ≡ false)
    × ((m : ℕ) → 1 < m → m < n → has flows m ≡ true)
    × (mgr'.counter ≡ n)
    × (mgr'.db ≡ [] ++ (n, row) ∷ [])
    × ((m : ℕ) → get mgr'.flows m ≡ (if m == n then some row else get flows m))
get_flow_new_example = get_flow_new mgr (some "again") "now"

three_used : has flows 3 ≡ true
unfolding has ℕ_discrete
three_used = refl

load_from_db-get_flow_example :
    3 < (get_flow (load_from_db init (max_flow flows) []) none none "now").1
load_from_db-get_flow_example = load_from_db-get_flow init flows [] none "now" 3 three_used

Reach-IsRecorded_example :
    IsRecorded (get_flow (get_flow init none none "now").0 (some 5) none "now").0
Reach-IsRecorded_example =
    Reach-IsRecorded _ (Reach.call (Reach.call Reach.here none none "now") (some 5) none "now")
