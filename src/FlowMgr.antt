-- ===== src/FlowMgr.antt =====
-- cylc/flow/flow_mgr.py: the flow counter and the flows in use.
-- The clock is an argument, `now`. `db` lists the rows that were put for insertion into the table of
-- flows. The `while` loop takes fuel; it has one round more than the largest flow number.
pub mod Numbers
pub mod Rows
mod Tests
use cylc_flow.Prelude.{
  ℕ, zero, suc, ◌+◌, ◌-◌, ◌*◌, ◌/◌, ◌%◌, ◌≤◌, ◌<◌, ◌≡◌, refl, sym, ◌∙◌, ap, subst, ◌≢◌, ◌↔◌, ◌⊎◌,
  inl, inr, String, Bool, true, false, not, ◌&&◌, ◌||◌, Option, none, some, List, [], ◌∷◌, ◌++◌,
  map, any, all, filter, contains, IsNodup, length, All, All-mono, All-append, contains-append,
  length-append, if◌then◌else◌, ◌==◌, Eq, is_yes, string_eq, nat_eq, String_discrete, ℕ_discrete,
  eq_refl, eq_of_==, ltb, leb, ltb→lt, leb→le, arith, Bool-cases, Option-cases, List-cases,
}
use cylc_flow.Prelude.Assoc.{
  Assoc, keys, get, put, has, get-put, has-put, has_of_get, get-none, get-some, All_get,
}
use cylc_flow.Prelude.Result.{Result, ok, err, ◌>>=◌, traverse, or_raise, >>=-eq-ok}
use Prim.Native.Nat.{max}

pub record FlowMeta : Type 0 where
  pub description : String
  pub start_time : String

abbrev pub Flows : Type 0
Flows = Assoc ℕ FlowMeta

pub record FlowMgr : Type 0 where
  pub flows : Flows
  pub counter : ℕ
  pub db : List (ℕ × FlowMeta)

-- `__init__`
unfoldable pub init : FlowMgr
init = record { flows = []; counter = 0; db = [] }

abbrev pub max_flow : Flows → ℕ
max_flow [] = 0
max_flow ((n, m) ∷ flows) = max n (max_flow flows)

-- `while self.counter in self.flows: self.counter += 1`
unfoldable pub skip : ℕ → Flows → ℕ → ℕ
skip zero flows counter = counter
skip (suc fuel) flows counter =
    let later = skip fuel flows (counter + 1) in if has flows counter then later else counter

-- `meta or "no description"`
abbrev pub describe : Option String → String
describe none = "no description"
describe (some meta) = if meta == "" then "no description" else meta

-- The second half of `get_flow`, for a number that is known.
unfoldable pub record_flow : FlowMgr → ℕ → Option String → String → FlowMgr × ℕ
record_flow mgr flow_num meta now =
    let row : FlowMeta = record { description = describe meta; start_time = now } in
    if has mgr.flows flow_num then (mgr, flow_num) else (
      record mgr { flows = put mgr.flows flow_num row; db = mgr.db ++ (flow_num, row) ∷ [] },
      flow_num,
    )

unfoldable pub next_number : FlowMgr → ℕ
next_number mgr = skip (suc (max_flow mgr.flows)) mgr.flows (mgr.counter + 1)

unfoldable pub get_flow : FlowMgr → Option ℕ → Option String → String → FlowMgr × ℕ
get_flow mgr none meta now =
    record_flow (record mgr { counter = next_number mgr }) (next_number mgr) meta now
get_flow mgr (some flow_num) meta now = record_flow mgr flow_num meta now

-- A validated `--flow` option.
pub data FlowOption : Type 0 where
  flow_new flow_none : FlowOption
  flow_int : ℕ → FlowOption

-- `int(n)` raises `ValueError` for the two words among other options.
pub data FlowError : Type 0 where
  value_error : FlowError

unfoldable pub get_flows :
    FlowMgr → List FlowOption → Option String → String → Result FlowError (FlowMgr × List ℕ)
get_flows mgr [] meta now = ok (mgr, [])
get_flows mgr (flow_int n ∷ flow) meta now = do
  let (mgr', num) = get_flow mgr (some n) meta now
  (mgr'', nums) ← get_flows mgr' flow meta now
  ok (mgr'', num ∷ nums)
get_flows mgr (flow_new ∷ flow) meta now = err value_error
get_flows mgr (flow_none ∷ flow) meta now = err value_error

unfoldable pub cli_to_flow_nums :
    FlowMgr → List FlowOption → Option String → String → Result FlowError (FlowMgr × List ℕ)
cli_to_flow_nums mgr (flow_none ∷ []) meta now = ok (mgr, [])
cli_to_flow_nums mgr (flow_new ∷ []) meta now =
    let (mgr', num) = get_flow mgr none meta now in ok (mgr', num ∷ [])
cli_to_flow_nums mgr flow meta now = get_flows mgr flow meta now

-- The rows of the table of flows at a restart: those selected, and the largest number. The query for
-- the number gives nothing when the table is empty; that case is left out.
unfoldable pub load_from_db : FlowMgr → ℕ → Flows → FlowMgr
load_from_db mgr max_flow_num selected = record mgr { counter = max_flow_num; flows = selected }
