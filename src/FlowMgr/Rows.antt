-- ===== src/FlowMgr/Rows.antt =====
-- The rows that the flow manager puts into the database.
use cylc_flow.Prelude.{
  ℕ, ◌≡◌, refl, sym, ◌∙◌, ap, subst, inl, inr, String, false, Option, none, some, List, [], ◌∷◌,
  ◌++◌, contains, IsNodup, contains-append, string_eq, nat_eq, arith, Bool-cases,
}
use cylc_flow.Prelude.Assoc.{has, has-put}
use cylc_flow.FlowMgr.{FlowMeta, FlowMgr, init, describe, record_flow, next_number, get_flow}

abbrev pub numbers : List (ℕ × FlowMeta) → List ℕ
numbers [] = []
numbers ((n, m) ∷ rows) = n ∷ numbers rows

-- Calls of `get_flow`, with and without a number.
pub data Reach (mgr : FlowMgr) : FlowMgr → Type 0 where
  here : Reach mgr mgr
  call :
      {mgr' : FlowMgr}
      → Reach mgr mgr'
      → (n : Option ℕ) (meta : Option String) (now : String)
      → Reach mgr (get_flow mgr' n meta now).0

-- A flow is recorded if and only if it has a row, and no number has two rows.
pub record IsRecorded (mgr : FlowMgr) : Type 0 where
  pub rows_lem : (n : ℕ) → contains (numbers mgr.db) n ≡ has mgr.flows n
  pub once : IsNodup (numbers mgr.db)

numbers-append : (xs ys : List (ℕ × FlowMeta)) → numbers (xs ++ ys) ≡ numbers xs ++ numbers ys
numbers-append [] ys = refl
numbers-append ((n, m) ∷ xs) ys = ap (λ l. n ∷ l) (numbers-append xs ys)

IsNodup-snoc : (xs : List ℕ) (n : ℕ) → IsNodup xs → contains xs n ≡ false → IsNodup (xs ++ n ∷ [])
IsNodup-snoc [] n d h = (refl, tt)
IsNodup-snoc (x ∷ xs) n d h =
    (ground (arith, contains-append xs (n ∷ []) x), IsNodup-snoc xs n d.1 (ground arith))

record_flow-IsRecorded :
    (mgr : FlowMgr) (n : ℕ) (meta : Option String) (now : String)
    → IsRecorded mgr
    → IsRecorded (record_flow mgr n meta now).0
unfolding record_flow
record_flow-IsRecorded mgr n meta now h = elim (Bool-cases (has mgr.flows n)) [
  | inl used ↦ rw used h
  | inr free ↦
      let row : FlowMeta = record { description = describe meta; start_time = now } in
      rw free (record {
        rows_lem = λ k. ground (
          arith,
          ap (λ l. contains l k) (numbers-append mgr.db ((n, row) ∷ [])),
          contains-append (numbers mgr.db) (n ∷ []) k,
          has-put mgr.flows n k row,
          h.rows_lem k,
        );
        once =
            subst IsNodup (sym (numbers-append mgr.db ((n, row) ∷ [])))
              (IsNodup-snoc (numbers mgr.db) n h.once (h.rows_lem n ∙ free));
      })
]

get_flow-IsRecorded :
    (mgr : FlowMgr) (n : Option ℕ) (meta : Option String) (now : String)
    → IsRecorded mgr
    → IsRecorded (get_flow mgr n meta now).0
unfolding get_flow
get_flow-IsRecorded mgr none meta now h =
    record_flow-IsRecorded (record mgr { counter = next_number mgr }) (next_number mgr) meta now
      (record { rows_lem = h.rows_lem; once = h.once })
get_flow-IsRecorded mgr (some n) meta now h = record_flow-IsRecorded mgr n meta now h

init-IsRecorded : IsRecorded init
unfolding init has
init-IsRecorded = record { rows_lem = λ n. refl; once = tt }

Reach-keeps : {mgr mgr' : FlowMgr} → Reach mgr mgr' → IsRecorded mgr → IsRecorded mgr'
Reach-keeps here h = h
Reach-keeps (call {mgr' = m} r n meta now) h = get_flow-IsRecorded m n meta now (Reach-keeps r h)

-- After any calls of `get_flow` on a new manager, the numbers with a row for the database are those
-- of the recorded flows, and no number has two rows.
pub Reach-IsRecorded : (mgr : FlowMgr) → Reach init mgr → IsRecorded mgr
Reach-IsRecorded mgr r = Reach-keeps r init-IsRecorded
