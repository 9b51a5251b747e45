-- ===== src/TaskState/Order.antt =====
-- The order of task statuses.
use cylc_flow.Prelude.{
  ℕ, zero, suc, ◌≡◌, refl, sym, ◌∙◌, ap, true, not, ◌||◌, List, [], ◌∷◌, string_eq, nat_eq, ltb,
  leb, arith,
}
use cylc_flow.Prelude.Int.{int_eq}
use cylc_flow.TaskState.{
  TaskStatus, waiting, expired, preparing, submit_failed, submitted, running, failed, succeeded,
  TaskStatus_discrete, task_status_eq, rank, task_statuses_ordered, TaskState, status_leq,
  status_geq, is_gt, is_gte,
}

-- The status at a place of a list.
status_at : List TaskStatus → ℕ → TaskStatus
status_at [] n = succeeded
status_at (x ∷ xs) zero = x
status_at (x ∷ xs) (suc n) = status_at xs n

status_at-rank : (s : TaskStatus) → status_at task_statuses_ordered (rank s) ≡ s
unfolding status_at TaskStatus_discrete
status_at-rank waiting = refl
status_at-rank expired = refl
status_at-rank preparing = refl
status_at-rank submit_failed = refl
status_at-rank submitted = refl
status_at-rank running = refl
status_at-rank failed = refl
status_at-rank succeeded = refl

leb-antisym : (m n : ℕ) → leb m n ≡ true → leb n m ≡ true → m ≡ n
leb-antisym m n h k = ground arith

leb_trans : (m n k : ℕ) → leb m n ≡ true → leb n k ≡ true → leb m k ≡ true
leb_trans m n k h l = ground arith

leb_total : (m n : ℕ) → (leb m n || leb n m) ≡ true
leb_total m n = ground arith

ltb-not-leb : (m n : ℕ) → ltb m n ≡ not (leb n m)
ltb-not-leb m n = ground arith

-- `status_leq` is a linear order of the task statuses, `status_geq` is its converse, and `is_gt` and
-- `is_gte` compare a task's status by it: of two statuses exactly one of `is_gt` and `status_leq` holds.
status_leq_order :
    (s : TaskState) (a b c : TaskStatus)
    → (status_leq a b ≡ true → status_leq b a ≡ true → a ≡ b)
      × (status_leq a b ≡ true → status_leq b c ≡ true → status_leq a c ≡ true)
      × ((status_leq a b || status_leq b a) ≡ true)
      × (status_geq a b ≡ status_leq b a)
      × (is_gt s a ≡ not (status_leq s.status a))
      × (is_gte s a ≡ status_leq a s.status)
unfolding status_leq status_geq is_gt is_gte
status_leq_order s a b c = (
  λ h k.
      sym (status_at-rank a)
      ∙ ap (status_at task_statuses_ordered) (leb-antisym (rank a) (rank b) h k)
      ∙ status_at-rank b,
  leb_trans (rank a) (rank b) (rank c),
  leb_total (rank a) (rank b),
  refl,
  ltb-not-leb (rank a) (rank s.status),
  refl,
)
