-- ===== src/TaskQueues.antt =====
-- cylc/flow/task_queues: the queues that limit how many tasks are active.
pub mod Limited
pub mod Indep
