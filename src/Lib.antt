-- ===== src/Lib.antt =====
-- A verification library of the core of cylc, the workflow scheduler (cylc/flow in the repository).
--
-- Cylc runs tasks at cycle points. The scheduler reads a configuration, whose namespaces inherit from
-- each other; it derives each task's points from recurrences; it spawns task proxies in flows; a proxy
-- waits for its prerequisites, then goes through a queue with a limit on active tasks, and its jobs
-- complete outputs that satisfy other tasks' prerequisites. Broadcasts override settings of tasks while the
-- workflow runs. The library models these parts:
--
--   BroadcastMgr  cylc/flow/broadcast_mgr.py: class BroadcastMgr, settings that override those of tasks at
--                 cycle points (modules Operations, Clear, Lookup), external triggers (ExtTriggers), and
--                 rows of the database (Keys, with cylc/flow/broadcast_report.py)
--   C3Mro         cylc/flow/c3mro.py: the linearisation of the inheritance hierarchy
--   Cycling       cylc/flow/cycling/integer.py: a built IntegerSequence and its exclusions, with
--                 __contains__ of ExclusionBase in cylc/flow/cycling/__init__.py
--   FlowMgr       cylc/flow/flow_mgr.py: class FlowMgr, the numbers and records of flows
--   Prerequisite  cylc/flow/prerequisite.py: classes PrereqTuple and Prerequisite, with
--                 quick_relative_id of cylc/flow/id.py
--   TaskActionTimer
--                 cylc/flow/task_action_timer.py: class TaskActionTimer, delays before retries and polls
--   TaskEvents    cylc/flow/task_events_mgr.py: process_message of TaskEventsManager (module
--                 Process) with its handlers (Handlers) and polling timers (Timers), state_reset of
--                 cylc/flow/task_proxy.py and split_run_signal of cylc/flow/task_message.py
--   TaskOutputs   cylc/flow/task_outputs.py: class TaskOutputs, completed outputs and completion
--   TaskPool      cylc/flow/task_pool.py: the runahead limit, the stop and hold points of class TaskPool
--                 over integer points (modules Limit and Operations), and the release of tasks from the limit
--                 (Release); module Integer makes its recurrences of those of Cycling
--   TaskQueues    cylc/flow/task_queues/independent.py: LimitedTaskQueue (module Limited) and
--                 IndepQueueManager (module Indep), with _expand_families of the package
--   TaskState     cylc/flow/task_state.py: class TaskState, the status of a proxy and its readiness
--   XtriggerMgr   cylc/flow/xtrigger_mgr.py: class XtriggerManager, functions on which tasks wait; their results
--                 are broadcast
--   Prelude       equality tests, association lists, results and integers that the parts share
--
-- A definition has the name of the method that it models, and its parts those of the variables; an
-- object is a record, a method that changes it returns the new record, a dictionary is an association
-- list in insertion order, a set a list, and an exception is an error of the component's own type.
-- A method that raises after it changed its object returns the record together with the result; those of
-- BroadcastMgr and XtriggerMgr return one or the other, and what they raise is excluded by conditions on
-- the settings and the points, which theorems state. A nested dictionary of settings is a data type of its own.
-- A counter that several queues share is passed on from one to the next. The handlers of messages
-- return the task proxy with the list of their calls on other components (data store, database, event
-- handlers, task pool); what these components do with a call is not modelled.
--
-- Bounds. merge of C3Mro takes as many rounds as there are names in the sequences, and one; mro takes
-- the depth of the recursion, which Python bounds too. get_flow searches past the largest flow
-- number. The methods of a sequence that call themselves after an excluded point take the number of
-- calls; on a sequence with an end the distance to it is enough. On one without an end, whose points
-- are all excluded, the source recurses until Python stops it, as the model does. process_message
-- calls itself for implied outputs, at most three deep: succeeded, started, submitted. Times are
-- natural numbers of seconds.
--
-- Not modelled: the spawning and removal of tasks in the pool, but for the next instances of tasks with no
-- parents, whose proxies are made by an argument; event handlers, mail and job logs of the
-- task events manager, and the job's configuration; a condition's text (it is a tree here, and eval a
-- function on it); the validation of broadcast settings, and their merging into a task's configuration;
-- the check and the templates of xtriggers; the parsing of recurrences; the ISO 8601 calendar; the
-- database (what it returns is an argument); logging; and the parts that talk to files, processes and the
-- network.

pub mod BroadcastMgr
pub mod C3Mro
pub mod Cycling
pub mod FlowMgr
pub mod Prelude
pub mod Prerequisite
pub mod TaskActionTimer
pub mod TaskEvents
pub mod TaskOutputs
pub mod TaskPool
pub mod TaskQueues
pub mod TaskState
pub mod XtriggerMgr
