-- ===== src/Lib.antt =====
-- A verification library for aize, a runtime that dispatches two agent roles (GoalManager and
-- WorkerAgent) on Sessions, each with a goal and an append-only SessionLog. A readiness entry says
-- that a role of a Session has unread work; a dispatch takes an entry with a lease, runs the agent
-- outside the lock, and commits or discards what it returns. Every operation on the state runs under
-- one lock, so that an operation is a function from state to state and an interleaving of workers is
-- a sequence of operations.
--
-- The parts, by file:
--
-- State.antt: the records of the state (src/kernel/model.py, src/goal/model.py). A key that the code
--   reads with a default is a text, empty when it is absent; ids, roles and time stamps are texts.
-- Projection.antt: src/goal/projections.py, whole. `derive_role_dispatch_readiness` turns the unread
--   entries of a SessionLog into a readiness, by `wake_reason` for each role.
-- Policy.antt: src/goal/policy.py, whole. `select_role_dispatch_readiness` picks the entry to dispatch.
--   An instant is a number of microseconds; `datetime.fromisoformat` is the parameter `from_iso`.
-- Endpoint.antt: the endpoints of src/kernel/defs.py and src/goal/defs.py, such as `user:` and
--   `agent:` texts.
-- Dispatch.antt: the Store of the goal, run, session and readiness items, and on it
--   `_next_dispatch_readiness_entry` of src/goal/readiness.py behind its refresh, and
--   `_acquire_dispatch_lease_locked` of src/goal/dispatch.py behind its reconciliation. The clock, the
--   new id and the appointed account come in as a Grant. Left out: the agent thread, the Messages that
--   go into the prompt, schedule timing, and keys that are only shown.
-- Refresh.antt: `_refresh_dispatch_readiness` of src/goal/readiness.py: waiting that has ended is
--   cleared, and each role of a Session with unread work gets a ready entry.
-- Liveness.antt: the loop of `_reconcile_dispatch_liveness` of src/goal/readiness.py that wakes a
--   GoalManager whose Session has an incomplete goal and no work.
-- Recovery.antt: `record_runtime_recovery_signals` of src/goal/log.py, by which a restarted runtime
--   takes back the work that was running and wakes the Sessions.
-- Commit.antt: the fence, the discarded result, `_commit_worker_run_locked` and
--   `_recover_missing_lease_run_locked` of src/goal/dispatch.py. Left out: the agent thread and the
--   Messages of the run's steps, and the texts of reasons.
-- Manager.antt: `_commit_goal_manager_run_locked` of src/goal/dispatch.py, with what it does for each
--   declared outcome, over the parts Goals, Messages and Units. Manager/Failure.antt:
--   `_commit_dispatch_error_locked`, the commit of a turn that raised.
-- Declare.antt: the outcome and the waiting that a GoalManager declares while its run is going,
--   `set_goal_completion_state_from_runtime` and what it calls of src/goal/sessions.py.
-- Goals.antt: the current goal of a Session and `_set_goal_completion_state` of src/goal/sessions.py,
--   with the goals of the parent Sessions that it opens again.
-- Sessions.antt: the marks of a Session for another turn and its waiting, in src/goal/sessions.py.
-- Messages.antt: who may write to whom, and as which endpoint, of src/goal/messages.py.
--   Messages/Write.antt: `append_user_input` and `append_runtime_message`, which write it.
-- Units.antt: the schedule of a Unit at the completion of a goal, in src/goal/sessions.py.
-- Readiness.antt: the readiness entries of src/goal/readiness.py: `_deduplicate_ready_entries`,
--   `_resolve_dispatch_readiness`, `_dispatch_lease_expired`, and the two loops of
--   `_reconcile_dispatch_liveness` that interrupt expired leases and release work that no run owns.
-- SessionLog.antt: src/kernel/session_log.py for logs that are in memory, with the signals and cursors
--   of src/goal/log.py. What the disk holds is the parameter `persisted`.
-- Storage.antt: the segment files of src/kernel/storage.py as bytes: `_encode_frame` and
--   `_scan_segment`. JSON and CRC-32 are parameters; that JSON gives an entry back is a hypothesis on
--   the entries that are written.
-- LogIndex.antt: `_validate_sequence` and `_build_session_log_index` of src/kernel/storage.py.
-- Schedule.antt: `next_interval_boundary` of src/goal/schedules.py.
-- Lots.antt: `_submit_available_lots` and `_collect_completed_lots` of src/cli/workers.py.
-- Graph.antt: `link_sessions` of src/goal/sessions.py with its cycle check.
-- Prelude.antt: shared names; texts, integers, orders, dictionaries in insertion order, lists.
--
-- A part has child modules for its proofs, and most have a module Examples with tests and witnesses.
--
-- Loops: `_has_path` runs on fuel of the number of edges and 2, since each turn takes one entry off a
-- stack that an edge is pushed on once at most; `_scan_segment` runs on fuel of the file's length and
-- 1, since each frame has 20 bytes at least; the loop of `next_interval_boundary` runs on fuel of the
-- microseconds to the completion and 2, since each turn adds one at least. All three are proved to
-- end. All else is structural.
--
-- Not modelled: the Session state that src/goal/log.py rebuilds from logs, the creation,
-- configuration and launch of Units and Sessions, the merged list of all Messages, attached files,
-- the agents' threads and the steps of a run, appends and range reads of the segment files with
-- their locks, the loading and saving of JSON items (src/goal/store.py), read-only queries
-- (src/goal/query.py), agent subprocesses and prompts (src/goal/agents.py, src/goal/prompts.py), the
-- console, rendering and command line (src/cli), password checks, the daemon's clock and sleeps, and
-- the archived predecessor (archive/). They start other programs, load or show the state, or set up
-- what the dispatch runs on.
pub mod Prelude
pub mod State
pub mod Graph
pub mod Policy
pub mod Projection
pub mod Storage
pub mod SessionLog
pub mod Dispatch
pub mod Commit
pub mod Readiness
pub mod Schedule
pub mod Endpoint
pub mod Goals
pub mod Declare
pub mod Sessions
pub mod Messages
pub mod Units
pub mod Manager
pub mod Refresh
pub mod Liveness
pub mod Recovery
pub mod Lots
pub mod LogIndex
