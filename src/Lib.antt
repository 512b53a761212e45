-- ===== src/Lib.antt =====
-- A verification library for the Agent Runtime of this repository: the state of a Turn and of a
-- Thread, and the theorems that make it safe to run tools, show events and restart.
--
-- How the parts interact. A client submits a Turn to the Host (agent/host/turn_tasks.py), which runs one
-- background task at most for a Thread; the Runtime leases the workspace
-- (agent/runtime/workspace_lease.py). The agent loop (agent/runtime/loop.py) asks the model, appends its
-- message to the conversation (agent/runtime/conversation.py) and hands the tool calls to the
-- coordinator (agent/runtime/tool_coordinator.py), which asks the budget and the deadline
-- (agent/runtime/run_controller.py), the policy and the user, runs the tool and appends one result for
-- each call. Every stage is published to the event buffer (agent/runtime/events.py). Long
-- histories are cut only between the units of agent/runtime/history/units.py.
--
-- The files.
-- Base: library names, Boolean tests on native numbers and texts, lists as sets, and Base/Dict, the
--   association list for a dictionary; Base/Texts is what the sources use of Python's str.
-- Messages: agent/core/messages.py (Message.__post_init__ is make_message). JSON data is a tree; a
--   float is kept by its text.
-- History/Units: parse_atomic_history and its loops, on fuel: the length of the transcript is enough,
--   since each unit takes one message at least (Partition).
-- History/Selection: RecentRawTailSelector.select; a set of unit indexes is a mark at each unit.
-- Conversation: each method of the class; append_interrupted_tool_results is split into the loop that
--   finds the calls and the one that adds the results. Conversation/Public: json_safe and
--   public_message of agent/runtime/events.py.
-- Control: RunController, with the clock as an argument and times as naturals. Control/Waiting is
--   RunController.wait as the sequence of its wake-ups.
-- Events: EventBuffer and EventSubscription; Events/Emitter: TurnEventEmitter. New ids, times and
--   whether the storage raises are arguments; the newest stored mark stands first.
-- Lease: WorkspaceLeaseManager, a resolved path being the list of its components.
-- Tasks: TurnTaskManager; what the Thread catalog answers is the argument View.
-- Coordinator: ToolCoordinator. World is what one call meets (the approval, the tool, the clock, a
--   cancellation) and whether the emissions of _execute_one raise; Parts are the policy, the evidence,
--   the bounding of results, and whether the other emissions raise, by their number.
-- Loop: AgentLoop.run, on fuel for one iteration more than the limit; Surroundings are the context
--   manager, the model and the tools. A wait that delivers a value is taken to deliver it before a
--   cancellation; a wait that a cancellation ends delivers none.
-- Thread: one Thread of ThreadRuntime. Thread/Submission and Thread/Turns: run_turn, as its steps
--   between two awaits, with _execute_active_turn and _finish_turn; Thread/Commands: the methods that
--   run no Turn; Thread/Restart: _restore_stored_threads. The states that were saved are kept with the
--   record; a settings override is a text that determines it. Thread/Steps is what can happen to a
--   Thread.
-- Budget: TokenEstimator and ContextBudgetPolicy; json.dumps and the product with the decimal soft
--   threshold are arguments.
-- Files: the part of WorkspaceFilesystem (agent/tools/filesystem.py) that patches use, on a disk from
--   resolved paths to files; Paths and Faults are what the operating system answers: which calls
--   fail and what they leave, and the other names of a file at the moment. A text has no lone
--   surrogate.
-- Patch: agent/tools/apply_patch.py. Patch/Parser is parse_patch, on fuel for a round more than it has
--   lines; Patch/Hunks is _apply_hunks, its signed line offset kept as two numbers; Patch/Commit is
--   apply_patch, with what fails at each step of the commit and of the rollback.
-- Policy: agent/runtime/policy.py. Policy/Options and Policy/Prefixes hold the option loops of the
--   wrappers, each as what it says of one token; Policy/Wrappers is _classify_tokens, its depth as fuel for five rounds, as in
--   the source, behind which the class is UNKNOWN; Policy/Shell is classify_exec_command,
--   Policy/Deciding is CommandAwarePolicy.decide. A Lexer is strip, shlex.split and lower. Policy/Gate
--   puts the policy into the coordinator.
-- Model: agent/runtime/message_assembler.py; Model/Invoker and Model/Streaming:
--   agent/runtime/model_invoker.py, with what the provider does in each attempt as a Provider. The
--   five attempts of its loops are fuel. History/Pruning: agent/runtime/history/pruning.py.
-- TaskState: the plan and the validation keys of TaskState (agent/runtime/task_state.py).
-- Tests: concrete runs.
-- The files below a component hold its theorems, but for Coordinator/ToolCalls (the data) and
-- Coordinator/ExecuteOne (_execute_one), which the coordinator passes on, and the parts of Thread,
-- Patch, Policy, Model and History that are named above.
--
-- Not modelled: the tools but for patches, the operating system, the providers, the encoding of what is
-- stored, HTTP, and the context manager with its compaction: they are arguments where the parts above call them. The publishing of the coordinator's events is
-- the list of what it emits, since their order in the buffer is the subject of Events; whether the
-- storage of an emission raises is an argument of Coordinator and Loop. In Thread, the storage of
-- states and events never raises. Concurrency is the sequence of the steps that the event loop runs;
-- the locks of the lease manager make each call one step.
pub mod Base
pub mod Messages
pub mod History
pub mod Conversation
pub mod Control
pub mod Events
pub mod Files
pub mod Patch
pub mod TaskState
pub mod Policy
pub mod Model
pub mod Lease
pub mod Tasks
pub mod Coordinator
pub mod Loop
pub mod Budget
pub mod Thread
pub mod Tests
