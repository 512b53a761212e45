-- ===== src/Thread.antt =====
-- agent/runtime/thread_runtime.py, with agent/runtime/types.py and the stored data of
-- agent/runtime/thread_store.py: one Thread, its record in memory and the states of it that were saved.
pub mod Submission
pub mod Turns
pub mod Commands
pub mod Restart
pub mod Invariant
pub mod Steps
pub mod Replay
use my_coding_agent.Base.{ℕ, String, Bool, true, false, Option, none, some, List, [], ◌∷◌, ◌++◌}
use my_coding_agent.Base.Dict.{Dict}
use my_coding_agent.Messages.{Json, Message}
use my_coding_agent.Conversation.{Conversation}
use my_coding_agent.Control.{Controller, Usage}
use my_coding_agent.Lease.{FilePath, WorkspaceLease}

pub data ThreadStatus : Type 0 where
  idle running waiting_approval closed : ThreadStatus

pub data TurnStatus : Type 0 where
  queued turn_running completed failed cancelled limit_reached : TurnStatus

-- The paths that the Turn modified are those of its diffs; the schema version and the Thread's id are
-- the same in each.
pub record TurnSummary : Type 0 where
  pub turn_id : String
  pub status : TurnStatus
  pub stop_reason : String
  pub final_text : String
  pub iterations : ℕ
  pub tool_calls : ℕ
  pub usage : Usage
  pub file_diffs : List Json
  pub diff_complete : Bool
  pub started_at : String
  pub ended_at : String
  pub error : Option (String × String)

-- `_ActiveTurn`; its tools, changes and emitter are those of the Turn, which Coordinator and Events model.
pub record ActiveTurn : Type 0 where
  pub turn_id : String
  pub started_at : String
  pub idempotency_key : Option String
  pub controller : Controller

pub record StoredActiveTurn : Type 0 where
  pub turn_id : String
  pub started_at : String
  pub idempotency_key : Option String
  pub iterations : ℕ
  pub tool_calls : ℕ
  pub usage : Usage
  pub last_assistant_text : String

-- A settings override is kept by a text that determines it.
pub record StoredIdempotency : Type 0 where
  pub user_text : String
  pub settings_override : Option String
  pub summary : Option TurnSummary
  pub interrupted : Bool

-- `_IdempotentSubmission`; `pending` says that there is a future.
pub record IdempotentSubmission : Type 0 where
  pub stored : StoredIdempotency
  pub pending : Bool

-- A durable event, with the summary or the text that its payload carries; its envelope is that of Events.
pub record ThreadEvent : Type 0 where
  pub turn_id : Option String
  pub kind : String
  pub summary : Option TurnSummary
  pub detail : String

-- The messages, the sequence and the settings version of a Thread, and the state of its work.
pub record ThreadState : Type 0 where
  pub status : ThreadStatus
  pub settings_version : ℕ
  pub messages : Conversation
  pub completed_turns : ℕ
  pub updated_at : String
  pub latest_turn : Option TurnSummary
  pub turns : List TurnSummary
  pub events : List ThreadEvent
  pub active_turn : Option StoredActiveTurn
  pub idempotency : Dict StoredIdempotency

-- `_ThreadRecord`, with the workspace lease that `run_turn` holds and the states that were saved,
-- newest first.
pub record ThreadRecord : Type 0 where
  pub workspace : FilePath
  pub conversation : Conversation
  pub settings_version : ℕ
  pub status : ThreadStatus
  pub active_turn : Option ActiveTurn
  pub completed_turns : ℕ
  pub updated_at : String
  pub latest_turn : Option TurnSummary
  pub durable_events : List ThreadEvent
  pub turns : List TurnSummary
  pub idempotent_submissions : Dict IdempotentSubmission
  pub preflight_turn_id : Option String
  pub closing : Bool
  pub lease : Option WorkspaceLease
  pub saved : List ThreadState

abbrev pub stored_active : Option ActiveTurn → Option StoredActiveTurn
stored_active none = none
stored_active (some a) = some (record {
  turn_id = a.turn_id;
  started_at = a.started_at;
  idempotency_key = a.idempotency_key;
  iterations = a.controller.iterations;
  tool_calls = a.controller.tool_calls;
  usage = a.controller.usage;
  last_assistant_text = a.controller.last_assistant_text;
})

abbrev pub stored_submissions : Dict IdempotentSubmission → Dict StoredIdempotency
stored_submissions [] = []
stored_submissions ((k, s) ∷ d) = (k, s.stored) ∷ stored_submissions d

abbrev pub state_of : ThreadRecord → ThreadState
state_of r = record {
  status = r.status;
  settings_version = r.settings_version;
  messages = r.conversation;
  completed_turns = r.completed_turns;
  updated_at = r.updated_at;
  latest_turn = r.latest_turn;
  turns = r.turns;
  events = r.durable_events;
  active_turn = stored_active r.active_turn;
  idempotency = stored_submissions r.idempotent_submissions;
}

-- `_persist_record`
abbrev pub persist_record : ThreadRecord → ThreadRecord
persist_record r = record r { saved = state_of r ∷ r.saved }

-- An emission of a durable event, whose sink is `_on_durable_event`.
abbrev pub emit : ThreadEvent → ThreadRecord → ThreadRecord
emit e r = persist_record (record r { durable_events = r.durable_events ++ (e ∷ []) })

abbrev pub turn_event : String → String → Option TurnSummary → String → ThreadEvent
turn_event turn_id kind summary detail = record {
  turn_id = some turn_id;
  kind = kind;
  summary = summary;
  detail = detail;
}

-- A Thread that was just created
unfoldable pub create_thread : FilePath → String → String → ThreadRecord
create_thread workspace system_prompt now = persist_record (record {
  workspace = workspace;
  conversation = my_coding_agent.Conversation.new system_prompt;
  settings_version = 0;
  status = idle;
  active_turn = none;
  completed_turns = 0;
  updated_at = now;
  latest_turn = none;
  durable_events = [];
  turns = [];
  idempotent_submissions = [];
  preflight_turn_id = none;
  closing = false;
  lease = none;
  saved = [];
})
