-- ===== src/Thread/Restart.antt =====
-- `_restore_stored_threads` of agent/runtime/thread_runtime.py: a Thread from its saved state, and the
-- recovery of work that died with the process.
use my_coding_agent.Base.{
  ◌+◌, String, Bool, true, false, not, ◌&&◌, ◌||◌, Option, none, some, List, [], ◌∷◌, ◌++◌, any,
  contains, leb, is_some, str_eq, if◌then◌else◌,
}
use my_coding_agent.Base.Dict
use my_coding_agent.Base.Dict.{Dict}
use my_coding_agent.Messages.{BoundValues}
use my_coding_agent.Conversation.{append_interrupted_tool_results}
use my_coding_agent.Control.{Usage}
use my_coding_agent.Events.{turn_terminal_event_types}
use my_coding_agent.Lease.{FilePath}
use my_coding_agent.Thread.{
  ThreadStatus, idle, running, waiting_approval, closed, TurnStatus, TurnSummary, StoredActiveTurn,
  StoredIdempotency, IdempotentSubmission, ThreadEvent, ThreadState, ThreadRecord, persist_record,
  emit, turn_event,
}
use my_coding_agent.Thread.Submission.{is_closed}
use my_coding_agent.Thread.Turns.{settle_submission}

abbrev pub restored_submissions : Dict StoredIdempotency → Dict IdempotentSubmission
restored_submissions [] = []
restored_submissions ((k, s) ∷ d) =
    (k, record { stored = s; pending = false }) ∷ restored_submissions d

-- The record that is built from the state; `saved` keeps what storage holds.
abbrev pub record_of : FilePath → List ThreadState → ThreadState → ThreadRecord
record_of workspace saved s = record {
  workspace = workspace;
  conversation = s.messages;
  settings_version = s.settings_version;
  status = s.status;
  active_turn = none;
  completed_turns = s.completed_turns;
  updated_at = s.updated_at;
  latest_turn = s.latest_turn;
  durable_events = s.events;
  turns = s.turns;
  idempotent_submissions = restored_submissions s.idempotency;
  preflight_turn_id = none;
  closing = false;
  lease = none;
  saved = saved;
}

abbrev status_eq : TurnStatus → TurnStatus → Bool
status_eq TurnStatus.queued TurnStatus.queued = true
status_eq TurnStatus.turn_running TurnStatus.turn_running = true
status_eq TurnStatus.completed TurnStatus.completed = true
status_eq TurnStatus.failed TurnStatus.failed = true
status_eq TurnStatus.cancelled TurnStatus.cancelled = true
status_eq TurnStatus.limit_reached TurnStatus.limit_reached = true
status_eq _ _ = false

abbrev is_under_way : TurnStatus → Bool
is_under_way TurnStatus.queued = true
is_under_way TurnStatus.turn_running = true
is_under_way _ = false

-- The same Turn with the same outcome
abbrev same_outcome : TurnSummary → TurnSummary → Bool
same_outcome a b = str_eq a.turn_id b.turn_id && status_eq a.status b.status

abbrev is_turn : Option String → String → Bool
is_turn none id = false
is_turn (some t) id = str_eq t id

-- A terminal event of the Turn whose payload has its outcome
abbrev tells_outcome : TurnSummary → ThreadEvent → Bool
tells_outcome summary e =
    is_turn e.turn_id summary.turn_id
    && contains e.kind turn_terminal_event_types
    && (elim e.summary [ none ↦ false | some t ↦ same_outcome t summary ])

abbrev submission_agrees : Option String → TurnSummary → Dict StoredIdempotency → Bool
submission_agrees none summary d = true
submission_agrees (some key) summary d = elim (Dict.lookup key d) [
  | none ↦ false
  | some s ↦ elim s.summary [ none ↦ false | some t ↦ same_outcome t summary ]
]

-- The test for an active Turn with a summary
abbrev pub coherent_with : ThreadState → StoredActiveTurn → TurnSummary → Bool
coherent_with s active summary =
    str_eq summary.turn_id active.turn_id
    && not (is_under_way summary.status)
    && leb 1 s.completed_turns
    && any (λ t. same_outcome t summary) s.turns
    && any (tells_outcome summary) s.events
    && submission_agrees active.idempotency_key summary s.idempotency

-- `_is_coherently_terminal`
unfoldable pub is_coherently_terminal : ThreadState → Bool
is_coherently_terminal s = elim s.active_turn [
  | none ↦ false
  | some active ↦ elim s.latest_turn [
    | none ↦ false
    | some summary ↦ coherent_with s active summary
  ]
]

abbrev no_usage : Usage
no_usage = record { input_tokens = none; output_tokens = none; total_tokens = none }

-- The summary of a Turn that a restart interrupted; `id` is the new id where none was stored.
abbrev pub interrupted_summary : String → String → Option StoredActiveTurn → TurnSummary
interrupted_summary id now active = record {
  turn_id = elim active [ none ↦ id | some a ↦ a.turn_id ];
  status = TurnStatus.failed;
  stop_reason = "runtime_restarted";
  final_text = elim active [ none ↦ "" | some a ↦ a.last_assistant_text ];
  iterations = elim active [ none ↦ 0 | some a ↦ a.iterations ];
  tool_calls = elim active [ none ↦ 0 | some a ↦ a.tool_calls ];
  usage = elim active [ none ↦ no_usage | some a ↦ a.usage ];
  file_diffs = [];
  diff_complete = false;
  started_at = elim active [ none ↦ "" | some a ↦ a.started_at ];
  ended_at = now;
  error = some ("RUNTIME_RESTARTED", "Turn was interrupted when the Runtime restarted");
}

abbrev key_of : Option StoredActiveTurn → Option String
key_of none = none
key_of (some a) = a.idempotency_key

-- `_recover_active_record`
unfoldable pub recover_active_record :
    BoundValues → String → String → Option StoredActiveTurn → ThreadRecord → ThreadRecord
recover_active_record bound id now active r =
    let summary = interrupted_summary id now active in
    persist_record (
      emit (turn_event summary.turn_id "turn_failed" (some summary) summary.stop_reason) (record r {
        status = idle;
        active_turn = none;
        conversation = (append_interrupted_tool_results bound r.conversation).0;
        completed_turns = r.completed_turns + 1;
        latest_turn = some summary;
        turns = r.turns ++ (summary ∷ []);
        updated_at = now;
        idempotent_submissions =
            settle_submission true (key_of active) summary r.idempotent_submissions;
      }))

abbrev pub is_working : ThreadStatus → Bool
is_working running = true
is_working waiting_approval = true
is_working _ = false

-- What is done for one stored Thread
unfoldable pub restore :
    BoundValues → String → String → FilePath → List ThreadState → ThreadState → ThreadRecord
restore bound id now workspace saved s =
    let r = record_of workspace saved s in
    if is_coherently_terminal s
    then persist_record (record r { status = if is_closed s.status then closed else idle })
    else if is_some s.active_turn || is_working s.status
    then recover_active_record bound id now s.active_turn r
    else r
