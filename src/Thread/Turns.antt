-- ===== src/Thread/Turns.antt =====
-- `run_turn` of agent/runtime/thread_runtime.py behind the submission, as its steps between two awaits:
-- the end of the preflight, and the end of the Turn with what `_execute_active_turn` makes of the loop's
-- end. A storage that raises is not modelled.
use my_coding_agent.Base.{
  ℕ, ◌+◌, String, Bool, true, false, ◌||◌, Option, none, some, List, [], ◌∷◌, ◌++◌, str_eq,
  if◌then◌else◌,
}
use my_coding_agent.Base.Dict
use my_coding_agent.Base.Dict.{Dict}
use my_coding_agent.Messages.{Json}
use my_coding_agent.Conversation.{append_user}
use my_coding_agent.Control
use my_coding_agent.Control.{Controller, Limits}
use my_coding_agent.Lease.{Acquired, Busy}
use my_coding_agent.Coordinator
use my_coding_agent.Loop
use my_coding_agent.Thread.{
  ThreadStatus, idle, running, closed, TurnStatus, TurnSummary, ActiveTurn, IdempotentSubmission,
  ThreadRecord, persist_record, emit, turn_event,
}
use my_coding_agent.Thread.Submission.{is_closed}

-- What the preflight meets: the check of the workspace, the lease, and what follows them up to the
-- provider. An error is its public code.
pub record Preflight : Type 0 where
  pub check : Option String
  pub acquired : Acquired
  pub preparation : Option String
  pub limits : Limits
  pub clock : ℕ
  pub now : String

abbrev pub busy_code : Busy → String
busy_code b = "WORKSPACE_BUSY"

-- The `except` branch of the preflight and its `finally`: the Turn is rejected and the lease released.
abbrev pub reject : String → String → ThreadRecord → ThreadRecord
reject turn_id code r =
    let shown = emit (turn_event turn_id "turn_rejected" none code) r in
    record shown { lease = none; preflight_turn_id = none }

abbrev pub new_submission : String → Option String → IdempotentSubmission
new_submission user_text override = record {
  stored = record {
    user_text = user_text;
    settings_override = override;
    summary = none;
    interrupted = false;
  };
  pending = true;
}

abbrev pub put_submission :
    Option String → IdempotentSubmission → Dict IdempotentSubmission → Dict IdempotentSubmission
put_submission none s d = d
put_submission (some key) s d = Dict.insert key s d

-- From the end of the preflight to `_execute_active_turn`.
abbrev pub begin_turn :
    String → Option String → Option String → String → Preflight → ThreadRecord → ThreadRecord
begin_turn user_text override key turn_id p r =
    let active : ActiveTurn = record {
      turn_id = turn_id;
      started_at = p.now;
      idempotency_key = key;
      controller = Control.bind (Control.new p.limits p.clock);
    } in
    emit (turn_event turn_id "turn_started" none user_text) (record r {
      preflight_turn_id = none;
      status = running;
      conversation = append_user user_text r.conversation;
      updated_at = p.now;
      active_turn = some active;
      idempotent_submissions =
          put_submission key (new_submission user_text override) r.idempotent_submissions;
    })

abbrev pub after_lease :
    String → Option String → Option String → String → Preflight → ThreadRecord → ThreadRecord
after_lease user_text override key turn_id p r =
    if is_closed r.status || r.closing
    then reject turn_id "THREAD_CLOSED" r
    else (elim p.preparation [
      | some code ↦ reject turn_id code r
      | none ↦ begin_turn user_text override key turn_id p r
    ])

abbrev pub after_check :
    String → Option String → Option String → String → Preflight → ThreadRecord → ThreadRecord
after_check user_text override key turn_id p r = elim p.acquired [
  | Acquired.busy b ↦ reject turn_id (busy_code b) r
  | Acquired.leased l ↦ after_lease user_text override key turn_id p (record r { lease = some l })
]

-- The rest of the preflight, when the check of the workspace returns.
unfoldable pub preflight :
    String → Option String → Option String → String → Preflight → ThreadRecord → ThreadRecord
preflight user_text override key turn_id p r = elim p.check [
  | some code ↦ reject turn_id code r
  | none ↦ after_check user_text override key turn_id p r
]

-- The parts with a storage that never raises
abbrev pub stored : Coordinator.Parts → Coordinator.Parts
stored parts = record parts { stores = λ n. true }

-- How `AgentLoop.run` ended, with the exceptions that the loop does not tell apart.
pub data Ending : Type 0 where
  returned : String → Ending
  limit : String → Ending
  was_cancelled approval_timed_out context_limit compaction_failed model_error runtime_error :
      Ending

-- `crashed` is the class of an exception that is none of the loop's own.
abbrev pub ending_of : Ending → Loop.LoopEnd → Ending
ending_of crashed (Loop.LoopEnd.final text) = returned text
ending_of crashed (Loop.LoopEnd.raises (Coordinator.stop (Control.Stop.limit_reached reason))) =
    limit reason
ending_of crashed (Loop.LoopEnd.raises (Coordinator.stop Control.Stop.cancelled)) = was_cancelled
ending_of crashed (Loop.LoopEnd.raises (Coordinator.stop (Control.Stop.runtime_error _))) =
    runtime_error
ending_of crashed (Loop.LoopEnd.raises Coordinator.approval_timeout) = approval_timed_out
ending_of crashed (Loop.LoopEnd.raises _) = crashed
ending_of crashed Loop.LoopEnd.unpublished_event = crashed
ending_of crashed Loop.LoopEnd.unfinished = crashed

-- The arguments of `_finish_turn`.
pub record Finish : Type 0 where
  pub status : TurnStatus
  pub stop_reason : String
  pub final_text : String
  pub event_type : String
  pub error : Option (String × String)

abbrev limit_error : String → Option (String × String)
limit_error reason =
    if str_eq reason "output_length"
    then some ("OUTPUT_TRUNCATED", "model output was truncated before the response completed")
    else if str_eq reason "empty_response"
    then some ("EMPTY_RESPONSE", "model finished without any text or tool calls")
    else none

abbrev failure : String → String → String → String → Finish
failure reason text code message = record {
  status = TurnStatus.failed;
  stop_reason = reason;
  final_text = text;
  event_type = "turn_failed";
  error = some (code, message);
}

-- `_execute_active_turn`, once the loop has ended; the text is the controller's last one.
unfoldable pub finish_of : Ending → String → Finish
finish_of (returned text) last = record {
  status = TurnStatus.completed;
  stop_reason = "completed";
  final_text = text;
  event_type = "turn_completed";
  error = none;
}
finish_of (limit reason) last = record {
  status = TurnStatus.limit_reached;
  stop_reason = reason;
  final_text = last;
  event_type = "turn_limit_reached";
  error = limit_error reason;
}
finish_of was_cancelled last = record {
  status = TurnStatus.cancelled;
  stop_reason = "cancelled";
  final_text = last;
  event_type = "turn_cancelled";
  error = none;
}
finish_of approval_timed_out last =
    failure "approval_timeout" last "APPROVAL_TIMEOUT" "tool approval timed out"
finish_of context_limit last =
    failure "context_limit" last "CONTEXT_LIMIT" "conversation exceeds the model context budget"
finish_of compaction_failed last =
    failure "context_compaction_failed" last "CONTEXT_COMPACTION_FAILED"
      "conversation history compaction failed"
finish_of model_error last = failure "model_error" last "LLM_ERROR" "model request failed"
finish_of runtime_error last = failure "runtime_error" last "RUNTIME_ERROR" "turn failed"

-- What the change tracker and the clock say at the end.
pub record Closing : Type 0 where
  pub file_diffs : List Json
  pub diff_complete : Bool
  pub now : String

abbrev pub summary_of : ActiveTurn → Finish → Closing → TurnSummary
summary_of a f c = record {
  turn_id = a.turn_id;
  status = f.status;
  stop_reason = f.stop_reason;
  final_text = f.final_text;
  iterations = a.controller.iterations;
  tool_calls = a.controller.tool_calls;
  usage = a.controller.usage;
  file_diffs = c.file_diffs;
  diff_complete = c.diff_complete;
  started_at = a.started_at;
  ended_at = c.now;
  error = f.error;
}

-- `submission.summary = summary`, for the submission with the key, if there is one.
abbrev pub settle_submission :
    Bool → Option String → TurnSummary → Dict IdempotentSubmission → Dict IdempotentSubmission
settle_submission interrupted none summary d = d
settle_submission interrupted (some key) summary d = elim (Dict.lookup key d) [
  | none ↦ d
  | some s ↦
      Dict.insert key
        (record {
          stored = record s.stored { summary = some summary; interrupted = interrupted };
          pending = false;
        })
        d
]

abbrev pub resting : Bool → ThreadStatus
resting closing = if closing then closed else idle

-- `_finish_turn`; the terminal event commits all of it in one state.
unfoldable pub finish_turn : ActiveTurn → Finish → Closing → ThreadRecord → ThreadRecord
finish_turn a f c r =
    let summary = summary_of a f c in
    emit (turn_event a.turn_id f.event_type (some summary) f.stop_reason) (record r {
      completed_turns = r.completed_turns + 1;
      latest_turn = some summary;
      turns = r.turns ++ (summary ∷ []);
      updated_at = c.now;
      idempotent_submissions =
          settle_submission false a.idempotency_key summary r.idempotent_submissions;
      status = resting r.closing;
      active_turn = none;
    })

-- The end of `run_turn`, after `_finish_turn`: the summary is saved again, and the lease released.
abbrev pub leave_turn : String → ThreadRecord → ThreadRecord
leave_turn now r =
    let left = persist_record (record (persist_record r) {
      status = resting r.closing;
      active_turn = none;
      updated_at = now;
    }) in
    record left { lease = none }

-- The Turn from the start of the loop to the end of `run_turn`: the loop runs on the conversation of
-- the Thread and the controller of the Turn.
unfoldable pub run_active :
    ℕ
    → Coordinator.Parts
    → Loop.Surroundings
    → Ending
    → Closing
    → ActiveTurn
    → ThreadRecord
    → ThreadRecord
unfolding finish_turn finish_of
run_active fuel parts around crashed c a r =
    let turn : Coordinator.Turn = record {
      conversation = r.conversation;
      controller = a.controller;
      emissions = [];
      pending = none;
      waiting = false;
      has_task_state = true;
      evidence = [];
      sessions_cancelled = false;
    } in
    let (t, end) = Loop.run fuel (stored parts) around 0 turn in
    leave_turn c.now (
      finish_turn (record a { controller = t.controller })
        (finish_of (ending_of crashed end) t.controller.last_assistant_text) c
        (record r { conversation = t.conversation }))
