-- ===== src/Tests/Turn.antt =====
-- A Turn with two tool calls: the loop, the tools, the approval and the controller.
use my_coding_agent.Base.{
  ℕ, zero, suc, ◌≡◌, refl, String, true, false, not, Option, none, some, List, [], ◌∷◌, ◌==◌, arith,
  if◌then◌else◌,
}
use my_coding_agent.Messages.{
  Json, Fields, Role, ToolCall, Message, Block, text_block, call_block, BoundValues,
}
use my_coding_agent.Conversation.{Conversation, new, completed_calls, requested_calls}
use my_coding_agent.Control
use my_coding_agent.Control.{
  Limits, Controller, Usage, Outcome, returned, raised, cancelled, limit_reached, pause_deadline,
  resume_deadline, record_tool_result, checkpoint, begin_iteration, begin_tool,
}
use my_coding_agent.Control.Budgets.{IsWithin, StaysCancelled, Call, calls, calls-IsWithin}
use my_coding_agent.Control.Deadline.{Excludes, pause_resume-Excludes}
use my_coding_agent.Control.Failures.{after_results, record_tool_result_lem}
use my_coding_agent.Events.Emitter.{LlmResponse}
use my_coding_agent.Coordinator.{
  ToolResult, PolicyResult, Decision, Resolution, Execution, World, Turn, Parts, PendingApproval,
  execute, request_approval, resolve_approval, pending_approval, answer,
}
use my_coding_agent.Coordinator.Answers.{AnswersAt, execute-AnswersAt}
use my_coding_agent.Coordinator.Approval.{Leaves, request_approval-Leaves}
use my_coding_agent.Loop.{Surroundings, Awaited, LoopEnd, run}
use my_coding_agent.Loop.Ending.{is_end, run_ends}
use my_coding_agent.Loop.Final.{IsSound, run-IsSound}
use my_coding_agent.Loop.Answered.{IsAnsweredAt, run-IsAnsweredAt}

abbrev pub as_given : BoundValues
as_given content metadata code = (content, metadata)

abbrev pub a_call : String → ToolCall
a_call id = record {
  id = id;
  name = "read_file";
  arguments = some Fields.end;
  arguments_error = none;
  raw_arguments = none;
}

abbrev pub ask_policy : PolicyResult
ask_policy = record {
  decision = Decision.require_approval;
  reason_code = "PROCESS";
  message = "runs a process";
  profile = "workspace";
}

abbrev pub a_result : ToolResult
a_result = record { content = "done"; metadata = Fields.end; error_code = none }

abbrev pub parts : Parts
parts = record {
  bound = as_given;
  decide = λ c. ask_policy;
  attach_evidence = λ c r. r;
  evidence_of = λ c r. [];
  fingerprint = λ c code. code;
  stores = λ n. true;
}

-- A world at the moment `n`, in which the approval is resolved as said.
abbrev pub at : ℕ → Resolution → World
at n r = record {
  begin_now = n;
  pause_now = n;
  paused_now = n;
  resume_now = n;
  end_now = n;
  approval_id = "approval";
  resolution = r;
  conflict = none;
  execution = Execution.finished a_result;
  changes = [];
  cancels = false;
  shows_request = true;
  shows_resolution = true;
  shows_start = true;
}

abbrev pub limits : Limits
limits = record { max_iterations = 2; max_tool_calls = 3; max_execution = 60 }

abbrev pub controller : Controller
controller = record {
  limits = limits;
  started_at = 0;
  paused_at = none;
  paused_time = 0;
  deadline_changed = false;
  has_task = true;
  cancel_requested = false;
  last_failure = none;
  consecutive_failures = 0;
  iterations = 0;
  tool_calls = 0;
  last_assistant_text = "";
  usage = record { input_tokens = none; output_tokens = none; total_tokens = none };
}

-- The model asks for two tools and then answers.
abbrev pub system : Message
system = record { role = Role.system; content = text_block "You are an agent." ∷ [] }

abbrev pub asks : Message
asks = record {
  role = Role.assistant;
  content = call_block (a_call "a") ∷ call_block (a_call "b") ∷ [];
}

abbrev pub answers : Message
answers = record { role = Role.assistant; content = text_block "done" ∷ [] }

abbrev pub response : Message → LlmResponse
response m = record {
  message = m;
  finish_reason = some "stop";
  usage = record { input_tokens = some 7; output_tokens = none; total_tokens = none };
}

abbrev pub model_of : ℕ → List Message → Awaited LlmResponse
model_of zero ms = Awaited.arrived (response asks)
model_of (suc n) ms = Awaited.arrived (response answers)

abbrev pub around : Surroundings
around = record {
  begin_now = λ n. n;
  context = none;
  model = model_of;
  cancels = λ n. false;
  tools = λ n k. if k == 0 then at 1 Resolution.approved else at 2 Resolution.denied;
}

abbrev pub turn : Turn
turn = record {
  conversation = system ∷ [];
  controller = controller;
  emissions = [];
  pending = none;
  waiting = false;
  has_task_state = false;
  evidence = [];
  sessions_cancelled = false;
}

-- One call is approved and one denied, and the second response ends the loop.
run_final : (run 3 parts around 0 turn).1 ≡ LoopEnd.final "done"
unfolding run begin_iteration checkpoint my_coding_agent.Conversation.append_assistant execute
    begin_tool Control.record_model_response request_approval pause_deadline
    my_coding_agent.Coordinator.run_tool record_tool_result resume_deadline
run_final = refl

run_results : completed_calls (run 3 parts around 0 turn).0.conversation ≡ "a" ∷ "b" ∷ []
unfolding run completed_calls begin_iteration checkpoint
    my_coding_agent.Conversation.append_assistant execute begin_tool Control.record_model_response
    request_approval pause_deadline my_coding_agent.Coordinator.run_tool record_tool_result
    resume_deadline my_coding_agent.Conversation.append_tool_result
    my_coding_agent.History.Units.result_ids my_coding_agent.Messages.reduce_tool_result_block
run_results = refl

run-IsAnsweredAt_example :
    IsAnsweredAt parts (run 3 parts around 0 turn).1 (run 3 parts around 0 turn).0
unfolding completed_calls requested_calls my_coding_agent.History.Units.call_ids
    my_coding_agent.History.Units.result_ids
run-IsAnsweredAt_example = run-IsAnsweredAt 3 parts around 0 turn answered refl
  where
    answered : completed_calls (system ∷ []) ≡ requested_calls (system ∷ [])
    answered = refl

run-IsSound_example :
    IsSound (run 3 parts around 0 turn).0.conversation (run 3 parts around 0 turn).1
run-IsSound_example = run-IsSound 3 parts around 0 turn

run_ends_example : is_end (run 3 parts around 0 turn).1 ≡ true
run_ends_example = run_ends 2 parts around 0 turn (omega arith)

-- The first approval times out, so that the batch is aborted.
abbrev times_out : ℕ → World
times_out n = at 1 Resolution.timed_out

-- The storage fails at the sixth emission: the request of the second call.
abbrev failing : Parts
failing = record parts { stores = λ n. not (n == 6) }

execute-AnswersAt_example :
    AnswersAt failing turn
      (a_call "a" ∷ a_call "b" ∷ [])
      (execute failing (λ n. at 1 Resolution.approved) 0 (a_call "a" ∷ a_call "b" ∷ []) turn).0
      (execute failing (λ n. at 1 Resolution.approved) 0 (a_call "a" ∷ a_call "b" ∷ []) turn).1
execute-AnswersAt_example =
    execute-AnswersAt failing (λ n. at 1 Resolution.approved) 0 (a_call "a" ∷ a_call "b" ∷ []) turn
      refl

request_approval-Leaves_example :
    Leaves (request_approval (at 1 Resolution.denied) (a_call "a") ask_policy turn).0
    × (Resolution.denied ≡ (if false then Resolution.approved else Resolution.denied))
unfolding request_approval pause_deadline checkpoint resume_deadline
request_approval-Leaves_example =
    request_approval-Leaves (at 1 Resolution.denied) (a_call "a") ask_policy turn false denied_here
  where
    denied_here :
        (request_approval (at 1 Resolution.denied) (a_call "a") ask_policy turn).1 ≡ answer false
    denied_here = refl

abbrev asked : Turn
asked = record turn {
  pending = some (record {
    approval_id = "approval";
    outcome = none;
    tool_call = a_call "a";
    policy = ask_policy;
  });
}

abbrev some_calls : List Call
some_calls = Call.iteration 1 ∷ Call.tool 2 ∷ Call.cancel_turn false ∷ Call.tool 3 ∷ []

calls-IsWithin_example :
    IsWithin (calls some_calls controller)
    × ((calls some_calls controller).limits ≡ limits)
    × StaysCancelled controller (calls some_calls controller)
calls-IsWithin_example =
    calls-IsWithin some_calls controller (record { iterations = omega arith; tools = omega arith })

abbrev cancelled_controller : Controller
cancelled_controller = record controller { cancel_requested = true }

pause_resume-Excludes_example :
    ((resume_deadline 30 (pause_deadline 9 10 controller).0).1 ≡ returned)
    × Excludes 10 30 20 40 controller
        (pause_deadline 9 10 controller).0
        (resume_deadline 30 (pause_deadline 9 10 controller).0).0
unfolding pause_deadline checkpoint
pause_resume-Excludes_example =
    pause_resume-Excludes 9 10 30 20 40 controller refl refl (omega arith) (omega arith)
      (omega arith)

record_tool_result_lem_example :
    (record_tool_result (some "f") (after_results (some "f" ∷ some "f" ∷ none ∷ []) controller)).1
    ≡ raised (limit_reached "repeated_tool_failure")
record_tool_result_lem_example =
    record_tool_result_lem controller (some "f") (some "f" ∷ some "f" ∷ none ∷ []) refl refl

abbrev settled_result : Option String
settled_result = some "cancelled"
