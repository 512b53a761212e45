-- ===== src/Coordinator/ToolCalls.antt =====
-- ToolResult of agent/tools/types.py, and the data of agent/runtime/tool_coordinator.py: what a tool
-- call meets, what is emitted, and the state of a Turn that the coordinator works on.
use my_coding_agent.Base.{ℕ, String, Bool, Option, some, List, [], ◌∷◌, ◌++◌, length}
use my_coding_agent.Messages.{Fields, Message, ToolCall, ToolResultBlock, BoundValues}
use my_coding_agent.Conversation.{Conversation}
use my_coding_agent.Control.{Controller, Stop}

pub record ToolResult : Type 0 where
  pub content : String
  pub metadata : Fields
  pub error_code : Option String

abbrev pub failure : String → Fields → String → ToolResult
failure content metadata code = record {
  content = content;
  metadata = metadata;
  error_code = some code;
}

-- `to_message_block`
abbrev pub to_message_block : String → ToolResult → ToolResultBlock
to_message_block id r = record {
  tool_call_id = id;
  content = r.content;
  metadata = r.metadata;
  error_code = r.error_code;
}

-- `reduce_tool_result` of agent/tools/result_bounds.py
abbrev pub reduce_tool_result : BoundValues → ToolResult → ToolResult
reduce_tool_result bound r =
    let (content, metadata) = bound r.content r.metadata r.error_code in
    record { content = content; metadata = metadata; error_code = r.error_code }

pub data Decision : Type 0 where
  allow deny require_approval : Decision

pub record PolicyResult : Type 0 where
  pub decision : Decision
  pub reason_code : String
  pub message : String
  pub profile : String

pub data Resolution : Type 0 where
  approved denied timed_out interrupted : Resolution

-- How `controller.wait(execution)` ends; `crashed` is any other exception.
pub data Execution : Type 0 where
  finished : ToolResult → Execution
  stopped : Stop → Execution
  crashed : Execution

pub record Change : Type 0 where
  pub path : String
  pub change_type : String

-- What a call meets: the readings of the clock, the approval with its id, a conflict that the
-- change tracker reports, the execution, the changes it made, and whether the Turn was cancelled
-- while the coordinator was waiting. The last three say whether an emission of `_execute_one` is stored
-- or raises: the request of the approval, its resolution, and the start of the tool.
pub record World : Type 0 where
  pub begin_now : ℕ
  pub pause_now : ℕ
  pub paused_now : ℕ
  pub resume_now : ℕ
  pub end_now : ℕ
  pub approval_id : String
  pub resolution : Resolution
  pub conflict : Option ToolResult
  pub execution : Execution
  pub changes : List Change
  pub cancels : Bool
  pub shows_request : Bool
  pub shows_resolution : Bool
  pub shows_start : Bool

pub data Emission : Type 0 where
  requested started : ToolCall → Emission
  done : ToolCall → ToolResult → Emission
  approval_requested : String → ToolCall → PolicyResult → Emission
  approval_resolved : String → Resolution → PolicyResult → Emission
  evidence_recorded : Fields → Emission
  responded : Message → ℕ → Emission

-- `outcome` is that of the future: `none` until it is done.
pub record PendingApproval : Type 0 where
  pub approval_id : String
  pub outcome : Option Bool
  pub tool_call : ToolCall
  pub policy : PolicyResult

pub record Turn : Type 0 where
  pub conversation : Conversation
  pub controller : Controller
  pub emissions : List Emission
  pub pending : Option PendingApproval
  pub waiting : Bool
  pub has_task_state : Bool
  pub evidence : List Fields
  pub sessions_cancelled : Bool

-- The parts of the Runtime that are arguments. `stores` says of each emission of `execute`, by its number,
-- whether it is stored or raises.
pub record Parts : Type 0 where
  pub bound : BoundValues
  pub decide : ToolCall → PolicyResult
  pub attach_evidence : ToolCall → ToolResult → ToolResult
  pub evidence_of : ToolCall → ToolResult → List Fields
  pub fingerprint : ToolCall → String → String
  pub stores : ℕ → Bool

abbrev pub emit : Emission → Turn → Turn
emit e t = record t { emissions = t.emissions ++ (e ∷ []) }

-- The newest emission did not raise.
abbrev pub published : Parts → Turn → Bool
published p t = p.stores (length t.emissions)
