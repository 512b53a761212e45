-- ===== src/Conversation.antt =====
-- agent/runtime/conversation.py: the canonical history of a Thread. A method that mutates the
-- conversation returns the new message list; the calls and results of a message are those of
-- History.Units, which tests roles and blocks the same way.
pub mod Closing
pub mod Pending
pub mod Validity
pub mod Public
use my_coding_agent.Base.{
  ℕ, String, Bool, true, false, not, Option, none, some, List, [], ◌∷◌, ◌++◌, filter, contains,
  if◌then◌else◌,
}
use my_coding_agent.Messages.{
  Json, Fields, Role, Block, text_block, result_block, ToolResultBlock, Message, BoundValues,
  reduce_tool_result_block,
}
use my_coding_agent.History.Units.{call_ids, result_ids}

abbrev pub Conversation : Type 0
Conversation = List Message

-- `Conversation(system_prompt)`
unfoldable pub new : String → Conversation
new system_prompt = record { role = Role.system; content = text_block system_prompt ∷ [] } ∷ []

-- `none` is the ValueError.
unfoldable pub from_messages : List Message → Option Conversation
from_messages [] = none
from_messages (m ∷ ms) = elim m.role [ Role.system ↦ some (m ∷ ms) | _ ↦ none ]

unfoldable pub append_user : String → Conversation → Conversation
append_user text c = c ++ (record { role = Role.user; content = text_block text ∷ [] } ∷ [])

unfoldable pub append_assistant : Message → Conversation → Option Conversation
append_assistant m c = elim m.role [ Role.assistant ↦ some (c ++ (m ∷ [])) | _ ↦ none ]

abbrev pub result_message : BoundValues → ToolResultBlock → Message
result_message bound r = record {
  role = Role.tool;
  content = result_block (reduce_tool_result_block bound r) ∷ [];
}

unfoldable pub append_tool_result : BoundValues → ToolResultBlock → Conversation → Conversation
append_tool_result bound r c = c ++ (result_message bound r ∷ [])

-- `pending` and `completed` after the loop over the messages.
unfoldable pub requested_calls : Conversation → List String
requested_calls [] = []
requested_calls (m ∷ ms) = call_ids m ++ requested_calls ms

unfoldable pub completed_calls : Conversation → List String
completed_calls [] = []
completed_calls (m ∷ ms) = result_ids m ++ completed_calls ms

-- `[call_id for call_id in pending if call_id not in completed]`
unfoldable pub pending_calls : Conversation → List String
unfolding requested_calls completed_calls
pending_calls c = filter (λ a. not (contains a (completed_calls c))) (requested_calls c)

abbrev interrupted_content : String
interrupted_content =
    "tool call was interrupted by Runtime restart; execution outcome is unknown and side effects may already have occurred. Inspect workspace/state before retrying."

abbrev pub interrupted_result : String → ToolResultBlock
interrupted_result call_id = record {
  tool_call_id = call_id;
  content = interrupted_content;
  metadata = Fields.field "execution_status" (Json.text "unknown") (
      Fields.field "reason_code" (Json.text "RUNTIME_RESTARTED")
        (Fields.field "side_effects_possible" (Json.boolean true) Fields.end));
  error_code = some "RUNTIME_RESTARTED";
}

-- `for call_id in pending: self.append_tool_result(...)`
append_interrupted : BoundValues → List String → Conversation → Conversation
unfolding append_tool_result
append_interrupted bound [] c = c
append_interrupted bound (a ∷ ids) c =
    append_interrupted bound ids (append_tool_result bound (interrupted_result a) c)

unfoldable pub append_interrupted_tool_results :
    BoundValues → Conversation → Conversation × List String
unfolding append_interrupted
append_interrupted_tool_results bound c =
    (append_interrupted bound (pending_calls c) c, pending_calls c)

unfoldable pub prospective_request_messages : Conversation → String → List Message
prospective_request_messages c text =
    c ++ (record { role = Role.user; content = text_block text ∷ [] } ∷ [])
