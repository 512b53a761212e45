-- ===== src/Events/Emitter.antt =====
-- `TurnEventEmitter` of agent/runtime/events.py: the stages of a Turn as ordered public events.
-- A method gives the new state; `false` means that an exception of the storage passed through.
use my_coding_agent.Base.{
  ℕ, String, Bool, true, false, not, ◌&&◌, Option, none, some, List, [], ◌∷◌, contains, is_some,
  str_eq, if◌then◌else◌,
}
use Prim.Native.String.{◌++◌ as append_text}
use my_coding_agent.Messages.{
  Json, Items, Fields, Role, Block, text_block, reasoning_block, call_block, result_block, Message,
  ToolCall, ToolResultBlock, is_error,
}
use my_coding_agent.Control.{Usage}
use my_coding_agent.Conversation.Public.{
  json_safe_fields, PublicBlock, PublicMessage, public_message,
}
use my_coding_agent.Events.{AgentEvent, EventBuffer, Stamp, emit_with, turn_terminal_event_types}

pub record TurnEventEmitter : Type 0 where
  pub thread_id : String
  pub turn_id : String
  pub debug : Bool
  pub terminal_event : Option AgentEvent
  pub activity_phase : Option String

-- `none` is the ValueError of an unknown visibility.
unfoldable pub new_emitter : String → String → String → Option TurnEventEmitter
new_emitter thread_id turn_id visibility =
    let at : Bool → TurnEventEmitter = λ debug. record {
      thread_id = thread_id;
      turn_id = turn_id;
      debug = debug;
      terminal_event = none;
      activity_phase = none;
    } in
    if str_eq visibility "hidden"
    then some (at false)
    else if str_eq visibility "debug"
    then some (at true)
    else none

-- An emitter and the buffer that it writes to.
pub record Publishing : Type 0 where
  pub emitter : TurnEventEmitter
  pub buffer : EventBuffer

abbrev is_terminal_type : String → Bool
is_terminal_type kind = contains kind turn_terminal_event_types

-- The end of `emit`, for the event that was appended.
abbrev close_emitter : String → Option AgentEvent → TurnEventEmitter → TurnEventEmitter
close_emitter kind none t = t
close_emitter kind (some e) t =
    if is_terminal_type kind then record t { terminal_event = some e } else t

-- The event that `emit` returns, or `none` where an exception passed through.
unfoldable pub emit_event :
    Bool → Stamp → String → Fields → Publishing → Publishing × Option AgentEvent
emit_event checkpoint stamp kind payload st = elim st.emitter.terminal_event [
  | some e ↦ (st, some e)
  | none ↦
      let t = st.emitter in
      let (b, e) =
        emit_with checkpoint stamp t.thread_id (some t.turn_id) kind (json_safe_fields payload)
          st.buffer in
      (record { emitter = close_emitter kind e t; buffer = b }, e)
]

unfoldable pub emit : Bool → Stamp → String → Fields → Publishing → Publishing × Bool
unfolding emit_event
emit checkpoint stamp kind payload st =
    let (st', e) = emit_event checkpoint stamp kind payload st in (st', is_some e)

-- The statements behind one that may raise.
infixl 5 ◌then_do◌
unfoldable pub ◌then_do◌ : Publishing × Bool → (Publishing → Publishing × Bool) → Publishing × Bool
◌then_do◌ (st, true) next = next st
◌then_do◌ (st, false) next = (st, false)

abbrev optional_text : Option String → Json
optional_text none = Json.null
optional_text (some s) = Json.text s

abbrev optional_number : Option ℕ → Json
optional_number none = Json.null
optional_number (some n) = Json.integer n

abbrev entry : String → Json → Fields → Fields
entry = Fields.field

-- `public_usage` and `usage_dict`
abbrev pub usage_json : Option Usage → Json
usage_json none = Json.object (
    entry "input_tokens" Json.null
      (entry "output_tokens" Json.null (entry "total_tokens" Json.null Fields.end)))
usage_json (some u) = Json.object (
    entry "input_tokens" (optional_number u.input_tokens) (
      entry "output_tokens" (optional_number u.output_tokens)
        (entry "total_tokens" (optional_number u.total_tokens) Fields.end)))

abbrev arguments_json : Option Fields → Json
arguments_json none = Json.null
arguments_json (some fs) = Json.object (json_safe_fields fs)

-- `public_tool_call`
abbrev pub tool_call_fields : ToolCall → Fields
tool_call_fields c = entry "id" (Json.text c.id) (
    entry "name" (Json.text c.name) (
      entry "arguments" (arguments_json c.arguments) (
        entry "arguments_error" (optional_text c.arguments_error)
          (entry "raw_arguments" (optional_text c.raw_arguments) Fields.end))))

-- `public_tool_result`, for the call with this id
abbrev pub tool_result_fields : String → ToolResultBlock → Fields
tool_result_fields call_id r = entry "tool_call_id" (Json.text call_id) (
    entry "ok" (Json.boolean (not (is_error r))) (
      entry "content" (Json.text r.content) (
        entry "metadata" (Json.object (json_safe_fields r.metadata))
          (entry "error_code" (optional_text r.error_code) Fields.end))))

abbrev public_block_json : PublicBlock → Json
public_block_json (PublicBlock.text s) =
    Json.object (entry "type" (Json.text "text") (entry "text" (Json.text s) Fields.end))
public_block_json (PublicBlock.tool_call c) =
    Json.object (entry "type" (Json.text "tool_call") (tool_call_fields c))
public_block_json (PublicBlock.tool_result r ok) =
    Json.object (entry "type" (Json.text "tool_result") (tool_result_fields r.tool_call_id r))

abbrev public_blocks_json : List PublicBlock → Items
public_blocks_json [] = Items.nil
public_blocks_json (b ∷ bs) = Items.cons (public_block_json b) (public_blocks_json bs)

abbrev pub role_text : Role → String
role_text Role.system = "system"
role_text Role.user = "user"
role_text Role.assistant = "assistant"
role_text Role.tool = "tool"

abbrev public_message_json : Option PublicMessage → Json
public_message_json none = Json.null
public_message_json (some p) = Json.object (
    entry "schema_version" (Json.integer 1) (
      entry "role" (Json.text (role_text p.role))
        (entry "content" (Json.array (public_blocks_json p.content)) Fields.end)))

-- `"".join(block.text for block in content if isinstance(block, ReasoningBlock))`
abbrev pub reasoning_text : List Block → String
reasoning_text [] = ""
reasoning_text (reasoning_block s ∷ bs) = append_text s (reasoning_text bs)
reasoning_text (text_block _ ∷ bs) = reasoning_text bs
reasoning_text (call_block _ ∷ bs) = reasoning_text bs
reasoning_text (result_block _ ∷ bs) = reasoning_text bs

pub record LlmResponse : Type 0 where
  pub message : Message
  pub finish_reason : Option String
  pub usage : Usage

-- An emission in each of the two stamps, in order.
unfoldable pub model_response : Stamp → Stamp → LlmResponse → ℕ → Publishing → Publishing × Bool
model_response s s' response iteration st =
    let debug = st.emitter.debug in
    let reasoning = if debug then reasoning_text response.message.content else "" in
    let number = Json.integer iteration in
    emit true s "model_response"
      (entry "iteration" number (
        entry "message" (public_message_json (public_message response.message)) (
          entry "finish_reason" (optional_text response.finish_reason)
            (entry "usage" (usage_json (some response.usage)) Fields.end))))
      st
    then_do λ st'.
        if debug && not (str_eq reasoning "")
        then emit true s' "model_reasoning"
            (entry "iteration" number (entry "text" (Json.text reasoning) Fields.end)) st'
        else (st', true)

abbrev same_phase : Option String → String → Bool
same_phase none phase = false
same_phase (some p) phase = str_eq p phase

-- `_advance_activity`
unfoldable pub advance_activity : Stamp → String → Publishing → Publishing × Bool
advance_activity s phase st =
    if same_phase st.emitter.activity_phase phase
    then (st, true)
    else emit true s "model_activity" (entry "phase" (Json.text phase) Fields.end)
        (record st { emitter = record st.emitter { activity_phase = some phase } })

pub data ModelEvent : Type 0 where
  text_delta reasoning_delta : String → ModelEvent
  tool_call_delta : ℕ → Option String → Option String → Option String → ModelEvent
  message_end : Option String → Option Usage → ModelEvent
  error_event : String → Option String → Bool → ModelEvent

abbrev reset_activity : Publishing → Publishing
reset_activity st = record st { emitter = record st.emitter { activity_phase = none } }

unfoldable pub model_delta : Stamp → Stamp → ModelEvent → Publishing → Publishing × Bool
unfolding advance_activity
model_delta s s' (text_delta text) st =
    advance_activity s "generating" st
    then_do emit true s' "model_text_delta" (entry "text" (Json.text text) Fields.end)
model_delta s s' (reasoning_delta text) st = advance_activity s "thinking" st then_do λ st'.
    if st'.emitter.debug
    then emit true s' "model_reasoning_delta" (entry "text" (Json.text text) Fields.end) st'
    else (st', true)
model_delta s s' (tool_call_delta index id name arguments) st =
    advance_activity s "generating" st
    then_do emit true s' "model_tool_call_delta" (
        entry "index" (Json.integer index) (
          entry "id" (optional_text id) (
            entry "name" (optional_text name)
              (entry "arguments_delta" (optional_text arguments) Fields.end))))
model_delta s s' (message_end finish_reason usage) st = advance_activity s "idle" st then_do λ st'.
    emit true s' "model_message_end"
      (entry "finish_reason" (optional_text finish_reason)
        (entry "usage" (usage_json usage) Fields.end))
      (reset_activity st')
model_delta s s' (error_event message error_code retryable) st =
    emit true s' "model_error"
      (entry "message" (Json.text message) (
        entry "error_code" (optional_text error_code)
          (entry "retryable" (Json.boolean retryable) Fields.end)))
      st

unfoldable pub tool_requested : Stamp → ToolCall → Publishing → Publishing × Bool
tool_requested s call =
    emit true s "tool_requested"
      (entry "tool_call" (Json.object (tool_call_fields call)) Fields.end)

unfoldable pub tool_started : Stamp → ToolCall → Publishing → Publishing × Bool
tool_started s call =
    emit true s "tool_started"
      (entry "tool_call_id" (Json.text call.id) (entry "name" (Json.text call.name) Fields.end))

unfoldable pub tool_finished : Stamp → ToolCall → ToolResultBlock → Publishing → Publishing × Bool
tool_finished s call result = emit true s "tool_finished" (
    entry "name" (Json.text call.name)
      (entry "result" (Json.object (tool_result_fields call.id result)) Fields.end))
