-- ===== src/Model.antt =====
-- agent/runtime/message_assembler.py: the deltas of a stream become one response. The index of a call is a
-- natural number, so the guards on others are left to the type. `json.loads` is an argument.
pub mod Fragments
pub mod Assembling
pub mod Invoker
pub mod Streaming
pub mod Showing
pub mod Retrying
pub mod Attempts
use Prim.Native.String.{◌++◌ as append_text}
use my_coding_agent.Base.{
  ℕ, String, Bool, true, false, not, ◌&&◌, ◌||◌, Option, none, some, List, [], ◌∷◌, ◌++◌, leb, ◌==◌,
  str_eq, if◌then◌else◌,
}
use my_coding_agent.Base.Texts.{is_empty_text}
use my_coding_agent.Base.Dict
use my_coding_agent.Base.Dict.{Dict}
use my_coding_agent.Messages.{
  Json, Fields, Role, ToolCall, Block, text_block, reasoning_block, call_block, Message,
}
use my_coding_agent.Control.{Usage}
use my_coding_agent.Events.Emitter.{
  LlmResponse, ModelEvent, text_delta, reasoning_delta, tool_call_delta, message_end, error_event,
}

-- `_ToolCallState`, without its index, which is the key
pub record CallState : Type 0 where
  pub id : Option String
  pub name : Option String
  pub arguments : List String

pub record MessageAssembler : Type 0 where
  pub text : List String
  pub reasoning : List String
  pub tool_calls : List (ℕ × CallState)
  pub ids : Dict ℕ
  pub finished : Bool
  pub finish_reason : Option String
  pub usage : Option Usage
  pub delta_seen : Bool

-- What the message of an LLMResponseParseError says
pub data ParseError : Type 0 where
  after_end before_end : ParseError
  provider_said id_changed_index : String → ParseError
  index_changed_id index_changed_name no_id no_name : ℕ → ParseError

pub data Checked (A : Type 0) : Type 0 where
  parsed : A → Checked A
  refused : ParseError → Checked A

abbrev pub new_assembler : MessageAssembler
new_assembler = record {
  text = [];
  reasoning = [];
  tool_calls = [];
  ids = [];
  finished = false;
  finish_reason = none;
  usage = none;
  delta_seen = false;
}

abbrev pub new_call : CallState
new_call = record { id = none; name = none; arguments = [] }

-- `calls.get(index)`
unfoldable pub call_at : ℕ → List (ℕ × CallState) → Option CallState
call_at index [] = none
call_at index ((i, c) ∷ calls) = if i == index then some c else call_at index calls

-- `calls[index] = state`
unfoldable pub put_call : ℕ → CallState → List (ℕ × CallState) → List (ℕ × CallState)
put_call index state [] = (index, state) ∷ []
put_call index state ((i, c) ∷ calls) =
    if i == index then (i, state) ∷ calls else (i, c) ∷ put_call index state calls

abbrev pub call_or_new : Option CallState → CallState
call_or_new none = new_call
call_or_new (some state) = state

-- A text that is there and not empty
abbrev pub given : Option String → Option String
given none = none
given (some s) = if is_empty_text s then none else some s

-- Another value than the one that is there
abbrev pub differs : Option String → String → Bool
differs none s = false
differs (some t) s = not (str_eq t s)

abbrev moved_index : Option ℕ → ℕ → Bool
moved_index none index = false
moved_index (some i) index = not (i == index)

abbrev pub with_arguments : Option String → CallState → CallState
with_arguments none state = state
with_arguments (some delta) state = record state { arguments = state.arguments ++ (delta ∷ []) }

abbrev pub set_name : ℕ → Option String → CallState → Checked CallState
set_name index none state = parsed state
set_name index (some name) state =
    if differs state.name name
    then refused (index_changed_name index)
    else parsed (record state { name = some name })

abbrev pub set_id : ℕ → Option String → CallState → Checked CallState
set_id index none state = parsed state
set_id index (some id) state =
    if differs state.id id
    then refused (index_changed_id index)
    else parsed (record state { id = some id })

-- `self._ids[event.id] = event.index`
abbrev pub file_id : ℕ → Option String → Dict ℕ → Checked (Dict ℕ)
file_id index none ids = parsed ids
file_id index (some id) ids =
    if moved_index (Dict.lookup id ids) index
    then refused (id_changed_index id)
    else parsed (Dict.insert id index ids)

abbrev pub and_then : {A B : Type 0} → Checked A → (A → Checked B) → Checked B
and_then (parsed x) f = f x
and_then (refused e) f = refused e

abbrev pub updated_call :
    ℕ → Option String → Option String → Option String → CallState → Checked CallState
updated_call index id name delta state =
    and_then (set_id index id state)
      λ state. and_then (set_name index name state) λ state. parsed (with_arguments delta state)

-- `_add_tool_call`; a refusal leaves an assembler that no one reads.
unfoldable pub add_tool_call :
    ℕ → Option String → Option String → Option String → MessageAssembler → Checked MessageAssembler
add_tool_call index id name delta a = and_then (file_id index (given id) a.ids) λ ids.
    and_then
      (updated_call index (given id) (given name) delta (call_or_new (call_at index a.tool_calls)))
      λ state.
        parsed (record a {
          tool_calls = put_call index state a.tool_calls;
          ids = ids;
          delta_seen = true;
        })

abbrev pub add_open : MessageAssembler → ModelEvent → Checked MessageAssembler
add_open a (text_delta text) = parsed (record a {
  text = a.text ++ (text ∷ []);
  delta_seen = a.delta_seen || not (is_empty_text text);
})
add_open a (reasoning_delta text) = parsed (record a {
  reasoning = a.reasoning ++ (text ∷ []);
  delta_seen = a.delta_seen || not (is_empty_text text);
})
add_open a (tool_call_delta index id name delta) = add_tool_call index id name delta a
add_open a (message_end reason usage) =
    parsed (record a { finish_reason = reason; usage = usage; finished = true })
add_open a (error_event message code retryable) = refused (provider_said message)

-- `add`
unfoldable pub add : MessageAssembler → ModelEvent → Checked MessageAssembler
add a event = if a.finished then refused after_end else add_open a event

-- The calls of `add` on the events of a stream
unfoldable pub add_all : MessageAssembler → List ModelEvent → Checked MessageAssembler
add_all a [] = parsed a
add_all a (e ∷ es) = and_then (add a e) (λ b. add_all b es)

abbrev pub joined : List String → String
joined [] = ""
joined (t ∷ ts) = append_text t (joined ts)

-- `sorted(self._tool_calls)`
abbrev pub place : ℕ × CallState → List (ℕ × CallState) → List (ℕ × CallState)
place (i, c) [] = (i, c) ∷ []
place (i, c) ((j, d) ∷ calls) =
    let rest = place (i, c) calls in if leb i j then (i, c) ∷ (j, d) ∷ calls else (j, d) ∷ rest

abbrev pub by_index : List (ℕ × CallState) → List (ℕ × CallState)
by_index [] = []
by_index (call ∷ calls) = place call (by_index calls)

-- `_parse_arguments`
abbrev pub parse_arguments : (String → Option Json) → String → Option Fields × Option String
parse_arguments loads raw =
    if is_empty_text raw then (some Fields.end, none) else (elim (loads raw) [
      | none ↦ (none, some "invalid JSON arguments")
      | some (Json.object fields) ↦ (some fields, none)
      | some _ ↦ (none, some "arguments must decode to a JSON object")
    ])

abbrev pub call_of : (String → Option Json) → String → String → List String → ToolCall
call_of loads id name arguments =
    let raw = joined arguments in
    record {
      id = id;
      name = name;
      arguments = (parse_arguments loads raw).0;
      arguments_error = (parse_arguments loads raw).1;
      raw_arguments = some raw;
    }

abbrev pub block_of :
    (String → Option Json) → ℕ → Option String → Option String → List String → Checked Block
block_of loads index none name arguments = refused (no_id index)
block_of loads index (some id) none arguments = refused (no_name index)
block_of loads index (some id) (some name) arguments =
    parsed (call_block (call_of loads id name arguments))

abbrev pub call_blocks : (String → Option Json) → List (ℕ × CallState) → Checked (List Block)
call_blocks loads [] = parsed []
call_blocks loads ((i, c) ∷ calls) =
    and_then (block_of loads i (given c.id) (given c.name) c.arguments)
      λ block. and_then (call_blocks loads calls) λ blocks. parsed (block ∷ blocks)

abbrev pub block_if : (String → Block) → String → List Block → List Block
block_if block text blocks = if is_empty_text text then blocks else block text ∷ blocks

abbrev usage_or : Option Usage → Usage
usage_or none = record { input_tokens = none; output_tokens = none; total_tokens = none }
usage_or (some usage) = usage

-- `assemble`
unfoldable pub assemble : (String → Option Json) → MessageAssembler → Checked LlmResponse
assemble loads a =
    if not a.finished
    then refused before_end
    else and_then (call_blocks loads (by_index a.tool_calls)) λ blocks. parsed (record {
      message = record {
        role = Role.assistant;
        content =
            block_if reasoning_block (joined a.reasoning)
              (block_if text_block (joined a.text) blocks);
      };
      finish_reason = a.finish_reason;
      usage = usage_or a.usage;
    })
