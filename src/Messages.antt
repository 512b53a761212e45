-- ===== src/Messages.antt =====
-- agent/core/messages.py: roles, content blocks and the validation of a message, with the part
-- of agent/tools/result_bounds.py that rebuilds a tool result around its bounded values.
use my_coding_agent.Base.{
  ℕ, String, Bool, true, false, Option, none, some, List, all, is_some, str_eq, if◌then◌else◌,
}

-- A value of `dict[str, Any]` metadata and arguments; a float is kept by its text.
mutual
  pub data Json : Type 0 where
    null : Json
    boolean : Bool → Json
    integer : ℕ → Json
    negative : ℕ → Json
    float : String → Json
    text : String → Json
    array : Items → Json
    object : Fields → Json

  pub data Items : Type 0 where
    nil : Items
    cons : Json → Items → Items

  pub data Fields : Type 0 where
    end : Fields
    field : String → Json → Fields → Fields

-- `fields.get(name)`
abbrev pub get_field : String → Fields → Option Json
get_field name Fields.end = none
get_field name (Fields.field key value fields) =
    let rest = get_field name fields in if str_eq key name then some value else rest

-- `fields[name] = value`
abbrev pub put_field : String → Json → Fields → Fields
put_field name value Fields.end = Fields.field name value Fields.end
put_field name value (Fields.field key old fields) =
    let rest = put_field name value fields in
    if str_eq key name then Fields.field key value fields else Fields.field key old rest

pub data Role : Type 0 where
  system user assistant tool : Role

pub record ToolCall : Type 0 where
  pub id : String
  pub name : String
  pub arguments : Option Fields
  pub arguments_error : Option String
  pub raw_arguments : Option String

pub record ToolResultBlock : Type 0 where
  pub tool_call_id : String
  pub content : String
  pub metadata : Fields
  pub error_code : Option String

abbrev pub is_error : ToolResultBlock → Bool
is_error r = is_some r.error_code

pub data Block : Type 0 where
  text_block reasoning_block : String → Block
  call_block : ToolCall → Block
  result_block : ToolResultBlock → Block

pub record Message : Type 0 where
  pub role : Role
  pub content : List Block

-- `isinstance(block, allowed_blocks[role])`
abbrev pub is_allowed : Role → Block → Bool
is_allowed Role.system (text_block _) = true
is_allowed Role.user (text_block _) = true
is_allowed Role.assistant (text_block _) = true
is_allowed Role.assistant (reasoning_block _) = true
is_allowed Role.assistant (call_block _) = true
is_allowed Role.tool (result_block _) = true
is_allowed _ _ = false

-- `Message(role=..., content=...)`: `none` is the raised MessageValidationError.
unfoldable pub make_message : Role → List Block → Option Message
make_message role content =
    if all (is_allowed role) content then some (record { role = role; content = content }) else none

-- `_bound_result_values` of result_bounds.py, which every caller here is proved for as it stands.
abbrev pub BoundValues : Type 0
BoundValues = String → Fields → Option String → String × Fields

unfoldable pub reduce_tool_result_block : BoundValues → ToolResultBlock → ToolResultBlock
reduce_tool_result_block bound block =
    let (content, metadata) = bound block.content block.metadata block.error_code in
    record {
      tool_call_id = block.tool_call_id;
      content = content;
      metadata = metadata;
      error_code = block.error_code;
    }
