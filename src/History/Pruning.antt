-- ===== src/History/Pruning.antt =====
-- agent/runtime/history/pruning.py: old tool results give way to a marker. The reducer of a result's values,
-- the equality of two dictionaries and the token estimate are arguments.
pub mod Units
pub mod Shapes
use Prim.Native.String.{len, ◌++◌ as append_text}
use my_coding_agent.Base.{
  ℕ, zero, suc, ◌+◌, String, Bool, true, false, not, ◌&&◌, ◌||◌, Option, none, some, List, [], ◌∷◌,
  length, is_empty, leb, str_eq, if◌then◌else◌,
}
use my_coding_agent.Base.Texts.{text_length, decimal}
use my_coding_agent.Messages.{
  put_field, Json, Fields, get_field, Role, ToolResultBlock, Block, text_block, reasoning_block,
  call_block, result_block, Message, BoundValues, reduce_tool_result_block,
}
use my_coding_agent.History.Units.{
  AtomicHistoryUnit, open_unit, is_tool_interaction, parse_atomic_history,
}

pub record ToolResultPruner : Type 0 where
  pub threshold_chars : ℕ
  pub protect_latest : Bool
  pub bound : BoundValues
  pub same_metadata : Fields → Fields → Bool
  pub estimate : List Message → ℕ

pub record PruningResult : Type 0 where
  pub messages : List Message
  pub pruned_count : ℕ
  pub before_tokens : ℕ
  pub after_tokens : ℕ
  pub protected_units : List ℕ

-- `fields.update(others)`
abbrev update_fields : Fields → Fields → Fields
update_fields fields Fields.end = fields
update_fields fields (Fields.field name value others) =
    update_fields (put_field name value fields) others

-- `fields.get("pruned") is True`
abbrev pub is_marked : Option Json → Bool
is_marked (some (Json.boolean b)) = b
is_marked _ = false

abbrev marker_of : String → String
marker_of original =
    let size = decimal (text_length original) in
    append_text "[tool result pruned under context pressure; original_size="
      (append_text size (append_text "; omitted_size=" (append_text size "]")))

abbrev pruning_metadata : String → Fields
pruning_metadata original =
    let marker = marker_of original in
    Fields.field "pruned" (Json.boolean true) (
      Fields.field "prune_strategy" (Json.text "pressure_old_tool_result") (
        Fields.field "pruning_strategy" (Json.text "pressure_old_tool_result") (
          Fields.field "original_size" (Json.integer (text_length original)) (
            Fields.field "original_bytes" (Json.integer (len original)) (
              Fields.field "retained_size" (Json.integer (text_length marker)) (
                Fields.field "omitted_size" (Json.integer (text_length original)) (
                  Fields.field "retained_size_bytes" (Json.integer (len marker)) (
                    Fields.field "omitted_size_bytes" (Json.integer (len original))
                      (Fields.field "truncated" (Json.boolean true) Fields.end)))))))))

-- The block of a result whose content is left out
unfoldable pub marked_block : ToolResultBlock → ToolResultBlock
marked_block block = record {
  tool_call_id = block.tool_call_id;
  content = marker_of block.content;
  metadata = update_fields block.metadata (pruning_metadata block.content);
  error_code = block.error_code;
}

-- What a block is replaced by
unfoldable pub prune_block : ToolResultPruner → ToolResultBlock → Option ToolResultBlock
prune_block p block =
    let bounded = reduce_tool_result_block p.bound block in
    if is_marked (get_field "pruned" block.metadata)
    then none
    else if leb (text_length block.content) p.threshold_chars
    then (if p.same_metadata bounded.metadata block.metadata then none else some bounded)
    else some (reduce_tool_result_block p.bound (marked_block block))

abbrev pub put_block : ToolResultBlock → Option ToolResultBlock → List Block × ℕ → List Block × ℕ
put_block block none (blocks, n) = (result_block block ∷ blocks, n)
put_block block (some other) (blocks, n) = (result_block other ∷ blocks, suc n)

abbrev pub keep_block : Block → List Block × ℕ → List Block × ℕ
keep_block block (blocks, n) = (block ∷ blocks, n)

unfoldable pub prune_blocks : ToolResultPruner → List Block → List Block × ℕ
prune_blocks p [] = ([], 0)
prune_blocks p (result_block block ∷ blocks) =
    put_block block (prune_block p block) (prune_blocks p blocks)
prune_blocks p (text_block t ∷ blocks) = keep_block (text_block t) (prune_blocks p blocks)
prune_blocks p (reasoning_block t ∷ blocks) = keep_block (reasoning_block t) (prune_blocks p blocks)
prune_blocks p (call_block c ∷ blocks) = keep_block (call_block c) (prune_blocks p blocks)

abbrev is_tool : Role → Bool
is_tool Role.tool = true
is_tool _ = false

abbrev with_blocks : Role → List Block × ℕ → Message × ℕ
with_blocks role (blocks, n) = (record { role = role; content = blocks }, n)

unfoldable pub prune_message : ToolResultPruner → Message → Message × ℕ
prune_message p message =
    if is_tool message.role
    then with_blocks message.role (prune_blocks p message.content)
    else (message, 0)

abbrev pub put_message : Message × ℕ → List Message × ℕ → List Message × ℕ
put_message (message, n) (messages, k) = (message ∷ messages, n + k)

-- The messages of a unit of the given length, at the head of the rest of the result
abbrev pub prune_first : ToolResultPruner → ℕ → List Message → List Message × ℕ
prune_first p zero messages = (messages, 0)
prune_first p (suc n) [] = ([], 0)
prune_first p (suc n) (m ∷ messages) = put_message (prune_message p m) (prune_first p n messages)

-- The messages from `start_index` on
abbrev pub prune_at : ToolResultPruner → ℕ → ℕ → List Message → List Message × ℕ
prune_at p zero n messages = prune_first p n messages
prune_at p (suc start) n [] = ([], 0)
prune_at p (suc start) n (m ∷ messages) = put_message (m, 0) (prune_at p start n messages)

-- A unit that is open, or the last one if it is a tool interaction; a closed one is one that is not open.
abbrev pub is_protected : ToolResultPruner → AtomicHistoryUnit → List AtomicHistoryUnit → Bool
is_protected p u others =
    open_unit u || (p.protect_latest && is_empty others && is_tool_interaction u)

abbrev pub prune_unit :
    ToolResultPruner
    → AtomicHistoryUnit
    → List AtomicHistoryUnit
    → List Message × ℕ
    → List Message × ℕ
prune_unit p u others (messages, n) =
    let pruned = prune_at p u.start_index (length u.messages) messages in
    if is_protected p u others then (messages, n) else (pruned.0, n + pruned.1)

abbrev pub prune_units :
    ToolResultPruner → List AtomicHistoryUnit → List Message × ℕ → List Message × ℕ
prune_units p [] state = state
prune_units p (u ∷ others) state = prune_units p others (prune_unit p u others state)

abbrev protected_from : ToolResultPruner → ℕ → List AtomicHistoryUnit → List ℕ
protected_from p index [] = []
protected_from p index (u ∷ others) =
    let rest = protected_from p (suc index) others in
    if is_protected p u others then index ∷ rest else rest

unfoldable pub prune : ToolResultPruner → List Message → PruningResult
prune p history =
    let units = parse_atomic_history history in
    let pruned = prune_units p units (history, 0) in
    record {
      messages = pruned.0;
      pruned_count = pruned.1;
      before_tokens = p.estimate history;
      after_tokens = p.estimate pruned.0;
      protected_units = protected_from p 0 units;
    }
