-- ===== src/Tests/History.antt =====
-- A conversation with an interrupted tool call: its units, its closing and its public form.
use my_coding_agent.Base.{true, map, ◌≡◌, refl, none, some, [], ◌∷◌, length}
use my_coding_agent.Messages.{
  Json, Items, Fields, Role, ToolCall, Message, text_block, reasoning_block, call_block,
  result_block, BoundValues,
}
use my_coding_agent.History.Units.{parse_atomic_history, flatten}
use my_coding_agent.History.Units.Partition.{
  Positioned, flatten-parse_atomic_history, parse_atomic_history-Positioned,
}
use my_coding_agent.History.Selection.{select}
use my_coding_agent.History.Selection.Partition.{IsSplit, select-IsSplit}
use my_coding_agent.History.Units.Outlines.{outline}
use my_coding_agent.History.Pruning.{ToolResultPruner, PruningResult, prune}
use my_coding_agent.History.Pruning.Units.{pruned_units, prune-pruned_units}
use my_coding_agent.History.Pruning.Shapes.{prune-outline}
use my_coding_agent.Conversation.{Conversation, append_interrupted_tool_results, pending_calls}
use my_coding_agent.Conversation.Closing.{pending_calls-closed}
use my_coding_agent.Conversation.Public.{PublicBlock, PublicMessage}

abbrev as_given : BoundValues
as_given content metadata code = (content, metadata)

abbrev a_call : ToolCall
a_call = record {
  id = "a";
  name = "read_file";
  arguments = some Fields.end;
  arguments_error = none;
  raw_arguments = none;
}

abbrev system : Message
system = record { role = Role.system; content = text_block "You are an agent." ∷ [] }

abbrev asks : Message
asks = record {
  role = Role.assistant;
  content = reasoning_block "look first" ∷ text_block "I read it." ∷ call_block a_call ∷ [];
}

abbrev interrupted : Conversation
interrupted = system ∷ asks ∷ []

interrupted_pending : pending_calls interrupted ≡ "a" ∷ []
unfolding pending_calls my_coding_agent.History.Units.call_ids
    my_coding_agent.History.Units.result_ids
interrupted_pending = refl

flatten-parse_atomic_history_example : flatten (parse_atomic_history interrupted) ≡ interrupted
flatten-parse_atomic_history_example = flatten-parse_atomic_history interrupted

-- Each message counts as one token, and the target is none.
select-IsSplit_example :
    IsSplit none interrupted (select length (λ n. 0) none none none none interrupted)
select-IsSplit_example = select-IsSplit length (λ n. 0) none none none none interrupted

parse_atomic_history-Positioned_example :
    Positioned 0 interrupted (parse_atomic_history interrupted)
parse_atomic_history-Positioned_example = parse_atomic_history-Positioned interrupted

pending_calls-closed_example :
    pending_calls (append_interrupted_tool_results as_given interrupted).0 ≡ []
pending_calls-closed_example = pending_calls-closed as_given interrupted

abbrev not_a_number : Json
not_a_number = Json.array (Items.cons (Json.float "nan") (Items.cons (Json.float "1.5") Items.nil))

abbrev asks_public : PublicMessage
asks_public = record { role = Role.assistant; content = PublicBlock.tool_call a_call ∷ [] }

-- A call that was answered at some length, and a later message
abbrev answered : Conversation
answered =
    asks
    ∷ (record {
      role = Role.tool;
      content =
          result_block (record {
            tool_call_id = "a";
            content = "a long page of text";
            metadata = Fields.end;
            error_code = none;
          })
          ∷ [];
    })
    ∷ (record { role = Role.assistant; content = text_block "I read it." ∷ [] })
    ∷ []

abbrev pruner : ToolResultPruner
pruner = record {
  threshold_chars = 4;
  protect_latest = true;
  bound = as_given;
  same_metadata = λ xs ys. true;
  estimate = length;
}

one_pruned : (prune pruner answered).pruned_count ≡ 1
unfolding prune parse_atomic_history my_coding_agent.History.Units.call_ids
    my_coding_agent.History.Units.result_ids my_coding_agent.History.Pruning.prune_message
    my_coding_agent.History.Pruning.prune_blocks my_coding_agent.History.Pruning.prune_block
one_pruned = refl

prune-pruned_units_example :
    (prune pruner answered).messages ≡ pruned_units pruner (parse_atomic_history answered)
prune-pruned_units_example = prune-pruned_units pruner answered

prune-outline_example :
    map outline (parse_atomic_history (prune pruner answered).messages)
    ≡ map outline (parse_atomic_history answered)
prune-outline_example = prune-outline pruner answered
