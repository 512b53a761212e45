-- ===== src/Budget.antt =====
-- agent/runtime/context_budget.py: the estimate of a request and the budget that it has to fit. JSON
-- texts and the decimal soft threshold, as the function of the budget that it stands for, are
-- arguments. The estimator is the source's own; an injected one that is called in its place is not
-- modelled.
pub mod Fitting
use Prim.Native.Char.{code}
use Prim.Native.String.{String as Text}
use my_coding_agent.Base.{
  ℕ, ◌+◌, ◌-◌, ◌*◌, ◌/◌, min, max, String, Bool, true, false, ◌&&◌, ◌||◌, Option, none, some,
  is_some, List, [], ◌∷◌, length, ltb, leb, ◌==◌, if◌then◌else◌,
}
use my_coding_agent.Messages.{
  Json, Fields, Role, Block, text_block, reasoning_block, call_block, result_block, Message,
  ToolCall, ToolResultBlock,
}
use my_coding_agent.Events.Emitter.{role_text}

pub record ToolDefinition : Type 0 where
  pub name : String
  pub description : String
  pub parameters : Json

-- How many characters of each class a text has.
pub record Counts : Type 0 where
  pub ascii : ℕ
  pub cjk : ℕ
  pub other : ℕ

abbrev between : ℕ → ℕ → ℕ → Bool
between low high c = leb low c && leb c high

abbrev is_cjk : ℕ → Bool
is_cjk c =
    between 13312 19903 c
    || between 19968 40959 c
    || between 63744 64255 c
    || between 131072 262143 c

abbrev count : ℕ → Counts → Counts
count c n =
    if ltb c 128
    then record n { ascii = n.ascii + 1 }
    else if is_cjk c
    then record n { cjk = n.cjk + 1 }
    else record n { other = n.other + 1 }

unfoldable pub counts : String → Counts
counts Text.[] = record { ascii = 0; cjk = 0; other = 0 }
counts (Text.◌∷◌ c s) = count (code c) (counts s)

-- `math.ceil` of the quotients by 4.0, by 1.5 and by 2.0
abbrev pub weigh : Counts → ℕ
weigh n = max 1 ((n.ascii + 3) / 4 + (2 * n.cjk + 2) / 3 + (n.other + 1) / 2)

-- `_text_tokens`
unfoldable pub text_tokens : String → ℕ
text_tokens Text.[] = 0
text_tokens (Text.◌∷◌ c s) = weigh (counts (Text.◌∷◌ c s))

abbrev or_empty : Option String → String
or_empty none = ""
or_empty (some s) = s

module _ (json_text : Json → String) where
  abbrev arguments_text : ToolCall → String
  arguments_text c = elim c.raw_arguments [
    | some s ↦ s
    | none ↦ json_text (elim c.arguments [ none ↦ Json.null | some fs ↦ Json.object fs ])
  ]

  -- `_block_tokens`
  unfoldable pub block_tokens : Block → ℕ
  unfolding text_tokens
  block_tokens (text_block s) = text_tokens s
  block_tokens (reasoning_block s) = text_tokens s
  block_tokens (call_block c) =
      text_tokens c.id
      + text_tokens c.name
      + text_tokens (arguments_text c)
      + text_tokens (or_empty c.arguments_error)
  block_tokens (result_block r) =
      text_tokens r.tool_call_id
      + text_tokens r.content
      + text_tokens (json_text (Json.object r.metadata))
      + text_tokens (or_empty r.error_code)

  blocks_tokens : List Block → ℕ
  unfolding block_tokens
  blocks_tokens [] = 0
  blocks_tokens (b ∷ bs) = block_tokens b + blocks_tokens bs

  -- The share of one message: its overhead, its role, its blocks and their overhead.
  unfoldable pub message_tokens : Message → ℕ
  unfolding blocks_tokens text_tokens
  message_tokens m =
      4 + text_tokens (role_text m.role) + length m.content * 2 + blocks_tokens m.content

  unfoldable pub tool_tokens : ToolDefinition → ℕ
  unfolding text_tokens
  tool_tokens d =
      8 + text_tokens d.name + text_tokens d.description + text_tokens (json_text d.parameters)

  unfoldable pub messages_tokens : List Message → ℕ
  unfolding message_tokens
  messages_tokens [] = 0
  messages_tokens (m ∷ ms) = message_tokens m + messages_tokens ms

  unfoldable pub tools_tokens : List ToolDefinition → ℕ
  unfolding tool_tokens
  tools_tokens [] = 0
  tools_tokens (d ∷ ds) = tool_tokens d + tools_tokens ds

  -- `estimate`
  unfoldable pub estimate : List Message → List ToolDefinition → ℕ
  unfolding messages_tokens tools_tokens
  estimate messages tools = 16 + messages_tokens messages + tools_tokens tools

pub record BudgetAssessment : Type 0 where
  pub estimated_input_tokens : ℕ
  pub context_window_tokens : ℕ
  pub reserved_output_tokens : ℕ
  pub safety_margin_tokens : ℕ
  pub usable_input_tokens : ℕ
  pub soft_limit_tokens : ℕ
  pub pressure : String
  pub fits : Bool

-- `soft_limit` is `math.floor(budget * soft_threshold)` as a function of the budget.
pub record BudgetPolicy : Type 0 where
  pub context_window_tokens : ℕ
  pub output_reserve : ℕ
  pub safety_margin : ℕ
  pub soft_limit : ℕ → ℕ

abbrev default_safety_margin : ℕ
default_safety_margin = 256

-- `output_tokens if output_tokens is not None else output_reserve_tokens`
abbrev first_of : Option ℕ → Option ℕ → Option ℕ
first_of (some a) b = some a
first_of none b = b

-- `none` is the ValueError of a reserve that is not positive.
abbrev reserve_of : ℕ → Option ℕ → Option ℕ
reserve_of window none = some (max 1 (min 4096 (window / 4)))
reserve_of window (some r) = if leb r 0 then none else some (max 1 (min r (window / 4)))

abbrev margin_of : ℕ → Option ℕ → Option ℕ
margin_of margin none = some margin
margin_of margin (some m) = if margin == default_safety_margin then some m else none

-- The constructor; `none` is a ValueError. `output_tokens`, `output_reserve_tokens`,
-- `safety_margin_tokens` and `safety_margin` follow the window.
unfoldable pub make_policy : ℕ → Option ℕ → Option ℕ → ℕ → Option ℕ → (ℕ → ℕ) → Option BudgetPolicy
make_policy window output reserve margin other_margin soft =
    if leb window 0 || (is_some output && is_some reserve)
    then none
    else elim (reserve_of window (first_of output reserve)) [
      | none ↦ none
      | some r ↦ elim (margin_of margin other_margin) [
        | none ↦ none
        | some m ↦ some (record {
          context_window_tokens = window;
          output_reserve = r;
          safety_margin = m;
          soft_limit = soft;
        })
      ]
    ]

-- `max(0, window - reserve - margin)`
unfoldable pub input_budget : BudgetPolicy → ℕ
input_budget p = p.context_window_tokens - p.output_reserve - p.safety_margin

unfoldable pub assess : BudgetPolicy → ℕ → BudgetAssessment
unfolding input_budget
assess p estimated =
    let usable = input_budget p in
    let soft = p.soft_limit usable in
    record {
      estimated_input_tokens = estimated;
      context_window_tokens = p.context_window_tokens;
      reserved_output_tokens = p.output_reserve;
      safety_margin_tokens = p.safety_margin;
      usable_input_tokens = usable;
      soft_limit_tokens = soft;
      pressure =
          if leb usable 0 || leb usable estimated
          then "hard"
          else if leb soft estimated
          then "soft"
          else "normal";
      fits = ltb 0 usable && leb estimated usable;
    }

-- `none` is the ContextLimitError.
unfoldable pub ensure_fits :
    (Json → String) → BudgetPolicy → List Message → List ToolDefinition → Option BudgetAssessment
unfolding assess estimate
ensure_fits json_text p messages tools =
    let a = assess p (estimate json_text messages tools) in if a.fits then some a else none
