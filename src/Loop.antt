-- ===== src/Loop.antt =====
-- agent/runtime/loop.py: complete model responses and their tools, until the model is done. What the
-- loop waits for (the context, the model, the tools) is its `Surroundings`; the sinks of the
-- context manager are not modelled.
pub mod Ending
pub mod Answered
pub mod Final
use my_coding_agent.Base.{
  ℕ, zero, suc, String, Bool, true, false, Option, none, some, List, [], ◌∷◌, str_eq, is_empty,
  if◌then◌else◌,
}
use Prim.Native.String.{◌++◌ as append_text}
use my_coding_agent.Messages.{
  Message, Block, ToolCall, text_block, reasoning_block, call_block, result_block,
}
use my_coding_agent.Conversation.{Conversation, append_assistant}
use my_coding_agent.Control.{
  Stop, limit_reached, Outcome, returned, raised, begin_iteration, record_model_response,
}
use my_coding_agent.Events.Emitter.{LlmResponse}
use my_coding_agent.Coordinator.{
  World, Turn, Parts, Attempt, stop, crash, Batch, executed, aborted, unpublished, published,
  execute, emit, responded, with_controller, arrive, attempt_of,
}

-- How `controller.wait` ends here; `failed` is any other exception.
pub data Awaited {ℓ} (A : Type ℓ) : Type ℓ where
  arrived : A → Awaited A
  ended : Stop → Awaited A
  failed : Awaited A

-- What the iteration with a number meets: the clock, the context manager, if there is one (it gives
-- the messages of the request), the model, and the tools. A wait that ends by a `Stop` may leave
-- the Turn cancelled.
pub record Surroundings : Type 0 where
  pub begin_now : ℕ → ℕ
  pub context : Option (ℕ → Conversation → Awaited (List Message))
  pub model : ℕ → List Message → Awaited LlmResponse
  pub cancels : ℕ → Bool
  pub tools : ℕ → ℕ → World

-- How the loop ends: the final text, or an exception (the last but one is that of an
-- emission); `unfinished` if the fuel is used up.
pub data LoopEnd : Type 0 where
  final : String → LoopEnd
  raises : Attempt → LoopEnd
  unpublished_event : LoopEnd
  unfinished : LoopEnd

-- `"".join(block.text for block in content if isinstance(block, TextBlock))`
abbrev pub assistant_text : List Block → String
assistant_text [] = ""
assistant_text (text_block s ∷ bs) = append_text s (assistant_text bs)
assistant_text (reasoning_block _ ∷ bs) = assistant_text bs
assistant_text (call_block _ ∷ bs) = assistant_text bs
assistant_text (result_block _ ∷ bs) = assistant_text bs

-- `[block for block in content if isinstance(block, ToolCallBlock)]`
abbrev pub tool_calls : List Block → List ToolCall
tool_calls [] = []
tool_calls (text_block _ ∷ bs) = tool_calls bs
tool_calls (reasoning_block _ ∷ bs) = tool_calls bs
tool_calls (call_block c ∷ bs) = c ∷ tool_calls bs
tool_calls (result_block _ ∷ bs) = tool_calls bs

abbrev pub is_length : Option String → Bool
is_length none = false
is_length (some reason) = str_eq reason "length"

-- The end of the loop on a response without tool calls.
abbrev pub conclude : LlmResponse → LoopEnd
conclude r =
    if is_length r.finish_reason
    then raises (stop (limit_reached "output_length"))
    else if str_eq (assistant_text r.message.content) ""
    then raises (stop (limit_reached "empty_response"))
    else final (assistant_text r.message.content)

abbrev pub after_batch : Turn × Batch → Turn × Option LoopEnd
after_batch (t, executed) = (t, none)
after_batch (t, aborted a) = (t, some (raises a))
after_batch (t, unpublished) = (t, some unpublished_event)

-- The tools of a response, or the end.
abbrev pub act : Parts → (ℕ → World) → LlmResponse → List ToolCall → Turn → Turn × Option LoopEnd
act p world r [] t = (t, some (conclude r))
act p world r (c ∷ cs) t = after_batch (execute p world zero (c ∷ cs) t)

-- The Turn when a response is appended, counted and shown.
abbrev pub responded_turn : LlmResponse → Conversation → Turn → Turn
responded_turn r conversation t =
    let c = record_model_response r.usage (assistant_text r.message.content) t.controller in
    emit (responded r.message c.iterations)
      (record t { conversation = conversation; controller = c })

-- `append_assistant`, which raises on another role, and what follows.
abbrev pub appended :
    Parts → (ℕ → World) → LlmResponse → Option Conversation → Turn → Turn × Option LoopEnd
appended p world r none t = (t, some (raises crash))
appended p world r (some conversation) t =
    let shown = responded_turn r conversation t in
    if published p shown
    then act p world r (tool_calls r.message.content) shown
    else (shown, some unpublished_event)

abbrev pub on_response :
    Parts → (ℕ → World) → Bool → Awaited LlmResponse → Turn → Turn × Option LoopEnd
on_response p world cancels (ended e) t = (arrive cancels t, some (raises (attempt_of e)))
on_response p world cancels failed t = (t, some (raises crash))
on_response p world cancels (arrived r) t =
    appended p world r (append_assistant r.message t.conversation) t

abbrev pub on_context :
    Parts → Surroundings → ℕ → Awaited (List Message) → Turn → Turn × Option LoopEnd
on_context p s n (ended e) t = (arrive (s.cancels n) t, some (raises (attempt_of e)))
on_context p s n failed t = (t, some (raises crash))
on_context p s n (arrived messages) t =
    on_response p (s.tools n) (s.cancels n) (s.model n messages) t

abbrev pub context_of : Surroundings → ℕ → Conversation → Awaited (List Message)
context_of s n c = elim s.context [ none ↦ arrived c | some assemble ↦ assemble n c ]

-- One iteration, once the controller has admitted it: `none` to go on.
unfoldable pub round : Parts → Surroundings → ℕ → Outcome → Turn → Turn × Option LoopEnd
round p s n (raised e) t = (t, some (raises (attempt_of e)))
round p s n returned t = on_context p s n (context_of s n t.conversation) t

-- `AgentLoop.run`, on fuel; `n` numbers the iterations.
unfoldable pub run : ℕ → Parts → Surroundings → ℕ → Turn → Turn × LoopEnd
unfolding round
run zero p s n t = (t, unfinished)
run (suc fuel) p s n t =
    let (c, outcome) = begin_iteration (s.begin_now n) t.controller in
    let (t', end) = round p s n outcome (with_controller c t) in
    elim end [ some e ↦ (t', e) | none ↦ run fuel p s (suc n) t' ]
