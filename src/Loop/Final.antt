-- ===== src/Loop/Final.antt =====
-- What a final text of the loop says of the conversation.
use my_coding_agent.Base.{
  ℕ, zero, suc, ◌≡◌, refl, ◌++◌, String, Bool, true, false, if◌then◌else◌, Option, none, some, List,
  [], ◌∷◌, str_eq, Bool-cases, inl, inr,
}
use my_coding_agent.Messages.{Message, Role, Block, ToolCall}
use my_coding_agent.Conversation.{Conversation, append_assistant}
use my_coding_agent.Control.{Controller, Outcome, returned, raised, begin_iteration}
use my_coding_agent.Events.Emitter.{LlmResponse}
use my_coding_agent.Coordinator.{
  World, Turn, Parts, Batch, executed, aborted, unpublished, published, execute, with_controller,
}
use my_coding_agent.Loop.{
  Awaited, arrived, ended, failed, Surroundings, LoopEnd, final, raises, unpublished_event,
  unfinished, is_length, conclude, act, appended, on_response, on_context, context_of, round, run,
  after_batch, responded_turn, tool_calls, assistant_text,
}
use my_coding_agent.Loop.Ending.{next, iterate, run-next}

-- The last message is the assistant's, requests no tool, and has the text, which is not empty.
pub record Concluded (s : String) (c : Conversation) : Type 0 where
  pub before : Conversation
  pub message : Message
  pub last : c ≡ before ++ (message ∷ [])
  pub role : message.role ≡ Role.assistant
  pub no_calls : tool_calls message.content ≡ []
  pub text : assistant_text message.content ≡ s
  pub nonempty : str_eq s "" ≡ false

abbrev pub IsSound : Conversation → LoopEnd → Type 0
IsSound c (final s) = Concluded s c
IsSound c (raises a) = Unit
IsSound c unpublished_event = Unit
IsSound c unfinished = Unit

Sound : Turn × Option LoopEnd → Type 0
Sound (t, none) = Unit
Sound (t, some e) = IsSound t.conversation e

-- What appending the message of a response gives.
data Appended (m : Message) (c : Conversation) : Option Conversation → Type 0 where
  refused : Appended m c none
  added : m.role ≡ Role.assistant → Appended m c (some (c ++ (m ∷ [])))

append_assistant-Appended :
    (role : Role) (bs : List Block) (c : Conversation)
    → let m : Message = record { role = role; content = bs } in Appended m c (append_assistant m c)
unfolding append_assistant
append_assistant-Appended Role.assistant bs c = added refl
append_assistant-Appended Role.system bs c = refused
append_assistant-Appended Role.user bs c = refused
append_assistant-Appended Role.tool bs c = refused

conclude-IsSound :
    (r : LlmResponse) (c : Conversation)
    → r.message.role ≡ Role.assistant
    → tool_calls r.message.content ≡ []
    → IsSound (c ++ (r.message ∷ [])) (conclude r)
conclude-IsSound r c role none_called = elim (Bool-cases (is_length r.finish_reason)) [
  | inl e ↦ rw e tt
  | inr e ↦ rw e (elim (Bool-cases (str_eq (assistant_text r.message.content) "")) [
    | inl f ↦ rw f tt
    | inr f ↦ rw f (record {
      before = c;
      message = r.message;
      last = refl;
      role = role;
      no_calls = none_called;
      text = refl;
      nonempty = f;
    })
  ])
]

act-Sound :
    (p : Parts) (world : ℕ → World) (r : LlmResponse) (cs : List ToolCall) (c : Conversation)
    (t : Turn)
    → r.message.role ≡ Role.assistant
    → tool_calls r.message.content ≡ cs
    → Sound (act p world r cs (responded_turn r (c ++ (r.message ∷ [])) t))
unfolding Sound
act-Sound p world r [] c t role e = conclude-IsSound r c role e
act-Sound p world r (d ∷ ds) c t role e = batch_sound (execute p world zero (d ∷ ds) _)
  where
    batch_sound : (b : Turn × Batch) → Sound (after_batch b)
    batch_sound (u, executed) = tt
    batch_sound (u, aborted a) = tt
    batch_sound (u, unpublished) = tt

appended-Sound :
    (p : Parts) (world : ℕ → World) (r : LlmResponse) (c : Conversation) (o : Option Conversation)
    (t : Turn)
    → Appended r.message c o
    → Sound (appended p world r o t)
unfolding Sound
appended-Sound p world r c none t refused = tt
appended-Sound p world r c (some _) t (added role) =
    choose (published p (responded_turn r (c ++ (r.message ∷ [])) t))
  where
    choose :
        (b : Bool)
        → Sound (
            if b
            then act p world r
                (tool_calls r.message.content)
                (responded_turn r (c ++ (r.message ∷ [])) t)
            else (responded_turn r (c ++ (r.message ∷ [])) t, some unpublished_event))
    choose true = act-Sound p world r _ c t role refl
    choose false = tt

on_response-Sound :
    (p : Parts) (world : ℕ → World) (cancels : Bool) (a : Awaited LlmResponse) (t : Turn)
    → Sound (on_response p world cancels a t)
unfolding Sound
on_response-Sound p world cancels (ended e) t = tt
on_response-Sound p world cancels failed t = tt
on_response-Sound p world cancels (arrived r) t =
    appended-Sound p world r t.conversation _ t
      (append_assistant-Appended r.message.role r.message.content t.conversation)

on_context-Sound :
    (p : Parts) (s : Surroundings) (n : ℕ) (a : Awaited (List Message)) (t : Turn)
    → Sound (on_context p s n a t)
unfolding Sound
on_context-Sound p s n (ended e) t = tt
on_context-Sound p s n failed t = tt
on_context-Sound p s n (arrived messages) t =
    on_response-Sound p (s.tools n) (s.cancels n) (s.model n messages) t

iterate-Sound :
    (p : Parts) (s : Surroundings) (n : ℕ) (t : Turn) (r : Controller × Outcome)
    → Sound (iterate p s n t r)
unfolding Sound round
iterate-Sound p s n t (c, raised e) = tt
iterate-Sound p s n t (c, returned) =
    on_context-Sound p s n (context_of s n t.conversation) (with_controller c t)

next-IsSound :
    (fuel : ℕ) (p : Parts) (s : Surroundings) (n : ℕ) (r : Turn × Option LoopEnd)
    → Sound r
    → ((u : Turn) → IsSound (run fuel p s (suc n) u).0.conversation (run fuel p s (suc n) u).1)
    → IsSound (next fuel p s n r).0.conversation (next fuel p s n r).1
unfolding Sound
next-IsSound fuel p s n (u, none) h k = k u
next-IsSound fuel p s n (u, some e) h k = h

-- If the loop returns a final text, then that text is not empty, and it is the text of the last message
-- of the conversation, an assistant's message that requests no tool.
pub run-IsSound :
    (fuel : ℕ) (p : Parts) (s : Surroundings) (n : ℕ) (t : Turn)
    → IsSound (run fuel p s n t).0.conversation (run fuel p s n t).1
unfolding run
run-IsSound zero p s n t = tt
run-IsSound (suc fuel) p s n t = rw (run-next fuel p s n t) (
    next-IsSound fuel p s n (iterate p s n t (begin_iteration (s.begin_now n) t.controller))
      (iterate-Sound p s n t (begin_iteration (s.begin_now n) t.controller))
      (run-IsSound fuel p s (suc n)))
