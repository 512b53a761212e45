-- ===== src/Loop/Answered.antt =====
-- The tool calls that the loop of agent/runtime/loop.py appends to the conversation, and their results.
use my_coding_agent.Base.{
  ℕ, Bool-cases, inl, inr, String, zero, suc, ◌≡◌, refl, ap, sym, append_assoc, ◌∙◌, ◌++◌,
  append-nil, map-append, if◌then◌else◌, Bool, true, false, Option, none, some, List, [], ◌∷◌,
  arith, str_eq,
}
use my_coding_agent.Messages.{
  Message, Role, Block, text_block, reasoning_block, call_block, result_block, ToolCall,
}
use my_coding_agent.History.Units.{call_ids, call_ids_of, result_ids}
use my_coding_agent.Conversation.{Conversation, append_assistant, requested_calls, completed_calls}
use my_coding_agent.Conversation.Closing.{requested_calls-append, completed_calls-append}
use my_coding_agent.Control.{
  Controller, Outcome, checkpoint, cancelled, returned, raised, begin_iteration,
  record_model_response, limit_reached,
}
use my_coding_agent.Events.Emitter.{LlmResponse}
use my_coding_agent.Coordinator.{
  World, Turn, Parts, Batch, executed, aborted, unpublished, published, execute, with_controller,
  arrive, stop,
}
use my_coding_agent.Coordinator.Recording.{ids, Answers}
use my_coding_agent.Coordinator.Answers.{Closed, execute-Closed}
use my_coding_agent.Loop.{
  Awaited, arrived, ended, failed, Surroundings, LoopEnd, final, raises, unpublished_event,
  unfinished, act, appended, on_response, on_context, context_of, round, run, after_batch,
  responded_turn, tool_calls, is_length, assistant_text,
}
use my_coding_agent.Loop.Ending.{next, iterate, run-next}

-- The results of a conversation are those of its calls, in their order.
abbrev pub IsAnswered : Turn → Type 0
IsAnswered t = completed_calls t.conversation ≡ requested_calls t.conversation

-- The second conversation has some calls more than the first, and their results, in the same order.
pub record Grows (c c' : Conversation) : Type 0 where
  pub added : List String
  pub completed : completed_calls c' ≡ completed_calls c ++ added
  pub requested : requested_calls c' ≡ requested_calls c ++ added

pub Grows-refl : (c : Conversation) → Grows c c
Grows-refl c = record { added = []; completed = sym (append-nil _); requested = sym (append-nil _) }

pub Grows-trans : (c d e : Conversation) → Grows c d → Grows d e → Grows c e
Grows-trans c d e h k = record {
  added = h.added ++ k.added;
  completed = k.completed ∙ (ap (λ xs. xs ++ k.added) h.completed ∙ append_assoc _ h.added k.added);
  requested = k.requested ∙ (ap (λ xs. xs ++ k.added) h.requested ∙ append_assoc _ h.added k.added);
}

-- The second conversation has some calls more, of which only the first may have their results.
pub record GrowsOpen (p : Parts) (c c' : Conversation) : Type 0 where
  pub added : List String
  pub unanswered : List String
  pub completed : completed_calls c' ≡ completed_calls c ++ added
  pub requested : requested_calls c' ≡ requested_calls c ++ (added ++ unanswered)
  pub raised_at : ℕ
  pub raised : p.stores raised_at ≡ false

-- What the loop adds, by its end: only the exception of an emission may leave calls without a result.
abbrev pub GrowsAt : Parts → LoopEnd → Conversation → Conversation → Type 0
GrowsAt p (final s) c c' = Grows c c'
GrowsAt p (raises a) c c' = Grows c c'
GrowsAt p unpublished_event c c' = GrowsOpen p c c'
GrowsAt p unfinished c c' = Grows c c'

GrowsAt-trans :
    (p : Parts) (e : LoopEnd) (c d f : Conversation) → Grows c d → GrowsAt p e d f → GrowsAt p e c f
GrowsAt-trans p (final s) c d f h k = Grows-trans c d f h k
GrowsAt-trans p (raises a) c d f h k = Grows-trans c d f h k
GrowsAt-trans p unfinished c d f h k = Grows-trans c d f h k
GrowsAt-trans p unpublished_event c d f h k = record {
  added = h.added ++ k.added;
  unanswered = k.unanswered;
  completed = k.completed ∙ (ap (λ xs. xs ++ k.added) h.completed ∙ append_assoc _ h.added k.added);
  requested =
      k.requested
      ∙ (ap (λ xs. xs ++ (k.added ++ k.unanswered)) h.requested
          ∙ (append_assoc _ h.added (k.added ++ k.unanswered)
              ∙ ap (λ xs. requested_calls c ++ xs)
                  (sym (append_assoc h.added k.added k.unanswered))));
  raised_at = k.raised_at;
  raised = k.raised;
}

-- After one round: what was added is answered, and there is no cancellation if the loop goes on.
Rounded : Parts → Turn → Turn × Option LoopEnd → Type 0
Rounded p t (t', none) =
    Grows t.conversation t'.conversation × (t'.controller.cancel_requested ≡ false)
Rounded p t (t', some e) = GrowsAt p e t.conversation t'.conversation

ids-tool_calls : (bs : List Block) → ids (tool_calls bs) ≡ call_ids_of bs
unfolding call_ids_of
ids-tool_calls [] = refl
ids-tool_calls (text_block _ ∷ bs) = ids-tool_calls bs
ids-tool_calls (reasoning_block _ ∷ bs) = ids-tool_calls bs
ids-tool_calls (call_block c ∷ bs) = ap (λ xs. c.id ∷ xs) (ids-tool_calls bs)
ids-tool_calls (result_block _ ∷ bs) = ids-tool_calls bs

-- What appending an assistant's message does to the calls and results.
record Requests (m : Message) (c c' : Conversation) : Type 0 where
  completed : completed_calls c' ≡ completed_calls c
  requested : requested_calls c' ≡ requested_calls c ++ ids (tool_calls m.content)

-- The Turn `u` has the calls `cs` more than `t`, not answered yet.
record Awaits (t u : Turn) (cs : List ToolCall) : Type 0 where
  completed : completed_calls u.conversation ≡ completed_calls t.conversation
  requested : requested_calls u.conversation ≡ requested_calls t.conversation ++ ids cs
  not_cancelled : u.controller.cancel_requested ≡ false

Grows-Answers :
    (cs : List ToolCall) (t u v : Turn)
    → Awaits t u cs
    → Answers u cs v
    → Grows t.conversation v.conversation
Grows-Answers cs t u v h k = record {
  added = ids cs;
  completed = k.results ∙ ap (λ xs. xs ++ ids cs) h.completed;
  requested = k.requests ∙ h.requested;
}

after_batch-Rounded :
    (p : Parts) (cs : List ToolCall) (t u : Turn) (r : Turn × Batch)
    → Awaits t u cs
    → Closed p u cs r
    → Rounded p t (after_batch r)
unfolding Rounded Closed
after_batch-Rounded p cs t u (v, executed) h k = (Grows-Answers cs t u v h k.0, k.1)
after_batch-Rounded p cs t u (v, aborted a) h k = Grows-Answers cs t u v h k
after_batch-Rounded p cs t u (v, unpublished) h ((answered, rest, e, k), f) = record {
  added = ids answered;
  unanswered = ids rest;
  completed = k.results ∙ ap (λ xs. xs ++ ids answered) h.completed;
  requested =
      k.requests
      ∙ h.requested
      ∙ ap (λ xs. requested_calls t.conversation ++ xs)
          (ap ids e ∙ map-append (λ (c : ToolCall). c.id) answered rest);
  raised_at = _;
  raised = f;
}

act-Rounded :
    (p : Parts) (world : ℕ → World) (r : LlmResponse) (cs : List ToolCall) (t u : Turn)
    → Awaits t u cs
    → Rounded p t (act p world r cs u)
unfolding Rounded
act-Rounded p world r [] t u h =
    concluded (is_length r.finish_reason) (str_eq (assistant_text r.message.content) "")
  where
    grown : Grows t.conversation u.conversation
    grown = record {
      added = [];
      completed = h.completed ∙ sym (append-nil _);
      requested = h.requested;
    }

    concluded :
        (long empty : Bool)
        → GrowsAt p
            (if long
              then raises (stop (limit_reached "output_length"))
              else if empty
              then raises (stop (limit_reached "empty_response"))
              else final (assistant_text r.message.content))
            t.conversation
            u.conversation
    concluded true empty = grown
    concluded false true = grown
    concluded false false = grown
act-Rounded p world r (c ∷ cs) t u h =
    after_batch-Rounded p (c ∷ cs) t u (execute p world zero (c ∷ cs) u) h
      (execute-Closed p world zero (c ∷ cs) u h.not_cancelled)

Joins : Message → Conversation → Option Conversation → Type 0
Joins m c none = Unit
Joins m c (some c') = Requests m c c'

abbrev message_of : Role → List Block → Message
message_of role bs = record { role = role; content = bs }

append_assistant-Joins :
    (role : Role) (bs : List Block) (c : Conversation)
    → Joins (message_of role bs) c (append_assistant (message_of role bs) c)
unfolding Joins append_assistant requested_calls completed_calls call_ids result_ids
append_assistant-Joins Role.assistant bs c = record {
  completed = completed_calls-append c (message_of Role.assistant bs ∷ []) ∙ append-nil _;
  requested =
      requested_calls-append c (message_of Role.assistant bs ∷ [])
      ∙ ap (λ xs. requested_calls c ++ xs) (append-nil _ ∙ sym (ids-tool_calls bs));
}
append_assistant-Joins Role.system bs c = tt
append_assistant-Joins Role.user bs c = tt
append_assistant-Joins Role.tool bs c = tt

appended-Rounded :
    (p : Parts) (world : ℕ → World) (r : LlmResponse) (o : Option Conversation) (t : Turn)
    → t.controller.cancel_requested ≡ false
    → Joins r.message t.conversation o
    → Rounded p t (appended p world r o t)
unfolding Rounded Joins record_model_response
appended-Rounded p world r none t h k = Grows-refl t.conversation
appended-Rounded p world r (some c) t h k = choose (published p (responded_turn r c t)) refl
  where
    choose :
        (b : Bool)
        → published p (responded_turn r c t) ≡ b
        → Rounded p t (
            if b
            then act p world r (tool_calls r.message.content) (responded_turn r c t)
            else (responded_turn r c t, some unpublished_event))
    choose true e =
        act-Rounded p world r (tool_calls r.message.content) t (responded_turn r c t)
          (record { completed = k.completed; requested = k.requested; not_cancelled = h })
    choose false e = record {
      added = [];
      unanswered = ids (tool_calls r.message.content);
      completed = k.completed ∙ sym (append-nil _);
      requested = k.requested;
      raised_at = _;
      raised = e;
    }

arrive-Grows : (cancels : Bool) (t : Turn) → Grows t.conversation (arrive cancels t).conversation
arrive-Grows true t = Grows-refl t.conversation
arrive-Grows false t = Grows-refl t.conversation

on_response-Rounded :
    (p : Parts) (world : ℕ → World) (cancels : Bool) (a : Awaited LlmResponse) (t : Turn)
    → t.controller.cancel_requested ≡ false
    → Rounded p t (on_response p world cancels a t)
unfolding Rounded
on_response-Rounded p world cancels (ended e) t h = arrive-Grows cancels t
on_response-Rounded p world cancels failed t h = Grows-refl t.conversation
on_response-Rounded p world cancels (arrived r) t h =
    appended-Rounded p world r _ t h
      (append_assistant-Joins r.message.role r.message.content t.conversation)

on_context-Rounded :
    (p : Parts) (s : Surroundings) (n : ℕ) (a : Awaited (List Message)) (t : Turn)
    → t.controller.cancel_requested ≡ false
    → Rounded p t (on_context p s n a t)
unfolding Rounded
on_context-Rounded p s n (ended e) t h = arrive-Grows (s.cancels n) t
on_context-Rounded p s n failed t h = Grows-refl t.conversation
on_context-Rounded p s n (arrived messages) t h =
    on_response-Rounded p (s.tools n) (s.cancels n) (s.model n messages) t h

begin_iteration-cancel :
    (n : ℕ) (c : Controller) → (begin_iteration n c).0.cancel_requested ≡ c.cancel_requested
unfolding begin_iteration
begin_iteration-cancel n c = ground arith

iterate-Rounded :
    (p : Parts) (s : Surroundings) (n : ℕ) (t : Turn) (r : Controller × Outcome)
    → r.0.cancel_requested ≡ false
    → Rounded p t (iterate p s n t r)
unfolding Rounded round
iterate-Rounded p s n t (c, raised e) k = Grows-refl t.conversation
iterate-Rounded p s n t (c, returned) k =
    on_context-Rounded p s n (context_of s n t.conversation) (with_controller c t) k

next-GrowsAt :
    (fuel : ℕ) (p : Parts) (s : Surroundings) (n : ℕ) (t : Turn) (r : Turn × Option LoopEnd)
    → Rounded p t r
    → ((u : Turn)
        → u.controller.cancel_requested ≡ false
        → GrowsAt p
            (run fuel p s (suc n) u).1
            u.conversation
            (run fuel p s (suc n) u).0.conversation)
    → GrowsAt p (next fuel p s n r).1 t.conversation (next fuel p s n r).0.conversation
unfolding Rounded
next-GrowsAt fuel p s n t (u, none) h k =
    GrowsAt-trans p (run fuel p s (suc n) u).1 t.conversation u.conversation
      (run fuel p s (suc n) u).0.conversation h.0 (k u h.1)
next-GrowsAt fuel p s n t (u, some e) h k = h

-- From a Turn that is not cancelled, the loop adds calls and their results to the conversation, in the
-- same order; the exception of an emission may leave the last of the calls without a result.
pub run-GrowsAt :
    (fuel : ℕ) (p : Parts) (s : Surroundings) (n : ℕ) (t : Turn)
    → t.controller.cancel_requested ≡ false
    → GrowsAt p (run fuel p s n t).1 t.conversation (run fuel p s n t).0.conversation
unfolding run
run-GrowsAt zero p s n t k = Grows-refl t.conversation
run-GrowsAt (suc fuel) p s n t k = rw (run-next fuel p s n t) (
    next-GrowsAt fuel p s n t (iterate p s n t (begin_iteration (s.begin_now n) t.controller))
      (iterate-Rounded p s n t (begin_iteration (s.begin_now n) t.controller)
        (begin_iteration-cancel (s.begin_now n) t.controller ∙ k))
      (λ u r. run-GrowsAt fuel p s (suc n) u r))

-- The calls of a Turn that come first have their results, and the others have none.
abbrev pub IsOpen : Turn → Type 0
IsOpen t =
    (unanswered : List String) × (requested_calls t.conversation
      ≡ completed_calls t.conversation ++ unanswered)

-- The storage raises for some emission.
abbrev pub Raises : Parts → Type 0
Raises p = (n : ℕ) × (p.stores n ≡ false)

-- What the loop leaves, by its end
abbrev pub IsAnsweredAt : Parts → LoopEnd → Turn → Type 0
IsAnsweredAt p (final s) t = IsAnswered t
IsAnsweredAt p (raises a) t = IsAnswered t
IsAnsweredAt p unpublished_event t = IsOpen t × Raises p
IsAnsweredAt p unfinished t = IsAnswered t

IsAnswered-Grows : (t u : Turn) → IsAnswered t → Grows t.conversation u.conversation → IsAnswered u
IsAnswered-Grows t u h g = g.completed ∙ (ap (λ xs. xs ++ g.added) h ∙ sym g.requested)

-- Started with every call answered and no cancellation, the agent loop ends with a conversation
-- whose results are exactly those of its calls, in order, whether it returns a text or raises,
-- unless the exception is that of an emission that nothing catches: then there is an emission for
-- which the storage raises, and the results are those of the first calls, in order.
pub run-IsAnsweredAt :
    (fuel : ℕ) (p : Parts) (s : Surroundings) (n : ℕ) (t : Turn)
    → IsAnswered t
    → t.controller.cancel_requested ≡ false
    → IsAnsweredAt p (run fuel p s n t).1 (run fuel p s n t).0
run-IsAnsweredAt fuel p s n t h k = by_end (run fuel p s n t) (run-GrowsAt fuel p s n t k)
  where
    by_end :
        (r : Turn × LoopEnd)
        → GrowsAt p r.1 t.conversation r.0.conversation
        → IsAnsweredAt p r.1 r.0
    by_end (u, final s) g = IsAnswered-Grows t u h g
    by_end (u, raises a) g = IsAnswered-Grows t u h g
    by_end (u, unfinished) g = IsAnswered-Grows t u h g
    by_end (u, unpublished_event) g = (
      (
        g.unanswered,
        g.requested
            ∙ sym (append_assoc (requested_calls t.conversation) g.added g.unanswered)
            ∙ ap (λ xs. xs ++ g.unanswered) (ap (λ xs. xs ++ g.added) (sym h) ∙ sym g.completed),
      ),
      (g.raised_at, g.raised),
    )

begin_iteration_cancelled :
    (n : ℕ) (c : Controller)
    → c.cancel_requested ≡ true
    → begin_iteration n c ≡ (c, raised cancelled)
unfolding begin_iteration checkpoint
begin_iteration_cancelled n c h = ground arith

-- Also from a Turn that is cancelled: then no iteration begins.
run-Grows_cancelled :
    (fuel : ℕ) (p : Parts) (s : Surroundings) (n : ℕ) (t : Turn)
    → t.controller.cancel_requested ≡ true
    → Grows t.conversation (run fuel p s n t).0.conversation
unfolding run
run-Grows_cancelled zero p s n t h = Grows-refl t.conversation
run-Grows_cancelled (suc fuel) p s n t h =
    rw (run-next fuel p s n t)
      (rw (begin_iteration_cancelled (s.begin_now n) t.controller h) (stopped_Grows fuel p s n t))
  where
    stopped_Grows :
        (fuel : ℕ) (p : Parts) (s : Surroundings) (n : ℕ) (t : Turn)
        → Grows t.conversation
            (next fuel p s n (iterate p s n t (t.controller, raised cancelled))).0.conversation
    stopped_Grows fuel p s n t = unfold round in Grows-refl t.conversation

-- Where no emission raises, the loop adds calls and their results, in the same order.
pub run-Grows_always :
    (fuel : ℕ) (p : Parts) (s : Surroundings) (n : ℕ) (t : Turn)
    → ((k : ℕ) → p.stores k ≡ true)
    → Grows t.conversation (run fuel p s n t).0.conversation
run-Grows_always fuel p s n t stored = elim (Bool-cases t.controller.cancel_requested) [
  | inl h ↦ run-Grows_cancelled fuel p s n t h
  | inr h ↦ by_end (run fuel p s n t) (run-GrowsAt fuel p s n t h)
]
  where
    by_end :
        (r : Turn × LoopEnd)
        → GrowsAt p r.1 t.conversation r.0.conversation
        → Grows t.conversation r.0.conversation
    by_end (u, final s) g = g
    by_end (u, raises a) g = g
    by_end (u, unfinished) g = g
    by_end (u, unpublished_event) g = let k = stored g.raised_at in let f = g.raised in cc
