-- ===== src/Events/Hidden.antt =====
-- What an emitter keeps back: everything after the end of its Turn, and hidden reasoning.
use my_coding_agent.Base.{
  ℕ, ◌≡◌, refl, ap, ◌∙◌, String, Bool, true, false, Option, some, List, [], ◌∷◌, map, arith, any,
  contains, if◌then◌else◌,
}
use my_coding_agent.Messages.{
  Fields, Block, text_block, reasoning_block, call_block, result_block, Message, ToolCall,
  ToolResultBlock,
}
use my_coding_agent.Conversation.Public.{visible, public_message, public_content, is_call}
use my_coding_agent.Events.{AgentEvent, EventBuffer, Stamp, turn_terminal_event_types}
use my_coding_agent.Events.Emitter.{
  Publishing, emit_event, emit, ◌then_do◌, LlmResponse, model_response, advance_activity,
  ModelEvent, text_delta, reasoning_delta, tool_call_delta, message_end, error_event, model_delta,
  tool_requested, tool_started, tool_finished,
}

-- Every way to publish through an emitter.
pub data Output : Type 0 where
  plain : Bool → Stamp → String → Fields → Output
  response : Stamp → Stamp → LlmResponse → ℕ → Output
  delta : Stamp → Stamp → ModelEvent → Output
  requested started : Stamp → ToolCall → Output
  finished : Stamp → ToolCall → ToolResultBlock → Output

unfoldable pub publish : Output → Publishing → Publishing × Bool
publish (plain c s kind payload) = emit c s kind payload
publish (response s s' r n) = model_response s s' r n
publish (delta s s' e) = model_delta s s' e
publish (requested s c) = tool_requested s c
publish (started s c) = tool_started s c
publish (finished s c r) = tool_finished s c r

unfoldable pub publish_all : List Output → Publishing → Publishing
publish_all [] st = st
publish_all (o ∷ os) st = publish_all os (publish o st).0

-- The emitter is closed by `e`, and its buffer is `b`.
pub record Closed (e : AgentEvent) (b : EventBuffer) (st : Publishing) : Type 0 where
  pub terminal : st.emitter.terminal_event ≡ some e
  pub buffer : st.buffer ≡ b

-- An action that started on a closed emitter leaves it closed.
record EndsClosed (e : AgentEvent) (b : EventBuffer) (m : Publishing × Bool) : Type 0 where
  closed : Closed e b m.0

module _ {e : AgentEvent} {b : EventBuffer} where
  EndsClosed-emit :
      (c : Bool) (s : Stamp) (kind : String) (payload : Fields) (st : Publishing)
      → Closed e b st
      → EndsClosed e b (emit c s kind payload st)
  unfolding emit emit_event
  EndsClosed-emit c s kind payload st h = record { closed = ground arith }

  EndsClosed-then_do :
      (m : Publishing × Bool) (next : Publishing → Publishing × Bool)
      → EndsClosed e b m
      → ((st : Publishing) → Closed e b st → EndsClosed e b (next st))
      → EndsClosed e b (m then_do next)
  unfolding ◌then_do◌
  EndsClosed-then_do (st, true) next h k = k st h.closed
  EndsClosed-then_do (st, false) next h k = record { closed = h.closed }

  EndsClosed-if :
      (test : Bool) (m n : Publishing × Bool)
      → EndsClosed e b m
      → EndsClosed e b n
      → EndsClosed e b (if test then m else n)
  EndsClosed-if true m n h k = h
  EndsClosed-if false m n h k = k

  EndsClosed-pure : (st : Publishing) (done : Bool) → Closed e b st → EndsClosed e b (st, done)
  EndsClosed-pure st done h = record { closed = h }

  Closed-phase :
      (phase : Option String) (st : Publishing)
      → Closed e b st
      → Closed e b (record st { emitter = record st.emitter { activity_phase = phase } })
  Closed-phase phase st h = record { terminal = h.terminal; buffer = h.buffer }

ruleset closed_rules =
    (EndsClosed-emit, EndsClosed-then_do, EndsClosed-if, EndsClosed-pure, Closed-phase)

module _ {e : AgentEvent} {b : EventBuffer} where
  EndsClosed-advance :
      (s : Stamp) (phase : String) (st : Publishing)
      → Closed e b st
      → EndsClosed e b (advance_activity s phase st)
  unfolding advance_activity
  EndsClosed-advance s phase st h = search closed_rules

  EndsClosed-delta :
      (s s' : Stamp) (d : ModelEvent) (st : Publishing)
      → Closed e b st
      → EndsClosed e b (model_delta s s' d st)
  unfolding model_delta
  EndsClosed-delta s s' (text_delta t) st h = search (closed_rules, EndsClosed-advance)
  EndsClosed-delta s s' _ st h = search closed_rules

  EndsClosed-publish :
      (o : Output) (st : Publishing) → Closed e b st → EndsClosed e b (publish o st)
  unfolding publish model_response tool_requested tool_started tool_finished
  EndsClosed-publish (delta s s' d) st h = EndsClosed-delta s s' d st h
  EndsClosed-publish _ st h = search closed_rules

  publish_all-Closed :
      (os : List Output) (st : Publishing) → Closed e b st → Closed e b (publish_all os st)
  unfolding publish_all
  publish_all-Closed [] st h = h
  publish_all-Closed (o ∷ os) st h =
      publish_all-Closed os (publish o st).0 (EndsClosed-publish o st h).closed

emit_event-Closed :
    (c : Bool) (s : Stamp) (kind : String) (payload : Fields) (st : Publishing) (e : AgentEvent)
    → contains kind turn_terminal_event_types ≡ true
    → (emit_event c s kind payload st).1 ≡ some e
    → Closed e (emit_event c s kind payload st).0.buffer (emit_event c s kind payload st).0
unfolding emit_event
emit_event-Closed c s kind payload st e t h = ground arith

-- Once an emitter has emitted a terminal event of its Turn, whatever is published through it leaves
-- the buffer as that event left it, so that nothing of the Turn follows its terminal event.
pub publish_all_after_terminal :
    (c : Bool) (s : Stamp) (kind : String) (payload : Fields) (st : Publishing) (e : AgentEvent)
    (os : List Output)
    → contains kind turn_terminal_event_types ≡ true
    → (emit_event c s kind payload st).1 ≡ some e
    → (publish_all os (emit_event c s kind payload st).0).buffer
      ≡ (emit_event c s kind payload st).0.buffer
publish_all_after_terminal c s kind payload st e os t h =
    (publish_all-Closed os _ (emit_event-Closed c s kind payload st e t h)).buffer

-- A block with the text of its reasoning replaced.
abbrev pub redact : String → Block → Block
redact s (reasoning_block _) = reasoning_block s
redact s b = b

abbrev pub redact_event : String → ModelEvent → ModelEvent
redact_event s (reasoning_delta _) = reasoning_delta s
redact_event s e = e

abbrev pub redact_response : String → LlmResponse → LlmResponse
redact_response s r = record r {
  message = record r.message { content = map (redact s) r.message.content };
}

public_content-redact :
    (s : String) (h : Bool) (bs : List Block)
    → public_content h (map (redact s) bs) ≡ public_content h bs
unfolding public_content
public_content-redact s h [] = refl
public_content-redact s h (text_block t ∷ bs) = rw (public_content-redact s h bs)
public_content-redact s h (reasoning_block t ∷ bs) = public_content-redact s h bs
public_content-redact s h (call_block c ∷ bs) = rw (public_content-redact s h bs)
public_content-redact s h (result_block r ∷ bs) = rw (public_content-redact s h bs)

any-redact : (s : String) (bs : List Block) → any is_call (map (redact s) bs) ≡ any is_call bs
any-redact s [] = refl
any-redact s (text_block t ∷ bs) = any-redact s bs
any-redact s (reasoning_block t ∷ bs) = any-redact s bs
any-redact s (call_block c ∷ bs) = refl
any-redact s (result_block r ∷ bs) = any-redact s bs

public_message-redact :
    (s : String) (m : Message)
    → public_message (record m { content = map (redact s) m.content }) ≡ public_message m
unfolding public_message
public_message-redact s m = ap (visible m.role) (
    ap (λ h. public_content h (map (redact s) m.content)) (any-redact s m.content)
    ∙ public_content-redact s (any is_call m.content) m.content)

then_do-eq :
    (m : Publishing × Bool) (f g : Publishing → Publishing × Bool)
    → f m.0 ≡ g m.0
    → (m then_do f) ≡ (m then_do g)
unfolding ◌then_do◌
then_do-eq (st, true) f g h = h
then_do-eq (st, false) f g h = refl

advance_activity-debug :
    (s : Stamp) (phase : String) (st : Publishing)
    → (advance_activity s phase st).0.emitter.debug ≡ st.emitter.debug
unfolding advance_activity emit emit_event
advance_activity-debug s phase st = ground arith

hidden_delta :
    (s s' : Stamp) (t : String) (d : ModelEvent) (st : Publishing)
    → st.emitter.debug ≡ false
    → model_delta s s' (redact_event t d) st ≡ model_delta s s' d st
unfolding model_delta
hidden_delta s s' t (text_delta u) st h = refl
hidden_delta s s' t (reasoning_delta u) st h =
    then_do-eq (advance_activity s "thinking" st) _ _
      (rw (advance_activity-debug s "thinking" st ∙ h))
hidden_delta s s' t (tool_call_delta i c n a) st h = refl
hidden_delta s s' t (message_end f u) st h = refl
hidden_delta s s' t (error_event m c r) st h = refl

hidden_response :
    (s s' : Stamp) (t : String) (r : LlmResponse) (n : ℕ) (st : Publishing)
    → st.emitter.debug ≡ false
    → model_response s s' (redact_response t r) n st ≡ model_response s s' r n st
unfolding model_response
hidden_response s s' t r n st h = simp (h, public_message-redact t r.message)

-- With reasoning hidden, the emitter and the buffer that a response or a stream of deltas leaves
-- do not depend on the text of the reasoning: with that text replaced by any other they are the same.
pub hidden_reasoning :
    (s s' : Stamp) (t : String) (r : LlmResponse) (n : ℕ) (d : ModelEvent) (st : Publishing)
    → st.emitter.debug ≡ false
    → (model_response s s' (redact_response t r) n st ≡ model_response s s' r n st)
      × (model_delta s s' (redact_event t d) st ≡ model_delta s s' d st)
hidden_reasoning s s' t r n d st h = (hidden_response s s' t r n st h, hidden_delta s s' t d st h)
