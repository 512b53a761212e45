-- ===== src/Events.antt =====
-- agent/runtime/events.py: event envelopes, the bounded EventBuffer of a Thread and the
-- subscriptions that wait on it. The calls of the durable sink and of the sequence checkpoint
-- are recorded in order; whether the storage behind them raises is an argument.
pub mod Emitter
pub mod Sequence
pub mod Replay
pub mod Polling
pub mod Hidden
use my_coding_agent.Base.{
  ℕ, zero, suc, ◌+◌, max, String, Bool, true, false, not, ◌&&◌, ◌||◌, Option, none, some, List, [],
  ◌∷◌, ◌++◌, map, length, drop, get_last?, is_empty, contains, filter, ltb, leb, str_eq,
  if◌then◌else◌,
}
use my_coding_agent.Messages.{Fields}
use my_coding_agent.Conversation.Public.{json_safe_fields}

pub record AgentEvent : Type 0 where
  pub schema_version : ℕ
  pub event_id : String
  pub thread_id : String
  pub turn_id : Option String
  pub sequence : ℕ
  pub kind : String
  pub timestamp : String
  pub payload : Fields

pub record EventBatch : Type 0 where
  pub schema_version : ℕ
  pub events : List AgentEvent
  pub cursor_expired : Bool
  pub latest_event_id : Option String

abbrev pub transient_event_types : List String
transient_event_types =
    "model_text_delta" ∷ "model_reasoning_delta" ∷ "model_tool_call_delta" ∷ "model_message_end"
    ∷ "model_error" ∷ "model_activity" ∷ "command_output_delta" ∷ []

abbrev pub turn_terminal_event_types : List String
turn_terminal_event_types =
    "turn_completed" ∷ "turn_failed" ∷ "turn_cancelled" ∷ "turn_limit_reached" ∷ []

-- `id` stands for the identity of the object.
pub record EventSubscription : Type 0 where
  pub id : ℕ
  pub after_event_id : Option String
  pub wake : Bool
  pub closed : Bool

pub record EventBuffer : Type 0 where
  pub capacity : ℕ
  pub events : List AgentEvent
  pub thread_sequence : ℕ
  pub sequence_watermark : ℕ
  pub reservation_size : ℕ
  pub subscriptions : List EventSubscription
  pub has_durable_sink : Bool
  pub has_sequence_checkpoint : Bool
  pub stored_events : List AgentEvent
  pub stored_watermarks : List ℕ

-- `append` of a deque with `maxlen = cap`
unfoldable pub push {ℓ} : {A : Type ℓ} → ℕ → List A → A → List A
push cap xs x = if ltb (length xs) cap then xs ++ (x ∷ []) else drop 1 (xs ++ (x ∷ []))

push_all : ℕ → List AgentEvent → List AgentEvent → List AgentEvent
unfolding push
push_all cap xs [] = xs
push_all cap xs (e ∷ es) = push_all cap (push cap xs e) es

abbrev pub max_sequence : List AgentEvent → ℕ
max_sequence [] = 0
max_sequence (e ∷ es) = max e.sequence (max_sequence es)

abbrev pub or_zero : Option ℕ → ℕ
or_zero none = 0
or_zero (some n) = n

-- `EventBuffer(capacity, events=..., initial_sequence=...)`; `none` is the ValueError.
unfoldable pub new : ℕ → List AgentEvent → Option ℕ → ℕ → Option EventBuffer
unfolding push_all
new capacity events initial reservation =
    let sequence = max (max_sequence events) (or_zero initial) in
    if leb 1 capacity && leb 1 reservation
    then some (record {
      capacity = capacity;
      events = push_all capacity [] events;
      thread_sequence = sequence;
      sequence_watermark = sequence;
      reservation_size = reservation;
      subscriptions = [];
      has_durable_sink = false;
      has_sequence_checkpoint = false;
      stored_events = [];
      stored_watermarks = [];
    })
    else none

unfoldable pub set_durable_sink : Bool → EventBuffer → EventBuffer
set_durable_sink sink b = record b { has_durable_sink = sink }

unfoldable pub set_sequence_checkpoint : Bool → EventBuffer → EventBuffer
set_sequence_checkpoint sink b = record b { has_sequence_checkpoint = sink }

-- A range is reserved before the sequence that needs it is used.
abbrev pub needs_range : EventBuffer → Bool
needs_range b = b.has_sequence_checkpoint && leb b.sequence_watermark b.thread_sequence

abbrev pub next_watermark : EventBuffer → ℕ
next_watermark b = max b.thread_sequence b.sequence_watermark + b.reservation_size

abbrev reserve : Bool → EventBuffer → EventBuffer
reserve checkpoint b = record b {
  sequence_watermark = next_watermark b;
  stored_watermarks =
      if checkpoint then next_watermark b ∷ b.stored_watermarks else b.stored_watermarks;
}

abbrev advance : EventBuffer → EventBuffer
advance b = record b {
  thread_sequence = b.thread_sequence + 1;
  sequence_watermark =
      if b.has_sequence_checkpoint
      then b.sequence_watermark
      else max b.sequence_watermark (b.thread_sequence + 1);
}

-- `checkpoint` is the keyword argument; `stores` tells whether the callback returns. `none` is its
-- exception, before which the watermark has been put back.
unfoldable pub next_sequence : Bool → Bool → EventBuffer → Option EventBuffer
next_sequence checkpoint stores b =
    if needs_range b
    then (if checkpoint && not stores then none else some (advance (reserve checkpoint b)))
    else some (advance b)

abbrev pub notify : EventSubscription → EventSubscription
notify s = if s.closed then s else record s { wake = true }

-- The part of `append` before the sink is called.
abbrev keep_event : AgentEvent → EventBuffer → EventBuffer
keep_event e b = record b {
  thread_sequence = max b.thread_sequence e.sequence;
  sequence_watermark =
      if b.has_sequence_checkpoint
      then b.sequence_watermark
      else max b.sequence_watermark (max b.thread_sequence e.sequence);
  events = push b.capacity b.events e;
}

abbrev pub is_transient : AgentEvent → Bool
is_transient e = contains e.kind transient_event_types

-- `stores` tells whether the sink returns: if it raises, the event has been kept and nobody is
-- woken, and the second part is `false`.
unfoldable pub append : Bool → AgentEvent → EventBuffer → EventBuffer × Bool
unfolding push
append stores e b =
    let kept = keep_event e b in
    let woken = map notify b.subscriptions in
    if b.has_durable_sink && not (is_transient e)
    then (if stores
        then (record kept { stored_events = e ∷ b.stored_events; subscriptions = woken }, true)
        else (kept, false))
    else (record kept { subscriptions = woken }, true)

-- What an emission takes from outside: a new id, the time, and whether the storage returns.
pub record Stamp : Type 0 where
  pub event_id : String
  pub timestamp : String
  pub stores_watermark : Bool
  pub stores_event : Bool

-- An envelope with the next sequence of the buffer, appended to it. The event is `none` where an
-- exception of the storage passed through.
unfoldable pub emit_with :
    Bool
    → Stamp
    → String
    → Option String
    → String
    → Fields
    → EventBuffer
    → EventBuffer × Option AgentEvent
emit_with checkpoint stamp thread_id turn_id kind payload b =
    elim (next_sequence checkpoint stamp.stores_watermark b) [
      | none ↦ (b, none)
      | some b' ↦
          let e : AgentEvent = record {
            schema_version = 1;
            event_id = stamp.event_id;
            thread_id = thread_id;
            turn_id = turn_id;
            sequence = b'.thread_sequence;
            kind = kind;
            timestamp = stamp.timestamp;
            payload = payload;
          } in
          let (b'', stored) = append stamp.stores_event e b' in
          (b'', if stored then some e else none)
    ]

unfoldable pub emit_thread :
    Stamp → String → String → Fields → EventBuffer → EventBuffer × Option AgentEvent
unfolding emit_with
emit_thread stamp thread_id kind payload =
    emit_with true stamp thread_id none kind (json_safe_fields payload)

-- `retained[index + 1 :]` behind the first event with this id
unfoldable pub after_cursor : String → List AgentEvent → Option (List AgentEvent)
after_cursor id [] = none
after_cursor id (e ∷ es) =
    let rest = after_cursor id es in if str_eq e.event_id id then some es else rest

abbrev latest_id : List AgentEvent → Option String
latest_id es = elim (get_last? es) [ none ↦ none | some e ↦ some e.event_id ]

unfoldable pub read : Option String → EventBuffer → EventBatch
read none b = record {
  schema_version = 1;
  events = b.events;
  cursor_expired = false;
  latest_event_id = latest_id b.events;
}
read (some id) b = elim (after_cursor id b.events) [
  | none ↦ record {
    schema_version = 1;
    events = [];
    cursor_expired = true;
    latest_event_id = latest_id b.events;
  }
  | some es ↦ record {
    schema_version = 1;
    events = es;
    cursor_expired = false;
    latest_event_id = latest_id b.events;
  }
]

unfoldable pub subscribe : ℕ → Option String → EventBuffer → EventBuffer × EventSubscription
subscribe id after b =
    let s : EventSubscription = record {
      id = id;
      after_event_id = after;
      wake = false;
      closed = false;
    } in
    (record b { subscriptions = s ∷ b.subscriptions }, s)

-- `EventSubscription.close`: the subscription leaves the buffer's set.
unfoldable pub close : EventSubscription → EventBuffer → EventBuffer × EventSubscription
close s b = if s.closed then (b, s) else (
  record b { subscriptions = filter (λ t. not (leb t.id s.id && leb s.id t.id)) b.subscriptions },
  record s { closed = true; wake = true },
)

-- One round of the loop in `EventSubscription.read`: a batch, or `none` to wait for a wake-up.
unfoldable pub poll : EventSubscription → EventBuffer → Option EventBatch
poll s b =
    let batch = read s.after_event_id b in
    if s.closed
    then some batch
    else if not (is_empty batch.events) || batch.cursor_expired
    then some batch
    else none
