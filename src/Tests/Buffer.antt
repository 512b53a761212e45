-- ===== src/Tests/Buffer.antt =====
-- A full buffer of two events, with a durable mark, and an emitter of a Turn.
use my_coding_agent.Base.{
  ℕ, ◌≡◌, ◌≢◌, refl, String, true, false, none, some, [], ◌∷◌, All, ◌||◌, is_some, arith, eq_iff,
}
use my_coding_agent.Messages.{Fields, Role, text_block, reasoning_block}
use my_coding_agent.Events.{
  AgentEvent, after_cursor, EventBatch, EventBuffer, EventSubscription, Stamp, append, read, poll,
  emit_with, new,
}
use my_coding_agent.Events.Emitter.{
  TurnEventEmitter, Publishing, emit_event, LlmResponse, ModelEvent, model_response, model_delta,
}
use my_coding_agent.Events.Sequence.{IsOrdered, IsReserved, emit_with-IsOrdered}
use my_coding_agent.Events.Replay.{shown, read-append}
use my_coding_agent.Events.Polling.{poll-append}
use my_coding_agent.Events.Hidden.{
  Output, publish_all, publish_all_after_terminal, redact_response, redact_event, hidden_reasoning,
}

abbrev event : String → ℕ → AgentEvent
event id n = record {
  schema_version = 1;
  event_id = id;
  thread_id = "t";
  turn_id = some "u";
  sequence = n;
  kind = "model_response";
  timestamp = "now";
  payload = Fields.end;
}

abbrev stamp : String → Stamp
stamp id = record { event_id = id; timestamp = "now"; stores_watermark = true; stores_event = true }

abbrev waiting_client : EventSubscription
waiting_client = record { id = 0; after_event_id = some "e2"; wake = false; closed = false }

-- The events 1 and 2 are retained, and the sequences up to 4 are reserved.
abbrev buffer : EventBuffer
buffer = record {
  capacity = 2;
  events = event "e1" 1 ∷ event "e2" 2 ∷ [];
  thread_sequence = 2;
  sequence_watermark = 4;
  reservation_size = 4;
  subscriptions = waiting_client ∷ [];
  has_durable_sink = true;
  has_sequence_checkpoint = true;
  stored_events = [];
  stored_watermarks = 4 ∷ [];
}

buffer-IsOrdered : IsOrdered buffer
buffer-IsOrdered = record {
  bounded = omega arith;
  positive = omega arith;
  ascending = ground arith;
}

buffer-IsReserved : IsReserved 0 buffer
buffer-IsReserved = record {
  checkpointed = refl;
  step = omega arith;
  within = omega arith;
  stored = refl;
}

emit_with-IsOrdered_example :
    IsOrdered (emit_with true (stamp "e3") "t" none "note" Fields.end buffer).0
    × IsReserved 0 (emit_with true (stamp "e3") "t" none "note" Fields.end buffer).0
emit_with-IsOrdered_example =
    emit_with-IsOrdered 0 (stamp "e3") "t" none "note" Fields.end buffer buffer-IsOrdered
      buffer-IsReserved

abbrev restored : EventBuffer
restored = record {
  capacity = 2;
  events = event "e1" 1 ∷ [];
  thread_sequence = 4;
  sequence_watermark = 4;
  reservation_size = 4;
  subscriptions = [];
  has_durable_sink = false;
  has_sequence_checkpoint = false;
  stored_events = [];
  stored_watermarks = [];
}

abbrev third_id : String
third_id = "e3"

different : third_id ≢ "e2"
different = ground (arith, eq_iff "e3" "e2")

read-append_example :
    shown (read (some "e2") (append true (event "e3" 3) buffer).0) ≡ (event "e3" 3 ∷ [], false)
unfolding my_coding_agent.Events.after_cursor
read-append_example =
    read-append true buffer "e2" [] (event "e3" 3) (refl, (refl, tt)) refl different

poll-append_example :
    (is_some (poll waiting_client (append true (event "e3" 3) buffer).0) ≡ true)
    × All (λ t. (t.closed || t.wake) ≡ true) (append true (event "e3" 3) buffer).0.subscriptions
unfolding poll read my_coding_agent.Events.after_cursor
poll-append_example =
    poll-append true waiting_client buffer (event "e3" 3) refl (omega arith) (refl, (refl, tt))
      (λ id e. ground (arith, different))

abbrev emitter : TurnEventEmitter
emitter = record {
  thread_id = "t";
  turn_id = "u";
  debug = false;
  terminal_event = none;
  activity_phase = none;
}

abbrev publishing : Publishing
publishing = record { emitter = emitter; buffer = buffer }

abbrev ended : AgentEvent
ended = record (event "e3" 3) { kind = "turn_completed" }

publish_all_after_terminal_example :
    (publish_all
      (Output.plain true (stamp "e4") "note" Fields.end ∷ [])
      (emit_event true (stamp "e3") "turn_completed" Fields.end publishing).0).buffer
    ≡ (emit_event true (stamp "e3") "turn_completed" Fields.end publishing).0.buffer
unfolding emit_event emit_with my_coding_agent.Events.next_sequence append
    my_coding_agent.Conversation.Public.json_safe_fields
publish_all_after_terminal_example =
    publish_all_after_terminal true (stamp "e3") "turn_completed" Fields.end publishing ended
      (Output.plain true (stamp "e4") "note" Fields.end ∷ []) refl refl

abbrev response : LlmResponse
response = record {
  message = record {
    role = Role.assistant;
    content = reasoning_block "a secret" ∷ text_block "hello" ∷ [];
  };
  finish_reason = some "stop";
  usage = record { input_tokens = none; output_tokens = none; total_tokens = none };
}

hidden_reasoning_example :
    (model_response (stamp "e3") (stamp "e4") (redact_response "" response) 1 publishing
      ≡ model_response (stamp "e3") (stamp "e4") response 1 publishing)
    × (model_delta
          (stamp "e3")
          (stamp "e4")
          (redact_event "" (ModelEvent.reasoning_delta "a secret"))
          publishing
        ≡ model_delta (stamp "e3") (stamp "e4") (ModelEvent.reasoning_delta "a secret") publishing)
hidden_reasoning_example =
    hidden_reasoning (stamp "e3") (stamp "e4") "" response 1 (ModelEvent.reasoning_delta "a secret")
      publishing refl
