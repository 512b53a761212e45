-- ===== src/Tests/Model.antt =====
-- A stream that is assembled, and calls of a provider whose first attempt fails.
use my_coding_agent.Base.{
  ℕ, zero, suc, String, Bool, true, false, Option, none, some, List, [], ◌∷◌, ◌≡◌, refl,
}
use my_coding_agent.Base.Dict
use my_coding_agent.Messages.{Json, Fields, Role, text_block, reasoning_block, call_block}
use my_coding_agent.Events.Emitter.{
  LlmResponse, ModelEvent, text_delta, reasoning_delta, tool_call_delta, message_end, error_event,
}
use my_coding_agent.Model.{
  MessageAssembler, parsed, new_assembler, call_at, put_call, add_tool_call, add, add_all, assemble,
}
use my_coding_agent.Model.Invoker.{LlmError, Reply, Answer, StreamEnd, Provider, chat}
use my_coding_agent.Model.Streaming.{read_events, read_attempt, stream_from, stream}
use my_coding_agent.Model.Retrying.{IsBounded, is_exhausted, chat-IsBounded}
use my_coding_agent.Model.Attempts.{FromOne, stream-FromOne}

abbrev loads : String → Option Json
loads text = some (Json.object Fields.end)

abbrev events : List ModelEvent
events =
    reasoning_delta "look"
    ∷ text_delta "Rea"
    ∷ tool_call_delta 1 (some "b") (some "read_file") (some "{")
    ∷ tool_call_delta 0 (some "a") (some "list_files") none
    ∷ text_delta "ding"
    ∷ tool_call_delta 1 none none (some "}")
    ∷ message_end (some "tool_calls") none
    ∷ []

abbrev collected : MessageAssembler
collected = record {
  text = "Rea" ∷ "ding" ∷ [];
  reasoning = "look" ∷ [];
  tool_calls =
      (1, record { id = some "b"; name = some "read_file"; arguments = "{" ∷ "}" ∷ [] })
      ∷ (0, record { id = some "a"; name = some "list_files"; arguments = [] })
      ∷ [];
  ids = ("b", 1) ∷ ("a", 0) ∷ [];
  finished = true;
  finish_reason = some "tool_calls";
  usage = none;
  delta_seen = true;
}

abbrev response : LlmResponse
response = record {
  message = record {
    role = Role.assistant;
    content =
        reasoning_block "look"
        ∷ text_block "Reading"
        ∷ call_block (record {
          id = "a";
          name = "list_files";
          arguments = some Fields.end;
          arguments_error = none;
          raw_arguments = some "";
        })
        ∷ call_block (record {
          id = "b";
          name = "read_file";
          arguments = some Fields.end;
          arguments_error = none;
          raw_arguments = some "{}";
        })
        ∷ [];
  };
  finish_reason = some "tool_calls";
  usage = record { input_tokens = none; output_tokens = none; total_tokens = none };
}

collected_lem : add_all new_assembler events ≡ parsed collected
unfolding add_all add add_tool_call my_coding_agent.Base.Dict.lookup call_at
    my_coding_agent.Base.Dict.insert put_call
collected_lem = refl

assembled_lem : assemble loads collected ≡ parsed response
unfolding assemble
assembled_lem = refl

abbrev busy : LlmError
busy = record { name = "LLMRateLimitError"; message = "busy"; retryable = true; fallback = none }

abbrev stream_events : ℕ → List ModelEvent
stream_events zero = text_delta "" ∷ []
stream_events (suc n) = events

abbrev stream_end : ℕ → StreamEnd
stream_end zero = StreamEnd.raised busy
stream_end (suc n) = StreamEnd.ended

abbrev provider : Provider
provider = record {
  streams = true;
  chat_reply = λ n. Answer.error busy;
  stream_events = stream_events;
  stream_end = stream_end;
  wait_cancelled = λ n. false;
  loads = loads;
  words = λ e. "malformed";
}

second_attempt : (stream provider (500 ∷ [])).reply ≡ Reply.answered response
unfolding stream stream_from read_attempt read_events add add_tool_call assemble call_at put_call
    Dict.lookup Dict.insert
second_attempt = refl

stream-FromOne_example :
    FromOne provider (500 ∷ []) (stream provider (500 ∷ [])).shown
    × (is_exhausted (stream provider (500 ∷ [])).reply ≡ false)
stream-FromOne_example = stream-FromOne provider (500 ∷ []) refl

chat-IsBounded_example : IsBounded 5 (chat provider (500 ∷ 1000 ∷ []))
chat-IsBounded_example = chat-IsBounded provider (500 ∷ 1000 ∷ [])

-- A provider that answers a streamed request with a whole response
abbrev whole : Provider
whole = record provider {
  stream_events = λ n. [];
  stream_end = λ n. StreamEnd.raised (record {
    name = "LLMStreamingNotImplementedError";
    message = "not streamed";
    retryable = false;
    fallback = some (some response);
  });
}

-- An error event is shown, and the call has an answer.
answered_after_error :
    (◌≡◌ {A = List ModelEvent}
      (stream whole []).shown
      (error_event "not streamed" (some "LLMStreamingNotImplementedError") false ∷ []))
    × ((stream whole []).reply ≡ Reply.answered response)
unfolding stream stream_from read_attempt read_events
answered_after_error = (refl, refl)
