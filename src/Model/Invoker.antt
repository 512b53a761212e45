-- ===== src/Model/Invoker.antt =====
-- agent/runtime/model_invoker.py: one request to the model, with its retries. What the provider answers to each
-- attempt, and whether the wait behind it is cancelled, are arguments; times are in milliseconds.
use my_coding_agent.Base.{
  ℕ, zero, suc, ◌+◌, String, Bool, false, not, ◌||◌, Option, none, some, List, [], ◌∷◌, ◌==◌, min,
  if◌then◌else◌, str_eq,
}
use my_coding_agent.Messages.{Json}
use my_coding_agent.Events.Emitter.{LlmResponse, ModelEvent}
use my_coding_agent.Model.{ParseError}

-- The token limit of a Thread: not set, set to none, or a number
pub data Explicit : Type 0 where
  unset omitted : Explicit
  limit : ℕ → Explicit

abbrev clamped : Option ℕ → Option ℕ → Option ℕ
clamped none model_max = none
clamped (some base) none = some base
clamped (some base) (some most) = some (min base most)

-- `resolve_output_limit`, on the model's maximum and the default of a request; none is the raised ValueError.
unfoldable pub resolve_output_limit : Explicit → Option ℕ → Option ℕ → Option (Option ℕ)
resolve_output_limit Explicit.unset model_max default = some (clamped default model_max)
resolve_output_limit Explicit.omitted model_max default = some none
resolve_output_limit (Explicit.limit n) model_max default =
    if n == 0 then none else some (clamped (some n) model_max)

-- An LLMError: the name of its class, and for an LLMStreamingNotImplementedError its fallback response
pub record LlmError : Type 0 where
  pub name : String
  pub message : String
  pub retryable : Bool
  pub fallback : Option (Option LlmResponse)

-- What the provider answers to one request: `broken` is a cancellation or another exception.
pub data Answer : Type 0 where
  response : LlmResponse → Answer
  error : LlmError → Answer
  broken : Answer

-- What a call gives: `stopped` is a cancellation or another exception, and `exhausted` is the AssertionError
-- behind the loop.
pub data Reply : Type 0 where
  answered : LlmResponse → Reply
  failed : LlmError → Reply
  stopped exhausted : Reply

pub data StreamEnd : Type 0 where
  ended cut : StreamEnd
  raised : LlmError → StreamEnd

pub record Provider : Type 0 where
  pub streams : Bool
  pub chat_reply : ℕ → Answer
  pub stream_events : ℕ → List ModelEvent
  pub stream_end : ℕ → StreamEnd
  pub wait_cancelled : ℕ → Bool
  pub loads : String → Option Json
  pub words : ParseError → String

-- The replies, and the waits between the attempts
pub record ChatRun : Type 0 where
  pub reply : Reply
  pub requests : ℕ
  pub waits : List ℕ

abbrev pub delay_at : List ℕ → ℕ → ℕ
delay_at [] attempt = 0
delay_at (d ∷ delays) zero = d
delay_at (d ∷ delays) (suc attempt) = delay_at delays attempt

-- The wait behind an attempt, where it takes time
abbrev pub wait_then : ℕ → Bool → ChatRun → ChatRun
wait_then delay cancelled rest =
    if delay == 0
    then record rest { requests = rest.requests + 1 }
    else if cancelled
    then record { reply = Reply.stopped; requests = 1; waits = delay ∷ [] }
    else record { reply = rest.reply; requests = rest.requests + 1; waits = delay ∷ rest.waits }

abbrev pub once : Reply → ChatRun
once reply = record { reply = reply; requests = 1; waits = [] }

abbrev pub after_reply : ℕ → Answer → ChatRun → ChatRun
after_reply attempt (Answer.response r) again = once (Reply.answered r)
after_reply attempt (Answer.error e) again =
    if not e.retryable || (attempt == 4) then once (Reply.failed e) else again
after_reply attempt Answer.broken again = once Reply.stopped

module _ (p : Provider) (delays : List ℕ) where
  -- The rest of `for attempt in range(5)`
  unfoldable pub chat_from : ℕ → ℕ → ChatRun
  chat_from zero attempt = record { reply = Reply.exhausted; requests = 0; waits = [] }
  chat_from (suc left) attempt =
      let rest = chat_from left (suc attempt) in
      after_reply attempt (p.chat_reply attempt)
        (wait_then (delay_at delays attempt) (p.wait_cancelled attempt) rest)

  unfoldable pub chat : ChatRun
  chat = chat_from 5 0

abbrev is_code : Option String → String → Bool
is_code none name = false
is_code (some code) name = str_eq code name

-- `_error_from_event`: every class but two is a connection error.
abbrev pub error_from_event : String → Option String → Bool → LlmError
error_from_event message code retryable =
    if is_code code "LLMResponseParseError"
    then record {
      name = "LLMResponseParseError";
      message = message;
      retryable = false;
      fallback = none;
    }
    else if is_code code "LLMStreamingNotImplementedError"
    then record {
      name = "LLMStreamingNotImplementedError";
      message = message;
      retryable = false;
      fallback = some none;
    }
    else record {
      name = "LLMConnectionError";
      message = message;
      retryable = retryable;
      fallback = none;
    }

abbrev pub parse_failure : String → LlmError
parse_failure message = record {
  name = "LLMResponseParseError";
  message = message;
  retryable = false;
  fallback = none;
}
