-- ===== src/Model/Streaming.antt =====
-- `ModelInvoker.stream` of agent/runtime/model_invoker.py. The events that `on_event` is given are kept in a list.
use my_coding_agent.Base.{
  ℕ, zero, suc, Bool, true, false, not, ◌&&◌, ◌||◌, Option, none, some, List, [], ◌∷◌, ◌++◌, ltb,
  ◌==◌, if◌then◌else◌,
}
use my_coding_agent.Events.Emitter.{
  LlmResponse, ModelEvent, text_delta, reasoning_delta, tool_call_delta, message_end, error_event,
}
use my_coding_agent.Model.{MessageAssembler, Checked, parsed, refused, new_assembler, add, assemble}
use my_coding_agent.Model.Invoker.{
  LlmError, Reply, Answer, StreamEnd, Provider, delay_at, chat, error_from_event, parse_failure,
}

-- One attempt: what was shown, whether a delta was seen, how it ended, and whether its error was shown
pub record StreamAttempt : Type 0 where
  pub shown : List ModelEvent
  pub delta_seen : Bool
  pub reply : Answer
  pub delivered : Bool

abbrev pub started_attempt : Bool → Answer → StreamAttempt
started_attempt seen reply = record {
  shown = [];
  delta_seen = seen;
  reply = reply;
  delivered = false;
}

abbrev pub shown_first : ModelEvent → StreamAttempt → StreamAttempt
shown_first e attempt = record attempt { shown = e ∷ attempt.shown }

abbrev ends_stream : ModelEvent → Bool
ends_stream (message_end _ _) = true
ends_stream _ = false

abbrev pub seen_after : Bool → ModelEvent → MessageAssembler → Bool
seen_after seen e a = if ends_stream e then seen else seen || a.delta_seen

abbrev pub error_attempt : ℕ → Bool → ModelEvent → LlmError → StreamAttempt
error_attempt number seen e error =
    if not seen && error.retryable && ltb number 4
    then started_attempt seen (Answer.error error)
    else record { shown = e ∷ []; delta_seen = seen; reply = Answer.error error; delivered = true }

module _ (p : Provider) where
  abbrev assembled : Checked LlmResponse → Answer
  assembled (parsed r) = Answer.response r
  assembled (refused e) = Answer.error (parse_failure (p.words e))

  abbrev pub ending : MessageAssembler → StreamEnd → Answer
  ending a StreamEnd.ended = assembled (assemble p.loads a)
  ending a StreamEnd.cut = Answer.broken
  ending a (StreamEnd.raised e) = Answer.error e

  abbrev pub added :
      Bool
      → ModelEvent
      → Checked MessageAssembler
      → (Bool → MessageAssembler → StreamAttempt)
      → StreamAttempt
  added seen e (refused r) go = started_attempt seen (Answer.error (parse_failure (p.words r)))
  added seen e (parsed a) go = shown_first e (go (seen_after seen e a) a)

  -- `async for event in self._provider.stream(request)`, with what ends it
  unfoldable pub read_events : ℕ → Bool → MessageAssembler → List ModelEvent → StreamAttempt
  read_events number seen a [] = started_attempt seen (ending a (p.stream_end number))
  read_events number seen a (error_event m c r ∷ es) =
      error_attempt number seen (error_event m c r) (error_from_event m c r)
  read_events number seen a (text_delta t ∷ es) =
      added seen (text_delta t) (add a (text_delta t)) λ s b. read_events number s b es
  read_events number seen a (reasoning_delta t ∷ es) =
      added seen (reasoning_delta t) (add a (reasoning_delta t)) λ s b. read_events number s b es
  read_events number seen a (tool_call_delta i c n d ∷ es) =
      added seen (tool_call_delta i c n d) (add a (tool_call_delta i c n d))
        λ s b. read_events number s b es
  read_events number seen a (message_end r u ∷ es) =
      added seen (message_end r u) (add a (message_end r u)) λ s b. read_events number s b es

  unfoldable pub read_attempt : ℕ → StreamAttempt
  read_attempt number = read_events number false new_assembler (p.stream_events number)

-- What the whole call gives, and what it has shown
pub record Streamed : Type 0 where
  pub shown : List ModelEvent
  pub reply : Reply

abbrev pub is_terminal : ℕ → Bool → LlmError → Bool
is_terminal number seen e = seen || not e.retryable || (number == 4)

-- The error event behind a terminal error that was not shown yet
abbrev pub last_event : Bool → Bool → LlmError → List ModelEvent
last_event terminal delivered e =
    if terminal && not delivered then error_event e.message (some e.name) e.retryable ∷ [] else []

abbrev pub again_unless : ℕ → Bool → Streamed → Streamed
again_unless delay cancelled rest =
    if not (delay == 0) && cancelled then record { shown = []; reply = Reply.stopped } else rest

abbrev pub shown_before : List ModelEvent → Streamed → Streamed
shown_before es rest = record rest { shown = es ++ rest.shown }

module _ (p : Provider) (delays : List ℕ) where
  abbrev pub after_error : ℕ → Bool → LlmError → Option (Option LlmResponse) → Streamed → Streamed
  after_error number seen e (some (some response)) rest = record {
    shown = [];
    reply = Reply.answered response;
  }
  after_error number seen e (some none) rest = record { shown = []; reply = (chat p delays).reply }
  after_error number seen e none rest =
      if is_terminal number seen e then record { shown = []; reply = Reply.failed e } else rest

  abbrev pub after_attempt : ℕ → List ModelEvent → Bool → Bool → Answer → Streamed → Streamed
  after_attempt number shown seen delivered (Answer.error e) rest =
      shown_before (shown ++ last_event (is_terminal number seen e) delivered e)
        (after_error number seen e e.fallback rest)
  after_attempt number shown seen delivered (Answer.response r) rest = record {
    shown = shown;
    reply = Reply.answered r;
  }
  after_attempt number shown seen delivered Answer.broken rest = record {
    shown = shown;
    reply = Reply.stopped;
  }

  -- The rest of `for attempt in range(5)`
  unfoldable pub stream_from : ℕ → ℕ → Streamed
  stream_from zero number = record { shown = []; reply = Reply.exhausted }
  stream_from (suc left) number =
      let rest = stream_from left (suc number) in
      let attempt = read_attempt p number in
      after_attempt number attempt.shown attempt.delta_seen attempt.delivered attempt.reply
        (again_unless (delay_at delays number) (p.wait_cancelled number) rest)

  -- `stream`
  unfoldable pub stream : Streamed
  stream =
      if p.streams then stream_from 5 0 else record { shown = []; reply = (chat p delays).reply }
