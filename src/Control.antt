-- ===== src/Control.antt =====
-- agent/runtime/run_controller.py, with AgentLimits of agent/runtime/settings.py: the budgets of a
-- Turn, its cancellation, its deadline and the detection of failure loops. Time is counted in
-- nanoseconds; each reading of the clock is an argument. A method gives the new state and how it
-- ended, since what it wrote before an exception stays written.
pub mod Budgets
pub mod Deadline
pub mod Failures
pub mod Waiting
use Prim.Native.String.{◌++◌ as append_text}
use my_coding_agent.Base.{
  ℕ, suc, ◌+◌, ◌-◌, ◌*◌, String, Bool, true, false, ◌&&◌, Option, none, some, List, [], ◌∷◌, ltb,
  leb, str_eq, if◌then◌else◌,
}
use my_coding_agent.Messages.{Json, Fields, ToolCall}
use my_coding_agent.Conversation.Public.{json_safe_fields}

pub record Limits : Type 0 where
  pub max_iterations : ℕ
  pub max_tool_calls : ℕ
  pub max_execution : ℕ

abbrev in_range : ℕ → ℕ → Bool
in_range n maximum = leb 1 n && leb n maximum

abbrev pub second : ℕ
second = 1_000_000_000

-- `AgentLimits.__post_init__`; `none` is the ValueError.
unfoldable pub make_limits : ℕ → ℕ → ℕ → Option Limits
make_limits iterations tools time =
    if in_range iterations 100 && (in_range tools 500 && in_range time (3600 * second))
    then some (record { max_iterations = iterations; max_tool_calls = tools; max_execution = time })
    else none

pub data Stop : Type 0 where
  limit_reached : String → Stop
  cancelled : Stop
  runtime_error : String → Stop

pub data Outcome : Type 0 where
  returned : Outcome
  raised : Stop → Outcome

pub record Usage : Type 0 where
  pub input_tokens : Option ℕ
  pub output_tokens : Option ℕ
  pub total_tokens : Option ℕ

pub record Controller : Type 0 where
  pub limits : Limits
  pub started_at : ℕ
  pub paused_at : Option ℕ
  pub paused_time : ℕ
  pub deadline_changed : Bool
  pub has_task : Bool
  pub cancel_requested : Bool
  pub last_failure : Option String
  pub consecutive_failures : ℕ
  pub iterations : ℕ
  pub tool_calls : ℕ
  pub last_assistant_text : String
  pub usage : Usage

unfoldable pub new : Limits → ℕ → Controller
new limits now = record {
  limits = limits;
  started_at = now;
  paused_at = none;
  paused_time = 0;
  deadline_changed = false;
  has_task = false;
  cancel_requested = false;
  last_failure = none;
  consecutive_failures = 0;
  iterations = 0;
  tool_calls = 0;
  last_assistant_text = "";
  usage = record { input_tokens = none; output_tokens = none; total_tokens = none };
}

unfoldable pub bind : Controller → Controller
bind c = record c { has_task = true }

-- The value that `cancel` returns, and whether it cancels the bound task, which is done or not.
pub record Cancelling : Type 0 where
  pub controller : Controller
  pub accepted : Bool
  pub cancels_task : Bool

unfoldable pub cancel : Bool → Controller → Cancelling
cancel task_done c =
    if c.cancel_requested
    then record { controller = c; accepted = false; cancels_task = false }
    else record {
      controller = record c { cancel_requested = true };
      accepted = true;
      cancels_task = if c.has_task then (if task_done then false else true) else false;
    }

-- `max(0.0, limit - elapsed)`, with the times that are taken off `elapsed` added to the limit.
unfoldable pub remaining_time : ℕ → Controller → ℕ
remaining_time now c =
    let pause : ℕ = elim c.paused_at [ none ↦ 0 | some p ↦ now - p ] in
    c.limits.max_execution + c.started_at + c.paused_time + pause - now

unfoldable pub checkpoint : ℕ → Controller → Outcome
unfolding remaining_time
checkpoint now c =
    if c.cancel_requested
    then raised cancelled
    else if leb (remaining_time now c) 0
    then raised (limit_reached "execution_timeout")
    else returned

unfoldable pub begin_iteration : ℕ → Controller → Controller × Outcome
begin_iteration now c = elim (checkpoint now c) [
  | raised e ↦ (c, raised e)
  | returned ↦
      if leb c.limits.max_iterations c.iterations
      then (c, raised (limit_reached "max_iterations"))
      else (record c { iterations = c.iterations + 1 }, returned)
]

unfoldable pub begin_tool : ℕ → Controller → Controller × Outcome
begin_tool now c = elim (checkpoint now c) [
  | raised e ↦ (c, raised e)
  | returned ↦
      if leb c.limits.max_tool_calls c.tool_calls
      then (c, raised (limit_reached "max_tool_calls"))
      else (record c { tool_calls = c.tool_calls + 1 }, returned)
]

-- `(self.usage[name] or 0) + value`, when the response gives a value
abbrev pub add_usage : Option ℕ → Option ℕ → Option ℕ
add_usage old none = old
add_usage none (some v) = some (0 + v)
add_usage (some u) (some v) = some (u + v)

unfoldable pub record_model_response : Usage → String → Controller → Controller
record_model_response u text c = record c {
  last_assistant_text = text;
  usage = record {
    input_tokens = add_usage c.usage.input_tokens u.input_tokens;
    output_tokens = add_usage c.usage.output_tokens u.output_tokens;
    total_tokens = add_usage c.usage.total_tokens u.total_tokens;
  };
}

abbrev pub repeated_failure_limit : ℕ
repeated_failure_limit = 3

abbrev pub same_failure : Option String → String → Bool
same_failure none f = false
same_failure (some g) f = str_eq g f

-- `_failure_fingerprint`, with `json.dumps` of the standard library as an argument.
unfoldable pub failure_fingerprint : (Json → String) → ToolCall → String → String
failure_fingerprint dumps call error_code =
    let raw : Json = elim call.raw_arguments [ none ↦ Json.null | some s ↦ Json.text s ] in
    let arguments : Json = elim call.arguments [
      | some fs ↦ Json.object (json_safe_fields fs)
      | none ↦ Json.object (Fields.field "raw_arguments" raw Fields.end)
    ] in
    append_text call.name
      (append_text "\0" (append_text (dumps arguments) (append_text "\0" error_code)))

-- The failure's fingerprint, or `none` where the result has no error code.
unfoldable pub record_tool_result : Option String → Controller → Controller × Outcome
record_tool_result none c = (record c { last_failure = none; consecutive_failures = 0 }, returned)
record_tool_result (some f) c =
    let c' = record c {
      last_failure = some f;
      consecutive_failures =
          if same_failure c.last_failure f then c.consecutive_failures + 1 else 1;
    } in
    if leb repeated_failure_limit c'.consecutive_failures
    then (c', raised (limit_reached "repeated_tool_failure"))
    else (c', returned)

-- The two readings of the clock are those of `checkpoint` and of the pause.
unfoldable pub pause_deadline : ℕ → ℕ → Controller → Controller × Outcome
pause_deadline now now' c = elim c.paused_at [
  | some _ ↦ (c, raised (runtime_error "execution deadline is already paused"))
  | none ↦ elim (checkpoint now c) [
    | raised e ↦ (c, raised e)
    | returned ↦ (record c { paused_at = some now'; deadline_changed = true }, returned)
  ]
]

unfoldable pub resume_deadline : ℕ → Controller → Controller × Outcome
resume_deadline now c = elim c.paused_at [
  | none ↦ (c, raised (runtime_error "execution deadline is not paused"))
  | some p ↦ (
    record c { paused_time = c.paused_time + (now - p); paused_at = none; deadline_changed = true },
    returned,
  )
]
