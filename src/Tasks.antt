-- ===== src/Tasks.antt =====
-- agent/host/turn_tasks.py: the background Turns of the Host, one at most for each Thread. The
-- Thread catalog answers each call by its view; the event loop runs `_run` as steps of its own.
-- The number of a submission stands for the identity of the object.
pub mod Lifecycle
use Prim.Native.Char.{code}
use Prim.Native.String.{String as Text}
use my_coding_agent.Base.{
  ℕ, suc, ◌+◌, String, Bool, true, false, not, ◌&&◌, ◌||◌, Option, none, some, List, [], ◌∷◌, map,
  get_last?, is_some, ◌==◌, leb, str_eq, if◌then◌else◌,
}
use my_coding_agent.Base.Dict
use my_coding_agent.Base.Texts.{is_blank}
use my_coding_agent.Base.Dict.{Dict}
use my_coding_agent.Messages.{Json, Fields}
use my_coding_agent.Events.{AgentEvent}

pub record Submission : Type 0 where
  pub number : ℕ
  pub thread_id : String
  pub accepted_at : String
  pub transport_status : Option String

pub record Failure : Type 0 where
  pub code : String
  pub message : String

pub record TurnTaskManager : Type 0 where
  pub submissions : Dict Submission
  pub failures : Dict Failure
  pub accepting : Bool
  pub created : ℕ

abbrev pub init : TurnTaskManager
init = record { submissions = []; failures = []; accepting = true; created = 0 }

-- What the catalog shows of a Thread, and whether it has a Runtime.
pub record View : Type 0 where
  pub status : String
  pub active_turn_id : Option String
  pub has_runtime : Bool

pub record PublicSubmission : Type 0 where
  pub thread_id : String
  pub status : String
  pub accepted_at : String

abbrev public : Submission → String → PublicSubmission
public s status = record { thread_id = s.thread_id; status = status; accepted_at = s.accepted_at }

pub data Error : Type 0 where
  shutting_down empty_message unknown_thread thread_closed : Error
  turn_already_running runtime_unavailable no_active_turn : Error

pub data Result (A : Type 0) : Type 0 where
  ok : A → Result A
  err : Error → Result A

-- `start`, up to the first time that the new task may run; the view is `none` where `get_thread`
-- raises.
unfoldable pub start :
    String
    → String
    → Option View
    → String
    → TurnTaskManager
    → TurnTaskManager × Result PublicSubmission
start thread_id user_text view now m =
    if not m.accepting
    then (m, err shutting_down)
    else if is_blank user_text
    then (m, err empty_message)
    else elim view [
      | none ↦ (m, err unknown_thread)
      | some v ↦
          if str_eq v.status "closed"
          then (m, err thread_closed)
          else if is_some (Dict.lookup thread_id m.submissions) || is_some v.active_turn_id
          then (m, err turn_already_running)
          else if not v.has_runtime
          then (m, err runtime_unavailable)
          else let s : Submission = record {
            number = m.created;
            thread_id = thread_id;
            accepted_at = now;
            transport_status = none;
          } in
            (
              record m {
                submissions = Dict.insert thread_id s m.submissions;
                failures = Dict.remove thread_id m.failures;
                created = m.created + 1;
              },
              ok (public s "starting"),
            )
    ]

unfoldable pub inspect : String → Option View → TurnTaskManager → Result (Option PublicSubmission)
inspect thread_id view m = elim (Dict.lookup thread_id m.submissions) [
  | none ↦ ok none
  | some s ↦ elim view [
    | none ↦ err unknown_thread
    | some v ↦ elim s.transport_status [
      | some status ↦ ok (some (public s status))
      | none ↦ ok (some (public s (if is_some v.active_turn_id then "running" else "starting")))
    ]
  ]
]

unfoldable pub inspect_failure : String → TurnTaskManager → Option Failure
inspect_failure thread_id m = Dict.lookup thread_id m.failures

-- What `cancel` asks for: the asyncio task itself, or the Turn through the Runtime.
pub data Target : Type 0 where
  task : ℕ → Target
  runtime_turn : String → Target

abbrev mark_cancelling : Submission → TurnTaskManager → TurnTaskManager
mark_cancelling s m = record m {
  submissions =
      Dict.insert s.thread_id (record s { transport_status = some "cancelling" }) m.submissions;
}

-- `runtime_cancels` is the answer of `runtime.cancel_turn`.
unfoldable pub cancel :
    String
    → Option View
    → Bool
    → TurnTaskManager
    → TurnTaskManager × Result (PublicSubmission × Target)
cancel thread_id view runtime_cancels m = elim (Dict.lookup thread_id m.submissions) [
  | none ↦ (m, err no_active_turn)
  | some s ↦ elim view [
    | none ↦ (m, err unknown_thread)
    | some v ↦ elim v.active_turn_id [
      | none ↦ (mark_cancelling s m, ok (public s "cancelling", task s.number))
      | some turn ↦
          if v.has_runtime && runtime_cancels
          then (mark_cancelling s m, ok (public s "cancelling", runtime_turn thread_id))
          else (m, err no_active_turn)
    ]
  ]
]

-- `error.get("code")` on a JSON object
abbrev field_of : String → Fields → Option Json
field_of k Fields.end = none
field_of k (Fields.field j v fs) = if str_eq j k then some v else field_of k fs

abbrev text_field : String → Fields → Option String
text_field k fs = elim (field_of k fs) [ some (Json.text s) ↦ some s | _ ↦ none ]

abbrev failure_of : Option String → Option String → Option Failure
failure_of (some code) (some message) = some (record { code = code; message = message })
failure_of _ _ = none

-- `_latest_rejection`; `none` for the events where they cannot be read.
unfoldable pub latest_rejection : Option (List AgentEvent) → Option Failure
latest_rejection none = none
latest_rejection (some es) = elim (get_last? es) [
  | none ↦ none
  | some e ↦
      if str_eq e.kind "turn_rejected"
      then (elim (field_of "error" e.payload) [
        | some (Json.object error) ↦
            failure_of (text_field "code" error) (text_field "message" error)
        | _ ↦ none
      ])
      else none
]

abbrev or_failure : Option Failure → Failure → Failure
or_failure none f = f
or_failure (some f) _ = f

-- `_record_failure`
unfoldable pub record_failure :
    String → Failure → Option (List AgentEvent) → TurnTaskManager → TurnTaskManager
unfolding latest_rejection
record_failure thread_id fallback events m = record m {
  failures = Dict.insert thread_id (or_failure (latest_rejection events) fallback) m.failures;
}

-- How `run_turn` ended.
pub data Ended : Type 0 where
  completed cancelled failed : Ended

after_end : Ended → String → Option (List AgentEvent) → TurnTaskManager → TurnTaskManager
unfolding record_failure
after_end completed thread_id events m = m
after_end cancelled thread_id events m =
    record_failure thread_id
      (record {
        code = "TURN_CANCELLED_BEFORE_START";
        message = "Turn was cancelled before it started";
      })
      events m
after_end failed thread_id events m =
    record_failure thread_id
      (record { code = "TURN_TASK_FAILED"; message = "Agent Turn task failed" }) events m

abbrev is_current : Submission → Option Submission → Bool
is_current s none = false
is_current s (some t) = t.number == s.number

-- The `finally` of `_run`
leave : Submission → TurnTaskManager → TurnTaskManager
leave s m =
    if is_current s (Dict.lookup s.thread_id m.submissions)
    then record m { submissions = Dict.remove s.thread_id m.submissions }
    else m

-- `_run`, once `run_turn` has ended
unfoldable pub finish_run :
    Submission → Ended → Option (List AgentEvent) → TurnTaskManager → TurnTaskManager
unfolding after_end leave
finish_run s ended events m = leave s (after_end ended s.thread_id events m)

-- `shutdown`, up to the wait for the tasks: the numbers of those that it cancels.
unfoldable pub shutdown_begins : TurnTaskManager → TurnTaskManager × List ℕ
shutdown_begins m = (record m { accepting = false }, map (λ s. s.1.number) m.submissions)

-- The end of `shutdown`, once the tasks have been gathered
unfoldable pub shutdown_ends : TurnTaskManager → TurnTaskManager
shutdown_ends m = record m { submissions = [] }
