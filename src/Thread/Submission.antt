-- ===== src/Thread/Submission.antt =====
-- `run_turn` of agent/runtime/thread_runtime.py up to its first await: the submission of a Turn.
use my_coding_agent.Base.{
  String, Bool, true, false, not, ◌&&◌, ◌||◌, Option, none, some, is_some, str_eq, leb,
  if◌then◌else◌,
}
use my_coding_agent.Base.Dict
use my_coding_agent.Base.Dict.{Dict}
use my_coding_agent.Base.Texts.{is_blank, text_length}
use my_coding_agent.Thread.{
  ThreadStatus, idle, closed, TurnSummary, IdempotentSubmission, ThreadRecord,
}

-- `_validate_idempotency_key`
abbrev pub is_valid_key : Option String → Bool
is_valid_key none = true
is_valid_key (some key) = not (is_blank key) && leb (text_length key) 200

abbrev pub is_idle : ThreadStatus → Bool
is_idle idle = true
is_idle _ = false

abbrev pub is_closed : ThreadStatus → Bool
is_closed closed = true
is_closed _ = false

-- How `run_turn` goes on: it returns a summary, waits for the first submission's future, raises, or has
-- reserved the Turn and awaits the check of the workspace.
pub data Submitted : Type 0 where
  replayed : TurnSummary → Submitted
  awaits_first : Submitted
  reserved : Submitted
  invalid_key conflict interrupted_before thread_closed thread_busy : Submitted

abbrev pub same_option : Option String → Option String → Bool
same_option none none = true
same_option none (some _) = false
same_option (some _) none = false
same_option (some a) (some b) = str_eq a b

-- What a submission with a key that was used gives.
abbrev pub repeated : String → Option String → IdempotentSubmission → Submitted
repeated user_text override s =
    if not (str_eq s.stored.user_text user_text)
      || not (same_option s.stored.settings_override override)
    then conflict
    else if s.stored.interrupted
    then interrupted_before
    else (elim s.stored.summary [ some summary ↦ replayed summary | none ↦ awaits_first ])

abbrev find_submission : Option String → ThreadRecord → Option IdempotentSubmission
find_submission none r = none
find_submission (some key) r = Dict.lookup key r.idempotent_submissions

abbrev pub reserve : String → ThreadRecord → ThreadRecord × Submitted
reserve turn_id r =
    if not (is_idle r.status) || is_some r.preflight_turn_id
    then (if is_closed r.status || r.closing then (r, thread_closed) else (r, thread_busy))
    else (record r { preflight_turn_id = some turn_id }, reserved)

-- `run_turn`, up to the first await
unfoldable pub submit :
    String → Option String → Option String → String → ThreadRecord → ThreadRecord × Submitted
submit user_text override key turn_id r =
    if not (is_valid_key key) then (r, invalid_key) else (elim (find_submission key r) [
      | some s ↦ (r, repeated user_text override s)
      | none ↦ reserve turn_id r
    ])
