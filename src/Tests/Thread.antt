-- ===== src/Tests/Thread.antt =====
-- A Thread whose Turn is submitted, runs two tools, ends, and survives a restart.
use my_coding_agent.Base.{
  ◌≡◌, refl, true, false, none, some, List, [], ◌∷◌, if◌then◌else◌, str_eq, ◌&&◌,
}
use my_coding_agent.Base.Dict
use my_coding_agent.Base.Dict.{Dict}
use my_coding_agent.Conversation.{pending_calls}
use my_coding_agent.Lease.{FilePath, Acquired}
use my_coding_agent.Thread.{
  ActiveTurn, StoredActiveTurn, StoredIdempotency, TurnSummary, ThreadState, ThreadRecord,
  create_thread, running, TurnStatus, ThreadStatus,
}
use my_coding_agent.Thread.Submission.{submit, replayed, conflict, interrupted_before, same_option}
use my_coding_agent.Thread.Turns.{Preflight, preflight, begin_turn, Ending, Closing, run_active}
use my_coding_agent.Thread.Restart.{restore, is_working}
use my_coding_agent.Thread.Invariant.{IsWellFormed, IsRestorable}
use my_coding_agent.Thread.Steps.{ThreadStep, ThreadSteps, steps-IsWellFormed, restart_rests}
use my_coding_agent.Thread.Replay.{run_active_replays, restore_refuses}
use my_coding_agent.Tests.Turn.{as_given, parts, around, limits}

abbrev pub root : FilePath
root = "home" ∷ "a" ∷ []

abbrev new_thread : ThreadRecord
new_thread = create_thread root "You are an agent." "t0"

abbrev ready : Preflight
ready = record {
  check = none;
  acquired = Acquired.leased (record { lease_id = "lease"; workspace = root });
  preparation = none;
  limits = limits;
  clock = 0;
  now = "t1";
}

abbrev reserved_thread : ThreadRecord
reserved_thread = (submit "hello" none (some "key") "turn" new_thread).0

abbrev begun : ThreadRecord
begun = preflight "hello" none (some "key") "turn" ready reserved_thread

abbrev first : ActiveTurn
first = record {
  turn_id = "turn";
  started_at = "t1";
  idempotency_key = some "key";
  controller = my_coding_agent.Control.bind (my_coding_agent.Control.new limits 0);
}

abbrev ends : Closing
ends = record { file_diffs = []; diff_complete = true; now = "t2" }

abbrev ended : ThreadRecord
ended = run_active 3 parts around Ending.runtime_error ends first begun

reserved_lem : reserved_thread.preflight_turn_id ≡ some "turn"
unfolding create_thread submit my_coding_agent.Base.Texts.is_blank Dict.lookup
reserved_lem = refl

begun_lem : begun.active_turn ≡ some first
unfolding create_thread submit preflight my_coding_agent.Base.Texts.is_blank Dict.lookup
begun_lem = refl

to_begun : ThreadSteps as_given new_thread begun
unfolding create_thread submit my_coding_agent.Base.Texts.is_blank Dict.lookup
to_begun =
    ThreadSteps.after
      (ThreadSteps.after ThreadSteps.start (ThreadStep.submitted "hello" none (some "key") "turn"))
      (ThreadStep.preflighted "hello" none (some "key") "turn" ready reserved_lem tt)

steps-IsWellFormed_example : IsWellFormed ended
steps-IsWellFormed_example = steps-IsWellFormed as_given root "You are an agent." "t0" ended (
    ThreadSteps.after to_begun
      (ThreadStep.ran 3 parts around Ending.runtime_error ends first begun_lem))

-- What is stored when the Turn has begun.
abbrev started : ThreadState
started = my_coding_agent.Thread.state_of begun

begun-saved : (older : List ThreadState) × (begun.saved ≡ started ∷ older)
unfolding create_thread submit preflight my_coding_agent.Base.Texts.is_blank Dict.lookup
begun-saved = (_, refl)

restart_rests_example :
    let t = restore as_given "new" "t3" begun.workspace begun.saved started in
    (pending_calls t.conversation ≡ [])
    × (is_working t.status ≡ false)
    × (t.active_turn ≡ none)
    × (t.lease ≡ none)
restart_rests_example =
    restart_rests as_given root "You are an agent." "t0" "new" "t3" begun started begun-saved.0
      to_begun begun-saved.1

run_active_replays_example :
    let r = begin_turn "hello" none (some "key") "turn" ready reserved_thread in
    let t = run_active 3 parts around Ending.runtime_error ends first r in
    (summary : TurnSummary) × (t.latest_turn ≡ some summary)
    × (submit "hello" none (some "key") "other" t ≡ (
      t,
      if str_eq "hello" "hello" && same_option none none then replayed summary else conflict,
    ))
unfolding my_coding_agent.Base.Texts.is_blank
run_active_replays_example =
    run_active_replays "hello" "hello" none none "key" "turn" "other" ready 3 parts around
      Ending.runtime_error ends first reserved_thread refl refl

abbrev stored_key : StoredIdempotency
stored_key = record {
  user_text = "hello";
  settings_override = none;
  summary = none;
  interrupted = false;
}

started-IsRestorable : IsRestorable started
unfolding preflight submit my_coding_agent.Base.Texts.is_blank Dict.lookup create_thread
started-IsRestorable = record { quiet = tt; status = refl; new = tt; counted = refl }

abbrev stored_first : StoredActiveTurn
stored_first = record {
  turn_id = "turn";
  started_at = "t1";
  idempotency_key = some "key";
  iterations = 0;
  tool_calls = 0;
  usage = record { input_tokens = none; output_tokens = none; total_tokens = none };
  last_assistant_text = "";
}

restore_refuses_example :
    let t = restore as_given "new" "t3" root [] started in
    submit "other" none (some "key") "next" t
    ≡ (t, if str_eq "hello" "other" && same_option none none then interrupted_before else conflict)
unfolding preflight submit my_coding_agent.Base.Texts.is_blank Dict.lookup create_thread
    my_coding_agent.Control.bind my_coding_agent.Control.new Dict.insert
restore_refuses_example =
    restore_refuses as_given "other" none "key" "new" "next" "t3" root [] started stored_first
      stored_key started-IsRestorable refl refl refl refl
