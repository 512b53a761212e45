-- ===== src/Thread/Steps.antt =====
-- agent/runtime/thread_runtime.py: what happens to one Thread, in any order, a restart of the process included.
use my_coding_agent.Base.{
  ℕ, String, Bool, true, false, Option, none, some, List, [], ◌∷◌, ◌++◌, ◌≡◌, refl, ap, All,
  is_some, inl, inr, subst, ◌∙◌, arith, Bool-cases, ◌||◌,
}
use my_coding_agent.Messages.{BoundValues}
use my_coding_agent.Conversation.{Conversation, pending_calls}
use my_coding_agent.Control.{Controller}
use my_coding_agent.Coordinator
use my_coding_agent.Loop
use my_coding_agent.Lease.{FilePath}
use my_coding_agent.Thread.{
  ActiveTurn, ThreadEvent, ThreadState, ThreadRecord, create_thread, state_of, stored_active,
}
use my_coding_agent.Thread.Submission.{submit, is_closed}
use my_coding_agent.Thread.Turns.{Preflight, preflight, Ending, Closing, run_active}
use my_coding_agent.Thread.Commands.{
  set_waiting, cancel_turn, close_thread, update_settings, aclose,
}
use my_coding_agent.Thread.Restart.{restore, is_working, recover_active_record}
use my_coding_agent.Thread.Invariant.{
  IsFresh, IsNew, IsWellFormed, IsRestorable, create_thread-IsWellFormed,
}
use my_coding_agent.Thread.Invariant.Turns.{
  submit-IsWellFormed, preflight-IsWellFormed, run_active-IsWellFormed,
}
use my_coding_agent.Thread.Invariant.Commands.{
  set_waiting-IsWellFormed, cancel_of-IsWellFormed, close_of-IsWellFormed, aclose_of-IsWellFormed,
  update_settings-IsWellFormed,
}
use my_coding_agent.Thread.Invariant.Restart.{restore-IsWellFormed}

-- What is stored while the Turn runs: the loop's conversation, events and counters so far.
abbrev pub midway :
    Conversation → List ThreadEvent → Controller → ActiveTurn → ThreadRecord → ThreadRecord
midway c events k a r =
    let now_in_memory = record r {
      conversation = c;
      durable_events = r.durable_events ++ events;
      active_turn = some (record a { controller = k });
    } in
    record r {
      durable_events = r.durable_events ++ events;
      saved = state_of now_in_memory ∷ r.saved;
    }

-- The id of a Turn is new: `run_turn` makes it of a random UUID.
pub data ThreadStep (bound : BoundValues) : ThreadRecord → ThreadRecord → Type 0 where
  submitted :
      {r : ThreadRecord} (text : String) (override key : Option String) (id : String)
      → ThreadStep bound r (submit text override key id r).0
  preflighted :
      {r : ThreadRecord} (text : String) (override key : Option String) (id : String)
      (p : Preflight)
      → r.preflight_turn_id ≡ some id
      → IsFresh id r.latest_turn
      → ThreadStep bound r (preflight text override key id p r)
  waits :
      {r : ThreadRecord} (waiting : Bool) (now : String)
      → is_some r.active_turn ≡ true
      → ThreadStep bound r (set_waiting waiting now r)
  stored :
      {r : ThreadRecord} (c : Conversation) (events : List ThreadEvent) (k : Controller)
      (a : ActiveTurn)
      → r.active_turn ≡ some a
      → ThreadStep bound r (midway c events k a r)
  ran :
      {r : ThreadRecord} (fuel : ℕ) (parts : Coordinator.Parts) (around : Loop.Surroundings)
      (crashed : Ending) (c : Closing) (a : ActiveTurn)
      → r.active_turn ≡ some a
      → ThreadStep bound r (run_active fuel parts around crashed c a r)
  turn_cancelled : {r : ThreadRecord} → ThreadStep bound r (cancel_turn r).0
  thread_closed : {r : ThreadRecord} (now : String) → ThreadStep bound r (close_thread now r).0
  settings_updated :
      {r : ThreadRecord} (expected : ℕ) (now : String)
      → ThreadStep bound r (update_settings expected now r).0
  shut_down : {r : ThreadRecord} (now : String) → ThreadStep bound r (aclose now r)
  restarted :
      {r : ThreadRecord} (id now : String) (s : ThreadState) (older : List ThreadState)
      → r.saved ≡ s ∷ older
      → ThreadStep bound r (restore bound id now r.workspace r.saved s)

pub data ThreadSteps (bound : BoundValues) : ThreadRecord → ThreadRecord → Type 0 where
  start : {r : ThreadRecord} → ThreadSteps bound r r
  after :
      {r s t : ThreadRecord} → ThreadSteps bound r s → ThreadStep bound s t → ThreadSteps bound r t

midway-IsWellFormed :
    (c : Conversation) (events : List ThreadEvent) (k : Controller) (a : ActiveTurn)
    (r : ThreadRecord)
    → r.active_turn ≡ some a
    → IsWellFormed r
    → IsWellFormed (midway c events k a r)
midway-IsWellFormed c events k a r e h = record {
  coherent = record {
    quiet = h.coherent.quiet;
    status = h.coherent.status;
    new = h.coherent.new;
    counted = h.coherent.counted;
    exclusive = h.coherent.exclusive;
    closes = h.coherent.closes;
  };
  leased = h.leased;
  restorable = (
    record {
      quiet = tt;
      status = h.coherent.status ∙ ap is_some e;
      new = subst (λ o. IsNew (stored_active o) r.latest_turn) e h.coherent.new;
      counted = h.coherent.counted;
    },
    h.restorable,
  );
}

close_thread-IsWellFormed :
    (now : String) (r : ThreadRecord) → IsWellFormed r → IsWellFormed (close_thread now r).0
unfolding close_thread
close_thread-IsWellFormed now r h = elim (Bool-cases (is_closed r.status || r.closing)) [
  | inl shut ↦ rw shut h
  | inr open_still ↦ rw open_still (close_of-IsWellFormed r.active_turn now r refl h)
]

module _ (bound : BoundValues) where
  step-IsWellFormed : (r s : ThreadRecord) → ThreadStep bound r s → IsWellFormed r → IsWellFormed s
  unfolding cancel_turn aclose
  step-IsWellFormed r _ (submitted text override key id) h =
      submit-IsWellFormed text override key id r h
  step-IsWellFormed r _ (preflighted text override key id p e f) h =
      preflight-IsWellFormed text override key id p r h f e
  step-IsWellFormed r _ (waits waiting now e) h = set_waiting-IsWellFormed waiting now r h e
  step-IsWellFormed r _ (stored c events k a e) h = midway-IsWellFormed c events k a r e h
  step-IsWellFormed r _ (ran fuel parts around crashed c a e) h =
      run_active-IsWellFormed fuel parts around crashed c a r h
  step-IsWellFormed r _ turn_cancelled h = cancel_of-IsWellFormed r.active_turn r refl h
  step-IsWellFormed r _ (thread_closed now) h = close_thread-IsWellFormed now r h
  step-IsWellFormed r _ (settings_updated expected now) h =
      update_settings-IsWellFormed expected now r h
  step-IsWellFormed r _ (shut_down now) h = aclose_of-IsWellFormed r.active_turn now r refl h
  step-IsWellFormed r _ (restarted id now s older e) h =
      let all_saved = subst (All IsRestorable) e h.restorable in
      restore-IsWellFormed bound id now r.workspace r.saved s all_saved.0 h.restorable

  steps_keep : (r s : ThreadRecord) → ThreadSteps bound r s → IsWellFormed r → IsWellFormed s
  steps_keep r _ start h = h
  steps_keep r _ (after {s = s} {t = t} before step) h =
      step-IsWellFormed s t step (steps_keep r s before h)

  restore_rests :
      (id now : String) (workspace : FilePath) (saved : List ThreadState) (s : ThreadState)
      → ((restore bound id now workspace saved s).active_turn ≡ none)
        × ((restore bound id now workspace saved s).lease ≡ none)
  unfolding restore recover_active_record
  restore_rests id now workspace saved s = ground arith

  -- Whatever is submitted, run, waited for, cancelled, closed, changed, stored midway or
  -- restarted, and if no Turn has the id of the last one, a created Thread holds its lease exactly
  -- while a Turn runs, reserves no second Turn then, has no pending call before the Turn's work,
  -- and is closed if it is closing with no Turn; its saved states can all be restored.
  pub steps-IsWellFormed :
      (workspace : FilePath) (prompt now : String) (r : ThreadRecord)
      → ThreadSteps bound (create_thread workspace prompt now) r
      → IsWellFormed r
  steps-IsWellFormed workspace prompt now r h =
      steps_keep (create_thread workspace prompt now) r h
        (create_thread-IsWellFormed workspace prompt now)

  -- Whenever the process stops, the Thread restored from its newest saved state has no pending
  -- call, no Turn and no lease, and rests.
  pub restart_rests :
      (workspace : FilePath) (prompt now id later : String) (r : ThreadRecord) (s : ThreadState)
      (older : List ThreadState)
      → ThreadSteps bound (create_thread workspace prompt now) r
      → r.saved ≡ s ∷ older
      → (let t = restore bound id later r.workspace r.saved s in
          (pending_calls t.conversation ≡ [])
          × (is_working t.status ≡ false)
          × (t.active_turn ≡ none)
          × (t.lease ≡ none))
  restart_rests workspace prompt now id later r s older h e =
      let t = restore bound id later r.workspace r.saved s in
      let kept : IsWellFormed t =
        steps-IsWellFormed workspace prompt now t (after h (restarted id later s older e)) in
      let (none_active, none_leased) = restore_rests id later r.workspace r.saved s in
      (kept.coherent.quiet, kept.coherent.status ∙ ap is_some none_active, none_active, none_leased)
