-- ===== src/Thread/Replay.antt =====
-- The idempotent submissions of agent/runtime/thread_runtime.py: what a second submission with the same key gives.
use my_coding_agent.Base.{
  ℕ, String, Bool, true, false, ◌&&◌, Option, none, some, List, [], ◌∷◌, ◌≡◌, refl, sym, ap, ◌∙◌,
  arith, str_eq, eq_refl, if◌then◌else◌, Bool-cases, inl, inr,
}
use my_coding_agent.Base.Dict
use my_coding_agent.Base.Dict.{Dict, lookup-insert}
use my_coding_agent.Messages.{BoundValues}
use my_coding_agent.Coordinator
use my_coding_agent.Loop
use my_coding_agent.Thread.{
  TurnSummary, ActiveTurn, StoredActiveTurn, StoredIdempotency, IdempotentSubmission, ThreadRecord,
  ThreadState,
}
use my_coding_agent.Thread.Submission.{
  is_valid_key, replayed, conflict, interrupted_before, repeated, same_option, submit,
}
use my_coding_agent.Thread.Turns.{
  Preflight, begin_turn, Ending, Closing, finish_turn, run_active, settle_submission, summary_of,
  finish_of, ending_of, stored, new_submission,
}
use my_coding_agent.Thread.Restart.{
  recover_active_record, interrupted_summary, restore, record_of, restored_submissions,
  is_coherently_terminal,
}
use my_coding_agent.Lease.{FilePath}
use my_coding_agent.Thread.Invariant.{IsRestorable}
use my_coding_agent.Thread.Invariant.Restart.{not_terminal}

-- The submission with the outcome of its Turn
abbrev settled : Bool → TurnSummary → IdempotentSubmission → IdempotentSubmission
settled interrupted summary s = record {
  stored = record s.stored { summary = some summary; interrupted = interrupted };
  pending = false;
}

lookup-settle_submission :
    (interrupted : Bool) (key : String) (summary : TurnSummary) (s : IdempotentSubmission)
    (d : Dict IdempotentSubmission)
    → Dict.lookup key d ≡ some s
    → Dict.lookup key (settle_submission interrupted (some key) summary d)
      ≡ some (settled interrupted summary s)
lookup-settle_submission interrupted key summary s d e =
    ground (arith, e, eq_refl key, lookup-insert key key (settled interrupted summary s) d)

-- A submission with a key that is filed says what the filed one says.
submit-repeated :
    (text : String) (override : Option String) (key id : String) (s : IdempotentSubmission)
    (r : ThreadRecord)
    → is_valid_key (some key) ≡ true
    → Dict.lookup key r.idempotent_submissions ≡ some s
    → submit text override (some key) id r ≡ (r, repeated text override s)
unfolding submit
submit-repeated text override key id s r v e = rw (v, e, submit) refl

-- What the Turn files under its key, once it has ended.
abbrev outcome : String → Option String → TurnSummary → Bool → IdempotentSubmission
outcome text override summary interrupted =
    settled interrupted summary (new_submission text override)

abbrev key_in : Option ActiveTurn → Option String
key_in none = none
key_in (some a) = a.idempotency_key

-- The end of the Turn files its summary under its key, if a submission is filed there.
lookup-run_active :
    (fuel : ℕ) (parts : Coordinator.Parts) (around : Loop.Surroundings) (crashed : Ending)
    (c : Closing) (a : ActiveTurn) (key : String) (s : IdempotentSubmission) (r : ThreadRecord)
    → a.idempotency_key ≡ some key
    → Dict.lookup key r.idempotent_submissions ≡ some s
    → (summary : TurnSummary) × ((run_active fuel parts around crashed c a r).latest_turn
        ≡ some summary)
      × (Dict.lookup key (run_active fuel parts around crashed c a r).idempotent_submissions
          ≡ some (settled false summary s))
unfolding run_active finish_turn
lookup-run_active fuel parts around crashed c a key s r k e =
    let turn : Coordinator.Turn = record {
      conversation = r.conversation;
      controller = a.controller;
      emissions = [];
      pending = none;
      waiting = false;
      has_task_state = true;
      evidence = [];
      sessions_cancelled = false;
    } in
    let (t, end) = Loop.run fuel (stored parts) around 0 turn in
    let summary =
      summary_of (record a { controller = t.controller })
        (finish_of (ending_of crashed end) t.controller.last_assistant_text) c in
    (
      summary,
      refl,
      ap (λ o. Dict.lookup key (settle_submission false o summary r.idempotent_submissions)) k
          ∙ lookup-settle_submission false key summary s r.idempotent_submissions e,
    )

repeated-outcome :
    (text text' : String) (override override' : Option String) (summary : TurnSummary)
    → repeated text' override' (outcome text override summary false)
      ≡ (if str_eq text text' && same_option override override' then replayed summary else conflict)
repeated-outcome text text' override override' summary = ground arith

-- Once a Turn with a valid key has begun and ended, a submission with its key changes nothing: it
-- gives the Turn's summary again if text and override are the same, and a conflict otherwise.
pub run_active_replays :
    (text text' : String) (override override' : Option String) (key id id' : String) (p : Preflight)
    (fuel : ℕ) (parts : Coordinator.Parts) (around : Loop.Surroundings) (crashed : Ending)
    (c : Closing) (a : ActiveTurn) (r : ThreadRecord)
    → is_valid_key (some key) ≡ true
    → (begin_turn text override (some key) id p r).active_turn ≡ some a
    → (let ended =
          run_active fuel parts around crashed c a (begin_turn text override (some key) id p r) in
        (summary : TurnSummary) × (ended.latest_turn ≡ some summary)
        × (submit text' override' (some key) id' ended ≡ (
          ended,
          if str_eq text text' && same_option override override'
              then replayed summary
              else conflict,
        )))
run_active_replays text text' override override' key id id' p fuel parts around crashed c a r v e =
    let begun = begin_turn text override (some key) id p r in
    let filed : Dict.lookup key begun.idempotent_submissions ≡ some (new_submission text override) =
      ground (
        arith,
        eq_refl key,
        lookup-insert key key (new_submission text override) r.idempotent_submissions,
      ) in
    let (summary, latest, kept) =
      lookup-run_active fuel parts around crashed c a key (new_submission text override) begun
        (sym (ap key_in e)) filed in
    let ended = run_active fuel parts around crashed c a begun in
    (
      summary,
      latest,
      submit-repeated text' override' key id' (outcome text override summary false) ended v kept
          ∙ ap (λ o. (ended, o)) (repeated-outcome text text' override override' summary),
    )

-- A record that a restart recovered refuses the key of the interrupted Turn.
recovered_refuses :
    (bound : BoundValues) (text : String) (override : Option String) (key id id' now : String)
    (active : StoredActiveTurn) (s : IdempotentSubmission) (r : ThreadRecord)
    → is_valid_key (some key) ≡ true
    → active.idempotency_key ≡ some key
    → Dict.lookup key r.idempotent_submissions ≡ some s
    → (let t = recover_active_record bound id now (some active) r in
        submit text override (some key) id' t ≡ (
          t,
          if str_eq s.stored.user_text text && same_option s.stored.settings_override override
              then interrupted_before
              else conflict,
        ))
unfolding recover_active_record
recovered_refuses bound text override key id id' now active s r v k e =
    let summary = interrupted_summary id now (some active) in
    let t = recover_active_record bound id now (some active) r in
    submit-repeated text override key id' (settled true summary s) t v (
      ap (λ o. Dict.lookup key (settle_submission true o summary r.idempotent_submissions)) k
      ∙ lookup-settle_submission true key summary s r.idempotent_submissions e)
    ∙ ap (λ o. (t, o)) (ground arith)

lookup-restored_submissions :
    (key : String) (stored : StoredIdempotency) (d : Dict StoredIdempotency)
    → Dict.lookup key d ≡ some stored
    → Dict.lookup key (restored_submissions d) ≡ some (record { stored = stored; pending = false })
unfolding Dict.lookup
lookup-restored_submissions key stored [] e = cc
lookup-restored_submissions key stored ((k, s) ∷ d) e = elim (Bool-cases (str_eq k key)) [
  | inl here ↦ ground (arith, here, e)
  | inr there ↦ rw there (lookup-restored_submissions key stored d (rw there at e))
]

restore-recovers :
    (bound : BoundValues) (id now : String) (workspace : FilePath) (saved : List ThreadState)
    (s : ThreadState) (active : StoredActiveTurn)
    → s.active_turn ≡ some active
    → is_coherently_terminal s ≡ false
    → restore bound id now workspace saved s
      ≡ recover_active_record bound id now (some active) (record_of workspace saved s)
unfolding restore
restore-recovers bound id now workspace saved s active e h = ground arith

-- After a restart from a saved state with a Turn under way, a submission with that Turn's valid
-- key changes nothing: it is refused as interrupted if text and override are the same, and as a
-- conflict otherwise.
pub restore_refuses :
    (bound : BoundValues) (text : String) (override : Option String) (key id id' now : String)
    (workspace : FilePath) (saved : List ThreadState) (s : ThreadState) (active : StoredActiveTurn)
    (stored : StoredIdempotency)
    → IsRestorable s
    → s.active_turn ≡ some active
    → active.idempotency_key ≡ some key
    → Dict.lookup key s.idempotency ≡ some stored
    → is_valid_key (some key) ≡ true
    → (let t = restore bound id now workspace saved s in
        submit text override (some key) id' t ≡ (
          t,
          if str_eq stored.user_text text && same_option stored.settings_override override
              then interrupted_before
              else conflict,
        ))
restore_refuses bound text override key id id' now workspace saved s active stored h e k filed v =
    let over = not_terminal s s.active_turn s.latest_turn refl refl h.new in
    rw (restore-recovers bound id now workspace saved s active e over) (
      recovered_refuses bound text override key id id' now active
        (record { stored = stored; pending = false }) (record_of workspace saved s) v k
        (lookup-restored_submissions key stored s.idempotency filed))
