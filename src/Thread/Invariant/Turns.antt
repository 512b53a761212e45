-- ===== src/Thread/Invariant/Turns.antt =====
-- The operations of Thread/Turns.antt keep a Thread well-formed.
use my_coding_agent.Base.{
  ℕ, String, Bool, true, false, not, ◌||◌, Option, none, some, [], ◌∷◌, ◌≡◌, ◌⊎◌, refl, sym, ◌∙◌,
  arith, All, length, length-append, is_some, Bool-cases, Option-cases, inl, inr, subst,
}
use my_coding_agent.Conversation.{pending_calls}
use my_coding_agent.Conversation.Pending.{pending_calls-grown, pending_calls-append_user}
use my_coding_agent.Coordinator
use my_coding_agent.Loop
use my_coding_agent.Loop.Answered.{run-Grows_always}
use my_coding_agent.Lease.{Acquired}
use my_coding_agent.Thread.{ThreadStatus, ActiveTurn, ThreadRecord, persist_record}
use my_coding_agent.Thread.Submission.{is_closed, is_idle, submit}
use my_coding_agent.Thread.Turns.{
  Preflight, preflight, after_check, after_lease, begin_turn, reject, Ending, Finish, Closing,
  finish_turn, resting, leave_turn, run_active, summary_of, finish_of, ending_of, stored,
}
use my_coding_agent.Thread.Restart.{is_working}
use my_coding_agent.Thread.Invariant.{
  IsFresh, IsRestorable, IsCoherent, IsWellFormed, IsSaved, persist-IsSaved, emit-IsSaved,
  IsWellFormed-of,
}

-- What a submission does to the record.
submit_cases :
    (text : String) (override key : Option String) (id : String) (r : ThreadRecord)
    → ((submit text override key id r).0 ≡ r)
      ⊎ ((is_idle r.status ≡ true)
          × ((submit text override key id r).0 ≡ record r { preflight_turn_id = some id }))
unfolding submit
submit_cases text override key id r = ground arith

idle_rests : (s : ThreadStatus) → is_idle s ≡ true → is_working s ≡ false
idle_rests s h = ground arith

pub submit-IsWellFormed :
    (text : String) (override key : Option String) (id : String) (r : ThreadRecord)
    → IsWellFormed r
    → IsWellFormed (submit text override key id r).0
submit-IsWellFormed text override key id r h = elim (submit_cases text override key id r) [
  | inl same ↦ subst IsWellFormed (sym same) h
  | inr (rests, e) ↦
      let none_active : is_some r.active_turn ≡ false =
        sym h.coherent.status ∙ idle_rests r.status rests in
      subst IsWellFormed (sym e) (record {
        coherent = record {
          quiet = h.coherent.quiet;
          status = h.coherent.status;
          new = h.coherent.new;
          counted = h.coherent.counted;
          exclusive = rw none_active refl;
          closes = h.coherent.closes;
        };
        leased = h.leased;
        restorable = h.restorable;
      })
]

module _ (id code : String) (r : ThreadRecord) where
  reject-IsWellFormed :
      IsCoherent r
      → All IsRestorable r.saved
      → is_some r.active_turn ≡ false
      → IsWellFormed (reject id code r)
  reject-IsWellFormed h s e =
      let shown = emit-IsSaved _ r h s in
      record {
        coherent = record {
          quiet = h.quiet;
          status = h.status;
          new = h.new;
          counted = h.counted;
          exclusive = rw e refl;
          closes = h.closes;
        };
        leased = sym e;
        restorable = shown.restorable;
      }

module _ (text : String) (override key : Option String) (id : String) (p : Preflight) where
  begin_turn-IsWellFormed :
      (r : ThreadRecord)
      → IsCoherent r
      → All IsRestorable r.saved
      → IsFresh id r.latest_turn
      → is_some r.lease ≡ true
      → IsWellFormed (begin_turn text override key id p r)
  begin_turn-IsWellFormed r h s f l =
      IsWellFormed-of _
        (emit-IsSaved _ _
          (record {
            quiet = pending_calls-append_user text r.conversation h.quiet;
            status = refl;
            new = f;
            counted = h.counted;
            exclusive = refl;
            closes = refl;
          })
          s)
        l

  after_lease-IsWellFormed :
      (r : ThreadRecord)
      → IsCoherent r
      → All IsRestorable r.saved
      → IsFresh id r.latest_turn
      → is_some r.active_turn ≡ false
      → is_some r.lease ≡ true
      → IsWellFormed (after_lease text override key id p r)
  after_lease-IsWellFormed r h s f e l = elim (Bool-cases (is_closed r.status || r.closing)) [
    | inl shut ↦ rw shut (reject-IsWellFormed id _ r h s e)
    | inr open_still ↦ rw open_still (elim (Option-cases p.preparation) [
      | inl ready ↦ rw ready (begin_turn-IsWellFormed r h s f l)
      | inr (code, failed) ↦ rw failed (reject-IsWellFormed id code r h s e)
    ])
  ]

  after_check-IsWellFormed :
      (r : ThreadRecord) (a : Acquired)
      → IsCoherent r
      → All IsRestorable r.saved
      → IsFresh id r.latest_turn
      → is_some r.active_turn ≡ false
      → p.acquired ≡ a
      → IsWellFormed (after_check text override key id p r)
  after_check-IsWellFormed r (Acquired.busy b) h s f e k = rw k (reject-IsWellFormed id _ r h s e)
  after_check-IsWellFormed r (Acquired.leased l) h s f e k = rw k (
      after_lease-IsWellFormed (record r { lease = some l })
        (record {
          quiet = h.quiet;
          status = h.status;
          new = h.new;
          counted = h.counted;
          exclusive = h.exclusive;
          closes = h.closes;
        })
        s f e refl)

  pub preflight-IsWellFormed :
      (r : ThreadRecord)
      → IsWellFormed r
      → IsFresh id r.latest_turn
      → r.preflight_turn_id ≡ some id
      → IsWellFormed (preflight text override key id p r)
  unfolding preflight
  preflight-IsWellFormed r h f k =
      let e : is_some r.active_turn ≡ false = ground (arith, h.coherent.exclusive) in
      elim (Option-cases p.check) [
        | inl passed ↦
            rw (passed, preflight)
              (after_check-IsWellFormed r p.acquired h.coherent h.restorable f e refl)
        | inr (code, failed) ↦
            rw (failed, preflight) (reject-IsWellFormed id code r h.coherent h.restorable e)
      ]

resting_rests : (closing : Bool) → is_working (resting closing) ≡ false
resting_rests true = refl
resting_rests false = refl

resting_closes : (closing : Bool) → (not closing || is_closed (resting closing)) ≡ true
resting_closes true = refl
resting_closes false = refl

finish_turn-IsSaved :
    (a : ActiveTurn) (f : Finish) (c : Closing) (r : ThreadRecord)
    → pending_calls r.conversation ≡ []
    → r.completed_turns ≡ length r.turns
    → All IsRestorable r.saved
    → IsSaved (finish_turn a f c r)
unfolding finish_turn
finish_turn-IsSaved a f c r quiet counted s =
    emit-IsSaved _ _
      (record {
        quiet = quiet;
        status = resting_rests r.closing;
        new = tt;
        counted = omega (arith, counted, length-append {0} r.turns (summary_of a f c ∷ []));
        exclusive = refl;
        closes = resting_closes r.closing;
      })
      s

leave_turn-IsWellFormed :
    (now : String) (r : ThreadRecord) → IsSaved r → IsWellFormed (leave_turn now r)
leave_turn-IsWellFormed now r h =
    let once = persist-IsSaved r h.coherent h.restorable in
    let left : IsCoherent (record (persist_record r) {
      status = resting r.closing;
      active_turn = none;
      updated_at = now;
    }) =
      record {
        quiet = h.coherent.quiet;
        status = resting_rests r.closing;
        new = tt;
        counted = h.coherent.counted;
        exclusive = refl;
        closes = resting_closes r.closing;
      } in
    let twice = persist-IsSaved _ left once.restorable in
    record {
      coherent = record {
        quiet = h.coherent.quiet;
        status = resting_rests r.closing;
        new = tt;
        counted = h.coherent.counted;
        exclusive = refl;
        closes = resting_closes r.closing;
      };
      leased = refl;
      restorable = twice.restorable;
    }

pub run_active-IsWellFormed :
    (fuel : ℕ) (parts : Coordinator.Parts) (around : Loop.Surroundings) (crashed : Ending)
    (c : Closing) (a : ActiveTurn) (r : ThreadRecord)
    → IsWellFormed r
    → IsWellFormed (run_active fuel parts around crashed c a r)
unfolding run_active
run_active-IsWellFormed fuel parts around crashed c a r h =
    let turn : Coordinator.Turn = record {
      conversation = r.conversation;
      controller = a.controller;
      emissions = [];
      pending = none;
      waiting = false;
      has_task_state = true;
      evidence = [];
      sessions_cancelled = false;
    } in
    let g = run-Grows_always fuel (stored parts) around 0 turn (λ k. refl) in
    let (t, end) = Loop.run fuel (stored parts) around 0 turn in
    leave_turn-IsWellFormed c.now _ (
      finish_turn-IsSaved (record a { controller = t.controller })
        (finish_of (ending_of crashed end) t.controller.last_assistant_text) c
        (record r { conversation = t.conversation })
        (pending_calls-grown r.conversation
          (Loop.run fuel (stored parts) around 0 turn).0.conversation g.added h.coherent.quiet
          g.completed g.requested)
        h.coherent.counted h.restorable)
