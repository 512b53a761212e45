-- ===== src/Tasks/Lifecycle.antt =====
-- One background Turn for each Thread, from its submission to its end.
use my_coding_agent.Base.{
  ℕ, ◌+◌, ◌≤◌, ◌<◌, ◌≡◌, refl, String, Bool, true, false, ◌&&◌, Option, none, some, List, [], ◌∷◌,
  arith, is_some, str_eq, eq_iff, ◌==◌, if◌then◌else◌, inl, inr, Option-cases,
}
use my_coding_agent.Base.Dict
use my_coding_agent.Base.Dict.{Dict, HasDistinctKeys}
use my_coding_agent.Events.{AgentEvent}
use my_coding_agent.Base.Texts.{is_blank}
use my_coding_agent.Tasks.{
  Submission, Failure, TurnTaskManager, View, PublicSubmission, ok, err, turn_already_running,
  shutting_down, start, cancel, Ended, completed, cancelled, failed, record_failure, after_end,
  leave, finish_run, shutdown_begins, shutdown_ends, inspect_failure,
}

-- Each entry is filed under its own Thread, and its number has been given out.
abbrev pub Filed : ℕ → Dict Submission → Type 0
Filed n [] = Unit
Filed n ((k, s) ∷ d) = (s.thread_id ≡ k) × (s.number < n) × Filed n d

pub record IsConsistent (m : TurnTaskManager) : Type 0 where
  pub filed : Filed m.created m.submissions
  pub keys : HasDistinctKeys m.submissions
  pub failure_keys : HasDistinctKeys m.failures

-- A step of the Host: a command of a client, or the end of a task. A task that ends is one of a
-- submission that was made.
pub data Step : Type 0 where
  started : String → String → Option View → String → Step
  cancel_called : String → Option View → Bool → Step
  ended : Submission → Ended → Option (List AgentEvent) → Step
  shutting : Step
  shut : Step

unfoldable pub step : Step → TurnTaskManager → TurnTaskManager
step (started t u v now) m = (start t u v now m).0
step (cancel_called t v r) m = (cancel t v r m).0
step (ended s e events) m = finish_run s e events m
step shutting m = (shutdown_begins m).0
step shut m = shutdown_ends m

unfoldable pub steps : List Step → TurnTaskManager → TurnTaskManager
steps [] m = m
steps (s ∷ ss) m = steps ss (step s m)

Filed-weaken : (n k : ℕ) (d : Dict Submission) → n ≤ k → Filed n d → Filed k d
Filed-weaken n k [] h f = tt
Filed-weaken n k (e ∷ d) h f = (f.0, omega (arith, f.1), Filed-weaken n k d h f.2)

Filed-insert :
    (n : ℕ) (s : Submission) (d : Dict Submission)
    → s.number < n
    → Filed n d
    → Filed n (Dict.insert s.thread_id s d)
unfolding Dict.insert
Filed-insert n s [] h f = (refl, h, tt)
Filed-insert n s ((k, t) ∷ d) h f = ground (arith, eq_iff k s.thread_id, Filed-insert n s d h f.2)

Filed-remove : (n : ℕ) (k : String) (d : Dict Submission) → Filed n d → Filed n (Dict.remove k d)
unfolding Dict.remove
Filed-remove n k [] f = f
Filed-remove n k ((j, t) ∷ d) f = ground (arith, Filed-remove n k d f.2)

Filed-lookup :
    (n : ℕ) (k : String) (s : Submission) (d : Dict Submission)
    → Filed n d
    → Dict.lookup k d ≡ some s
    → (s.thread_id ≡ k) × (s.number < n)
unfolding Dict.lookup
Filed-lookup n k s [] f e = cc
Filed-lookup n k s ((j, t) ∷ d) f e = ground (arith, eq_iff j k, Filed-lookup n k s d f.2)

-- The manager with a submission put under its Thread, and that Thread's failure dropped or not.
put-Filed :
    (s : Submission) (m : TurnTaskManager) (n : ℕ)
    → IsConsistent m
    → m.created ≤ n
    → s.number < n
    → Filed n (Dict.insert s.thread_id s m.submissions)
put-Filed s m n h k l =
    Filed-insert n s m.submissions l (Filed-weaken m.created n m.submissions k h.filed)

start-IsConsistent :
    (t u : String) (v : Option View) (now : String) (m : TurnTaskManager)
    → IsConsistent m
    → IsConsistent (start t u v now m).0
unfolding start
start-IsConsistent t u v now m h =
    let s : Submission = record {
      number = m.created;
      thread_id = t;
      accepted_at = now;
      transport_status = none;
    } in
    ground (
      arith,
      put-Filed s m (m.created + 1) h,
      Dict.HasDistinctKeys-insert t s m.submissions h.keys,
      Dict.HasDistinctKeys-remove t m.failures h.failure_keys,
    )

cancel-IsConsistent :
    (t : String) (v : Option View) (r : Bool) (m : TurnTaskManager)
    → IsConsistent m
    → IsConsistent (cancel t v r m).0
unfolding cancel
cancel-IsConsistent t v r m h = elim (Option-cases (Dict.lookup t m.submissions)) [
  | inl idle ↦ rw (idle, cancel) h
  | inr (s, e) ↦
      let marked : Submission = record s { transport_status = some "cancelling" } in
      ground (
        arith,
        Filed-lookup m.created t s m.submissions h.filed e,
        put-Filed marked m m.created h,
        Dict.HasDistinctKeys-insert s.thread_id marked m.submissions h.keys,
      )
]

record_failure-IsConsistent :
    (t : String) (f : Failure) (events : Option (List AgentEvent)) (m : TurnTaskManager)
    → IsConsistent m
    → IsConsistent (record_failure t f events m)
unfolding record_failure
record_failure-IsConsistent t f events m h = record {
  filed = h.filed;
  keys = h.keys;
  failure_keys = Dict.HasDistinctKeys-insert t _ m.failures h.failure_keys;
}

after_end-IsConsistent :
    (e : Ended) (t : String) (events : Option (List AgentEvent)) (m : TurnTaskManager)
    → IsConsistent m
    → IsConsistent (after_end e t events m)
unfolding after_end
after_end-IsConsistent completed t events m h = h
after_end-IsConsistent cancelled t events m h = record_failure-IsConsistent t _ events m h
after_end-IsConsistent failed t events m h = record_failure-IsConsistent t _ events m h

leave-IsConsistent :
    (s : Submission) (m : TurnTaskManager) → IsConsistent m → IsConsistent (leave s m)
unfolding leave
leave-IsConsistent s m h = ground (
  arith,
  Filed-remove m.created s.thread_id m.submissions h.filed,
  Dict.HasDistinctKeys-remove s.thread_id m.submissions h.keys,
)

finish_run-IsConsistent :
    (s : Submission) (e : Ended) (events : Option (List AgentEvent)) (m : TurnTaskManager)
    → IsConsistent m
    → IsConsistent (finish_run s e events m)
unfolding finish_run
finish_run-IsConsistent s e events m h =
    leave-IsConsistent s (after_end e s.thread_id events m)
      (after_end-IsConsistent e s.thread_id events m h)

-- Whatever the clients ask for and however the tasks end, a Thread has one submission at most,
-- filed under its own id, and one recorded failure at most.
pub steps-IsConsistent :
    (ss : List Step) (m : TurnTaskManager) → IsConsistent m → IsConsistent (steps ss m)
unfolding steps step shutdown_begins shutdown_ends
steps-IsConsistent [] m h = h
steps-IsConsistent (started t u v now ∷ ss) m h =
    steps-IsConsistent ss (start t u v now m).0 (start-IsConsistent t u v now m h)
steps-IsConsistent (cancel_called t v r ∷ ss) m h =
    steps-IsConsistent ss (cancel t v r m).0 (cancel-IsConsistent t v r m h)
steps-IsConsistent (ended s e events ∷ ss) m h =
    steps-IsConsistent ss (finish_run s e events m) (finish_run-IsConsistent s e events m h)
steps-IsConsistent (shutting ∷ ss) m h =
    steps-IsConsistent ss (shutdown_begins m).0
      (record { filed = h.filed; keys = h.keys; failure_keys = h.failure_keys })
steps-IsConsistent (shut ∷ ss) m h =
    steps-IsConsistent ss (shutdown_ends m)
      (record { filed = tt; keys = tt; failure_keys = h.failure_keys })

-- The submission that is filed, if any, is `s` itself.
abbrev pub holds : Submission → Option Submission → Bool
holds s none = false
holds s (some t) = t.number == s.number

-- What an accepted start has found and done.
pub record Accepted (t : String) (m m' : TurnTaskManager) : Type 0 where
  pub was_free : Dict.lookup t m.submissions ≡ none
  pub taken : is_some (Dict.lookup t m'.submissions) ≡ true
  pub no_failure : inspect_failure t m' ≡ none
  pub still_open : m'.accepting ≡ true

-- A start that is accepted finds the Thread free, takes it, and forgets the Thread's failure. While
-- it is taken, another start of the same Thread with a message is refused and changes nothing.
pub start_excludes :
    (t u u' : String) (v : Option View) (v' : View) (now now' : String) (p : PublicSubmission)
    (m : TurnTaskManager)
    → IsConsistent m
    → (start t u v now m).1 ≡ ok p
    → is_blank u' ≡ false
    → str_eq v'.status "closed" ≡ false
    → let m' = (start t u v now m).0 in
      Accepted t m m' × (start t u' (some v') now' m' ≡ (m', err turn_already_running))
unfolding start inspect_failure
start_excludes t u u' v v' now now' p m h e b c = ground (
  arith,
  eq_iff t t,
  Dict.lookup-insert t t
      (record { number = m.created; thread_id = t; accepted_at = now; transport_status = none })
      m.submissions,
  Dict.lookup-remove t t m.failures h.failure_keys,
)

-- Whatever commands came and however tasks ended from a consistent manager, a start that is
-- accepted finds its Thread free, takes it, forgets its failure and leaves the manager consistent;
-- another start of the Thread with a message, on a view that is not closed, is then refused and
-- changes nothing.
pub steps_exclude :
    (ss : List Step) (t u u' : String) (v : Option View) (v' : View) (now now' : String)
    (p : PublicSubmission) (m : TurnTaskManager)
    → IsConsistent m
    → (start t u v now (steps ss m)).1 ≡ ok p
    → is_blank u' ≡ false
    → str_eq v'.status "closed" ≡ false
    → let m' = (start t u v now (steps ss m)).0 in
      IsConsistent m'
      × Accepted t (steps ss m) m'
      × (start t u' (some v') now' m' ≡ (m', err turn_already_running))
steps_exclude ss t u u' v v' now now' p m h e b c =
    let k = steps-IsConsistent ss m h in
    let (taken, again) = start_excludes t u u' v v' now now' p (steps ss m) k e b c in
    (start-IsConsistent t u v now (steps ss m) k, taken, again)

-- The end of a task frees its Thread, unless the submission there is another one, which then stays;
-- other Threads keep their submissions. A completed Turn records no failure.
pub finish_run_frees :
    (s : Submission) (e : Ended) (events : Option (List AgentEvent)) (j : String)
    (m : TurnTaskManager)
    → IsConsistent m
    → let m' = finish_run s e events m in
      (Dict.lookup j m'.submissions ≡ (
        if str_eq s.thread_id j && holds s (Dict.lookup s.thread_id m.submissions)
        then none
        else Dict.lookup j m.submissions))
      × ((finish_run s completed events m).failures ≡ m.failures)
unfolding finish_run
finish_run_frees s e events j m h =
    ground (arith, Dict.lookup-remove s.thread_id j m.submissions h.keys)

step_closed : (s : Step) (m : TurnTaskManager) → m.accepting ≡ false → (step s m).accepting ≡ false
unfolding step start cancel finish_run shutdown_begins shutdown_ends
step_closed (started t u v now) m h = ground arith
step_closed (cancel_called t v r) m h = ground arith
step_closed (ended s completed events) m h = ground arith
step_closed (ended s cancelled events) m h = ground arith
step_closed (ended s failed events) m h = ground arith
step_closed shutting m h = refl
step_closed shut m h = h

steps_closed :
    (ss : List Step) (m : TurnTaskManager) → m.accepting ≡ false → (steps ss m).accepting ≡ false
unfolding steps
steps_closed [] m h = h
steps_closed (s ∷ ss) m h = steps_closed ss (step s m) (step_closed s m h)

shutdown_closes : (m : TurnTaskManager) → (shutdown_begins m).0.accepting ≡ false
unfolding shutdown_begins
shutdown_closes m = refl

refused :
    (t u : String) (v : Option View) (now : String) (m : TurnTaskManager)
    → m.accepting ≡ false
    → start t u v now m ≡ (m, err shutting_down)
unfolding start
refused t u v now m h = ground arith

-- Once the manager is shutting down it accepts no start, whatever happens in between.
pub shutdown_stays :
    (ss : List Step) (m : TurnTaskManager) (t u : String) (v : Option View) (now : String)
    → let m' = steps ss (shutdown_begins m).0 in start t u v now m' ≡ (m', err shutting_down)
shutdown_stays ss m t u v now = refused t u v now _ (steps_closed ss _ (shutdown_closes m))
