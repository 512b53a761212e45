-- ===== src/Coordinator/Keeps.antt =====
-- What the coordinator leaves alone in the controller: the limits and the count of iterations.
use my_coding_agent.Base.{
  ℕ, suc, ◌≡◌, refl, ap, ◌∙◌, String, Bool, true, false, Option, none, some, List, [], ◌∷◌, arith,
  if◌then◌else◌,
}
use my_coding_agent.Messages.{ToolCall}
use my_coding_agent.Control.{
  Controller, limit_reached, cancelled, runtime_error, Outcome, returned, raised, begin_tool,
  record_tool_result, pause_deadline, resume_deadline, cancel,
}
use my_coding_agent.Coordinator.{
  ToolResult, PolicyResult, Decision, deny, allow, require_approval, Asked, answer, no_answer,
  World, Turn, Parts, Attempt, result, approval_timeout, stop, crash, Batch, record_result,
  append_skipped, request_approval, run_tool, execute_one, after_result, settle, execute,
  after_record, failure_of, abort_batch, not_executed, failure, decided, after_asking, emit,
  then_checkpoint, after_pause, arrive, approval_requested, asked, settle_approval, asking_turn,
  go_on, batch_of, unpublished, published, requested, with_controller,
}
use my_coding_agent.Coordinator.Recording.{record_result-controller}

pub record Keeps (c c' : Controller) : Type 0 where
  pub limits : c'.limits ≡ c.limits
  pub iterations : c'.iterations ≡ c.iterations

pub Keeps-trans : {c d e : Controller} → Keeps c d → Keeps d e → Keeps c e
Keeps-trans h k = record { limits = k.limits ∙ h.limits; iterations = k.iterations ∙ h.iterations }

pub Keeps-same : {c d : Controller} → d ≡ c → Keeps c d
Keeps-same e = record {
  limits = ap (λ (x : Controller). x.limits) e;
  iterations = ap (λ (x : Controller). x.iterations) e;
}

abbrev Kept : Turn → Turn → Type 0
Kept t u = Keeps t.controller u.controller

run_tool-Keeps : (w : World) (c : ToolCall) (t : Turn) → Kept t (run_tool w c t).0
unfolding run_tool cancel
run_tool-Keeps w c t = record { limits = ground arith; iterations = ground arith }

pause-Keeps : (n m : ℕ) (c : Controller) → Keeps c (pause_deadline n m c).0
unfolding pause_deadline
pause-Keeps n m c = record { limits = ground arith; iterations = ground arith }

resume-Keeps : (n : ℕ) (c : Controller) → Keeps c (resume_deadline n c).0
unfolding resume_deadline
resume-Keeps n c = record { limits = ground arith; iterations = ground arith }

failures-Keeps : (f : Option String) (c : Controller) → Keeps c (record_tool_result f c).0
unfolding record_tool_result
failures-Keeps f c = record { limits = ground arith; iterations = ground arith }

budget-Keeps : (n : ℕ) (c : Controller) → Keeps c (begin_tool n c).0
unfolding begin_tool
budget-Keeps n c = record { limits = ground arith; iterations = ground arith }

pub arrive-Keeps : (cancels : Bool) (t : Turn) → Kept t (arrive cancels t)
unfolding cancel
arrive-Keeps cancels t = record { limits = ground arith; iterations = ground arith }

asked-Keeps :
    (w : World) (t shown settled : Turn) (b : Bool)
    → Kept t shown
    → Kept t settled
    → Kept t (asked w shown settled b).0
asked-Keeps w t shown settled true h k = k
asked-Keeps w t shown settled false h k = h

after_pause-Keeps :
    (w : World) (c : ToolCall) (policy : PolicyResult) (t : Turn) (o : Outcome)
    → Kept t (after_pause w c policy t o).0
after_pause-Keeps w c policy t (raised e) = Keeps-same refl
after_pause-Keeps w c policy t returned =
    let shown : Turn =
      emit (approval_requested w.approval_id c policy) (record t { waiting = true }) in
    asked-Keeps w t shown (settle_approval w policy (arrive w.cancels shown)) w.shows_request
      (Keeps-same refl)
      (Keeps-trans (arrive-Keeps w.cancels shown)
        (resume-Keeps w.resume_now (arrive w.cancels shown).controller))

request_approval-Keeps :
    (w : World) (c : ToolCall) (policy : PolicyResult) (t : Turn)
    → Kept t (request_approval w c policy t).0
unfolding request_approval
request_approval-Keeps w c policy t =
    Keeps-trans (pause-Keeps w.pause_now w.paused_now t.controller) (
      after_pause-Keeps w c policy (asking_turn w c policy t)
        (pause_deadline w.pause_now w.paused_now t.controller).1)

after_asking-Keeps :
    (w : World) (c : ToolCall) (policy : PolicyResult) (t : Turn) (a : Asked)
    → Kept t (after_asking w c policy (t, a)).0
after_asking-Keeps w c policy t (answer true) = run_tool-Keeps w c t
after_asking-Keeps w c policy t (answer false) = Keeps-same refl
after_asking-Keeps w c policy t (no_answer a) = Keeps-same refl

decided-Keeps :
    (w : World) (c : ToolCall) (policy : PolicyResult) (d : Decision) (t : Turn)
    → Kept t (decided w c policy d t).0
decided-Keeps w c policy deny t = Keeps-same refl
decided-Keeps w c policy require_approval t = Keeps-trans (request_approval-Keeps w c policy t) (
    after_asking-Keeps w c policy (request_approval w c policy t).0
      (request_approval w c policy t).1)
decided-Keeps w c policy allow t = run_tool-Keeps w c t

append_skipped-controller :
    (p : Parts) (reason code : String) (first : Bool) (cs : List ToolCall) (t : Turn)
    → (append_skipped p reason code first cs t).controller ≡ t.controller
unfolding append_skipped
append_skipped-controller p reason code first [] t = refl
append_skipped-controller p reason code true (c ∷ cs) t = ground (
  arith,
  record_result-controller p c (failure reason not_executed code) t,
  append_skipped-controller p reason code false cs
      (record_result p c (failure reason not_executed code) t),
)
append_skipped-controller p reason code false (c ∷ cs) t = ground (
  arith,
  record_result-controller p c (failure reason not_executed code) (emit (requested c) t),
  append_skipped-controller p reason code false cs
      (record_result p c (failure reason not_executed code) (emit (requested c) t)),
)

abort_batch-Keeps :
    (p : Parts) (c : ToolCall) (r : ToolResult) (rest : List ToolCall) (reason code : String)
    (t : Turn)
    → Kept t (abort_batch p c r rest reason code t)
abort_batch-Keeps p c r rest reason code t = Keeps-same (
    ground (
      arith,
      record_result-controller p c r t,
      append_skipped-controller p reason code false rest (record_result p c r t),
    ))

after_record-Keeps :
    (p : Parts) (rest : List ToolCall) (t : Turn) (o : Outcome) → Kept t (after_record p rest t o).0
after_record-Keeps p rest t returned = Keeps-same refl
after_record-Keeps p rest t (raised (limit_reached r)) =
    Keeps-same (append_skipped-controller p _ _ false rest t)
after_record-Keeps p rest t (raised cancelled) =
    Keeps-same (append_skipped-controller p _ _ false rest t)
after_record-Keeps p rest t (raised (runtime_error e)) = Keeps-same refl

after_result-Keeps :
    (p : Parts) (w : World) (c : ToolCall) (r : ToolResult) (rest : List ToolCall) (t : Turn)
    → Kept t (after_result p w c r rest t).0
unfolding after_result
after_result-Keeps p w c r rest t = Keeps-trans (failures-Keeps (failure_of p c r) t.controller) (
    after_record-Keeps p rest _ (
      then_checkpoint w.end_now (record_tool_result (failure_of p c r) t.controller).0
        (record_tool_result (failure_of p c r) t.controller).1))

settle-Keeps :
    (p : Parts) (w : World) (c : ToolCall) (rest : List ToolCall) (t : Turn) (a : Attempt)
    → Kept t (settle p w c rest (t, a)).0
unfolding settle
settle-Keeps p w c rest t (result r) =
    Keeps-trans (Keeps-same (record_result-controller p c r t))
      (choose (published p (record_result p c r t)))
  where
    choose :
        (b : Bool)
        → Kept
            (record_result p c r t)
            (if b
              then after_result p w c r rest (record_result p c r t)
              else (record_result p c r t, some unpublished)).0
    choose true = after_result-Keeps p w c r rest (record_result p c r t)
    choose false = Keeps-same refl
settle-Keeps p w c rest t approval_timeout = abort_batch-Keeps p c _ rest _ _ t
settle-Keeps p w c rest t (stop (limit_reached r)) = abort_batch-Keeps p c _ rest _ _ t
settle-Keeps p w c rest t (stop cancelled) = abort_batch-Keeps p c _ rest _ _ t
settle-Keeps p w c rest t (stop (runtime_error e)) = abort_batch-Keeps p c _ rest _ _ t
settle-Keeps p w c rest t crash = abort_batch-Keeps p c _ rest _ _ t

module _ (p : Parts) (world : ℕ → World) where
  go_on-Keeps :
      (t : Turn) (go : Turn → Turn × Batch) (s : Turn × Option Batch)
      → Kept t s.0
      → ((u : Turn) → Kept u (go u).0)
      → Kept t (go_on go s).0
  go_on-Keeps t go (u, none) h k = Keeps-trans h (k u)
  go_on-Keeps t go (u, some b) h k = h

  batch_of-Keeps :
      (n : ℕ) (c : ToolCall) (rest : List ToolCall) (go : Turn → Turn × Batch) (t : Turn)
      (o : Outcome)
      → ((u : Turn) → Kept u (go u).0)
      → Kept t (batch_of p (world n) c rest go t o).0
  unfolding execute_one
  batch_of-Keeps n c rest go t returned k =
      go_on-Keeps t go _
        (Keeps-trans (decided-Keeps (world n) c (p.decide c) (p.decide c).decision t) (
          settle-Keeps p (world n) c rest (execute_one p (world n) c t).0
            (execute_one p (world n) c t).1))
        k
  batch_of-Keeps n c rest go t (raised (limit_reached r)) k =
      Keeps-same (append_skipped-controller p _ _ true (c ∷ rest) t)
  batch_of-Keeps n c rest go t (raised cancelled) k = Keeps-same refl
  batch_of-Keeps n c rest go t (raised (runtime_error e)) k = Keeps-same refl

  pub execute-Keeps :
      (n : ℕ) (calls : List ToolCall) (t : Turn) → Kept t (execute p world n calls t).0
  unfolding execute
  execute-Keeps n [] t = Keeps-same refl
  execute-Keeps n (c ∷ rest) t = choose (published p (emit (requested c) t)) _ (
      Keeps-trans (budget-Keeps (world n).begin_now t.controller) (
        batch_of-Keeps n c rest (λ u. execute p world (suc n) rest u)
          (with_controller (begin_tool (world n).begin_now t.controller).0 (emit (requested c) t))
          (begin_tool (world n).begin_now t.controller).1 (execute-Keeps (suc n) rest)))
    where
      choose :
          (b : Bool) (r : Turn × Batch)
          → Kept t r.0
          → Kept t (if b then r else (emit (requested c) t, unpublished)).0
      choose true r k = k
      choose false r k = Keeps-same refl
