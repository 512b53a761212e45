-- ===== src/Coordinator/Answers.antt =====
-- The results that ToolCoordinator.execute (agent/runtime/tool_coordinator.py) adds for the calls of a batch.
use my_coding_agent.Base.{
  ℕ, subst, ◌+◌, if◌then◌else◌, suc, ◌≡◌, refl, ◌∙◌, String, Bool, true, false, Option, none, some,
  List, [], ◌∷◌, arith, inl, inr, Bool-cases, leb,
}
use my_coding_agent.Messages.{ToolCall}
use my_coding_agent.Control.{
  Controller, limit_reached, cancelled, runtime_error, Outcome, returned, raised, checkpoint,
  remaining_time, repeated_failure_limit, same_failure, begin_tool, record_tool_result,
}
use my_coding_agent.Coordinator.{
  World, Turn, Parts, Attempt, result, approval_timeout, stop, crash, Batch, executed, aborted,
  record_result, execute_one, after_result, settle, execute, after_record, then_checkpoint,
  with_controller, failure_of, emit, requested, unpublished, published, raising, raising_batch,
  go_on, batch_of, ToolResult,
}
use my_coding_agent.Coordinator.Recording.{
  Answers, Answers-trans, Answers-same, Answers-to, record_result-Answers, append_skipped-Filed,
  AnswersSome, AnswersSome-first, Filed, Filed-first, Answers-none, aborted-Filed,
  execute_one-conversation,
}

-- What `execute` leaves: an answer for each call, and no cancellation when it returns; for the first calls
-- only where an emission has ended it.
unfoldable pub Closed : Parts → Turn → List ToolCall → Turn × Batch → Type 0
Closed p t cs (t', executed) = Answers t cs t' × (t'.controller.cancel_requested ≡ false)
Closed p t cs (t', aborted a) = Answers t cs t'
Closed p t cs (t', unpublished) = AnswersSome t cs t' × (published p t' ≡ false)

-- What the coordinator leaves when a call is settled: an answer for the call, with the Turn not
-- cancelled, or an answer for the call and for each of the rest.
Settled : Parts → Turn → ToolCall → List ToolCall → Turn × Option Batch → Type 0
unfolding Closed
Settled p t c rest (t', none) = Answers t (c ∷ []) t' × (t'.controller.cancel_requested ≡ false)
Settled p t c rest (t', some b) = Closed p t (c ∷ rest) (t', b)

Closed-same :
    (p : Parts) (t u : Turn) (cs : List ToolCall) (r : Turn × Batch)
    → u.conversation ≡ t.conversation
    → Closed p u cs r
    → Closed p t cs r
unfolding Closed
Closed-same p t u cs (v, executed) e h = (Answers-same e h.0, h.1)
Closed-same p t u cs (v, aborted a) e h = Answers-same e h
Closed-same p t u cs (v, unpublished) e ((answered, rest, g, h), k) =
    ((answered, rest, g, Answers-same e h), k)

Closed-trans :
    (p : Parts) (t u : Turn) (c : ToolCall) (cs : List ToolCall) (r : Turn × Batch)
    → Answers t (c ∷ []) u
    → Closed p u cs r
    → Closed p t (c ∷ cs) r
unfolding Closed
Closed-trans p t u c cs (v, executed) h k = (Answers-trans (c ∷ []) cs h k.0, k.1)
Closed-trans p t u c cs (v, aborted a) h k = Answers-trans (c ∷ []) cs h k
Closed-trans p t u c cs (v, unpublished) h k = (AnswersSome-first c cs h k.0, k.1)

-- An exception that goes on, or that of an emission on the way
raising_batch-Closed :
    (p : Parts) (t : Turn) (cs : List ToolCall) (a : Attempt) (u : Turn)
    → Filed p t cs u
    → Closed p t cs (raising_batch p a u)
unfolding Closed
raising_batch-Closed p t cs a u (some_answers, all_answers) = choose (published p u) refl
  where
    choose :
        (b : Bool) → published p u ≡ b → Closed p t cs (u, if b then aborted a else unpublished)
    choose true e = all_answers e
    choose false e = (some_answers, e)

raising-Settled :
    (p : Parts) (t : Turn) (c : ToolCall) (rest : List ToolCall) (a : Attempt) (u : Turn)
    → Filed p t (c ∷ rest) u
    → Settled p t c rest (raising p a u)
unfolding Settled
raising-Settled p t c rest a u h = raising_batch-Closed p t (c ∷ rest) a u h

-- How a checkpoint ends, given whether the Turn is cancelled.
data Checked (b : Bool) : Outcome → Type 0 where
  goes_on : b ≡ false → Checked b returned
  is_cancelled : b ≡ true → Checked b (raised cancelled)
  is_limited : (reason : String) → Checked b (raised (limit_reached reason))

checkpoint-Checked : (n : ℕ) (c : Controller) → Checked c.cancel_requested (checkpoint n c)
unfolding checkpoint
checkpoint-Checked n c = elim (Bool-cases c.cancel_requested) [
  | inl e ↦ rw e (is_cancelled refl)
  | inr e ↦ rw e (elim (Bool-cases (leb (remaining_time n c) 0)) [
    | inl f ↦ rw f (is_limited _)
    | inr f ↦ rw f (goes_on refl)
  ])
]

-- The outcome of the counter of failures, and of the checkpoint that may follow it.
record_tool_result-Checked :
    (n : ℕ) (failure : Option String) (c : Controller)
    → Checked
        (record_tool_result failure c).0.cancel_requested
        (then_checkpoint n (record_tool_result failure c).0 (record_tool_result failure c).1)
unfolding record_tool_result
record_tool_result-Checked n none c = checkpoint-Checked n _
record_tool_result-Checked n (some f) c =
    elim (Bool-cases (
      leb repeated_failure_limit
        (if same_failure c.last_failure f then c.consecutive_failures + 1 else 1))) [
          | inl e ↦ rw e (is_limited _)
          | inr e ↦ rw e (checkpoint-Checked n _)
        ]

after_record-Settled :
    (p : Parts) (c : ToolCall) (rest : List ToolCall) (t u : Turn) (o : Outcome)
    → Answers t (c ∷ []) u
    → Checked u.controller.cancel_requested o
    → Settled p t c rest (after_record p rest u o)
unfolding Settled
after_record-Settled p c rest t u returned h (goes_on e) = (h, e)
after_record-Settled p c rest t u (raised cancelled) h (is_cancelled e) =
    raising-Settled p t c rest _ _
      (Filed-first p c rest h (append_skipped-Filed p _ _ false rest u))
after_record-Settled p c rest t u (raised (limit_reached _)) h (is_limited _) =
    raising-Settled p t c rest _ _
      (Filed-first p c rest h (append_skipped-Filed p _ _ false rest u))
after_record-Settled p c rest t u (raised (runtime_error _)) h k = elim k [ ]

after_result-Settled :
    (p : Parts) (w : World) (c : ToolCall) (r : ToolResult) (rest : List ToolCall) (t u : Turn)
    → Answers t (c ∷ []) u
    → Settled p t c rest (after_result p w c r rest u)
unfolding after_result
after_result-Settled p w c r rest t u h =
    after_record-Settled p c rest t
      (with_controller (record_tool_result (failure_of p c r) u.controller).0 u)
      (then_checkpoint w.end_now (record_tool_result (failure_of p c r) u.controller).0
        (record_tool_result (failure_of p c r) u.controller).1)
      (Answers-to h) (record_tool_result-Checked w.end_now (failure_of p c r) u.controller)

settle-Settled :
    (p : Parts) (w : World) (c : ToolCall) (rest : List ToolCall) (t : Turn) (a : Attempt)
    → Settled p t c rest (settle p w c rest (t, a))
unfolding settle Settled Closed
settle-Settled p w c rest t (result r) = choose (published p (record_result p c r t)) refl
  where
    choose :
        (b : Bool)
        → published p (record_result p c r t) ≡ b
        → Settled p t c rest (
            if b
            then after_result p w c r rest (record_result p c r t)
            else (record_result p c r t, some unpublished))
    choose true e =
        after_result-Settled p w c r rest t (record_result p c r t) (record_result-Answers p c r t)
    choose false e = ((c ∷ [], rest, refl, record_result-Answers p c r t), e)
settle-Settled p w c rest t approval_timeout =
    raising-Settled p t c rest _ _ (aborted-Filed p c _ rest _ _ t)
settle-Settled p w c rest t (stop (limit_reached r)) =
    raising-Settled p t c rest _ _ (aborted-Filed p c _ rest _ _ t)
settle-Settled p w c rest t (stop cancelled) =
    raising-Settled p t c rest _ _ (aborted-Filed p c _ rest _ _ t)
settle-Settled p w c rest t (stop (runtime_error e)) =
    raising-Settled p t c rest _ _ (aborted-Filed p c _ rest _ _ t)
settle-Settled p w c rest t crash = raising-Settled p t c rest _ _ (aborted-Filed p c _ rest _ _ t)

Settled-same :
    (p : Parts) (t u : Turn) (c : ToolCall) (rest : List ToolCall) (s : Turn × Option Batch)
    → u.conversation ≡ t.conversation
    → Settled p u c rest s
    → Settled p t c rest s
unfolding Settled
Settled-same p t u c rest (v, none) e (h, k) = (Answers-same e h, k)
Settled-same p t u c rest (v, some b) e h = Closed-same p t u (c ∷ rest) (v, b) e h

begin_tool-Checked : (n : ℕ) (c : Controller) → Checked c.cancel_requested (begin_tool n c).1
unfolding begin_tool
begin_tool-Checked n c = after (checkpoint n c) refl (checkpoint-Checked n c)
  where
    after :
        (o : Outcome)
        → checkpoint n c ≡ o
        → Checked c.cancel_requested o
        → Checked c.cancel_requested (begin_tool n c).1
    after returned e h =
        rw (e, begin_tool)
          (elim (Bool-cases (leb c.limits.max_tool_calls c.tool_calls)) [
            | inl e ↦ rw e (is_limited _)
            | inr e ↦ rw e h
          ])
    after (raised x) e h = rw (e, begin_tool) h

begin_tool-cancel :
    (n : ℕ) (c : Controller) → (begin_tool n c).0.cancel_requested ≡ c.cancel_requested
unfolding begin_tool
begin_tool-cancel n c = ground arith

-- The Turn when the request of a call is shown and its budget was asked.
abbrev pub begun : World → ToolCall → Turn → Turn
begun w c t = with_controller (begin_tool w.begin_now t.controller).0 (emit (requested c) t)

go_on-Closed :
    (p : Parts) (c : ToolCall) (rest : List ToolCall) (t : Turn) (go : Turn → Turn × Batch)
    (s : Turn × Option Batch)
    → Settled p t c rest s
    → ((u : Turn) → u.controller.cancel_requested ≡ false → Closed p u rest (go u))
    → Closed p t (c ∷ rest) (go_on go s)
unfolding Settled
go_on-Closed p c rest t go (u, none) (h, e) k = Closed-trans p t u c rest _ h (k u e)
go_on-Closed p c rest t go (u, some b) h k = h

batch_of-Closed :
    (p : Parts) (w : World) (c : ToolCall) (rest : List ToolCall) (go : Turn → Turn × Batch)
    (t u : Turn) (o : Outcome)
    → u.conversation ≡ t.conversation
    → Checked false o
    → ((v : Turn) → v.controller.cancel_requested ≡ false → Closed p v rest (go v))
    → Closed p t (c ∷ rest) (batch_of p w c rest go u o)
unfolding Closed
batch_of-Closed p w c rest go t u returned same (goes_on _) k =
    go_on-Closed p c rest t go _
      (Settled-same p t (execute_one p w c u).0 c rest (settle p w c rest (execute_one p w c u))
        (execute_one-conversation p w c u ∙ same)
        (settle-Settled p w c rest (execute_one p w c u).0 (execute_one p w c u).1))
      k
batch_of-Closed p w c rest go t u (raised cancelled) same (is_cancelled e) k = cc
batch_of-Closed p w c rest go t u (raised (limit_reached _)) same (is_limited _) k =
    Closed-same p t u (c ∷ rest) _ same
      (raising_batch-Closed p u (c ∷ rest) _ _ (append_skipped-Filed p _ _ true (c ∷ rest) u))
batch_of-Closed p w c rest go t u (raised (runtime_error _)) same h k = elim h [ ]

pub execute-Closed :
    (p : Parts) (world : ℕ → World) (n : ℕ) (calls : List ToolCall) (t : Turn)
    → t.controller.cancel_requested ≡ false
    → Closed p t calls (execute p world n calls t)
unfolding execute Closed
execute-Closed p world n [] t h = (Answers-none refl, h)
execute-Closed p world n (c ∷ rest) t h = choose (published p (emit (requested c) t)) _ refl (
    batch_of-Closed p (world n) c rest (λ u. execute p world (suc n) rest u) t (begun (world n) c t)
      (begin_tool (world n).begin_now t.controller).1 refl
      (subst (λ b. Checked b (begin_tool (world n).begin_now t.controller).1) h
        (begin_tool-Checked (world n).begin_now t.controller))
      (execute-Closed p world (suc n) rest))
  where
    choose :
        (b : Bool) (r : Turn × Batch)
        → published p (emit (requested c) t) ≡ b
        → Closed p t (c ∷ rest) r
        → Closed p t (c ∷ rest) (if b then r else (emit (requested c) t, unpublished))
    choose true r e k = k
    choose false r e k = (([], c ∷ rest, refl, Answers-none refl), e)

-- What `execute` has answered, by its end
abbrev pub AnswersAt : Parts → Turn → List ToolCall → Turn → Batch → Type 0
AnswersAt p t calls t' executed = Answers t calls t'
AnswersAt p t calls t' (aborted a) = Answers t calls t'
AnswersAt p t calls t' unpublished = AnswersSome t calls t' × (published p t' ≡ false)

-- If the Turn is not cancelled when a batch of tool calls starts, the coordinator adds exactly one
-- result for each call of the batch, in order, and no further call, whether it returns or raises,
-- unless the exception is that of an emission that nothing catches: then the newest emission has
-- raised, and the first calls have their results, in order.
pub execute-AnswersAt :
    (p : Parts) (world : ℕ → World) (n : ℕ) (calls : List ToolCall) (t : Turn)
    → t.controller.cancel_requested ≡ false
    → AnswersAt p t calls (execute p world n calls t).0 (execute p world n calls t).1
unfolding Closed
execute-AnswersAt p world n calls t h =
    by_end (execute p world n calls t) (execute-Closed p world n calls t h)
  where
    by_end : (r : Turn × Batch) → Closed p t calls r → AnswersAt p t calls r.0 r.1
    by_end (u, executed) k = k.0
    by_end (u, aborted a) k = k
    by_end (u, unpublished) k = k
