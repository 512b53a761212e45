-- ===== src/Loop/Ending.antt =====
-- The loop ends: the budget of iterations bounds it.
use my_coding_agent.Base.{
  ℕ, ◌∙◌, zero, suc, ◌≡◌, refl, ◌+◌, ◌<◌, ◌≤◌, Bool, true, false, Option, none, some, List, [], ◌∷◌,
  arith, leb, if◌then◌else◌, Bool-cases, inl, inr,
}
use my_coding_agent.Messages.{Message, ToolCall}
use my_coding_agent.Conversation.{Conversation}
use my_coding_agent.Control.{
  Stop, Controller, Outcome, returned, raised, checkpoint, begin_iteration, record_model_response,
}
use my_coding_agent.Events.Emitter.{LlmResponse}
use my_coding_agent.Coordinator.{
  World, Turn, Parts, Batch, executed, aborted, unpublished, published, execute, with_controller,
}
use my_coding_agent.Coordinator.Keeps.{Keeps, Keeps-trans, execute-Keeps}
use my_coding_agent.Loop.{
  Awaited, arrived, ended, failed, Surroundings, LoopEnd, final, raises, unpublished_event,
  unfinished, tool_calls, conclude, act, appended, on_response, on_context, context_of, round, run,
  after_batch, responded_turn,
}

-- The loop has come to an end of the source.
abbrev pub is_end : LoopEnd → Bool
is_end (final _) = true
is_end (raises _) = true
is_end unpublished_event = true
is_end unfinished = false

-- After one round: a real end, or the counter of iterations and the limits as they were.
Goes : Turn → Turn × Option LoopEnd → Type 0
Goes t (t', none) = Keeps t.controller t'.controller
Goes t (t', some e) = is_end e ≡ true

conclude_ends : (r : LlmResponse) → is_end (conclude r) ≡ true
conclude_ends r = ground arith

after_batch-Goes :
    (t : Turn) (r : Turn × Batch) → Keeps t.controller r.0.controller → Goes t (after_batch r)
unfolding Goes
after_batch-Goes t (u, executed) h = h
after_batch-Goes t (u, aborted a) h = refl
after_batch-Goes t (u, unpublished) h = refl

act-Goes :
    (p : Parts) (world : ℕ → World) (r : LlmResponse) (cs : List ToolCall) (t u : Turn)
    → Keeps t.controller u.controller
    → Goes t (act p world r cs u)
unfolding Goes
act-Goes p world r [] t u h = conclude_ends r
act-Goes p world r (c ∷ cs) t u h =
    after_batch-Goes t (execute p world zero (c ∷ cs) u)
      (Keeps-trans h (execute-Keeps p world zero (c ∷ cs) u))

appended-Goes :
    (p : Parts) (world : ℕ → World) (r : LlmResponse) (o : Option Conversation) (t : Turn)
    → Goes t (appended p world r o t)
unfolding Goes record_model_response
appended-Goes p world r none t = refl
appended-Goes p world r (some c) t = choose (published p (responded_turn r c t))
  where
    choose :
        (b : Bool)
        → Goes t (
            if b
            then act p world r (tool_calls r.message.content) (responded_turn r c t)
            else (responded_turn r c t, some unpublished_event))
    choose true =
        act-Goes p world r _ t (responded_turn r c t) (record { limits = refl; iterations = refl })
    choose false = refl

on_response-Goes :
    (p : Parts) (world : ℕ → World) (cancels : Bool) (a : Awaited LlmResponse) (t : Turn)
    → Goes t (on_response p world cancels a t)
unfolding Goes
on_response-Goes p world cancels (ended e) t = refl
on_response-Goes p world cancels failed t = refl
on_response-Goes p world cancels (arrived r) t = appended-Goes p world r _ t

on_context-Goes :
    (p : Parts) (s : Surroundings) (n : ℕ) (a : Awaited (List Message)) (t : Turn)
    → Goes t (on_context p s n a t)
unfolding Goes
on_context-Goes p s n (ended e) t = refl
on_context-Goes p s n failed t = refl
on_context-Goes p s n (arrived messages) t =
    on_response-Goes p (s.tools n) (s.cancels n) (s.model n messages) t

-- What `begin_iteration` leaves of the limits and the counter.
data Admits (c : Controller) : Controller × Outcome → Type 0 where
  admitted :
      {d : Controller}
      → c.iterations < c.limits.max_iterations
      → d.limits ≡ c.limits
      → d.iterations ≡ c.iterations + 1
      → Admits c (d, returned)
  refused : {d : Controller} {e : Stop} → Admits c (d, raised e)

begin_iteration-Admits : (n : ℕ) (c : Controller) → Admits c (begin_iteration n c)
unfolding begin_iteration
begin_iteration-Admits n c = after (checkpoint n c) refl
  where
    after : (o : Outcome) → checkpoint n c ≡ o → Admits c (begin_iteration n c)
    after (raised e) h = rw (h, begin_iteration) refused
    after returned h = elim (Bool-cases (leb c.limits.max_iterations c.iterations)) [
      | inl e ↦ rw (h, begin_iteration) (rw e refused)
      | inr e ↦ rw (h, begin_iteration) (rw e (admitted (ground arith) refl refl))
    ]

round-Goes :
    (p : Parts) (s : Surroundings) (n : ℕ) (o : Outcome) (t : Turn) → Goes t (round p s n o t)
unfolding round Goes
round-Goes p s n (raised e) t = refl
round-Goes p s n returned t = on_context-Goes p s n (context_of s n t.conversation) t

-- How the loop goes on from one round.
abbrev pub next : ℕ → Parts → Surroundings → ℕ → Turn × Option LoopEnd → Turn × LoopEnd
next fuel p s n (t, some e) = (t, e)
next fuel p s n (t, none) = run fuel p s (suc n) t

-- One iteration from the Turn as it is after the controller's `begin_iteration`.
abbrev pub iterate : Parts → Surroundings → ℕ → Turn → Controller × Outcome → Turn × Option LoopEnd
iterate p s n t (c, o) = round p s n o (with_controller c t)

pub run-next :
    (fuel : ℕ) (p : Parts) (s : Surroundings) (n : ℕ) (t : Turn)
    → run (suc fuel) p s n t
      ≡ next fuel p s n (iterate p s n t (begin_iteration (s.begin_now n) t.controller))
unfolding run
run-next fuel p s n t = ground arith

module _ (p : Parts) (s : Surroundings) (n : ℕ) where
  next_ends :
      (fuel : ℕ) (t : Turn) (r : Turn × Option LoopEnd)
      → Goes t r
      → ((u : Turn) → Keeps t.controller u.controller → is_end (run fuel p s (suc n) u).1 ≡ true)
      → is_end (next fuel p s n r).1 ≡ true
  unfolding Goes
  next_ends fuel t (u, none) h k = k u h
  next_ends fuel t (u, some e) h k = h

  refused_ends :
      (fuel : ℕ) (t : Turn) (c : Controller) (e : Stop)
      → is_end (next fuel p s n (iterate p s n t (c, raised e))).1 ≡ true
  unfolding round
  refused_ends fuel t c e = refl

iterate_ends :
    (fuel : ℕ) (p : Parts) (s : Surroundings) (n : ℕ) (t : Turn) (r : Controller × Outcome)
    → Admits t.controller r
    → ((u : Turn)
        → t.controller.iterations < t.controller.limits.max_iterations
        → u.controller.limits ≡ t.controller.limits
        → u.controller.iterations ≡ t.controller.iterations + 1
        → is_end (run fuel p s (suc n) u).1 ≡ true)
    → is_end (next fuel p s n (iterate p s n t r)).1 ≡ true
iterate_ends fuel p s n t (c, raised e) h k = refused_ends p s n fuel t c e
iterate_ends fuel p s n t (c, returned) (admitted lt l i) k =
    next_ends p s n fuel (with_controller c t) (round p s n returned (with_controller c t))
      (round-Goes p s n returned (with_controller c t))
      (λ u h. k u lt (h.limits ∙ l) (h.iterations ∙ i))

-- With fuel for one iteration more than the limit leaves, the loop always comes to an end of the
-- source, a final text or an exception: it never runs out of fuel, whatever the model, the tools
-- and the context answer.
pub run_ends :
    (fuel : ℕ) (p : Parts) (s : Surroundings) (n : ℕ) (t : Turn)
    → t.controller.limits.max_iterations ≤ t.controller.iterations + fuel
    → is_end (run (suc fuel) p s n t).1 ≡ true
run_ends zero p s n t h = rw (run-next zero p s n t) (
    iterate_ends zero p s n t (begin_iteration (s.begin_now n) t.controller)
      (begin_iteration-Admits (s.begin_now n) t.controller) (λ u lt l i. absurd (omega arith)))
run_ends (suc fuel) p s n t h = rw (run-next (suc fuel) p s n t) (
    iterate_ends (suc fuel) p s n t (begin_iteration (s.begin_now n) t.controller)
      (begin_iteration-Admits (s.begin_now n) t.controller)
      (λ u lt l i. run_ends fuel p s (suc n) u (grind arith)))
