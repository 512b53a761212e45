-- ===== src/Control/Budgets.antt =====
-- The counters of a Turn stay within its limits, and a cancelled Turn goes no further.
use my_coding_agent.Base.{
  ◌∙◌, ℕ, ◌≤◌, ◌≡◌, refl, String, Bool, true, not, ◌||◌, Option, none, List, [], ◌∷◌, arith,
}
use my_coding_agent.Control.{
  cancelled, raised, Usage, Controller, cancel, checkpoint, begin_iteration, begin_tool,
  record_model_response, record_tool_result, pause_deadline, resume_deadline, bind,
}

pub record IsWithin (c : Controller) : Type 0 where
  pub iterations : c.iterations ≤ c.limits.max_iterations
  pub tools : c.tool_calls ≤ c.limits.max_tool_calls

-- Every call of a method that changes the controller, with the readings of the clock.
pub data Call : Type 0 where
  bind_task : Call
  cancel_turn : Bool → Call
  iteration tool : ℕ → Call
  response : Usage → String → Call
  result : Option String → Call
  pause : ℕ → ℕ → Call
  resume : ℕ → Call

unfoldable pub call : Call → Controller → Controller
call bind_task c = bind c
call (cancel_turn d) c = (cancel d c).controller
call (iteration n) c = (begin_iteration n c).0
call (tool n) c = (begin_tool n c).0
call (response u t) c = record_model_response u t c
call (result f) c = (record_tool_result f c).0
call (pause n m) c = (pause_deadline n m c).0
call (resume n) c = (resume_deadline n c).0

unfoldable pub calls : List Call → Controller → Controller
calls [] c = c
calls (k ∷ ks) c = calls ks (call k c)

-- If the first is cancelled, so is the second.
abbrev pub StaysCancelled : Controller → Controller → Type 0
StaysCancelled c d = (not c.cancel_requested || d.cancel_requested) ≡ true

-- A call keeps the limits and the counters within them, and never withdraws a cancellation.
record Keeps (c d : Controller) : Type 0 where
  same_limits : d.limits ≡ c.limits
  within : IsWithin c → IsWithin d
  still_cancelled : StaysCancelled c d

call-Keeps : (k : Call) (c : Controller) → Keeps c (call k c)
unfolding call bind cancel begin_iteration begin_tool record_model_response record_tool_result
    pause_deadline resume_deadline
call-Keeps bind_task c = ground arith
call-Keeps _ c = ground arith

-- Whatever methods are called in whatever order, the limits of a Turn never change, neither counter
-- passes its limit, and a cancellation that was requested stays requested.
pub calls-IsWithin :
    (ks : List Call) (c : Controller)
    → IsWithin c
    → let d = calls ks c in IsWithin d × (d.limits ≡ c.limits) × StaysCancelled c d
unfolding calls
calls-IsWithin [] c w = (w, refl, ground arith)
calls-IsWithin (k ∷ ks) c w =
    let kept = call-Keeps k c in
    let (w', same, stays) = calls-IsWithin ks (call k c) (kept.within w) in
    (w', same ∙ kept.same_limits, ground (arith, kept.still_cancelled, stays))

-- After a cancellation outside a pause, no iteration, tool call or pause begins: each raises
-- CancelledError and leaves the controller as it was.
pub cancelled_stops :
    (n m : ℕ) (c : Controller)
    → c.cancel_requested ≡ true
    → c.paused_at ≡ none
    → (begin_iteration n c ≡ (c, raised cancelled))
      × (begin_tool n c ≡ (c, raised cancelled))
      × (pause_deadline n m c ≡ (c, raised cancelled))
unfolding begin_iteration begin_tool pause_deadline checkpoint
cancelled_stops n m c h k = ground arith
