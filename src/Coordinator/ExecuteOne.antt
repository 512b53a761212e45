-- ===== src/Coordinator/ExecuteOne.antt =====
-- `_execute_one` of agent/runtime/tool_coordinator.py: the policy, the approval and the execution of one
-- tool call.
use my_coding_agent.Base.{Bool, true, false, none, some, List, [], ◌∷◌, if◌then◌else◌}
use my_coding_agent.Messages.{Json, Items, Fields, ToolCall, put_field}
use my_coding_agent.Control.{
  Stop, limit_reached, cancelled, runtime_error, Outcome, returned, raised, cancel, pause_deadline,
  resume_deadline,
}
use my_coding_agent.Coordinator.ToolCalls.{
  ToolResult, failure, Decision, PolicyResult, Resolution, Change, World, PendingApproval, Turn,
  Parts, emit, allow, deny, require_approval, approved, denied, timed_out, interrupted, finished,
  stopped, crashed, started, approval_requested, approval_resolved,
}

abbrev pub denied_result : PolicyResult → Bool → ToolResult
denied_result policy approval_denied =
    failure "tool call denied by Policy"
      (Fields.field "executed" (Json.boolean false) (
        Fields.field "reason_code"
          (Json.text (if approval_denied then "APPROVAL_DENIED" else policy.reason_code))
          (Fields.field "policy_reason_code" (Json.text policy.reason_code)
            (Fields.field "policy_message" (Json.text policy.message) Fields.end))))
      "POLICY_DENIED"

-- How `_execute_one` ends.
pub data Attempt : Type 0 where
  result : ToolResult → Attempt
  approval_timeout : Attempt
  stop : Stop → Attempt
  crash : Attempt

-- A cancellation that arrives while the coordinator waits
abbrev pub arrive : Bool → Turn → Turn
arrive cancels t =
    if cancels then record t { controller = (cancel false t.controller).controller } else t

-- How `_request_approval` ends.
pub data Asked : Type 0 where
  answer : Bool → Asked
  no_answer : Attempt → Asked

abbrev pub asked_of : Resolution → Asked
asked_of approved = answer true
asked_of denied = answer false
asked_of timed_out = no_answer approval_timeout
asked_of interrupted = no_answer (stop cancelled)

abbrev pub attempt_of : Stop → Attempt
attempt_of (runtime_error _) = crash
attempt_of (limit_reached reason) = stop (limit_reached reason)
attempt_of cancelled = stop cancelled

-- The `finally` of `_request_approval`
abbrev pub settle_approval : World → PolicyResult → Turn → Turn
settle_approval w policy t = emit (approval_resolved w.approval_id w.resolution policy) (record t {
  pending = none;
  waiting = false;
  controller = (resume_deadline w.resume_now t.controller).0;
})

-- What an approval gives, once it is resolved; an event that is not stored raises.
abbrev pub resolved_of : World → Asked
resolved_of w = if w.shows_resolution then asked_of w.resolution else no_answer crash

-- Whether the request could be shown, which stands before the `try`: if not, nothing is settled.
abbrev pub asked : World → Turn → Turn → Bool → Turn × Asked
asked w shown settled true = (settled, resolved_of w)
asked w shown settled false = (shown, no_answer crash)

abbrev pub after_pause : World → ToolCall → PolicyResult → Turn → Outcome → Turn × Asked
after_pause w call policy t (raised e) = (t, no_answer (attempt_of e))
after_pause w call policy t returned =
    let shown = emit (approval_requested w.approval_id call policy) (record t { waiting = true }) in
    asked w shown (settle_approval w policy (arrive w.cancels shown)) w.shows_request

-- The Turn with the approval pending, and the controller that was asked to pause
abbrev pub asking_turn : World → ToolCall → PolicyResult → Turn → Turn
asking_turn w call policy t =
    let asking : PendingApproval = record {
      approval_id = w.approval_id;
      outcome = none;
      tool_call = call;
      policy = policy;
    } in
    record t {
      pending = some asking;
      controller = (pause_deadline w.pause_now w.paused_now t.controller).0;
    }

-- `_request_approval`
unfoldable pub request_approval : World → ToolCall → PolicyResult → Turn → Turn × Asked
request_approval w call policy t =
    after_pause w call policy (asking_turn w call policy t)
      (pause_deadline w.pause_now w.paused_now t.controller).1

abbrev pub path_items : List Change → Items
path_items [] = Items.nil
path_items (c ∷ cs) = Items.cons (Json.text c.path) (path_items cs)

abbrev pub type_items : List Change → Items
type_items [] = Items.nil
type_items (c ∷ cs) = Items.cons (Json.text c.change_type) (type_items cs)

abbrev pub with_changes : List Change → ToolResult → ToolResult
with_changes [] r = r
with_changes (c ∷ cs) r = record r {
  metadata =
      put_field "change_types" (Json.array (type_items (c ∷ cs)))
        (put_field "changed_paths" (Json.array (path_items (c ∷ cs))) r.metadata);
}

-- `_execute_one`, once the call may run
abbrev pub after_start : World → Turn → Turn × Attempt
after_start w t' = elim w.conflict [
  | some r ↦ (t', result r)
  | none ↦
      let t'' = arrive w.cancels t' in
      elim w.execution [
        | finished r ↦ (t'', result (with_changes w.changes r))
        | stopped (runtime_error _) ↦ (t'', crash)
        | stopped e ↦ (record t'' { sessions_cancelled = true }, attempt_of e)
        | crashed ↦ (t'', crash)
      ]
]

unfoldable pub run_tool : World → ToolCall → Turn → Turn × Attempt
run_tool w call t =
    let t' = emit (started call) t in if w.shows_start then after_start w t' else (t', crash)

abbrev pub after_asking : World → ToolCall → PolicyResult → Turn × Asked → Turn × Attempt
after_asking w call policy (t, answer true) = run_tool w call t
after_asking w call policy (t, answer false) = (t, result (denied_result policy true))
after_asking w call policy (t, no_answer a) = (t, a)

abbrev pub decided : World → ToolCall → PolicyResult → Decision → Turn → Turn × Attempt
decided w call policy deny t = (t, result (denied_result policy false))
decided w call policy require_approval t =
    after_asking w call policy (request_approval w call policy t)
decided w call policy allow t = run_tool w call t

-- `_execute_one`
unfoldable pub execute_one : Parts → World → ToolCall → Turn → Turn × Attempt
execute_one p w call t = decided w call (p.decide call) (p.decide call).decision t
