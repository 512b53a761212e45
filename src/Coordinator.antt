-- ===== src/Coordinator.antt =====
-- agent/runtime/tool_coordinator.py: the tool calls of one model response, in order. The policy, the extraction of evidence and the bounding of results are
-- arguments; what a call meets outside (the user's approval, the tool, the clock) is its `World`.
-- `emissions` lists what is emitted; an emission may raise, as `stores` and the `World` say.
pub mod ToolCalls
pub mod ExecuteOne
pub mod Recording
pub mod Answers
pub mod Keeps
pub mod Approval
pub use ToolCalls.*
unfoldable pub use ExecuteOne.*
use my_coding_agent.Base.{
  ℕ, zero, suc, ◌+◌, ◌-◌, String, Bool, true, false, not, ◌&&◌, ◌||◌, Option, none, some, List, [],
  ◌∷◌, ◌++◌, length, drop, is_empty, is_some, str_eq, if◌then◌else◌,
}
use my_coding_agent.Messages.{Json, Items, Fields, Message, ToolCall, ToolResultBlock, BoundValues}
use my_coding_agent.Conversation.{Conversation, append_tool_result}
use my_coding_agent.Control.{
  Controller, Stop, limit_reached, cancelled, runtime_error, Outcome, returned, raised, cancel,
  checkpoint, begin_tool, record_tool_result, pause_deadline, resume_deadline, Cancelling,
}

abbrev pub max_task_evidence : ℕ
max_task_evidence = 100

-- `TaskState.record_evidence`: the newest hundred are kept.
abbrev pub keep_evidence : List Fields → Fields → List Fields
keep_evidence es e = drop (length es + 1 - max_task_evidence) (es ++ (e ∷ []))

pub record_evidence : Parts → List Fields → Turn → Turn
record_evidence p [] t = t
record_evidence p (e ∷ es) t =
    let t' = emit (evidence_recorded e) (record t { evidence = keep_evidence t.evidence e }) in
    let rest = record_evidence p es t' in if published p t' then rest else t'

-- The part of `_record` that the evidence follows: the result enters the history and is shown.
pub file_result : Parts → ToolCall → ToolResult → Turn → Turn
file_result p call r t =
    let bounded = reduce_tool_result p.bound r in
    emit (done call bounded) (record t {
      conversation = append_tool_result p.bound (to_message_block call.id bounded) t.conversation;
    })

-- `_record`; it raises where its last emission is not stored.
unfoldable pub record_result : Parts → ToolCall → ToolResult → Turn → Turn
unfolding record_evidence file_result
record_result p call r t =
    let r' = p.attach_evidence call r in
    let filed = file_result p call r' t in
    if published p filed && filed.has_task_state
    then record_evidence p (p.evidence_of call r') filed
    else filed

abbrev pub not_executed : Fields
not_executed = Fields.field "executed" (Json.boolean false) Fields.end

-- `_append_skipped`; the flag says that the request of the first call has been emitted. It raises
-- where its last emission is not stored.
unfoldable pub append_skipped : Parts → String → String → Bool → List ToolCall → Turn → Turn
unfolding record_result
append_skipped p reason code first_emitted [] t = t
append_skipped p reason code first_emitted (c ∷ cs) t =
    let t' = if first_emitted then t else emit (requested c) t in
    let filed = record_result p c (failure reason not_executed code) t' in
    let rest = append_skipped p reason code false cs filed in
    if published p t' then (if published p filed then rest else filed) else t'

-- `_abort_batch`
abbrev pub abort_batch :
    Parts → ToolCall → ToolResult → List ToolCall → String → String → Turn → Turn
abort_batch p call r remaining reason code t =
    let filed = record_result p call r t in
    let rest = append_skipped p reason code false remaining filed in
    if published p filed then rest else filed

-- How `execute` ends: it returns, or raises; `unpublished` is the exception of an emission that no branch
-- catches.
pub data Batch : Type 0 where
  executed : Batch
  aborted : Attempt → Batch
  unpublished : Batch

-- An exception goes on, unless an emission on the way raised another one.
abbrev pub raising : Parts → Attempt → Turn → Turn × Option Batch
raising p a t = (t, some (if published p t then aborted a else unpublished))

abbrev pub raising_batch : Parts → Attempt → Turn → Turn × Batch
raising_batch p a t = (t, if published p t then aborted a else unpublished)

abbrev pub failure_of : Parts → ToolCall → ToolResult → Option String
failure_of p call r = elim r.error_code [ none ↦ none | some code ↦ some (p.fingerprint call code) ]

abbrev pub with_controller : Controller → Turn → Turn
with_controller c t = record t { controller = c }

abbrev stop_reason : String → String
stop_reason r =
    if str_eq r "repeated_tool_failure"
    then "repeated tool failure limit reached"
    else "Turn execution deadline reached"

-- The `except` branches that follow the record of a result: `none` to go on with the next call.
abbrev pub after_record : Parts → List ToolCall → Turn → Outcome → Turn × Option Batch
after_record p rest t returned = (t, none)
after_record p rest t (raised (limit_reached reason)) =
    raising p (stop (limit_reached reason))
      (append_skipped p (stop_reason reason) "LIMIT_REACHED" false rest t)
after_record p rest t (raised cancelled) =
    raising p (stop cancelled) (append_skipped p "Turn cancelled" "CANCELLED" false rest t)
after_record p rest t (raised (runtime_error e)) = (t, some (aborted crash))

abbrev pub then_checkpoint : ℕ → Controller → Outcome → Outcome
then_checkpoint now c (raised e) = raised e
then_checkpoint now c returned = checkpoint now c

unfoldable pub after_result :
    Parts → World → ToolCall → ToolResult → List ToolCall → Turn → Turn × Option Batch
after_result p w call r rest t =
    let (c, outcome) = record_tool_result (failure_of p call r) t.controller in
    after_record p rest (with_controller c t) (then_checkpoint w.end_now c outcome)

-- The `except` branches of `execute`, and the record of a result.
unfoldable pub settle :
    Parts → World → ToolCall → List ToolCall → Turn × Attempt → Turn × Option Batch
unfolding after_result
settle p w call rest (t, approval_timeout) = raising p approval_timeout (
    abort_batch p call (failure "tool approval timed out" not_executed "APPROVAL_TIMEOUT") rest
      "tool approval timed out" "APPROVAL_TIMEOUT" t)
settle p w call rest (t, stop (limit_reached reason)) = raising p (stop (limit_reached reason)) (
    abort_batch p call
      (failure "tool cancelled because the Turn execution deadline was reached" Fields.end
        "LIMIT_REACHED")
      rest "Turn execution deadline reached" "LIMIT_REACHED" t)
settle p w call rest (t, stop cancelled) = raising p (stop cancelled) (
    abort_batch p call (failure "tool cancelled with its active Turn" Fields.end "CANCELLED") rest
      "Turn cancelled" "CANCELLED" t)
settle p w call rest (t, stop (runtime_error e)) = raising p crash (
    abort_batch p call (failure "tool coordination failed" not_executed "INTERNAL_ERROR") rest
      "tool coordination failed" "INTERNAL_ERROR" t)
settle p w call rest (t, crash) = raising p crash (
    abort_batch p call (failure "tool coordination failed" not_executed "INTERNAL_ERROR") rest
      "tool coordination failed" "INTERNAL_ERROR" t)
settle p w call rest (t, result r) =
    let filed = record_result p call r t in
    if published p filed then after_result p w call r rest filed else (filed, some unpublished)

abbrev pub go_on : (Turn → Turn × Batch) → Turn × Option Batch → Turn × Batch
go_on go (t, some b) = (t, b)
go_on go (t, none) = go t

-- What follows the budget of a call; the argument goes on with the next one.
abbrev pub batch_of :
    Parts → World → ToolCall → List ToolCall → (Turn → Turn × Batch) → Turn → Outcome → Turn × Batch
batch_of p w call rest go t (raised (limit_reached reason)) =
    raising_batch p (stop (limit_reached reason))
      (append_skipped p "tool call budget reached" "LIMIT_REACHED" true (call ∷ rest) t)
batch_of p w call rest go t (raised cancelled) = (t, aborted (stop cancelled))
batch_of p w call rest go t (raised (runtime_error e)) = (t, aborted crash)
batch_of p w call rest go t returned = go_on go (settle p w call rest (execute_one p w call t))

-- `execute`; the worlds are those of the calls in order.
unfoldable pub execute : Parts → (ℕ → World) → ℕ → List ToolCall → Turn → Turn × Batch
unfolding execute_one settle append_skipped
execute p world n [] t = (t, executed)
execute p world n (call ∷ rest) t =
    let shown = emit (requested call) t in
    let begun = begin_tool (world n).begin_now shown.controller in
    if published p shown
    then batch_of p (world n) call rest (λ u. execute p world (suc n) rest u)
        (with_controller begun.0 shown) begun.1
    else (shown, unpublished)

-- `resolve_approval`
unfoldable pub resolve_approval : String → Bool → Turn → Turn × Bool
resolve_approval id verdict t = elim t.pending [
  | none ↦ (t, false)
  | some a ↦
      if is_some a.outcome || not (str_eq id a.approval_id)
      then (t, false)
      else (record t { pending = some (record a { outcome = some verdict }) }, true)
]

-- `pending_approval`, without the rendering of its fields
unfoldable pub pending_approval : Turn → Option PendingApproval
pending_approval t = elim t.pending [
  | none ↦ none
  | some a ↦ if is_some a.outcome then none else some a
]
