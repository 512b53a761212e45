-- ===== src/Coordinator/Approval.antt =====
-- The approval of a call: an answered wait leaves nothing behind, and only the first answer counts.
use my_coding_agent.Base.{ℕ, ◌≡◌, refl, String, Bool, true, false, none, arith, if◌then◌else◌}
use my_coding_agent.Messages.{ToolCall}
use my_coding_agent.Control.{
  Controller, Stop, Outcome, returned, raised, pause_deadline, resume_deadline,
}
use my_coding_agent.Coordinator.{
  PolicyResult, World, Turn, request_approval, resolve_approval, pending_approval, asked_of, asked,
  settle_approval, after_pause, asking_turn, answer, no_answer, crash, attempt_of, approved, denied,
  timed_out, interrupted, Resolution, emit, arrive, approval_requested,
}

-- Nothing of the approval is left, and the answer is that of its resolution.
pub record Leaves (t : Turn) : Type 0 where
  pub no_pending : t.pending ≡ none
  pub not_waiting : t.waiting ≡ false
  pub not_paused : t.controller.paused_at ≡ none

resume_runs : (n : ℕ) (c : Controller) → (resume_deadline n c).0.paused_at ≡ none
unfolding resume_deadline
resume_runs n c = ground arith

asked-Leaves :
    (w : World) (shown : Turn) (policy : PolicyResult) (t : Turn) (b verdict : Bool)
    → (asked w shown (settle_approval w policy t) b).1 ≡ answer verdict
    → Leaves (asked w shown (settle_approval w policy t) b).0
      × (w.resolution ≡ (if verdict then approved else denied))
asked-Leaves w shown policy t false verdict h = refused_answer h
  where
    refused_answer :
        no_answer crash ≡ answer verdict
        → Leaves shown × (w.resolution ≡ (if verdict then approved else denied))
    refused_answer k = cc
asked-Leaves w shown policy t true verdict h = (
  record {
    no_pending = refl;
    not_waiting = refl;
    not_paused = resume_runs w.resume_now t.controller;
  },
  by_resolution w.shows_resolution w.resolution verdict h,
)
  where
    by_resolution :
        (b : Bool) (r : Resolution) (v : Bool)
        → (if b then asked_of r else no_answer crash) ≡ answer v
        → r ≡ (if v then approved else denied)
    by_resolution false r v k = cc
    by_resolution true approved true k = refl
    by_resolution true approved false k = cc
    by_resolution true denied false k = refl
    by_resolution true denied true k = cc
    by_resolution true timed_out v k = cc
    by_resolution true interrupted v k = cc

-- Where the request for an approval answers at all, then nothing is pending, the Thread does not
-- wait and the deadline runs, and the answer is yes only if the user approved and no only if the
-- user denied.
pub request_approval-Leaves :
    (w : World) (c : ToolCall) (policy : PolicyResult) (t : Turn) (verdict : Bool)
    → (request_approval w c policy t).1 ≡ answer verdict
    → Leaves (request_approval w c policy t).0
      × (w.resolution ≡ (if verdict then approved else denied))
unfolding request_approval
request_approval-Leaves w c policy t verdict h =
    by_pause (pause_deadline w.pause_now w.paused_now t.controller).1 h
  where
    by_pause :
        (o : Outcome)
        → (after_pause w c policy (asking_turn w c policy t) o).1 ≡ answer verdict
        → Leaves (after_pause w c policy (asking_turn w c policy t) o).0
          × (w.resolution ≡ (if verdict then approved else denied))
    by_pause (raised e) k = refused_answer e k
      where
        refused_answer :
            (x : Stop)
            → no_answer (attempt_of x) ≡ answer verdict
            → Leaves (asking_turn w c policy t)
              × (w.resolution ≡ (if verdict then approved else denied))
        refused_answer x f = cc
    by_pause returned k =
        let shown : Turn =
          emit (approval_requested w.approval_id c policy)
            (record (asking_turn w c policy t) { waiting = true }) in
        asked-Leaves w shown policy (arrive w.cancels shown) w.shows_request verdict k

-- Once an answer to the pending approval is accepted, every further answer is refused and changes
-- nothing, and the approval is no longer shown as pending.
pub resolve_approval_once :
    (id other : String) (verdict again : Bool) (t : Turn)
    → (resolve_approval id verdict t).1 ≡ true
    → (resolve_approval other again (resolve_approval id verdict t).0
        ≡ ((resolve_approval id verdict t).0, false))
      × (pending_approval (resolve_approval id verdict t).0 ≡ none)
unfolding resolve_approval pending_approval
resolve_approval_once id other verdict again t h = (ground arith, ground arith)
