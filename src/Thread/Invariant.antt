-- ===== src/Thread/Invariant.antt =====
-- What holds of a Thread of agent/runtime/thread_runtime.py whatever is done to it, across Turns, commands and restarts.
pub mod Turns
pub mod Commands
pub mod Restart
use my_coding_agent.Base.{
  ℕ, zero, suc, ◌+◌, String, Bool, true, false, not, ◌&&◌, ◌||◌, Option, none, some, List, [], ◌∷◌,
  ◌++◌, ◌≡◌, ◌⊎◌, refl, ap, sym, ◌∙◌, arith, All, length, length-append, is_some, str_eq,
  Bool-cases, Option-cases, inl, inr, ◌==◌, if◌then◌else◌, subst,
}
use my_coding_agent.Messages.{BoundValues}
use my_coding_agent.Conversation.{Conversation, pending_calls, requested_calls, completed_calls}
use my_coding_agent.History.Units.{call_ids, result_ids}
use my_coding_agent.Conversation.Closing.{pending_calls-closed}
use my_coding_agent.Conversation.Pending.{pending_calls-grown, pending_calls-append_user}
use my_coding_agent.Control.{Controller}
use my_coding_agent.Coordinator
use my_coding_agent.Loop
use my_coding_agent.Loop.Answered.{Grows, run-Grows_always}
use my_coding_agent.Lease.{FilePath, Acquired, WorkspaceLease}
use my_coding_agent.Thread.{
  ThreadStatus, idle, running, waiting_approval, closed, TurnSummary, ActiveTurn, StoredActiveTurn,
  ThreadEvent, ThreadState, ThreadRecord, stored_active, state_of, persist_record, emit,
  create_thread,
}
use my_coding_agent.Thread.Submission.{is_closed, is_idle, submit, Submitted, reserve}
use my_coding_agent.Thread.Turns.{
  Preflight, preflight, after_check, after_lease, begin_turn, reject, Ending, Finish, Closing,
  finish_turn, resting, leave_turn, run_active, summary_of, finish_of, ending_of,
}
use my_coding_agent.Thread.Commands.{
  set_waiting, cancel_turn, cancel_active, cancel_of, show_cancel, close_of, aclose_of,
  close_thread, update_settings, aclose,
}
use my_coding_agent.Thread.Restart.{
  is_working, is_coherently_terminal, recover_active_record, restore, record_of,
}

-- In a state with no Turn under way no tool call is pending.
abbrev pub IsQuiet {ℓ} : {A : Type ℓ} → Option A → Conversation → Type 0
IsQuiet none c = pending_calls c ≡ []
IsQuiet (some _) c = Unit

-- The Turn under way is not the one that ended last.
abbrev pub IsFresh : String → Option TurnSummary → Type 0
IsFresh id none = Unit
IsFresh id (some summary) = str_eq summary.turn_id id ≡ false

abbrev pub IsNew : Option StoredActiveTurn → Option TurnSummary → Type 0
IsNew none latest = Unit
IsNew (some a) latest = IsFresh a.turn_id latest

-- What holds of every saved state.
pub record IsRestorable (s : ThreadState) : Type 0 where
  pub quiet : IsQuiet s.active_turn s.messages
  pub status : is_working s.status ≡ is_some s.active_turn
  pub new : IsNew s.active_turn s.latest_turn
  pub counted : s.completed_turns ≡ length s.turns

-- What holds of the record in memory (its conversation is that before the Turn under way ran), but for its lease and its saved states.
pub record IsCoherent (r : ThreadRecord) : Type 0 where
  pub quiet : pending_calls r.conversation ≡ []
  pub status : is_working r.status ≡ is_some r.active_turn
  pub new : IsNew (stored_active r.active_turn) r.latest_turn
  pub counted : r.completed_turns ≡ length r.turns
  pub exclusive : (is_some r.active_turn && is_some r.preflight_turn_id) ≡ false
  pub closes : (is_some r.active_turn || not r.closing || is_closed r.status) ≡ true

pub record IsWellFormed (r : ThreadRecord) : Type 0 where
  pub coherent : IsCoherent r
  pub leased : is_some r.lease ≡ is_some r.active_turn
  pub restorable : All IsRestorable r.saved

is_some-stored : (a : Option ActiveTurn) → is_some (stored_active a) ≡ is_some a
is_some-stored none = refl
is_some-stored (some _) = refl

IsQuiet-of :
    (a : Option ActiveTurn) (c : Conversation) → pending_calls c ≡ [] → IsQuiet (stored_active a) c
IsQuiet-of none c h = h
IsQuiet-of (some a) c h = tt

state_of-IsRestorable : (r : ThreadRecord) → IsCoherent r → IsRestorable (state_of r)
state_of-IsRestorable r h = record {
  quiet = IsQuiet-of r.active_turn r.conversation h.quiet;
  status = h.status ∙ sym (is_some-stored r.active_turn);
  new = h.new;
  counted = h.counted;
}

-- A part of the invariant, for a record whose lease is still to be settled.
pub record IsSaved (r : ThreadRecord) : Type 0 where
  pub coherent : IsCoherent r
  pub restorable : All IsRestorable r.saved

persist-IsSaved :
    (r : ThreadRecord) → IsCoherent r → All IsRestorable r.saved → IsSaved (persist_record r)
persist-IsSaved r h s = record {
  coherent = record {
    quiet = h.quiet;
    status = h.status;
    new = h.new;
    counted = h.counted;
    exclusive = h.exclusive;
    closes = h.closes;
  };
  restorable = (state_of-IsRestorable r h, s);
}

emit-IsSaved :
    (e : ThreadEvent) (r : ThreadRecord)
    → IsCoherent r
    → All IsRestorable r.saved
    → IsSaved (emit e r)
emit-IsSaved e r h s =
    persist-IsSaved (record r { durable_events = r.durable_events ++ (e ∷ []) })
      (record {
        quiet = h.quiet;
        status = h.status;
        new = h.new;
        counted = h.counted;
        exclusive = h.exclusive;
        closes = h.closes;
      })
      s

-- The invariant, once the lease fits.
IsWellFormed-of :
    (r : ThreadRecord) → IsSaved r → is_some r.lease ≡ is_some r.active_turn → IsWellFormed r
IsWellFormed-of r h l = record { coherent = h.coherent; leased = l; restorable = h.restorable }

pub create_thread-IsWellFormed :
    (workspace : FilePath) (prompt now : String) → IsWellFormed (create_thread workspace prompt now)
unfolding create_thread my_coding_agent.Conversation.new pending_calls requested_calls
    completed_calls call_ids result_ids
create_thread-IsWellFormed workspace prompt now =
    IsWellFormed-of _
      (persist-IsSaved _
        (record {
          quiet = refl;
          status = refl;
          new = tt;
          counted = refl;
          exclusive = refl;
          closes = refl;
        })
        tt)
      refl
