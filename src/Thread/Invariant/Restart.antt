-- ===== src/Thread/Invariant/Restart.antt =====
-- A restart of agent/runtime/thread_runtime.py makes a well-formed Thread of each state that was saved.
use my_coding_agent.Base.{
  String, false, not, ◌||◌, Option, none, some, List, [], ◌∷◌, ◌≡◌, ◌⊎◌, refl, ap, sym, arith, All,
  length, length-append, is_some, inl, inr, subst,
}
use my_coding_agent.Messages.{BoundValues}
use my_coding_agent.Conversation.Closing.{pending_calls-closed}
use my_coding_agent.Lease.{FilePath}
use my_coding_agent.Thread.{TurnSummary, StoredActiveTurn, ThreadState, ThreadRecord}
use my_coding_agent.Thread.Restart.{
  is_working, is_coherently_terminal, recover_active_record, restore, record_of,
  interrupted_summary,
}
use my_coding_agent.Thread.Invariant.{
  IsQuiet, IsNew, IsRestorable, IsWellFormed, persist-IsSaved, emit-IsSaved, IsWellFormed-of,
}

-- A saved state that agrees with its active Turn's end is never met: the Turn under way is not the last.
pub not_terminal :
    (s : ThreadState) (a : Option StoredActiveTurn) (l : Option TurnSummary)
    → s.active_turn ≡ a
    → s.latest_turn ≡ l
    → IsNew a l
    → is_coherently_terminal s ≡ false
unfolding is_coherently_terminal
not_terminal s none l ea el h = ground arith
not_terminal s (some a) none ea el h = ground arith
not_terminal s (some a) (some t) ea el h = ground arith

recover_active_record-IsWellFormed :
    (bound : BoundValues) (id now : String) (active : Option StoredActiveTurn) (r : ThreadRecord)
    → r.completed_turns ≡ length r.turns
    → r.preflight_turn_id ≡ none
    → r.closing ≡ false
    → r.lease ≡ none
    → All IsRestorable r.saved
    → IsWellFormed (recover_active_record bound id now active r)
unfolding recover_active_record
recover_active_record-IsWellFormed bound id now active r counted none_reserved not_closing unleased
      saved =
    let once =
      emit-IsSaved _ _
        (record {
          quiet = pending_calls-closed bound r.conversation;
          status = refl;
          new = tt;
          counted =
              omega (
                arith,
                counted,
                length-append {0} r.turns (interrupted_summary id now active ∷ []),
              );
          exclusive = refl;
          closes = ap (λ b. not b || false) not_closing;
        })
        saved in
    IsWellFormed-of _ (persist-IsSaved _ once.coherent once.restorable) (ap is_some unleased)

module _ (bound : BoundValues) (id now : String) (workspace : FilePath)
    (saved : List ThreadState) where
  recovered-IsWellFormed :
      (s : ThreadState)
      → IsRestorable s
      → All IsRestorable saved
      → IsWellFormed
          (recover_active_record bound id now s.active_turn (record_of workspace saved s))
  recovered-IsWellFormed s h all_saved =
      recover_active_record-IsWellFormed bound id now s.active_turn (record_of workspace saved s)
        h.counted refl refl refl all_saved

  untouched-IsWellFormed :
      (s : ThreadState)
      → IsRestorable s
      → All IsRestorable saved
      → s.active_turn ≡ none
      → is_working s.status ≡ false
      → IsWellFormed (record_of workspace saved s)
  untouched-IsWellFormed s h all_saved e rests = record {
    coherent = record {
      quiet = subst (λ a. IsQuiet a s.messages) e h.quiet;
      status = rests;
      new = tt;
      counted = h.counted;
      exclusive = refl;
      closes = refl;
    };
    leased = refl;
    restorable = all_saved;
  }

  restore_cases :
      (s : ThreadState)
      → is_coherently_terminal s ≡ false
      → (restore bound id now workspace saved s
          ≡ recover_active_record bound id now s.active_turn (record_of workspace saved s))
        ⊎ ((restore bound id now workspace saved s ≡ record_of workspace saved s)
            × (is_some s.active_turn ≡ false)
            × (is_working s.status ≡ false))
  unfolding restore
  restore_cases s h = ground arith

  pub restore-IsWellFormed :
      (s : ThreadState)
      → IsRestorable s
      → All IsRestorable saved
      → IsWellFormed (restore bound id now workspace saved s)
  restore-IsWellFormed s h all_saved =
      elim (restore_cases s (not_terminal s s.active_turn s.latest_turn refl refl h.new)) [
        | inl e ↦ subst IsWellFormed (sym e) (recovered-IsWellFormed s h all_saved)
        | inr (e, f, g) ↦
            subst IsWellFormed (sym e)
              (untouched-IsWellFormed s h all_saved (is_none s.active_turn f) g)
      ]
    where
      is_none : (a : Option StoredActiveTurn) → is_some a ≡ false → a ≡ none
      is_none none e = refl
      is_none (some a) e = cc
