-- ===== src/Conversation/Pending.antt =====
-- When calls and their results are added together, no call is pending that was not.
use my_coding_agent.Base.{
  String, ◌≡◌, ap, Bool, true, false, not, List, [], ◌++◌, arith, filter, contains, contains-append,
  contains-filter_of, Bool-cases, inl, inr,
}
use my_coding_agent.Conversation.{
  Conversation, append_user, requested_calls, completed_calls, pending_calls,
}
use my_coding_agent.Conversation.Closing.{
  filter_done, requested_calls-append, completed_calls-append,
}
use my_coding_agent.History.Units.{call_ids, result_ids}

-- What a test that filters nothing out of a list says of its elements.
filter-empty :
    (a : String) (p : String → Bool) (xs : List String)
    → filter p xs ≡ []
    → contains a xs ≡ true
    → p a ≡ false
filter-empty a p xs e h = elim (Bool-cases (p a)) [
  | inl kept ↦ cc (contains-filter_of a p xs h kept, ap (contains a) e)
  | inr dropped ↦ dropped
]

pub pending_calls-grown :
    (c c' : Conversation) (added : List String)
    → pending_calls c ≡ []
    → completed_calls c' ≡ completed_calls c ++ added
    → requested_calls c' ≡ requested_calls c ++ added
    → pending_calls c' ≡ []
unfolding pending_calls
pending_calls-grown c c' added h completed requested =
    rw (completed, requested)
      (filter_done (completed_calls c) added (requested_calls c ++ added) (λ a k. ground (
        arith,
        contains-append a (requested_calls c) added,
        filter-empty a (λ b. not (contains b (completed_calls c))) (requested_calls c) h,
      )))

pub pending_calls-append_user :
    (text : String) (c : Conversation)
    → pending_calls c ≡ []
    → pending_calls (append_user text c) ≡ []
unfolding append_user call_ids result_ids completed_calls requested_calls
pending_calls-append_user text c h =
    pending_calls-grown c (append_user text c) [] h (completed_calls-append c _)
      (requested_calls-append c _)
