-- ===== src/Conversation/Closing.antt =====
-- Closing the interrupted tool calls of a restored conversation.
use my_coding_agent.Base.{
  contains-append, contains-filter_of, contains_self, Bool-cases, inl, inr, String, ◌≡◌, refl, ap,
  true, not, ◌||◌, List, [], ◌∷◌, ◌++◌, map, append-nil, append_assoc, arith, filter, contains,
}
use my_coding_agent.Messages.{Message, BoundValues, reduce_tool_result_block}
use my_coding_agent.History.Units.{call_ids, result_ids}
use my_coding_agent.Conversation.{
  Conversation, result_message, interrupted_result, requested_calls, completed_calls, pending_calls,
  append_interrupted, append_interrupted_tool_results,
}

-- The messages that close the calls `ids`.
abbrev pub closing_messages : BoundValues → List String → List Message
closing_messages bound = map (λ a. result_message bound (interrupted_result a))

append_interrupted-append :
    (bound : BoundValues) (ids : List String) (c : Conversation)
    → append_interrupted bound ids c ≡ c ++ closing_messages bound ids
unfolding append_interrupted
append_interrupted-append bound [] c = rw append-nil
append_interrupted-append bound (a ∷ ids) c = rw (append_interrupted-append bound ids, append_assoc)

pub requested_calls-append :
    (c d : Conversation) → requested_calls (c ++ d) ≡ requested_calls c ++ requested_calls d
unfolding requested_calls
requested_calls-append [] d = refl
requested_calls-append (m ∷ c) d = rw (requested_calls-append c d, append_assoc)

pub completed_calls-append :
    (c d : Conversation) → completed_calls (c ++ d) ≡ completed_calls c ++ completed_calls d
unfolding completed_calls
completed_calls-append [] d = refl
completed_calls-append (m ∷ c) d = rw (completed_calls-append c d, append_assoc)

requested_calls-closing :
    (bound : BoundValues) (ids : List String) → requested_calls (closing_messages bound ids) ≡ []
unfolding requested_calls call_ids
requested_calls-closing bound [] = refl
requested_calls-closing bound (a ∷ ids) = requested_calls-closing bound ids

completed_calls-closing :
    (bound : BoundValues) (ids : List String) → completed_calls (closing_messages bound ids) ≡ ids
unfolding completed_calls result_ids reduce_tool_result_block
completed_calls-closing bound [] = refl
completed_calls-closing bound (a ∷ ids) = ap (λ xs. a ∷ xs) (completed_calls-closing bound ids)

-- The conversation is kept as it stands, and one result for each pending call is added behind it.
pub append_interrupted_tool_results_lem :
    (bound : BoundValues) (c : Conversation)
    → let (c', ids) = append_interrupted_tool_results bound c in
      (c' ≡ c ++ closing_messages bound ids) × (ids ≡ pending_calls c)
unfolding append_interrupted_tool_results
append_interrupted_tool_results_lem bound c =
    (append_interrupted-append bound (pending_calls c) c, refl)

-- What passes one test and is listed under its own name fails the test of not being listed.
pub filter_done :
    (done todo xs : List String)
    → ((a : String) → contains a xs ≡ true → (contains a done || contains a todo) ≡ true)
    → filter (λ a. not (contains a (done ++ todo))) xs ≡ []
filter_done done todo [] h = refl
filter_done done todo (x ∷ xs) h = ground (
  arith,
  contains-append x done todo,
  h x (contains_self x xs),
  filter_done done todo xs (λ a k. h a (ground arith)),
)

-- Once the interrupted calls have been closed, no call is pending.
pub pending_calls-closed :
    (bound : BoundValues) (c : Conversation)
    → pending_calls (append_interrupted_tool_results bound c).0 ≡ []
unfolding append_interrupted_tool_results pending_calls
pending_calls-closed bound c =
    let done = completed_calls c in
    let todo = pending_calls c in
    let closing = closing_messages bound todo in
    rw
      (
        append_interrupted-append bound todo c,
        requested_calls-append c closing,
        completed_calls-append c closing,
        requested_calls-closing bound todo,
        completed_calls-closing bound todo,
        append-nil,
      )
      (filter_done done todo (requested_calls c) covered)
  where
    covered :
        (a : String)
        → contains a (requested_calls c) ≡ true
        → (contains a (completed_calls c) || contains a (pending_calls c)) ≡ true
    covered a h = elim (Bool-cases (contains a (completed_calls c))) [
      | inl done ↦ rw done
      | inr open_call ↦ rw (
        open_call,
        contains-filter_of a (λ b. not (contains b (completed_calls c))) (requested_calls c) h
            (rw open_call),
      )
    ]
