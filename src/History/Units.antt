-- ===== src/History/Units.antt =====
-- agent/runtime/history/units.py: the parser of a transcript into atomic units. Call ids that
-- occur twice in one message are kept twice; the tests on the sets are the same.
pub mod Pairing
pub mod Partition
pub mod Outlines
use my_coding_agent.Base.{
  ℕ, zero, suc, ◌+◌, ◌-◌, String, Bool, true, false, not, ◌||◌, List, [], ◌∷◌, ◌++◌, length, take,
  drop, is_empty, filter, contains, intersection, difference, if◌then◌else◌,
}
use my_coding_agent.Messages.{
  Role, Block, text_block, reasoning_block, call_block, result_block, Message,
}

unfoldable pub call_ids_of : List Block → List String
call_ids_of [] = []
call_ids_of (call_block c ∷ bs) = c.id ∷ call_ids_of bs
call_ids_of (text_block _ ∷ bs) = call_ids_of bs
call_ids_of (reasoning_block _ ∷ bs) = call_ids_of bs
call_ids_of (result_block _ ∷ bs) = call_ids_of bs

unfoldable pub result_ids_of : List Block → List String
result_ids_of [] = []
result_ids_of (result_block r ∷ bs) = r.tool_call_id ∷ result_ids_of bs
result_ids_of (text_block _ ∷ bs) = result_ids_of bs
result_ids_of (reasoning_block _ ∷ bs) = result_ids_of bs
result_ids_of (call_block _ ∷ bs) = result_ids_of bs

-- `_call_ids`
unfoldable pub call_ids : Message → List String
unfolding call_ids_of
call_ids m = elim m.role [ Role.assistant ↦ call_ids_of m.content | _ ↦ [] ]

-- `_result_ids`
unfoldable pub result_ids : Message → List String
unfolding result_ids_of
result_ids m = elim m.role [ Role.tool ↦ result_ids_of m.content | _ ↦ [] ]

pub record AtomicHistoryUnit : Type 0 where
  pub messages : List Message
  pub start_index : ℕ
  pub end_index : ℕ
  pub tool_call_ids : List String
  pub result_ids : List String
  pub complete : Bool

abbrev pub open_unit : AtomicHistoryUnit → Bool
open_unit u = not u.complete

abbrev pub is_tool_interaction : AtomicHistoryUnit → Bool
is_tool_interaction u = not (is_empty u.tool_call_ids) || not (is_empty u.result_ids)

-- What the probe loop leaves in `expected` and `end`.
pub record Scan : Type 0 where
  pub expected : List String
  pub end_index : ℕ

-- `while expected and probe < total`, over the messages from `probe` on.
pub scan_results : List String → ℕ → ℕ → List Message → Scan
scan_results expected probe last [] = record { expected = expected; end_index = last }
scan_results [] probe last (m ∷ ms) = record { expected = []; end_index = last }
scan_results (e ∷ es) probe last (m ∷ ms) =
    let found = intersection (result_ids m) (e ∷ es) in
    scan_results (difference (e ∷ es) found) (suc probe) (if is_empty found then last else probe) ms

-- `end`, once an unresolved interaction has been extended to the end of the transcript.
abbrev group_end : Scan → ℕ → ℕ
group_end s total = if is_empty s.expected then s.end_index else total - 1

-- The ids of the results in the group that answer one of `ids`, in order.
pub answers : List String → List Message → List String
answers ids [] = []
answers ids (m ∷ ms) = filter (λ r. contains r ids) (result_ids m) ++ answers ids ms

-- The unit that begins with a message that has tool calls.
pub call_unit : List String → ℕ → ℕ → Message → List Message → AtomicHistoryUnit
unfolding scan_results answers
call_unit ids index total m ms =
    let scan = scan_results ids (suc index) index ms in
    let last = group_end scan total in
    let grouped = take (last - index + 1) (m ∷ ms) in
    record {
      messages = grouped;
      start_index = index;
      end_index = last;
      tool_call_ids = ids;
      result_ids = answers ids grouped;
      complete = is_empty scan.expected;
    }

-- The unit of a message with no tool call.
pub plain_unit : ℕ → Message → AtomicHistoryUnit
plain_unit index m = record {
  messages = m ∷ [];
  start_index = index;
  end_index = index;
  tool_call_ids = [];
  result_ids = result_ids m;
  complete = is_empty (result_ids m);
}

pub next_unit : ℕ → ℕ → Message → List Message → AtomicHistoryUnit
unfolding call_unit plain_unit
next_unit index total m ms =
    if is_empty (call_ids m) then plain_unit index m else call_unit (call_ids m) index total m ms

-- `while index < total`, over the messages from `index` on; each round takes one at least.
pub parse_from : ℕ → ℕ → ℕ → List Message → List AtomicHistoryUnit
unfolding next_unit
parse_from zero index total ms = []
parse_from (suc fuel) index total [] = []
parse_from (suc fuel) index total (m ∷ ms) =
    let u = next_unit index total m ms in
    u ∷ parse_from fuel (u.end_index + 1) total (drop (u.end_index - index) ms)

unfoldable pub parse_atomic_history : List Message → List AtomicHistoryUnit
unfolding parse_from
parse_atomic_history history = parse_from (length history) 0 (length history) history

-- `_flatten` of selection.py
unfoldable pub flatten : List AtomicHistoryUnit → List Message
flatten [] = []
flatten (u ∷ us) = u.messages ++ flatten us
