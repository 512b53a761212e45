-- ===== src/History/Selection.antt =====
-- `RecentRawTailSelector.select` of agent/runtime/history/selection.py, on the units of a valid history. A set of
-- indexes is a mark at each unit. The token estimate of messages and the target of a budget are arguments;
-- `covered_through` is that of a checkpoint found valid, where -1 covers as little as none.
pub mod Partition
use my_coding_agent.Base.{
  ℕ, String, Bool, true, false, not, ◌&&◌, ◌||◌, Option, none, some, List, [], ◌∷◌, ◌++◌, map, any,
  filter, leb, ltb, if◌then◌else◌, min, max, is_empty,
}
use my_coding_agent.Messages.{Role, Message}
use my_coding_agent.History.Units.{
  AtomicHistoryUnit, open_unit, is_tool_interaction, flatten, parse_atomic_history,
}

abbrev pub Marked : Type 0
Marked = AtomicHistoryUnit × Bool

abbrev is_system : Role → Bool
is_system Role.system = true
is_system _ = false

abbrev pub is_system_unit : AtomicHistoryUnit → Bool
is_system_unit u = any (λ m. is_system m.role) u.messages

abbrev pub is_covered_unit : Option ℕ → AtomicHistoryUnit → Bool
is_covered_unit none u = false
is_covered_unit (some last) u = leb u.end_index last

abbrev pub units_of : List Marked → List AtomicHistoryUnit
units_of [] = []
units_of ((u, kept) ∷ marks) = u ∷ units_of marks

abbrev pub chosen : Bool → List Marked → List AtomicHistoryUnit
chosen mark [] = []
chosen mark ((u, kept) ∷ marks) =
    let rest = chosen mark marks in if kept && mark || not kept && not mark then u ∷ rest else rest

-- The units that are retained whatever the target is, but for the latest tool interaction
abbrev pub is_kept : Option ℕ → AtomicHistoryUnit → Bool
is_kept covered u = is_system_unit u || (open_unit u && not (is_covered_unit covered u))

abbrev pub keep_first : Option ℕ → List AtomicHistoryUnit → List Marked
keep_first covered [] = []
keep_first covered (u ∷ us) = (u, is_kept covered u) ∷ keep_first covered us

-- `units[latest_tool_index]` is retained too, unless it is covered.
abbrev pub keep_latest : Option ℕ → List Marked → List Marked
keep_latest covered [] = []
keep_latest covered ((u, kept) ∷ marks) =
    let rest = keep_latest covered marks in
    if is_tool_interaction u && not (any is_tool_interaction (units_of marks))
    then (u, kept || not (is_covered_unit covered u)) ∷ marks
    else (u, kept) ∷ rest

abbrev pub onto : List Marked → List Marked → List Marked
onto [] newer = newer
onto (m ∷ older) newer = onto older (m ∷ newer)

module _ (estimate : List Message → ℕ) (covered : Option ℕ) (target : ℕ) where
  -- `retained_token_count`
  abbrev pub retained_token_count : List Marked → ℕ
  retained_token_count marks =
      let raw_units = filter (λ u. not (is_system_unit u)) (chosen true marks) in
      if is_empty raw_units then 0 else estimate (flatten raw_units)

  abbrev pub none_retained : List Marked → Bool
  none_retained marks = is_empty (chosen true marks)

  -- The walk from the newest unit to the oldest: the first list has the units still to be met, the
  -- newest of them first, the second those behind, in order.
  pub walk : List Marked → List Marked → ℕ → List Marked
  walk [] newer tokens = newer
  walk ((u, kept) ∷ older) newer tokens =
      let passed = kept || is_covered_unit covered u in
      let wanted = ltb tokens target || none_retained (onto ((u, kept) ∷ older) newer) in
      let mark = if passed then kept else true in
      let count =
        if passed then tokens else retained_token_count (onto ((u, true) ∷ older) newer) in
      let rest = walk older ((u, mark) ∷ newer) count in
      if passed || wanted then rest else onto ((u, kept) ∷ older) newer

  abbrev pub marks_of : List AtomicHistoryUnit → List Marked
  marks_of units =
      let first = keep_latest covered (keep_first covered units) in
      walk (onto first []) [] (retained_token_count first)

-- A unit that is not retained is a candidate unless it is covered or has a system message.
abbrev pub is_candidate : Option ℕ → AtomicHistoryUnit → Bool
is_candidate covered u = not (is_covered_unit covered u) && not (is_system_unit u)

abbrev least_start : List AtomicHistoryUnit → Option ℕ
least_start [] = none
least_start (u ∷ us) = elim (least_start us) [
  | none ↦ some u.start_index
  | some n ↦ some (min u.start_index n)
]

abbrev greatest_end : List AtomicHistoryUnit → Option ℕ
greatest_end [] = none
greatest_end (u ∷ us) = elim (greatest_end us) [
  | none ↦ some u.end_index
  | some n ↦ some (max u.end_index n)
]

-- The metadata repeats these fields.
pub record HistorySelection : Type 0 where
  pub messages : List Message
  pub compact_candidates : List Message
  pub retained_units : List AtomicHistoryUnit
  pub compact_units : List AtomicHistoryUnit
  pub target_tokens : ℕ
  pub retained_tokens : ℕ
  pub boundary : Option ℕ
  pub canonical_end : Option ℕ

abbrev pub selection_of : (List Message → ℕ) → Option ℕ → ℕ → List Marked → HistorySelection
selection_of estimate covered target marks =
    let retained = chosen true marks in
    let compact = chosen false marks in
    record {
      messages = flatten retained;
      compact_candidates = flatten (filter (is_candidate covered) compact);
      retained_units = retained;
      compact_units = compact;
      target_tokens = target;
      retained_tokens = retained_token_count estimate covered target marks;
      boundary = least_start (filter (λ u. not (is_system_unit u)) retained);
      canonical_end = greatest_end (filter (λ u. not (is_covered_unit covered u)) compact);
    }

abbrev pub available_of : Option ℕ → Option ℕ → Option ℕ → ℕ → ℕ
available_of (some n) budget own estimated = n
available_of none (some n) own estimated = n
available_of none none (some n) estimated = n
available_of none none none estimated = estimated

-- `select`, with its two budgets, that of the selector, and `int(available * target_ratio)`
unfoldable pub select :
    (List Message → ℕ)
    → (ℕ → ℕ)
    → Option ℕ
    → Option ℕ
    → Option ℕ
    → Option ℕ
    → List Message
    → HistorySelection
select estimate target_of own covered budget_tokens usable_input_tokens history =
    let target =
      target_of (available_of usable_input_tokens budget_tokens own (estimate history)) in
    selection_of estimate covered target
      (marks_of estimate covered target (parse_atomic_history history))
