-- ===== src/History/Selection/Partition.antt =====
-- agent/runtime/history/selection.py: a selection splits the history, and retains what is open.
use my_coding_agent.Base.{
  ℕ, Bool, true, false, not, ◌&&◌, ◌||◌, Option, List, [], ◌∷◌, ◌++◌, ◌≡◌, refl, ap, ◌∙◌, arith,
  All, Bool-cases, inl, inr, filter, any, append-nil, if◌then◌else◌,
}
use my_coding_agent.Messages.{Message}
use my_coding_agent.History.Units.{
  AtomicHistoryUnit, is_tool_interaction, flatten, parse_atomic_history,
}
use my_coding_agent.History.Selection.{
  Marked, is_system_unit, is_covered_unit, units_of, chosen, is_kept, keep_first, keep_latest, onto,
  walk, retained_token_count, marks_of, is_candidate, HistorySelection, select, available_of,
}
use my_coding_agent.History.Units.Partition.{flatten-parse_atomic_history}

units_of-onto :
    (older newer newer' : List Marked)
    → units_of newer ≡ units_of newer'
    → units_of (onto older newer) ≡ units_of (onto older newer')
units_of-onto [] newer newer' e = e
units_of-onto ((u, kept) ∷ older) newer newer' e =
    units_of-onto older ((u, kept) ∷ newer) ((u, kept) ∷ newer') (ap (λ us. u ∷ us) e)

units_of-keep_first :
    (covered : Option ℕ) (us : List AtomicHistoryUnit) → units_of (keep_first covered us) ≡ us
units_of-keep_first covered [] = refl
units_of-keep_first covered (u ∷ us) = ap (λ xs. u ∷ xs) (units_of-keep_first covered us)

units_of-keep_latest :
    (covered : Option ℕ) (marks : List Marked)
    → units_of (keep_latest covered marks) ≡ units_of marks
units_of-keep_latest covered [] = refl
units_of-keep_latest covered ((u, kept) ∷ marks) =
    elim (Bool-cases (is_tool_interaction u && not (any is_tool_interaction (units_of marks)))) [
      | inl last ↦ rw last refl
      | inr other ↦ rw other (ap (λ xs. u ∷ xs) (units_of-keep_latest covered marks))
    ]

-- What a mark must satisfy: what has to be kept is, and nothing covered is but a system message.
abbrev pub IsRight : Option ℕ → Marked → Type 0
IsRight covered (u, kept) =
    ((not (is_kept covered u) || kept) ≡ true)
    × ((not (is_covered_unit covered u) || is_system_unit u || not kept) ≡ true)

IsRight-keep_first :
    (covered : Option ℕ) (us : List AtomicHistoryUnit)
    → All (IsRight covered) (keep_first covered us)
IsRight-keep_first covered [] = tt
IsRight-keep_first covered (u ∷ us) = ((ground arith, ground arith), IsRight-keep_first covered us)

IsRight-keep_latest :
    (covered : Option ℕ) (marks : List Marked)
    → All (IsRight covered) marks
    → All (IsRight covered) (keep_latest covered marks)
IsRight-keep_latest covered [] h = tt
IsRight-keep_latest covered ((u, kept) ∷ marks) h =
    elim (Bool-cases (is_tool_interaction u && not (any is_tool_interaction (units_of marks)))) [
      | inl last ↦ rw last ((ground (arith, h.0.0), ground (arith, h.0.1)), h.1)
      | inr other ↦ rw other (h.0, IsRight-keep_latest covered marks h.1)
    ]

All-onto :
    (P : Marked → Type 0) (older newer : List Marked)
    → All P older
    → All P newer
    → All P (onto older newer)
All-onto P [] newer h k = k
All-onto P (m ∷ older) newer h k = All-onto P older (m ∷ newer) h.1 (h.0, k)

onto-onto : (a b c : List Marked) → onto (onto a b) c ≡ onto b (a ++ c)
onto-onto [] b c = refl
onto-onto (m ∷ a) b c = onto-onto a (m ∷ b) c

onto_twice : (marks : List Marked) → onto (onto marks []) [] ≡ marks
onto_twice marks = onto-onto marks [] [] ∙ append-nil marks

-- A list that is one or the other by a test
All-if :
    (P : Marked → Type 0) (b : Bool) (x y : List Marked)
    → All P x
    → All P y
    → All P (if b then x else y)
All-if P true x y h k = h
All-if P false x y h k = k

units_of-if :
    (b : Bool) (x y : List Marked) (us : List AtomicHistoryUnit)
    → units_of x ≡ us
    → units_of y ≡ us
    → units_of (if b then x else y) ≡ us
units_of-if true x y us h k = h
units_of-if false x y us h k = k

IsRight-walked :
    (covered : Option ℕ) (u : AtomicHistoryUnit) (kept : Bool)
    → IsRight covered (u, kept)
    → IsRight covered (u, if kept || is_covered_unit covered u then kept else true)
IsRight-walked covered u kept h = (ground (arith, h.0), ground (arith, h.1))

module _ (estimate : List Message → ℕ) (covered : Option ℕ) (target : ℕ) where
  All-walk :
      (older newer : List Marked) (tokens : ℕ)
      → All (IsRight covered) older
      → All (IsRight covered) newer
      → All (IsRight covered) (walk estimate covered target older newer tokens)
  unfolding walk
  All-walk [] newer tokens h k = k
  All-walk ((u, kept) ∷ older) newer tokens h k =
      All-if (IsRight covered) _
        (walk estimate covered target older
          ((u, if kept || is_covered_unit covered u then kept else true) ∷ newer) _)
        (onto older ((u, kept) ∷ newer))
        (All-walk older ((u, if kept || is_covered_unit covered u then kept else true) ∷ newer) _
          h.1 (IsRight-walked covered u kept h.0, k))
        (All-onto (IsRight covered) older ((u, kept) ∷ newer) h.1 (h.0, k))

  units_of-walk :
      (older newer : List Marked) (tokens : ℕ)
      → units_of (walk estimate covered target older newer tokens) ≡ units_of (onto older newer)
  unfolding walk
  units_of-walk [] newer tokens = refl
  units_of-walk ((u, kept) ∷ older) newer tokens =
      units_of-if _
        (walk estimate covered target older
          ((u, if kept || is_covered_unit covered u then kept else true) ∷ newer) _)
        (onto older ((u, kept) ∷ newer)) (units_of (onto older ((u, kept) ∷ newer)))
        (units_of-walk older ((u, if kept || is_covered_unit covered u then kept else true) ∷ newer)
            _
          ∙ units_of-onto older _ _ refl)
        refl

  All-marks_of :
      (us : List AtomicHistoryUnit) → All (IsRight covered) (marks_of estimate covered target us)
  All-marks_of us =
      let first = keep_latest covered (keep_first covered us) in
      All-walk (onto first []) [] (retained_token_count estimate covered target first)
        (All-onto (IsRight covered) first []
          (IsRight-keep_latest covered (keep_first covered us) (IsRight-keep_first covered us)) tt)
        tt

  units_of-marks_of :
      (us : List AtomicHistoryUnit) → units_of (marks_of estimate covered target us) ≡ us
  units_of-marks_of us =
      let first = keep_latest covered (keep_first covered us) in
      units_of-walk (onto first []) [] (retained_token_count estimate covered target first)
      ∙ ap units_of (onto_twice first)
      ∙ units_of-keep_latest covered (keep_first covered us)
      ∙ units_of-keep_first covered us

-- A selection of the history, by marks on its units
pub record IsSplit (covered : Option ℕ) (history : List Message) (s : HistorySelection)
    : Type 0 where
  pub marks : List Marked
  pub units : units_of marks ≡ parse_atomic_history history
  pub whole : flatten (units_of marks) ≡ history
  pub right : All (IsRight covered) marks
  pub retained : s.retained_units ≡ chosen true marks
  pub compacted : s.compact_units ≡ chosen false marks
  pub shown : s.messages ≡ flatten s.retained_units
  pub offered : s.compact_candidates ≡ flatten (filter (is_candidate covered) s.compact_units)

-- A selection marks the units that the parser makes of the history, in order, which put together
-- are the history; the marked ones are retained in order, the others compacted, and those neither
-- covered nor with a system message are offered; system units and open units that are not covered
-- are marked, covered units without a system message are not.
pub select-IsSplit :
    (estimate : List Message → ℕ) (target_of : ℕ → ℕ)
    (own covered budget_tokens usable_input_tokens : Option ℕ) (history : List Message)
    → IsSplit covered history
        (select estimate target_of own covered budget_tokens usable_input_tokens history)
unfolding select
select-IsSplit estimate target_of own covered budget_tokens usable_input_tokens history =
    let target =
      target_of (available_of usable_input_tokens budget_tokens own (estimate history)) in
    let units = parse_atomic_history history in
    record {
      marks = marks_of estimate covered target units;
      units = units_of-marks_of estimate covered target units;
      whole =
          ap flatten (units_of-marks_of estimate covered target units)
          ∙ flatten-parse_atomic_history history;
      right = All-marks_of estimate covered target units;
      retained = refl;
      compacted = refl;
      shown = refl;
      offered = refl;
    }
