-- ===== src/History/Units/Partition.antt =====
-- The units of a transcript are its consecutive, non-empty segments.
use native.Mathlib.Numerals.{add-one}
use my_coding_agent.Base.{
  ℕ, zero, suc, ◌+◌, ◌-◌, ◌≤◌, ◌<◌, ◌≡◌, refl, ap, String, inl, inr, List, [], ◌∷◌, arith, length,
  take, drop, is_empty, intersection, difference, length-take, length-drop, take-append-drop,
  Bool-cases, if◌then◌else◌,
}
use my_coding_agent.Messages.{Message}
use my_coding_agent.History.Units.{
  AtomicHistoryUnit, result_ids, call_ids, scan_results, next_unit, parse_from,
  parse_atomic_history, flatten,
}

-- The scan ends inside the transcript, at `last` or behind it.
pub scan_results_range :
    (ids : List String) (probe last : ℕ) (ms : List Message)
    → last < probe
    → (last ≤ (scan_results ids probe last ms).end_index)
      × ((scan_results ids probe last ms).end_index < probe + length ms)
unfolding scan_results
scan_results_range ids probe last [] h = omega arith
scan_results_range [] probe last (m ∷ ms) h = omega arith
scan_results_range (e ∷ es) probe last (m ∷ ms) h =
    let found = intersection (result_ids m) (e ∷ es) in
    ground (
      arith,
      scan_results_range (difference (e ∷ es) found) (suc probe)
          (if is_empty found then last else probe) ms,
    )

-- A unit is the segment of the transcript between its indexes, which it holds inclusively.
pub record IsSegment (index total : ℕ) (ms : List Message) (u : AtomicHistoryUnit) : Type 0 where
  pub starts : u.start_index ≡ index
  pub ordered : index ≤ u.end_index
  pub inside : u.end_index < total
  pub holds : u.messages ≡ take (u.end_index - index + 1) ms

pub next_unit-IsSegment :
    (index total : ℕ) (m : Message) (ms : List Message)
    → index + suc (length ms) ≡ total
    → IsSegment index total (m ∷ ms) (next_unit index total m ms)
unfolding next_unit
next_unit-IsSegment index total m ms h =
    let s = scan_results (call_ids m) (suc index) index ms in
    elim (Bool-cases (is_empty (call_ids m))) [
      | inl plain ↦ rw plain (record {
        starts = refl;
        ordered = omega arith;
        inside = omega arith;
        holds = let one : index - index + 1 ≡ suc zero = omega arith in rw one;
      })
      | inr calls ↦ rw calls (record {
        starts = refl;
        ordered = ground (arith, scan_results_range (call_ids m) (suc index) index ms);
        inside = ground (arith, scan_results_range (call_ids m) (suc index) index ms);
        holds = refl;
      })
    ]

-- Units that follow one another from `index` to the end of the transcript.
abbrev pub Contiguous : ℕ → ℕ → List AtomicHistoryUnit → Type 0
Contiguous index total [] = index ≡ total
Contiguous index total (u ∷ us) =
    (u.start_index ≡ index)
    × (index ≤ u.end_index)
    × (length u.messages ≡ u.end_index + 1 - index)
    × Contiguous (u.end_index + 1) total us

parse_from-Contiguous :
    (fuel index total : ℕ) (ms : List Message)
    → index + length ms ≡ total
    → length ms ≤ fuel
    → Contiguous index total (parse_from fuel index total ms)
unfolding parse_from
parse_from-Contiguous zero index total [] e h = omega arith
parse_from-Contiguous zero index total (m ∷ ms) e h = absurd (omega arith)
parse_from-Contiguous (suc fuel) index total [] e h = omega arith
parse_from-Contiguous (suc fuel) index total (m ∷ ms) e h =
    let u = next_unit index total m ms in
    let s : IsSegment index total (m ∷ ms) u = next_unit-IsSegment index total m ms e in
    (
      s.starts,
      s.ordered,
      rw s.holds
          (omega (arith, length-take {0} (u.end_index - index + 1) (m ∷ ms), s.ordered, s.inside)),
      parse_from-Contiguous fuel (u.end_index + 1) total (drop (u.end_index - index) ms)
          (omega (arith, length-drop {0} (u.end_index - index) ms, s.ordered, s.inside))
          (omega (arith, length-drop {0} (u.end_index - index) ms, s.ordered, s.inside)),
    )

parse_from-flatten :
    (fuel index total : ℕ) (ms : List Message)
    → index + length ms ≡ total
    → length ms ≤ fuel
    → flatten (parse_from fuel index total ms) ≡ ms
unfolding parse_from flatten
parse_from-flatten zero index total [] e h = refl
parse_from-flatten zero index total (m ∷ ms) e h = absurd (omega arith)
parse_from-flatten (suc fuel) index total [] e h = refl
parse_from-flatten (suc fuel) index total (m ∷ ms) e h =
    let u = next_unit index total m ms in
    let s : IsSegment index total (m ∷ ms) u = next_unit-IsSegment index total m ms e in
    let k = u.end_index - index in
    let tail : flatten (parse_from fuel (u.end_index + 1) total (drop k ms)) ≡ drop k ms =
      parse_from-flatten fuel (u.end_index + 1) total (drop k ms)
        (omega (arith, length-drop {0} k ms, s.ordered, s.inside))
        (omega (arith, length-drop {0} k ms, s.ordered, s.inside)) in
    rw (s.holds, tail, add-one k) (ap (λ ys. m ∷ ys) (take-append-drop k ms))

-- The units put back together are the transcript: no message is lost, repeated or moved.
pub flatten-parse_atomic_history :
    (history : List Message) → flatten (parse_atomic_history history) ≡ history
unfolding parse_atomic_history
flatten-parse_atomic_history history =
    parse_from-flatten (length history) 0 (length history) history (omega arith) (omega arith)

pub parse_atomic_history-Contiguous :
    (history : List Message) → Contiguous 0 (length history) (parse_atomic_history history)
unfolding parse_atomic_history
parse_atomic_history-Contiguous history =
    parse_from-Contiguous (length history) 0 (length history) history (omega arith) (omega arith)

-- Each unit is the next segment of the transcript from `index`, by its inclusive indexes, and nothing is
-- left behind the last one.
abbrev pub Positioned : ℕ → List Message → List AtomicHistoryUnit → Type 0
Positioned index ms [] = ms ≡ []
Positioned index ms (u ∷ us) =
    (u.start_index ≡ index)
    × (index ≤ u.end_index)
    × (u.end_index < index + length ms)
    × (u.messages ≡ take (u.end_index - index + 1) ms)
    × Positioned (u.end_index + 1) (drop (u.end_index - index + 1) ms) us

parse_from-Positioned :
    (fuel index total : ℕ) (ms : List Message)
    → index + length ms ≡ total
    → length ms ≤ fuel
    → Positioned index ms (parse_from fuel index total ms)
unfolding parse_from
parse_from-Positioned zero index total [] e h = refl
parse_from-Positioned zero index total (m ∷ ms) e h = absurd (omega arith)
parse_from-Positioned (suc fuel) index total [] e h = refl
parse_from-Positioned (suc fuel) index total (m ∷ ms) e h =
    let u = next_unit index total m ms in
    let s : IsSegment index total (m ∷ ms) u = next_unit-IsSegment index total m ms e in
    let k = u.end_index - index in
    let rest : Positioned (u.end_index + 1) (drop k ms)
        (parse_from fuel (u.end_index + 1) total (drop k ms)) =
      parse_from-Positioned fuel (u.end_index + 1) total (drop k ms)
        (omega (arith, length-drop {0} k ms, s.ordered, s.inside))
        (omega (arith, length-drop {0} k ms, s.ordered, s.inside)) in
    (s.starts, s.ordered, omega (arith, e, s.inside), s.holds, rw (add-one k) rest)

-- Each unit holds the messages of the transcript at its inclusive indexes, and at least one; the
-- units follow one another from the first position to the end without a gap or an overlap.
pub parse_atomic_history-Positioned :
    (history : List Message) → Positioned 0 history (parse_atomic_history history)
unfolding parse_atomic_history
parse_atomic_history-Positioned history =
    parse_from-Positioned (length history) 0 (length history) history (omega arith) (omega arith)
