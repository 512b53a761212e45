-- ===== src/History/Units/Outlines.antt =====
-- agent/runtime/history/units.py: the units of a transcript depend only on the calls and results of its messages.
use my_coding_agent.Base.{
  ℕ, zero, suc, ◌+◌, ◌-◌, String, Bool, List, [], ◌∷◌, ◌++◌, map, length, take, drop, is_empty,
  intersection, difference, ◌≡◌, refl, ap, ◌∙◌, Bool-cases, if◌then◌else◌, inl, inr,
}
use my_coding_agent.Messages.{Message}
use my_coding_agent.History.Units.{
  AtomicHistoryUnit, call_ids, result_ids, scan_results, answers, call_unit, plain_unit, next_unit,
  parse_from, parse_atomic_history, group_end,
}

-- Two transcripts with the same calls and results, message by message
abbrev pub SameIds : List Message → List Message → Type 0
SameIds [] [] = Unit
SameIds [] (n ∷ ns) = ⊥
SameIds (m ∷ ms) [] = ⊥
SameIds (m ∷ ms) (n ∷ ns) =
    (call_ids m ≡ call_ids n) × (result_ids m ≡ result_ids n) × SameIds ms ns

length-SameIds : (ms ns : List Message) → SameIds ms ns → length ms ≡ length ns
length-SameIds [] [] h = refl
length-SameIds [] (n ∷ ns) h = absurd h
length-SameIds (m ∷ ms) [] h = absurd h
length-SameIds (m ∷ ms) (n ∷ ns) h = ap suc (length-SameIds ms ns h.2)

take-SameIds : (k : ℕ) (ms ns : List Message) → SameIds ms ns → SameIds (take k ms) (take k ns)
take-SameIds zero ms ns h = tt
take-SameIds (suc k) [] [] h = tt
take-SameIds (suc k) [] (n ∷ ns) h = absurd h
take-SameIds (suc k) (m ∷ ms) [] h = absurd h
take-SameIds (suc k) (m ∷ ms) (n ∷ ns) (c, r, h) = (c, r, take-SameIds k ms ns h)

drop-SameIds : (k : ℕ) (ms ns : List Message) → SameIds ms ns → SameIds (drop k ms) (drop k ns)
drop-SameIds zero ms ns h = h
drop-SameIds (suc k) [] [] h = tt
drop-SameIds (suc k) [] (n ∷ ns) h = absurd h
drop-SameIds (suc k) (m ∷ ms) [] h = absurd h
drop-SameIds (suc k) (m ∷ ms) (n ∷ ns) (c, r, h) = drop-SameIds k ms ns h

pub append-SameIds :
    (ms ns xs ys : List Message) → SameIds ms ns → SameIds xs ys → SameIds (ms ++ xs) (ns ++ ys)
append-SameIds [] [] xs ys h k = k
append-SameIds [] (n ∷ ns) xs ys h k = absurd h
append-SameIds (m ∷ ms) [] xs ys h k = absurd h
append-SameIds (m ∷ ms) (n ∷ ns) xs ys (c, r, h) k = (c, r, append-SameIds ms ns xs ys h k)

scan_results-SameIds :
    (ids : List String) (probe last : ℕ) (ms ns : List Message)
    → SameIds ms ns
    → scan_results ids probe last ms ≡ scan_results ids probe last ns
unfolding scan_results
scan_results-SameIds ids probe last [] [] h = refl
scan_results-SameIds ids probe last [] (n ∷ ns) h = absurd h
scan_results-SameIds ids probe last (m ∷ ms) [] h = absurd h
scan_results-SameIds [] probe last (m ∷ ms) (n ∷ ns) h = refl
scan_results-SameIds (e ∷ es) probe last (m ∷ ms) (n ∷ ns) (c, r, h) =
    ap
      (λ found.
        scan_results (difference (e ∷ es) (intersection found (e ∷ es))) (suc probe)
          (if is_empty (intersection found (e ∷ es)) then last else probe) ms)
      r
    ∙ (scan_results-SameIds (difference (e ∷ es) (intersection (result_ids n) (e ∷ es))) (suc probe)
        (if is_empty (intersection (result_ids n) (e ∷ es)) then last else probe) ms ns h)

answers-SameIds :
    (ids : List String) (ms ns : List Message) → SameIds ms ns → answers ids ms ≡ answers ids ns
unfolding answers
answers-SameIds ids [] [] h = refl
answers-SameIds ids [] (n ∷ ns) h = absurd h
answers-SameIds ids (m ∷ ms) [] h = absurd h
answers-SameIds ids (m ∷ ms) (n ∷ ns) (c, r, h) = rw (r, answers-SameIds ids ms ns h) refl

-- A unit without its messages
pub record Outline : Type 0 where
  pub start_index : ℕ
  pub end_index : ℕ
  pub tool_call_ids : List String
  pub result_ids : List String
  pub complete : Bool

abbrev pub outline : AtomicHistoryUnit → Outline
outline u = record {
  start_index = u.start_index;
  end_index = u.end_index;
  tool_call_ids = u.tool_call_ids;
  result_ids = u.result_ids;
  complete = u.complete;
}

call_unit-SameIds :
    (ids : List String) (index total : ℕ) (m n : Message) (ms ns : List Message)
    → SameIds (m ∷ ms) (n ∷ ns)
    → outline (call_unit ids index total m ms) ≡ outline (call_unit ids index total n ns)
unfolding call_unit
call_unit-SameIds ids index total m n ms ns h =
    let last = group_end (scan_results ids (suc index) index ns) total in
    rw
      (
        scan_results-SameIds ids (suc index) index ms ns h.2,
        answers-SameIds ids (take (last - index + 1) (m ∷ ms)) (take (last - index + 1) (n ∷ ns))
            (take-SameIds (last - index + 1) (m ∷ ms) (n ∷ ns) h),
      )
      refl

next_unit-SameIds :
    (index total : ℕ) (m n : Message) (ms ns : List Message)
    → SameIds (m ∷ ms) (n ∷ ns)
    → outline (next_unit index total m ms) ≡ outline (next_unit index total n ns)
unfolding next_unit plain_unit
next_unit-SameIds index total m n ms ns (c, r, h) = elim (Bool-cases (is_empty (call_ids n))) [
  | inl plain ↦ rw (c, plain) (rw r refl)
  | inr calling ↦ rw (c, calling) (call_unit-SameIds (call_ids n) index total m n ms ns (c, r, h))
]

parse_from-SameIds :
    (fuel index total : ℕ) (ms ns : List Message)
    → SameIds ms ns
    → map outline (parse_from fuel index total ms) ≡ map outline (parse_from fuel index total ns)
unfolding parse_from
parse_from-SameIds zero index total ms ns h = refl
parse_from-SameIds (suc fuel) index total [] [] h = refl
parse_from-SameIds (suc fuel) index total [] (n ∷ ns) h = absurd h
parse_from-SameIds (suc fuel) index total (m ∷ ms) [] h = absurd h
parse_from-SameIds (suc fuel) index total (m ∷ ms) (n ∷ ns) h =
    let u = next_unit index total m ms in
    let v = next_unit index total n ns in
    let same = next_unit-SameIds index total m n ms ns h in
    ap
      (λ o.
        o ∷ map outline (parse_from fuel (o.end_index + 1) total (drop (o.end_index - index) ms)))
      same
    ∙ ap (λ us. outline v ∷ us)
        (parse_from-SameIds fuel (v.end_index + 1) total (drop (v.end_index - index) ms)
          (drop (v.end_index - index) ns) (drop-SameIds (v.end_index - index) ms ns h.2))

-- Transcripts with the same calls and results have units with the same outlines.
pub parse_atomic_history-SameIds :
    (ms ns : List Message)
    → SameIds ms ns
    → map outline (parse_atomic_history ms) ≡ map outline (parse_atomic_history ns)
unfolding parse_atomic_history
parse_atomic_history-SameIds ms ns h =
    rw (length-SameIds ms ns h) (parse_from-SameIds (length ns) 0 (length ns) ms ns h)
