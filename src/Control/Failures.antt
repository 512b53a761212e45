-- ===== src/Control/Failures.antt =====
-- The failure-loop detector counts the newest run of equal failures.
use my_coding_agent.Base.{
  ap, ◌∙◌, ℕ, suc, ◌+◌, ◌≡◌, refl, String, Option, none, some, List, [], ◌∷◌, arith, leb, str_eq,
  eq_iff, if◌then◌else◌,
}
use my_coding_agent.Control.{
  limit_reached, returned, raised, Controller, same_failure, record_tool_result,
}

-- The results of a Turn, newest first: a fingerprint for a failure, `none` for a success.
abbrev leading : String → List (Option String) → ℕ
leading f [] = 0
leading f (none ∷ rs) = 0
leading f (some g ∷ rs) = let more = leading f rs in if str_eq g f then suc more else 0

-- How many of the newest results, without a gap, are the newest failure.
abbrev pub run_length : List (Option String) → ℕ
run_length [] = 0
run_length (none ∷ rs) = 0
run_length (some f ∷ rs) = suc (leading f rs)

abbrev newest : List (Option String) → Option String
newest [] = none
newest (r ∷ rs) = r

-- The controller once the results have been recorded.
unfoldable pub after_results : List (Option String) → Controller → Controller
after_results [] c = c
after_results (r ∷ rs) c = (record_tool_result r (after_results rs c)).0

module _ (f : String) (c : Controller) where
  record_tool_result_counts :
      (record_tool_result (some f) c).0.consecutive_failures
      ≡ (if same_failure c.last_failure f then c.consecutive_failures + 1 else 1)
  unfolding record_tool_result
  record_tool_result_counts = ground arith

  record_tool_result_last : (record_tool_result (some f) c).0.last_failure ≡ some f
  unfolding record_tool_result
  record_tool_result_last = ground arith

  record_tool_result_stops : (record_tool_result (some f) c).1 ≡ (
      if leb 3 (record_tool_result (some f) c).0.consecutive_failures
      then raised (limit_reached "repeated_tool_failure")
      else returned)
  unfolding record_tool_result
  record_tool_result_stops = ground arith

leading_step :
    (f : String) (rs : List (Option String))
    → (if same_failure (newest rs) f then run_length rs + 1 else 1) ≡ suc (leading f rs)
leading_step f [] = refl
leading_step f (none ∷ rs) = refl
leading_step f (some g ∷ rs) = ground (arith, eq_iff g f)

module _ (c : Controller) (fresh : c.last_failure ≡ none)
    (unused : c.consecutive_failures ≡ 0) where
  after_results-last : (rs : List (Option String)) → (after_results rs c).last_failure ≡ newest rs
  unfolding after_results
  after_results-last [] = fresh
  after_results-last (none ∷ rs) = unfold record_tool_result in refl
  after_results-last (some f ∷ rs) = record_tool_result_last f (after_results rs c)

  after_results-counts :
      (rs : List (Option String)) → (after_results rs c).consecutive_failures ≡ run_length rs
  unfolding after_results
  after_results-counts [] = unused
  after_results-counts (none ∷ rs) = unfold record_tool_result in refl
  after_results-counts (some f ∷ rs) =
      rw
        (
          record_tool_result_counts f (after_results rs c),
          after_results-last rs,
          after_results-counts rs,
        )
        (leading_step f rs)

-- From a controller that has recorded no failure, recording a result stops the Turn exactly when
-- that result and those just before it are three or more equal failures in a row; otherwise it
-- returns, whatever failures lie further back.
pub record_tool_result_lem :
    (c : Controller) (r : Option String) (rs : List (Option String))
    → c.last_failure ≡ none
    → c.consecutive_failures ≡ 0
    → (record_tool_result r (after_results rs c)).1 ≡ (
        if leb 3 (run_length (r ∷ rs))
        then raised (limit_reached "repeated_tool_failure")
        else returned)
record_tool_result_lem c none rs fresh unused = unfold record_tool_result in refl
record_tool_result_lem c (some f) rs fresh unused =
    record_tool_result_stops f (after_results rs c)
    ∙ ap (λ k. if leb 3 k then raised (limit_reached "repeated_tool_failure") else returned) counted
  where
    counted :
        (record_tool_result (some f) (after_results rs c)).0.consecutive_failures
        ≡ run_length (some f ∷ rs)
    counted = unfold after_results in after_results-counts c fresh unused (some f ∷ rs)
