-- ===== src/History/Units/Pairing.antt =====
-- Which calls and results the units keep together.
use my_coding_agent.Base.{ℕ, ◌+◌, ◌≡◌, String, true, false, List, All, contains, is_empty}
use my_coding_agent.History.Units.{AtomicHistoryUnit, result_ids}

-- What a unit promises about the calls and results that it holds.
pub record IsPaired (u : AtomicHistoryUnit) (after : ℕ) : Type 0 where
  pub resolved :
      u.complete ≡ true
      → (a : String) → contains a u.tool_call_ids ≡ true
      → contains a u.result_ids ≡ true
  pub no_stray : u.complete ≡ true → is_empty u.tool_call_ids ≡ true → is_empty u.result_ids ≡ true
  pub open_is_last : u.complete ≡ false → is_empty u.tool_call_ids ≡ false → u.end_index + 1 ≡ after

abbrev pub AllPaired : ℕ → List AtomicHistoryUnit → Type 0
AllPaired total us = All (λ u. IsPaired u total) us
