-- ===== src/TaskState.antt =====
-- agent/runtime/task_state.py: the plan of a Turn, and which of its validations stand resolved.
-- The texts are folded and cut by arguments; of an `Evidence` those fields are kept that are read here.
pub mod Resolved
use my_coding_agent.Base.{
  ℕ, suc, zero, ◌+◌, String, Bool, true, false, not, ◌&&◌, ◌||◌, Option, none, some, List, [], ◌∷◌,
  length, leb, ltb, contains, str_eq, is_empty, if◌then◌else◌,
}
use my_coding_agent.Base.Dict
use my_coding_agent.Base.Dict.{Dict}

pub data PlanStepStatus : Type 0 where
  pending in_progress completed blocked : PlanStepStatus

pub record PlanStep : Type 0 where
  pub step : String
  pub status : PlanStepStatus

abbrev pub is_in_progress : PlanStepStatus → Bool
is_in_progress PlanStepStatus.in_progress = true
is_in_progress _ = false

-- Steps in progress
abbrev pub under_way : List PlanStep → ℕ
under_way [] = 0
under_way (s ∷ steps) = (if is_in_progress s.status then 1 else 0) + under_way steps

-- `TaskPlan.__init__` on steps that were made; none is its error.
unfoldable pub make_plan : List PlanStep → Option (List PlanStep)
make_plan steps = if ltb 20 (length steps) || ltb 1 (under_way steps) then none else some steps

pub data EvidenceKind : Type 0 where
  mutation validation failure artifact : EvidenceKind

pub record Evidence : Type 0 where
  pub kind : EvidenceKind
  pub status : String
  pub command : String
  pub validation_key : Option String

-- `casefold`, `strip` and the collapse of white space
pub record Folding : Type 0 where
  pub casefold : String → String
  pub strip : String → String
  pub collapse : String → String

abbrev is_checking : EvidenceKind → Bool
is_checking EvidenceKind.validation = true
is_checking EvidenceKind.failure = true
is_checking _ = false

abbrev is_failing : EvidenceKind → Bool
is_failing EvidenceKind.failure = true
is_failing _ = false

abbrev or_blank : Option String → String
or_blank none = ""
or_blank (some key) = key

module _ (folding : Folding) where
  -- `_validation_key`
  unfoldable pub validation_key : Evidence → Option String
  validation_key e =
      if not (is_checking e.kind)
      then none
      else if not (str_eq (or_blank e.validation_key) "")
      then some (folding.strip (folding.casefold (or_blank e.validation_key)))
      else if not (str_eq e.command "")
      then some (folding.collapse (folding.strip (folding.casefold e.command)))
      else none

  -- `_is_success`
  unfoldable pub is_success : Evidence → Bool
  is_success e =
      contains (folding.casefold e.status)
        ("ok" ∷ "success" ∷ "completed" ∷ "passed" ∷ "pass" ∷ "0" ∷ [])

  -- `_is_failure`
  unfoldable pub is_failure : Evidence → Bool
  is_failure e =
      is_failing e.kind
      || contains (folding.casefold e.status)
          ("failed" ∷ "failure" ∷ "error" ∷ "timed_out" ∷ "timeout" ∷ "nonzero" ∷ "unknown" ∷ [])

  abbrev pub filed : Option String → Evidence → Dict Evidence → Dict Evidence
  filed none e d = d
  filed (some key) e d = Dict.insert key e d

  -- The loop that fills `latest`
  unfoldable pub latest_from : Dict Evidence → List Evidence → Dict Evidence
  latest_from d [] = d
  latest_from d (e ∷ es) = latest_from (filed (validation_key e) e d) es

  abbrev pub successful : Dict Evidence → List String
  successful [] = []
  successful ((key, e) ∷ d) = let rest = successful d in if is_success e then key ∷ rest else rest

  -- `_resolved_validation_keys`
  unfoldable pub resolved_validation_keys : List Evidence → List String
  resolved_validation_keys es = successful (latest_from [] es)

  abbrev pub is_unresolved : List String → Option String → Bool
  is_unresolved resolved none = true
  is_unresolved resolved (some key) = not (contains key resolved)

  abbrev pub unresolved_in : List String → List Evidence → List Evidence
  unresolved_in resolved [] = []
  unresolved_in resolved (e ∷ es) =
      let rest = unresolved_in resolved es in
      if is_failure e && is_unresolved resolved (validation_key e) then e ∷ rest else rest

  -- The first items of `projected_items`, the oldest first here
  unfoldable pub unresolved_failures : List Evidence → List Evidence
  unresolved_failures es = unresolved_in (resolved_validation_keys es) es
