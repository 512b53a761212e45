-- ===== src/Tests/Evidence.antt =====
-- A command that failed, was repaired, and failed again.
use my_coding_agent.Base.{◌≡◌, refl, String, Bool, true, false, none, some, List, [], ◌∷◌, contains}
use my_coding_agent.TaskState.{
  EvidenceKind, Evidence, Folding, PlanStepStatus, PlanStep, make_plan, resolved_validation_keys,
}
use my_coding_agent.TaskState.Resolved.{newest, succeeds, resolved_validation_keys_lem}

abbrev folding : Folding
folding = record { casefold = λ s. s; strip = λ s. s; collapse = λ s. s }

abbrev ran : String → Evidence
ran status = record {
  kind = EvidenceKind.validation;
  status = status;
  command = "make test";
  validation_key = none;
}

abbrev facts : List Evidence
facts = ran "failed" ∷ ran "ok" ∷ ran "failed" ∷ []

reopened : contains "make test" (resolved_validation_keys folding facts) ≡ false
unfolding resolved_validation_keys my_coding_agent.TaskState.latest_from
    my_coding_agent.TaskState.validation_key my_coding_agent.Base.Dict.insert
    my_coding_agent.TaskState.is_success
reopened = refl

resolved_validation_keys_lem_example :
    contains "make test" (resolved_validation_keys folding facts)
    ≡ succeeds folding (newest folding "make test" facts)
resolved_validation_keys_lem_example = resolved_validation_keys_lem folding "make test" facts

abbrev doing : PlanStep
doing = record { step = "write"; status = PlanStepStatus.in_progress }

two_at_once : make_plan (doing ∷ doing ∷ []) ≡ none
unfolding make_plan
two_at_once = refl
