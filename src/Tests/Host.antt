-- ===== src/Tests/Host.antt =====
-- Two workspaces that are leased, and a Thread whose Turn is submitted, cancelled and ended.
use my_coding_agent.Base.{
  ◌≡◌, ◌≢◌, ◌↔◌, refl, String, true, none, some, List, [], ◌∷◌, arith, eq_iff,
}
use my_coding_agent.Base.Dict
use my_coding_agent.Base.Dict.{Dict}
use my_coding_agent.Base.Texts.{is_blank}
use my_coding_agent.Lease.{FilePath, WorkspaceLease, LeaseManager, overlaps, acquire}
use my_coding_agent.Lease.Overlap.{Under, overlaps_iff}
use my_coding_agent.Lease.Exclusion.{IsExclusive, Call, calls, calls-IsExclusive}
use my_coding_agent.Tasks.{
  Submission, TurnTaskManager, init, View, start, err, turn_already_running, cancel,
}
use my_coding_agent.Tasks.Lifecycle.{IsConsistent, Accepted, Step, steps, step, steps_exclude}

abbrev root_a : FilePath
root_a = "home" ∷ "a" ∷ []

abbrev root_b : FilePath
root_b = "home" ∷ "b" ∷ []

abbrev free : LeaseManager
free = record { max_active_turns = 2; leases = [] }

free-IsExclusive : IsExclusive free
free-IsExclusive = record { capacity = omega arith; apart = tt; keys = tt }

abbrev both : LeaseManager
both = record { max_active_turns = 2; leases = ("l1", root_a) ∷ ("l2", root_b) ∷ [] }

abbrev lease_calls : List Call
lease_calls =
    Call.acquire_call "l1" root_a ∷ Call.acquire_call "l2" root_b ∷ Call.acquire_call "l3" [] ∷ []

calls-IsExclusive_example : IsExclusive (calls lease_calls free)
calls-IsExclusive_example = calls-IsExclusive lease_calls free free-IsExclusive

both-IsExclusive : IsExclusive both
unfolding calls acquire Dict.insert overlaps
both-IsExclusive = calls-IsExclusive lease_calls free free-IsExclusive

abbrev first_id : String
first_id = "l1"

distinct_ids : first_id ≢ "l2"
distinct_ids = ground (arith, eq_iff "l1" "l2")

overlaps_iff_example :
    (overlaps root_a root_b ≡ true) ↔ ((t : FilePath) × Under root_a t × Under root_b t)
overlaps_iff_example = overlaps_iff root_a root_b

abbrev lease_b : WorkspaceLease
lease_b = record { lease_id = "l2"; workspace = root_b }

abbrev only_a : LeaseManager
only_a = record { max_active_turns = 2; leases = ("l1", root_a) ∷ [] }

abbrev idle : View
idle = record { status = "idle"; active_turn_id = none; has_runtime = true }

init-IsConsistent : IsConsistent init
init-IsConsistent = record { filed = tt; keys = tt; failure_keys = tt }

abbrev submission : Submission
submission = record { number = 0; thread_id = "t"; accepted_at = "now"; transport_status = none }

abbrev host_steps : List Step
host_steps =
    Step.started "u" "hello" (some idle) "now" ∷ Step.cancel_called "u" (some idle) true ∷ []

abbrev restarted : TurnTaskManager
restarted = (start "t" "again" (some idle) "later" (steps host_steps init)).0

steps_exclude_example :
    IsConsistent restarted
    × Accepted "t" (steps host_steps init) restarted
    × (start "t" "more" (some idle) "last" restarted ≡ (restarted, err turn_already_running))
unfolding start steps step cancel Dict.lookup Dict.insert Dict.remove is_blank
steps_exclude_example =
    steps_exclude host_steps "t" "again" "more" (some idle) idle "later" "last"
      (record { thread_id = "t"; accepted_at = "later"; status = "starting" }) init
      init-IsConsistent refl refl refl

abbrev submitted : TurnTaskManager
submitted = record {
  submissions = ("t", submission) ∷ [];
  failures = [];
  accepting = true;
  created = 1;
}

submitted-IsConsistent : IsConsistent submitted
unfolding Dict.lookup
submitted-IsConsistent = record {
  filed = (refl, omega arith, tt);
  keys = (refl, tt);
  failure_keys = tt;
}
