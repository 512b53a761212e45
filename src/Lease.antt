-- ===== src/Lease.antt =====
-- agent/runtime/workspace_lease.py: leases of workspace roots. A resolved path is the list of its
-- components; `Path.resolve` and the new id are arguments. The lock makes each call one step.
pub mod Overlap
pub mod Exclusion
use my_coding_agent.Base.{
  ℕ, String, Bool, true, false, ◌&&◌, ◌||◌, Option, none, some, List, [], ◌∷◌, length, any, leb,
  str_eq, if◌then◌else◌,
}
use my_coding_agent.Base.Dict
use my_coding_agent.Base.Dict.{Dict}

abbrev pub FilePath : Type 0
FilePath = List String

pub record WorkspaceLease : Type 0 where
  pub lease_id : String
  pub workspace : FilePath

pub record LeaseManager : Type 0 where
  pub max_active_turns : ℕ
  pub leases : Dict FilePath

-- `none` is the ValueError.
unfoldable pub new : ℕ → Option LeaseManager
new n = if leb 1 n && leb n 32 then some (record { max_active_turns = n; leases = [] }) else none

unfoldable pub path_eq : FilePath → FilePath → Bool
path_eq [] [] = true
path_eq [] (y ∷ ys) = false
path_eq (x ∷ xs) [] = false
path_eq (x ∷ xs) (y ∷ ys) = str_eq x y && path_eq xs ys

-- `first in second.parents`
unfoldable pub is_parent : FilePath → FilePath → Bool
is_parent xs [] = false
is_parent [] (y ∷ ys) = true
is_parent (x ∷ xs) (y ∷ ys) = str_eq x y && is_parent xs ys

unfoldable pub overlaps : FilePath → FilePath → Bool
unfolding path_eq is_parent
overlaps first second = path_eq first second || (is_parent first second || is_parent second first)

pub data Busy : Type 0 where
  capacity_reached workspace_overlaps : Busy

pub data Acquired : Type 0 where
  leased : WorkspaceLease → Acquired
  busy : Busy → Acquired

-- `any(self._overlaps(normalized, active) for active in self._leases.values())`
abbrev pub overlaps_any : FilePath → Dict FilePath → Bool
overlaps_any p = any (λ l. overlaps p l.1)

unfoldable pub acquire : String → FilePath → LeaseManager → LeaseManager × Acquired
acquire lease_id normalized m =
    if leb m.max_active_turns (length m.leases)
    then (m, busy capacity_reached)
    else if overlaps_any normalized m.leases
    then (m, busy workspace_overlaps)
    else (
      record m { leases = Dict.insert lease_id normalized m.leases },
      leased (record { lease_id = lease_id; workspace = normalized }),
    )

unfoldable pub release : WorkspaceLease → LeaseManager → LeaseManager
release l m = elim (Dict.lookup l.lease_id m.leases) [
  | none ↦ m
  | some active ↦
      if path_eq active l.workspace
      then record m { leases = Dict.remove l.lease_id m.leases }
      else m
]
