-- ===== src/Patch.antt =====
-- agent/tools/apply_patch.py: a patch, its operations and its hunks.
pub mod Parser
pub mod Hunks
pub mod Commit
pub mod Parsing
pub mod Valid
pub mod Splicing
pub mod Effects
pub mod Atomic
pub mod Applied
use my_coding_agent.Base.{ℕ, String, Bool, true, false, Option, List, [], ◌∷◌, filter, map}

pub data LineKind : Type 0 where
  context removal addition : LineKind

pub record PatchHunkLine : Type 0 where
  pub kind : LineKind
  pub text : String

pub record PatchHunk : Type 0 where
  pub lines : List PatchHunkLine
  pub old_start : Option ℕ

-- A `PatchOperation`, with what its kind has
pub data OperationKind : Type 0 where
  add : List String → OperationKind
  update : List PatchHunk → OperationKind
  delete : OperationKind

pub record PatchOperation : Type 0 where
  pub path : String
  pub kind : OperationKind

abbrev is_old : LineKind → Bool
is_old LineKind.addition = false
is_old _ = true

abbrev is_new : LineKind → Bool
is_new LineKind.removal = false
is_new _ = true

abbrev pub is_context : LineKind → Bool
is_context LineKind.context = true
is_context _ = false

abbrev texts_of : List PatchHunkLine → List String
texts_of [] = []
texts_of (l ∷ ls) = l.text ∷ texts_of ls

-- The lines of a hunk that are in the old text, and those that are in the new one
abbrev pub pattern_of : PatchHunk → List String
pattern_of h = texts_of (filter (λ l. is_old l.kind) h.lines)

abbrev pub replacement_of : PatchHunk → List String
replacement_of h = texts_of (filter (λ l. is_new l.kind) h.lines)
