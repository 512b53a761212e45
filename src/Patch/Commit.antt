-- ===== src/Patch/Commit.antt =====
-- `apply_patch` of agent/tools/apply_patch.py, behind the parser: every operation is prepared, then all are
-- committed, and a failed commit is rolled back.
use my_coding_agent.Base.{
  ℕ, suc, ◌+◌, String, Bool, true, false, Option, none, some, List, [], ◌∷◌, if◌then◌else◌,
}
use Prim.Native.String.{◌++◌ as append_text}
use my_coding_agent.Files.{
  Paths, Codec, Faults, Disk, Result, ok, failed, DiskChange, changed, broken, FileSnapshot,
  resolve, snapshot, read_text_file, write_text_file, remove_file, restore_snapshot, has_nul,
}
use my_coding_agent.Patch.{OperationKind, PatchOperation}
use my_coding_agent.Patch.Hunks.{join, apply_hunks}
use my_coding_agent.Patch.Parser.{Parsed, parsed, invalid, unfinished, Spelling, parse_lines}

-- How a text is cut into lines, and whether it ends with a line
pub record Lines : Type 0 where
  pub ends_line : String → Bool
  pub splitlines : String → List String

pub record Prepared : Type 0 where
  pub operation : PatchOperation
  pub target : String
  pub before : FileSnapshot
  pub final : Option String

-- `_validate_text`; a text of the model is always valid UTF-8.
abbrev validated : String → Result (Option String)
validated text = if has_nul text then failed "NOT_TEXT" else ok (some text)

abbrev body_text : List String → String
body_text [] = ""
body_text (l ∷ ls) = append_text (join (l ∷ ls)) "\n"

abbrev updated : Option String → Result (Option String)
updated none = failed "PATCH_HUNK_MISMATCH"
updated (some text) = validated text

pub record PatchResult : Type 0 where
  pub affected_paths : List String
  pub added_count : ℕ
  pub updated_count : ℕ
  pub deleted_count : ℕ

abbrev adds : OperationKind → ℕ
adds (OperationKind.add _) = 1
adds _ = 0

abbrev updates : OperationKind → ℕ
updates (OperationKind.update _) = 1
updates _ = 0

abbrev deletes : OperationKind → ℕ
deletes OperationKind.delete = 1
deletes _ = 0

abbrev pub result_of : List PatchOperation → PatchResult
result_of [] = record { affected_paths = []; added_count = 0; updated_count = 0; deleted_count = 0 }
result_of (o ∷ os) =
    let rest = result_of os in
    record {
      affected_paths = o.path ∷ rest.affected_paths;
      added_count = adds o.kind + rest.added_count;
      updated_count = updates o.kind + rest.updated_count;
      deleted_count = deletes o.kind + rest.deleted_count;
    }

-- `refused` is an error before the commit or one that was rolled back; `incomplete` that of a rollback that failed.
pub data Outcome : Type 0 where
  applied : PatchResult → Outcome
  refused : String → Outcome
  incomplete : Outcome

abbrev pub Saved : Type 0
Saved = String × FileSnapshot

pub record Committed : Type 0 where
  pub disk : Disk
  pub saved : List Saved
  pub error : Option String

module _ (paths : Paths) (codec : Codec) (cut : Lines) where
  -- What an operation makes of the file; none deletes it.
  abbrev final_of : Faults → Bool → PatchOperation → Disk → Result (Option String)
  final_of faults exists o d = elim o.kind [
    | OperationKind.add body ↦
        if exists then failed "PATCH_TARGET_EXISTS" else validated (body_text body)
    | OperationKind.update hunks ↦
        if exists
        then (elim (read_text_file paths codec faults o.path d) [
          | failed error ↦ failed error
          | ok content ↦ updated (apply_hunks cut.ends_line cut.splitlines content hunks)
        ])
        else failed "NOT_FOUND"
    | OperationKind.delete ↦
        if exists
        then (elim (read_text_file paths codec faults o.path d) [
          | failed error ↦ failed error
          | ok content ↦ ok none
        ])
        else failed "NOT_FOUND"
  ]

  -- The resolved path, the snapshot and the final text of one operation
  abbrev pub prepare_with :
      PatchOperation → String → FileSnapshot → Result (Option String) → Result Prepared
  prepare_with o target before (failed error) = failed error
  prepare_with o target before (ok final) =
      ok (record { operation = o; target = target; before = before; final = final })

  abbrev pub prepare_from :
      Faults → PatchOperation → Disk → String → Result FileSnapshot → Result Prepared
  prepare_from faults o d target (failed error) = failed error
  prepare_from faults o d target (ok before) =
      prepare_with o target before (final_of faults before.exists o d)

  abbrev pub prepare_at : Faults → PatchOperation → Disk → Result String → Result Prepared
  prepare_at faults o d (failed error) = failed error
  prepare_at faults o d (ok target) =
      prepare_from faults o d target (snapshot paths codec faults o.path d)

  abbrev pub prepare : Faults → PatchOperation → Disk → Result Prepared
  prepare faults o d = prepare_at faults o d (resolve paths o.path)

  abbrev pub prepared_first : Result Prepared → Result (List Prepared) → Result (List Prepared)
  prepared_first (failed error) rest = failed error
  prepared_first (ok p) (failed error) = failed error
  prepared_first (ok p) (ok ps) = ok (p ∷ ps)

  unfoldable pub prepare_all : Faults → List PatchOperation → Disk → Result (List Prepared)
  prepare_all faults [] d = ok []
  prepare_all faults (o ∷ os) d = prepared_first (prepare faults o d) (prepare_all faults os d)

  abbrev pub perform : Faults → Prepared → Disk → DiskChange
  perform faults p d = elim p.final [
    | none ↦ remove_file paths codec faults p.operation.path d
    | some text ↦ write_text_file paths codec faults p.operation.path text d
  ]

  -- `faults n` is what fails at the step `n`.
  unfoldable pub commit : (ℕ → Faults) → ℕ → List Prepared → Disk → List Saved → Committed
  commit faults n [] d saved = record { disk = d; saved = saved; error = none }
  commit faults n (p ∷ ps) d saved = elim (perform (faults n) p d) [
    | broken error left ↦ record { disk = left; saved = saved; error = some error }
    | changed d' ↦ commit faults (suc n) ps d' ((p.target, p.before) ∷ saved)
  ]

  -- The newest is restored first; the Boolean says that some restoration failed.
  unfoldable pub rollback : (ℕ → Faults) → ℕ → List Saved → Disk → Bool → Disk × Bool
  rollback faults n [] d bad = (d, bad)
  rollback faults n ((target, before) ∷ saved) d bad =
      elim (restore_snapshot paths codec (faults n) target before d) [
        | broken error left ↦ rollback faults (suc n) saved left true
        | changed d' ↦ rollback faults (suc n) saved d' bad
      ]

  abbrev pub rolled_back : String → Disk × Bool → Disk × Outcome
  rolled_back error (d, true) = (d, incomplete)
  rolled_back error (d, false) = (d, refused error)

  abbrev pub finished : (ℕ → Faults) → List PatchOperation → Committed → Disk × Outcome
  finished back operations c = elim c.error [
    | none ↦ (c.disk, applied (result_of operations))
    | some error ↦ rolled_back error (rollback back 0 c.saved c.disk false)
  ]

  abbrev pub committing :
      (ℕ → Faults)
      → (ℕ → Faults)
      → List PatchOperation
      → Disk
      → Result (List Prepared)
      → Disk × Outcome
  committing during back operations d (failed error) = (d, refused error)
  committing during back operations d (ok ps) = finished back operations (commit during 0 ps d [])

  -- The rest of `apply_patch`, with what fails while preparing, committing and rolling back
  unfoldable pub apply_operations :
      Faults → (ℕ → Faults) → (ℕ → Faults) → List PatchOperation → Disk → Disk × Outcome
  apply_operations before during back operations d =
      committing during back operations d (prepare_all before operations d)

  abbrev pub applying :
      Faults → (ℕ → Faults) → (ℕ → Faults) → Disk → Parsed (List PatchOperation) → Disk × Outcome
  applying before during back d invalid = (d, refused "PATCH_INVALID")
  applying before during back d unfinished = (d, refused "PATCH_INVALID")
  applying before during back d (parsed operations) =
      apply_operations before during back operations d

  -- `apply_patch` of a text
  unfoldable pub apply_patch :
      (String → Option (Option ℕ))
      → Spelling
      → Faults
      → (ℕ → Faults)
      → (ℕ → Faults)
      → String
      → Disk
      → Disk × Outcome
  apply_patch hunk_of spelling before during back patch d =
      applying before during back d (parse_lines hunk_of spelling (cut.splitlines patch))
