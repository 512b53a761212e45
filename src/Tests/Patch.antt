-- ===== src/Tests/Patch.antt =====
-- A patch that changes one file and adds another, and a disk on which the addition fails.
use Prim.Native.Char.{Char, code}
use Prim.Native.String.{String as Text}
use my_coding_agent.Base.{
  ℕ, ◌≡◌, refl, String, true, false, Option, none, some, List, [], ◌∷◌, ◌++◌, arith, str_eq, eq_iff,
  is_empty, All, ◌==◌, if◌then◌else◌,
}
use my_coding_agent.Files.{Paths, Faults, Codec, Effective, Node, Disk, resolve, ok}
use my_coding_agent.Patch.{
  LineKind, PatchHunkLine, PatchHunk, OperationKind, PatchOperation, pattern_of, replacement_of,
}
use my_coding_agent.Patch.Parser.{Parsed, parsed, Spelling, parse_lines}
use my_coding_agent.Patch.Hunks.{Editing, apply_hunk}
use my_coding_agent.Patch.Commit.{
  Prepared, applied, result_of, prepare_all, apply_operations, Lines, Outcome, refused, apply_patch,
}
use my_coding_agent.Patch.Parsing.{is_finished, parse_lines_ends}
use my_coding_agent.Patch.Valid.{IsPatch, parse_lines-IsPatch}
use my_coding_agent.Patch.Splicing.{apply_hunk-Splices}
use my_coding_agent.Patch.Applied.{IsMade, apply_operations-IsMade}
use my_coding_agent.Patch.Atomic.{apply_patch-restores}

abbrev put_char : Char → List String → List String
put_char c [] = Text.◌∷◌ c Text.[] ∷ []
put_char c (line ∷ lines) = Text.◌∷◌ c line ∷ lines

abbrev split : String → List String
split Text.[] = []
split (Text.◌∷◌ c s) = let rest = split s in if code c == 10 then "" ∷ rest else put_char c rest

abbrev cut : Lines
cut = record { ends_line = λ s. true; splitlines = split }

abbrev alone : List String → Effective
alone [] = Effective.inside "."
alone (p ∷ []) = Effective.inside p
alone (_ ∷ _ ∷ _) = Effective.outside

abbrev paths : Paths
paths = record { is_absolute = λ p. false; parts = λ p. p ∷ []; effective = alone }

abbrev codes : String → List ℕ
codes Text.[] = []
codes (Text.◌∷◌ c s) = code c ∷ codes s

abbrev codec : Codec
codec = record { encode = codes; decode = λ bytes. some "one\ntwo\n"; new_mode = 384 }

abbrev header : String → Option (Option ℕ)
header line = if str_eq line "@@" then some none else none

abbrev spelling : Spelling
spelling = record {
  strip = λ p. p;
  is_windows_absolute = λ p. false;
  with_slashes = λ p. p;
  is_absolute = λ p. false;
  parts = λ p. p ∷ [];
  as_posix = λ p. p;
  has_inner_dot = λ p. false;
  ends_in_dot = λ p. false;
}

abbrev patch_lines : List String
patch_lines =
    "*** Begin Patch" ∷ "*** Update File: a.txt" ∷ "@@" ∷ " one" ∷ "-two" ∷ "+three"
    ∷ "*** Add File: b.txt" ∷ "+new" ∷ "*** End Patch" ∷ []

abbrev a_hunk : PatchHunk
a_hunk = record {
  lines =
      record { kind = LineKind.context; text = "one" }
      ∷ record { kind = LineKind.removal; text = "two" }
      ∷ record { kind = LineKind.addition; text = "three" }
      ∷ [];
  old_start = none;
}

abbrev operations : List PatchOperation
operations =
    record { path = "a.txt"; kind = OperationKind.update (a_hunk ∷ []) }
    ∷ record { path = "b.txt"; kind = OperationKind.add ("new" ∷ []) }
    ∷ []

parsed_lem : parse_lines header spelling patch_lines ≡ parsed operations
unfolding parse_lines my_coding_agent.Patch.Parser.read_sections
    my_coding_agent.Patch.Parser.validate_patch_path my_coding_agent.Patch.Parser.read_hunks
    my_coding_agent.Patch.Parser.read_hunk_lines my_coding_agent.Patch.Parser.read_body
parsed_lem = refl

parse_lines_ends_example : is_finished (parse_lines header spelling patch_lines) ≡ true
parse_lines_ends_example = parse_lines_ends header spelling patch_lines

parse_lines-IsPatch_example : (is_empty operations ≡ false) × IsPatch header spelling [] operations
parse_lines-IsPatch_example = parse_lines-IsPatch header spelling patch_lines operations parsed_lem

abbrev old_lines : Editing
old_lines = record { lines = "zero" ∷ "one" ∷ "two" ∷ []; added = 0; removed = 0 }

abbrev new_lines : Editing
new_lines = record { lines = "zero" ∷ "one" ∷ "three" ∷ []; added = 0; removed = 0 }

applied_lem : apply_hunk a_hunk old_lines ≡ some new_lines
unfolding apply_hunk
applied_lem = refl

apply_hunk-Splices_example :
    (before : List String) × (after : List String) × (old_lines.lines
      ≡ before ++ (pattern_of a_hunk ++ after))
    × (new_lines.lines ≡ before ++ (replacement_of a_hunk ++ after))
apply_hunk-Splices_example = apply_hunk-Splices a_hunk old_lines new_lines applied_lem

abbrev before_hunk : List String
before_hunk = "zero" ∷ []

abbrev no_faults : Faults
no_faults = record {
  inspecting = λ p. false;
  reading = λ p. false;
  making_parent = λ p. false;
  changing = λ p. false;
  linked = λ p. false;
  aliases = λ p. [];
  torn = λ p. none;
  stray = λ p. none;
}

-- The new file cannot be written.
abbrev full : Faults
full = record {
  inspecting = λ p. false;
  reading = λ p. false;
  making_parent = λ p. false;
  changing = λ p. str_eq p "b.txt";
  linked = λ p. false;
  aliases = λ p. [];
  torn = λ p. none;
  stray = λ p. none;
}

abbrev disk : Disk
disk q = if str_eq q "a.txt" then some (Node.file (codes "one\ntwo\n") 420) else none

abbrev patch_text : String
patch_text =
    "*** Begin Patch\n*** Update File: a.txt\n@@\n one\n-two\n+three\n*** Add File: b.txt\n+new\n*** End Patch\n"

resolve_twice : (raw t : String) → resolve paths raw ≡ ok t → resolve paths t ≡ ok t
unfolding resolve
resolve_twice raw t h = ground (arith, h, eq_iff raw t)

refused_lem :
    (apply_patch paths codec cut header spelling no_faults
      (λ n. full)
      (λ n. no_faults)
      patch_text
      disk).1
    ≡ refused "IO_ERROR"
unfolding apply_patch parse_lines my_coding_agent.Patch.Parser.read_sections
    my_coding_agent.Patch.Parser.validate_patch_path my_coding_agent.Patch.Parser.read_hunks
    my_coding_agent.Patch.Parser.read_hunk_lines my_coding_agent.Patch.Parser.read_body
    my_coding_agent.Patch.Commit.apply_operations my_coding_agent.Patch.Commit.prepare_all
    my_coding_agent.Patch.Commit.commit my_coding_agent.Patch.Commit.rollback resolve
    my_coding_agent.Files.snapshot my_coding_agent.Files.read_text_file
    my_coding_agent.Files.write_text_file my_coding_agent.Files.remove_file
    my_coding_agent.Files.restore_snapshot my_coding_agent.Patch.Hunks.apply_hunks
    my_coding_agent.Patch.Hunks.apply_each apply_hunk
refused_lem = refl

apply_patch-restores_example :
    (apply_patch paths codec cut header spelling no_faults
        (λ n. full)
        (λ n. no_faults)
        patch_text
        disk).0
      "a.txt"
    ≡ disk "a.txt"
apply_patch-restores_example =
    apply_patch-restores paths codec cut header spelling no_faults (λ n. full) (λ n. no_faults)
      patch_text disk "IO_ERROR" (λ k. record { unlinked = λ t. refl; tidy = λ t. refl })
      (λ k t. refl) resolve_twice refused_lem "a.txt"

abbrev change_a : PatchOperation
change_a = record { path = "a.txt"; kind = OperationKind.update (a_hunk ∷ []) }

abbrev ready : Prepared
ready = record {
  operation = change_a;
  target = "a.txt";
  before = record { exists = true; content = some (codes "one\ntwo\n"); mode = some 420 };
  final = some "one\nthree\n";
}

made_lem :
    (apply_operations paths codec cut no_faults (λ n. full) (λ n. no_faults) (change_a ∷ []) disk).1
    ≡ applied (result_of (change_a ∷ []))
unfolding prepare_all resolve my_coding_agent.Files.snapshot my_coding_agent.Files.read_text_file
    my_coding_agent.Patch.Hunks.apply_hunks my_coding_agent.Patch.Hunks.apply_each apply_hunk
    apply_operations my_coding_agent.Patch.Commit.commit my_coding_agent.Files.write_text_file
    my_coding_agent.Files.remove_file
made_lem = refl

ready_lem : prepare_all paths codec cut no_faults (change_a ∷ []) disk ≡ ok (ready ∷ [])
unfolding prepare_all resolve my_coding_agent.Files.snapshot my_coding_agent.Files.read_text_file
    my_coding_agent.Patch.Hunks.apply_hunks my_coding_agent.Patch.Hunks.apply_each apply_hunk
ready_lem = refl

apply_operations-IsMade_example :
    let d =
      (apply_operations paths codec cut no_faults
        (λ n. full)
        (λ n. no_faults)
        (change_a ∷ [])
        disk).0 in
    All (IsMade paths codec cut d) (ready ∷ [])
    × (d "b.txt" ≡ disk "b.txt")
    × (result_of (change_a ∷ []) ≡ result_of (change_a ∷ []))
apply_operations-IsMade_example =
    apply_operations-IsMade paths codec cut no_faults (λ n. full) (λ n. no_faults) (change_a ∷ [])
      (ready ∷ []) disk (result_of (change_a ∷ [])) "b.txt" (λ k t. refl) ready_lem (refl, tt)
      made_lem refl
