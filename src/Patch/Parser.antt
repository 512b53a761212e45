-- ===== src/Patch/Parser.antt =====
-- `parse_patch` of agent/tools/apply_patch.py, on the lines of a patch. Each round of the two outer loops
-- takes a unit of fuel; a line more than the patch has is enough (Patch/Parsing).
use Prim.Native.Char.{code}
use Prim.Native.String.{String as Text}
use my_coding_agent.Base.{
  ℕ, zero, suc, ◌-◌, String, Bool, false, not, ◌&&◌, ◌||◌, Option, none, some, List, [], ◌∷◌,
  length, take, drop, get_last?, any, contains, is_some, str_eq, ltb, ◌==◌, if◌then◌else◌,
}
use my_coding_agent.Base.Texts.{strip_prefix, starts_with}
use my_coding_agent.Patch.{
  LineKind, PatchHunkLine, PatchHunk, OperationKind, PatchOperation, is_context,
}

-- What a parser gives; `invalid` is the error PATCH_INVALID, `unfinished` is met without fuel alone.
pub data Parsed {ℓ} (A : Type ℓ) : Type ℓ where
  parsed : A → Parsed A
  invalid unfinished : Parsed A

pub data Section : Type 0 where
  add_file update_file delete_file : Section

abbrev after_space : String → String
after_space s = elim (strip_prefix " " s) [ none ↦ s | some rest ↦ rest ]

-- `_SECTION_RE`, on a line without its end
abbrev pub section_of : String → Option (Section × String)
section_of line = elim (strip_prefix "*** Add File:" line) [
  | some rest ↦ some (Section.add_file, after_space rest)
  | none ↦ elim (strip_prefix "*** Update File:" line) [
    | some rest ↦ some (Section.update_file, after_space rest)
    | none ↦ elim (strip_prefix "*** Delete File:" line) [
      | some rest ↦ some (Section.delete_file, after_space rest)
      | none ↦ none
    ]
  ]
]

-- The library's operations on the text of a path: `strip`, the test for a drive, `replace`,
-- `PurePosixPath` and the tests for "/./" within and "/." at the end.
pub record Spelling : Type 0 where
  pub strip : String → String
  pub is_windows_absolute : String → Bool
  pub with_slashes : String → String
  pub is_absolute : String → Bool
  pub parts : String → List String
  pub as_posix : String → String
  pub has_inner_dot : String → Bool
  pub ends_in_dot : String → Bool

abbrev normalized_path : Spelling → String → String → Parsed String
normalized_path spelling path normalized =
    if spelling.is_absolute normalized || contains ".." (spelling.parts normalized)
    then invalid
    else if any (λ part. str_eq part "" || str_eq part ".") (spelling.parts normalized)
        && (spelling.has_inner_dot path || starts_with "./" path || spelling.ends_in_dot path)
    then invalid
    else parsed (spelling.as_posix normalized)

-- `_validate_patch_path`
unfoldable pub validate_patch_path : Spelling → String → Parsed String
validate_patch_path spelling raw_path =
    let path = spelling.strip raw_path in
    if str_eq path "" || str_eq path "." || str_eq path ".."
    then invalid
    else if starts_with "/" path || starts_with "\\" path || spelling.is_windows_absolute path
    then invalid
    else normalized_path spelling path (spelling.with_slashes path)

abbrev Reading {ℓ} : Type ℓ → Type ℓ
Reading A = Parsed (A × List String)

abbrev pub with_first {ℓ} :
    {A : Type ℓ} → Parsed A → Parsed (List A × List String) → Parsed (List A × List String)
with_first invalid r = invalid
with_first unfinished r = unfinished
with_first (parsed x) invalid = invalid
with_first (parsed x) unfinished = unfinished
with_first (parsed x) (parsed (xs, rest)) = parsed (x ∷ xs, rest)

-- A line of an added file, without its mark
abbrev pub body_line : String → Parsed String
body_line line =
    if starts_with "*** " line
    then invalid
    else (elim (strip_prefix "+" line) [ none ↦ invalid | some text ↦ parsed text ])

unfoldable pub read_body : List String → Parsed (List String × List String)
read_body [] = parsed ([], [])
read_body (line ∷ lines) =
    let rest = read_body lines in
    if is_some (section_of line)
    then parsed ([], line ∷ lines)
    else with_first (body_line line) rest

abbrev pub hunk_line : String → Parsed PatchHunkLine
hunk_line Text.[] = invalid
hunk_line (Text.◌∷◌ c text) =
    if code c == b' '
    then parsed (record { kind = LineKind.context; text = text })
    else if code c == b'-'
    then parsed (record { kind = LineKind.removal; text = text })
    else if code c == b'+'
    then parsed (record { kind = LineKind.addition; text = text })
    else invalid

abbrev pub has_mutation : List PatchHunkLine → Bool
has_mutation ls = any (λ l. not (is_context l.kind)) ls

module _ (hunk_of : String → Option (Option ℕ)) where
  -- `hunk_of` is `_HUNK_RE`, with the start of the old lines where the header has one.
  unfoldable pub read_hunk_lines : List String → Parsed (List PatchHunkLine × List String)
  read_hunk_lines [] = parsed ([], [])
  read_hunk_lines (line ∷ lines) =
      let rest = read_hunk_lines lines in
      if is_some (section_of line) || is_some (hunk_of line)
      then parsed ([], line ∷ lines)
      else with_first (hunk_line line) rest

  -- A hunk whose lines were read, and what comes of the lines behind it
  abbrev pub read_hunk :
      Option ℕ
      → (List String → Parsed (List PatchHunk × List String))
      → Parsed (List PatchHunkLine × List String)
      → Parsed (List PatchHunk × List String)
  read_hunk start next invalid = invalid
  read_hunk start next unfinished = unfinished
  read_hunk start next (parsed (ls, rest)) =
      if has_mutation ls
      then with_first (parsed (record { lines = ls; old_start = start })) (next rest)
      else invalid

  unfoldable pub read_hunks : ℕ → List String → Parsed (List PatchHunk × List String)
  read_hunks zero lines = unfinished
  read_hunks (suc n) [] = parsed ([], [])
  read_hunks (suc n) (line ∷ lines) =
      if is_some (section_of line) then parsed ([], line ∷ lines) else (elim (hunk_of line) [
        | none ↦ invalid
        | some start ↦ read_hunk start (read_hunks n) (read_hunk_lines lines)
      ])

  abbrev pub added_file :
      String → Parsed (List String × List String) → Parsed (PatchOperation × List String)
  added_file path invalid = invalid
  added_file path unfinished = unfinished
  added_file path (parsed (body, rest)) =
      parsed (record { path = path; kind = OperationKind.add body }, rest)

  abbrev pub updated_file :
      String → Parsed (List PatchHunk × List String) → Parsed (PatchOperation × List String)
  updated_file path invalid = invalid
  updated_file path unfinished = unfinished
  updated_file path (parsed ([], rest)) = invalid
  updated_file path (parsed (h ∷ hs, rest)) =
      parsed (record { path = path; kind = OperationKind.update (h ∷ hs) }, rest)

  abbrev pub deleted_file : String → List String → Parsed (PatchOperation × List String)
  deleted_file path [] = parsed (record { path = path; kind = OperationKind.delete }, [])
  deleted_file path (line ∷ lines) =
      if is_some (section_of line)
      then parsed (record { path = path; kind = OperationKind.delete }, line ∷ lines)
      else invalid

  abbrev pub read_operation :
      ℕ → Section → String → List String → Parsed (PatchOperation × List String)
  read_operation n Section.add_file path lines = added_file path (read_body lines)
  read_operation n Section.update_file path lines = updated_file path (read_hunks n lines)
  read_operation n Section.delete_file path lines = deleted_file path lines

  abbrev pub then_others :
      (List String → Parsed (List PatchOperation))
      → Parsed (PatchOperation × List String)
      → Parsed (List PatchOperation)
  then_others next invalid = invalid
  then_others next unfinished = unfinished
  then_others next (parsed (o, rest)) = elim (next rest) [
    | invalid ↦ invalid
    | unfinished ↦ unfinished
    | parsed os ↦ parsed (o ∷ os)
  ]

  -- The section, if its path is valid and new
  abbrev pub read_section :
      ℕ
      → (String → List String → Parsed (List PatchOperation))
      → List String
      → Section
      → Parsed String
      → List String
      → Parsed (List PatchOperation)
  read_section n next seen kind invalid lines = invalid
  read_section n next seen kind unfinished lines = unfinished
  read_section n next seen kind (parsed path) lines =
      if contains path seen
      then invalid
      else then_others (next path) (read_operation n kind path lines)

  module _ (spelling : Spelling) where
    unfoldable pub read_sections : ℕ → List String → List String → Parsed (List PatchOperation)
    read_sections zero seen lines = unfinished
    read_sections (suc n) seen [] = parsed []
    read_sections (suc n) seen (line ∷ lines) = elim (section_of line) [
      | none ↦ invalid
      | some (kind, raw) ↦
          read_section n (λ path rest. read_sections n (path ∷ seen) rest) seen kind
            (validate_patch_path spelling raw) lines
    ]

    abbrev pub nonempty : Parsed (List PatchOperation) → Parsed (List PatchOperation)
    nonempty (parsed []) = invalid
    nonempty (parsed (o ∷ os)) = parsed (o ∷ os)
    nonempty invalid = invalid
    nonempty unfinished = unfinished

    abbrev pub last_is : String → Option String → Bool
    last_is text none = false
    last_is text (some line) = str_eq line text

    abbrev pub first_is : String → List String → Bool
    first_is text [] = false
    first_is text (line ∷ lines) = str_eq line text

    -- `parse_patch` of a text, by its lines
    unfoldable pub parse_lines : List String → Parsed (List PatchOperation)
    parse_lines lines =
        if ltb (length lines) 2
          || not (first_is "*** Begin Patch" lines)
          || not (last_is "*** End Patch" (get_last? lines))
        then invalid
        else nonempty
            (read_sections (suc (length lines - 2)) [] (take (length lines - 2) (drop 1 lines)))
