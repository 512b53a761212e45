-- ===== src/Files.antt =====
-- agent/tools/filesystem.py: the files below a workspace root, by their resolved paths.
-- What the operating system answers is an argument, which other names a file has included; directories are
-- left.
use Prim.Native.Char.{code}
use Prim.Native.String.{String as Text}
use my_coding_agent.Base.{
  ℕ, ◌*◌, String, Bool, true, false, not, ◌||◌, Option, none, some, List, [], ◌∷◌, length, ltb,
  filter, contains, str_eq, ◌==◌, if◌then◌else◌,
}

-- What `Path.resolve` and `relative_to` make of a path below the root.
pub data Effective : Type 0 where
  inside : String → Effective
  outside null_in_path unreadable : Effective

-- The paths of the operating system
pub record Paths : Type 0 where
  pub is_absolute : String → Bool
  pub parts : String → List String
  pub effective : List String → Effective

-- What the operating system answers, by the resolved path: which calls fail, whether the file has more
-- than one name, which others of them stand below the root, the bytes that a failed write in place
-- leaves, where it could not write the old ones back, and the temporary file that a failed write leaves.
pub record Faults : Type 0 where
  pub inspecting : String → Bool
  pub reading : String → Bool
  pub making_parent : String → Bool
  pub changing : String → Bool
  pub linked : String → Bool
  pub aliases : String → List String
  pub torn : String → Option (List ℕ)
  pub stray : String → Option (String × List ℕ)

-- Text and bytes, and the mode of a new file
pub record Codec : Type 0 where
  pub encode : String → List ℕ
  pub decode : List ℕ → Option String
  pub new_mode : ℕ

pub data Node : Type 0 where
  file : List ℕ → ℕ → Node
  other : ℕ → Node

abbrev pub Disk : Type 0
Disk = String → Option Node

-- A value, or a `ToolOperationError` by its code
pub data Result {ℓ} (A : Type ℓ) : Type ℓ where
  ok : A → Result A
  failed : String → Result A

-- The disk after a change, or a `ToolOperationError` and the disk as it was left
pub data DiskChange : Type 0 where
  changed : Disk → DiskChange
  broken : String → Disk → DiskChange

pub record FileSnapshot : Type 0 where
  pub exists : Bool
  pub content : Option (List ℕ)
  pub mode : Option ℕ

abbrev pub max_text_file_bytes : ℕ
max_text_file_bytes = 10 * 1024 * 1024

abbrev pub put : String → Option Node → Disk → Disk
put p node d = λ q. if str_eq p q then node else d q

-- A write in place: every name of the file has the new node.
abbrev pub put_all : List String → Option Node → Disk → Disk
put_all [] entry d = d
put_all (p ∷ ps) entry d = put p entry (put_all ps entry d)

abbrev pub torn_disk : List String → ℕ → Option (List ℕ) → Disk → Disk
torn_disk names mode none d = d
torn_disk names mode (some bytes) d = put_all names (some (Node.file bytes mode)) d

abbrev pub stray_disk : Codec → Option (String × List ℕ) → Disk → Disk
stray_disk codec none d = d
stray_disk codec (some (path, bytes)) d = put path (some (Node.file bytes codec.new_mode)) d

abbrev is_named : String → Bool
is_named part = not (str_eq part "" || str_eq part ".")

abbrev effective_path : Effective → Result String
effective_path (Effective.inside relative) = ok relative
effective_path Effective.outside = failed "WORKSPACE_ESCAPE"
effective_path Effective.null_in_path = failed "INVALID_ARGUMENTS"
effective_path Effective.unreadable = failed "IO_ERROR"

abbrev pub has_nul : String → Bool
has_nul Text.[] = false
has_nul (Text.◌∷◌ c s) = (code c == 0) || has_nul s

module _ (paths : Paths) where
  -- `resolve`, with the relative spelling of the effective target
  unfoldable pub resolve : String → Result String
  resolve raw_path =
      if str_eq raw_path ""
      then failed "INVALID_ARGUMENTS"
      else if paths.is_absolute raw_path
      then failed "WORKSPACE_ESCAPE"
      else if contains ".." (paths.parts raw_path)
      then failed "WORKSPACE_ESCAPE"
      else effective_path (paths.effective (filter is_named (paths.parts raw_path)))

-- A regular file's bytes, for `_resolve_text_file` and the reading that follows it.
abbrev pub node_bytes : Faults → ℕ → String → Option Node → Result (List ℕ × ℕ)
node_bytes faults limit target none = failed "NOT_FOUND"
node_bytes faults limit target (some (Node.other mode)) = failed "NOT_A_FILE"
node_bytes faults limit target (some (Node.file content mode)) =
    if ltb limit (length content)
    then failed "FILE_TOO_LARGE"
    else if faults.reading target
    then failed "IO_ERROR"
    else ok (content, mode)

abbrev pub resolve_text_file : Faults → ℕ → String → Disk → Result (List ℕ × ℕ)
resolve_text_file faults limit target d =
    if faults.inspecting target
    then failed "IO_ERROR"
    else node_bytes faults limit target (d target)

abbrev text_of : Option String → Result String
text_of none = failed "NOT_TEXT"
text_of (some text) = if has_nul text then failed "NOT_TEXT" else ok text

abbrev pub decoded : Codec → Result (List ℕ × ℕ) → Result String
decoded codec (failed error) = failed error
decoded codec (ok (content, mode)) = text_of (codec.decode content)

-- `snapshot` of a node
abbrev pub snapshot_of : Option Node → FileSnapshot
snapshot_of none = record { exists = false; content = none; mode = none }
snapshot_of (some (Node.other mode)) = record { exists = true; content = none; mode = some mode }
snapshot_of (some (Node.file content mode)) = record {
  exists = true;
  content = some content;
  mode = some mode;
}

abbrev pub node_snapshot : Faults → String → Option Node → Result FileSnapshot
node_snapshot faults target (some (Node.file content mode)) =
    if ltb max_text_file_bytes (length content)
    then failed "FILE_TOO_LARGE"
    else if faults.reading target
    then failed "IO_ERROR"
    else ok (snapshot_of (some (Node.file content mode)))
node_snapshot faults target (some (Node.other mode)) = ok (snapshot_of (some (Node.other mode)))
node_snapshot faults target none = ok (snapshot_of none)

-- The file that a write makes: an existing one is read first, and keeps its mode.
abbrev pub written : Codec → Faults → String → String → Disk → Option Node → Result ℕ
written codec faults target text d none = ok codec.new_mode
written codec faults target text d (some (Node.other mode)) = failed "NOT_A_FILE"
written codec faults target text d (some (Node.file content mode)) =
    elim (decoded codec (resolve_text_file faults max_text_file_bytes target d)) [
      | failed error ↦ failed error
      | ok old ↦ ok mode
    ]

abbrev pub removed : Faults → String → Disk → Option Node → DiskChange
removed faults target d none = broken "NOT_FOUND" d
removed faults target d (some (Node.other mode)) = broken "NOT_A_FILE" d
removed faults target d (some (Node.file content mode)) =
    if faults.changing target then broken "IO_ERROR" d else changed (put target none d)

-- `restore_snapshot` for a path that did not exist
abbrev pub restored_absent : Faults → String → Disk → Option Node → DiskChange
restored_absent faults target d none = changed d
restored_absent faults target d (some (Node.other mode)) = broken "NOT_A_FILE" d
restored_absent faults target d (some (Node.file content mode)) =
    if faults.changing target then broken "IO_ERROR" d else changed (put target none d)

abbrev pub or_mode : ℕ → Option ℕ → ℕ
or_mode default none = default
or_mode default (some mode) = mode

abbrev pub mode_of : ℕ → Option Node → ℕ
mode_of default none = default
mode_of default (some (Node.other mode)) = mode
mode_of default (some (Node.file content mode)) = mode

-- The bytes that a write puts at the path: in place where the file has other names, with the mode that
-- the file has (`current`) while the write is not finished, and else by a temporary file that takes its place.
abbrev pub replaced : Codec → Faults → String → Bool → ℕ → ℕ → List ℕ → Disk → DiskChange
replaced codec faults target in_place current mode bytes d =
    let names = target ∷ faults.aliases target in
    if in_place
    then (if faults.changing target
        then broken "IO_ERROR" (torn_disk names current (faults.torn target) d)
        else changed (put_all names (some (Node.file bytes mode)) d))
    else (if faults.changing target
        then broken "IO_ERROR" (stray_disk codec (faults.stray target) d)
        else changed (put target (some (Node.file bytes mode)) d))

-- Whether the code writes in place
abbrev pub preserves_links : Faults → String → Option Node → Bool
preserves_links faults target none = false
preserves_links faults target (some _) = faults.linked target

abbrev pub restored : Codec → Faults → String → FileSnapshot → Disk → DiskChange
restored codec faults target s d =
    if not s.exists
    then (if faults.inspecting target
        then broken "IO_ERROR" d
        else restored_absent faults target d (d target))
    else (elim s.content [
      | none ↦ broken "IO_ERROR" d
      | some content ↦
          if faults.making_parent target
          then broken "IO_ERROR" d
          else replaced codec faults target (preserves_links faults target (d target))
              (mode_of codec.new_mode (d target))
              (or_mode
                (if preserves_links faults target (d target)
                  then mode_of codec.new_mode (d target)
                  else codec.new_mode)
                s.mode)
              content d
    ])

module _ (paths : Paths) (codec : Codec) (faults : Faults) where
  -- `read_text_file` without a limit of its own
  unfoldable pub read_text_file : String → Disk → Result String
  read_text_file raw_path d = elim (resolve paths raw_path) [
    | failed error ↦ failed error
    | ok target ↦ decoded codec (resolve_text_file faults max_text_file_bytes target d)
  ]

  unfoldable pub snapshot : String → Disk → Result FileSnapshot
  snapshot raw_path d = elim (resolve paths raw_path) [
    | failed error ↦ failed error
    | ok target ↦
        if faults.inspecting target
        then failed "IO_ERROR"
        else node_snapshot faults target (d target)
  ]

  abbrev pub write_to : String → String → Disk → DiskChange
  write_to target text d =
      if faults.making_parent target
      then broken "IO_ERROR" d
      else (elim (written codec faults target text d (d target)) [
        | failed error ↦ broken error d
        | ok mode ↦
            replaced codec faults target (preserves_links faults target (d target)) mode mode
              (codec.encode text) d
      ])

  -- `write_text_file`
  unfoldable pub write_text_file : String → String → Disk → DiskChange
  write_text_file raw_path text d =
      if has_nul text then broken "NOT_TEXT" d else (elim (resolve paths raw_path) [
        | failed error ↦ broken error d
        | ok target ↦ write_to target text d
      ])

  unfoldable pub remove_file : String → Disk → DiskChange
  remove_file raw_path d = elim (resolve paths raw_path) [
    | failed error ↦ broken error d
    | ok target ↦
        if faults.inspecting target then broken "IO_ERROR" d else removed faults target d (d target)
  ]

  unfoldable pub restore_snapshot : String → FileSnapshot → Disk → DiskChange
  restore_snapshot raw_path s d = elim (resolve paths raw_path) [
    | failed error ↦ broken error d
    | ok target ↦ restored codec faults target s d
  ]
