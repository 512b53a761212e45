-- ===== src/Patch/Parsing.antt =====
-- The parser of agent/tools/apply_patch.py reaches an end, and what it gives is a valid patch.
use Prim.Native.String.{String as Text}
use my_coding_agent.Base.{
  ℕ, zero, suc, ◌-◌, ◌≤◌, ◌<◌, String, Bool, true, false, ◌||◌, Option, List, [], ◌∷◌, ◌≡◌, refl,
  arith, length, take, drop, length-take, is_some, contains, Bool-cases, Option-cases, inl, inr,
}
use my_coding_agent.Patch.{PatchHunkLine, PatchHunk, PatchOperation}
use my_coding_agent.Patch.Parser.{
  Parsed, parsed, invalid, unfinished, Section, section_of, Spelling, validate_patch_path,
  with_first, body_line, read_body, hunk_line, has_mutation, read_hunk_lines, read_hunk, read_hunks,
  added_file, updated_file, deleted_file, read_operation, then_others, read_section, read_sections,
  nonempty, parse_lines,
}

abbrev pub is_finished {ℓ} : {A : Type ℓ} → Parsed A → Bool
is_finished (parsed _) = true
is_finished invalid = true
is_finished unfinished = false

-- A reading that ends, with at most so many lines left
abbrev Ends {ℓ} : {A : Type ℓ} → ℕ → Parsed (A × List String) → Type 0
Ends k (parsed (_, rest)) = length rest ≤ k
Ends k invalid = Unit
Ends k unfinished = ◌≡◌ {A = Bool} true false

with_first-Ends {ℓ} :
    {A : Type ℓ} (k : ℕ) (p : Parsed A) (r : Parsed (List A × List String))
    → is_finished p ≡ true
    → Ends k r
    → Ends k (with_first p r)
with_first-Ends k invalid r h e = tt
with_first-Ends k unfinished r h e = cc
with_first-Ends k (parsed x) invalid h e = tt
with_first-Ends k (parsed x) unfinished h e = e
with_first-Ends k (parsed x) (parsed (xs, rest)) h e = e

weaken-Ends {ℓ} :
    {A : Type ℓ} (j k : ℕ) (r : Parsed (A × List String)) → j ≤ k → Ends j r → Ends k r
weaken-Ends j k (parsed (x, rest)) h e = omega (arith, e)
weaken-Ends j k invalid h e = tt
weaken-Ends j k unfinished h e = e

body_line_ends : (line : String) → is_finished (body_line line) ≡ true
body_line_ends line = ground arith

hunk_line_ends : (line : String) → is_finished (hunk_line line) ≡ true
hunk_line_ends Text.[] = refl
hunk_line_ends (Text.◌∷◌ c text) = ground arith

validate_patch_path_ends :
    (spelling : Spelling) (raw : String) → is_finished (validate_patch_path spelling raw) ≡ true
unfolding validate_patch_path
validate_patch_path_ends spelling raw = ground arith

read_body-Ends : (lines : List String) → Ends (length lines) (read_body lines)
unfolding read_body
read_body-Ends [] = omega arith
read_body-Ends (line ∷ lines) = elim (Bool-cases (is_some (section_of line))) [
  | inl stop ↦ rw stop (omega arith)
  | inr go ↦ rw go (
      with_first-Ends (suc (length lines)) (body_line line) (read_body lines) (body_line_ends line)
        (weaken-Ends (length lines) (suc (length lines)) (read_body lines) (omega arith)
          (read_body-Ends lines)))
]

module _ (hunk_of : String → Option (Option ℕ)) where
  read_hunk_lines-Ends : (lines : List String) → Ends (length lines) (read_hunk_lines hunk_of lines)
  unfolding read_hunk_lines
  read_hunk_lines-Ends [] = omega arith
  read_hunk_lines-Ends (line ∷ lines) =
      elim (Bool-cases (is_some (section_of line) || is_some (hunk_of line))) [
        | inl stop ↦ rw stop (omega arith)
        | inr go ↦ rw go (
            with_first-Ends (suc (length lines)) (hunk_line line) (read_hunk_lines hunk_of lines)
              (hunk_line_ends line)
              (weaken-Ends (length lines) (suc (length lines)) (read_hunk_lines hunk_of lines)
                (omega arith) (read_hunk_lines-Ends lines)))
      ]

  read_hunk-Ends :
      (k : ℕ) (start : Option ℕ) (next : List String → Parsed (List PatchHunk × List String))
      (r : Parsed (List PatchHunkLine × List String))
      → Ends k r
      → ((rest : List String) → length rest ≤ k → Ends k (next rest))
      → Ends k (read_hunk hunk_of start next r)
  read_hunk-Ends k start next invalid e h = tt
  read_hunk-Ends k start next unfinished e h = e
  read_hunk-Ends k start next (parsed (ls, rest)) e h = elim (Bool-cases (has_mutation ls)) [
    | inl some_change ↦ rw some_change (
        with_first-Ends k (parsed (record { lines = ls; old_start = start })) (next rest) refl
          (h rest e))
    | inr none_there ↦ rw none_there tt
  ]

  read_hunks-Ends :
      (n : ℕ) (lines : List String)
      → length lines < n
      → Ends (length lines) (read_hunks hunk_of n lines)
  unfolding read_hunks
  read_hunks-Ends zero lines h = ground arith
  read_hunks-Ends (suc n) [] h = omega arith
  read_hunks-Ends (suc n) (line ∷ lines) h = elim (Bool-cases (is_some (section_of line))) [
    | inl stop ↦ rw stop (omega arith)
    | inr go ↦ elim (Option-cases (hunk_of line)) [
      | inl bad ↦ rw (go, bad) tt
      | inr (start, good) ↦
          rw (go, good)
            (weaken-Ends (length lines) (suc (length lines))
              (read_hunk hunk_of start (read_hunks hunk_of n) (read_hunk_lines hunk_of lines))
              (omega arith)
              (read_hunk-Ends (length lines) start (read_hunks hunk_of n)
                (read_hunk_lines hunk_of lines) (read_hunk_lines-Ends lines)
                (λ rest fits.
                  weaken-Ends (length rest) (length lines) (read_hunks hunk_of n rest) fits
                    (read_hunks-Ends n rest (omega (arith, fits, h))))))
    ]
  ]

  added_file-Ends :
      (k : ℕ) (path : String) (r : Parsed (List String × List String))
      → Ends k r
      → Ends k (added_file hunk_of path r)
  added_file-Ends k path invalid e = tt
  added_file-Ends k path unfinished e = e
  added_file-Ends k path (parsed (body, rest)) e = e

  updated_file-Ends :
      (k : ℕ) (path : String) (r : Parsed (List PatchHunk × List String))
      → Ends k r
      → Ends k (updated_file hunk_of path r)
  updated_file-Ends k path invalid e = tt
  updated_file-Ends k path unfinished e = e
  updated_file-Ends k path (parsed ([], rest)) e = tt
  updated_file-Ends k path (parsed (h ∷ hs, rest)) e = e

  deleted_file-Ends :
      (path : String) (lines : List String) → Ends (length lines) (deleted_file hunk_of path lines)
  deleted_file-Ends path [] = omega arith
  deleted_file-Ends path (line ∷ lines) = elim (Bool-cases (is_some (section_of line))) [
    | inl stop ↦ rw stop (omega arith)
    | inr go ↦ rw go tt
  ]

  read_operation-Ends :
      (n : ℕ) (kind : Section) (path : String) (lines : List String)
      → length lines < n
      → Ends (length lines) (read_operation hunk_of n kind path lines)
  read_operation-Ends n Section.add_file path lines h =
      added_file-Ends (length lines) path (read_body lines) (read_body-Ends lines)
  read_operation-Ends n Section.update_file path lines h =
      updated_file-Ends (length lines) path (read_hunks hunk_of n lines) (read_hunks-Ends n lines h)
  read_operation-Ends n Section.delete_file path lines h = deleted_file-Ends path lines

  then_others-Ends :
      (k : ℕ) (next : List String → Parsed (List PatchOperation))
      (r : Parsed (PatchOperation × List String))
      → Ends k r
      → ((rest : List String) → length rest ≤ k → is_finished (next rest) ≡ true)
      → is_finished (then_others hunk_of next r) ≡ true
  then_others-Ends k next invalid e h = refl
  then_others-Ends k next unfinished e h = cc
  then_others-Ends k next (parsed (o, rest)) e h = ground (arith, h rest e)

  read_section_ends :
      (n : ℕ) (next : String → List String → Parsed (List PatchOperation)) (seen : List String)
      (kind : Section) (path : Parsed String) (lines : List String)
      → length lines < n
      → is_finished path ≡ true
      → ((p : String) (rest : List String)
          → length rest ≤ length lines
          → is_finished (next p rest) ≡ true)
      → is_finished (read_section hunk_of n next seen kind path lines) ≡ true
  read_section_ends n next seen kind invalid lines h f g = refl
  read_section_ends n next seen kind unfinished lines h f g = cc
  read_section_ends n next seen kind (parsed path) lines h f g =
      elim (Bool-cases (contains path seen)) [
        | inl twice ↦ rw twice refl
        | inr once ↦ rw once (
            then_others-Ends (length lines) (next path) (read_operation hunk_of n kind path lines)
              (read_operation-Ends n kind path lines h) (g path))
      ]

  module _ (spelling : Spelling) where
    read_sections_ends :
        (n : ℕ) (seen lines : List String)
        → length lines < n
        → is_finished (read_sections hunk_of spelling n seen lines) ≡ true
    unfolding read_sections
    read_sections_ends zero seen lines h = ground arith
    read_sections_ends (suc n) seen [] h = refl
    read_sections_ends (suc n) seen (line ∷ lines) h = elim (Option-cases (section_of line)) [
      | inl bad ↦ rw (bad, read_sections) refl
      | inr ((kind, raw), good) ↦
          rw (good, read_sections)
            (read_section_ends n (λ path rest. read_sections hunk_of spelling n (path ∷ seen) rest)
              seen kind (validate_patch_path spelling raw) lines (omega (arith, h))
              (validate_patch_path_ends spelling raw)
              (λ path rest fits. read_sections_ends n (path ∷ seen) rest (omega (arith, fits, h))))
    ]

    nonempty_ends :
        (r : Parsed (List PatchOperation))
        → is_finished r ≡ true
        → is_finished (nonempty hunk_of spelling r) ≡ true
    nonempty_ends (parsed []) h = refl
    nonempty_ends (parsed (o ∷ os)) h = refl
    nonempty_ends invalid h = refl
    nonempty_ends unfinished h = h

    -- The parser of a patch reaches an end of the source: the fuel it is given is enough.
    pub parse_lines_ends :
        (lines : List String) → is_finished (parse_lines hunk_of spelling lines) ≡ true
    unfolding parse_lines
    parse_lines_ends lines =
        let inner = take (length lines - 2) (drop 1 lines) in
        let size : length inner < suc (length lines - 2) =
          omega (arith, length-take (length lines - 2) (drop 1 lines)) in
        let ended =
          nonempty_ends (read_sections hunk_of spelling (suc (length lines - 2)) [] inner)
            (read_sections_ends (suc (length lines - 2)) [] inner size) in
        ground (arith, ended)
