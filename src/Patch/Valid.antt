-- ===== src/Patch/Valid.antt =====
-- What the parser of agent/tools/apply_patch.py gives: operations on different, checked paths, whose hunks all change something.
use my_coding_agent.Base.{
  ℕ, zero, suc, ◌-◌, String, true, false, Option, List, [], ◌∷◌, ◌≡◌, refl, sym, ap, ◌∙◌, arith,
  All, length, take, drop, is_some, is_empty, contains, Bool-cases, Option-cases, inl, inr, subst,
}
use my_coding_agent.Patch.{PatchHunkLine, PatchHunk, OperationKind, PatchOperation}
use my_coding_agent.Patch.Parser.{
  Parsed, parsed, invalid, unfinished, Section, section_of, Spelling, validate_patch_path,
  with_first, read_body, has_mutation, read_hunk_lines, read_hunk, read_hunks, added_file,
  updated_file, read_operation, then_others, read_section, read_sections, nonempty, parse_lines,
}

-- A property of what is parsed
abbrev Gives {ℓ κ} : {A : Type ℓ} → (A → Type κ) → Parsed A → Type κ
Gives P (parsed x) = P x
Gives P invalid = Unit
Gives P unfinished = Unit

abbrev IsChanging : PatchHunk → Type 0
IsChanging h = has_mutation h.lines ≡ true

abbrev IsChange : OperationKind → Type 0
IsChange (OperationKind.add body) = Unit
IsChange (OperationKind.update hunks) = (is_empty hunks ≡ false) × All IsChanging hunks
IsChange OperationKind.delete = Unit

module _ (hunk_of : String → Option (Option ℕ)) where
  abbrev GivesHunks : Parsed (List PatchHunk × List String) → Type 0
  GivesHunks r = Gives (λ (x : List PatchHunk × List String). All IsChanging x.0) r

  with_first-hunks :
      (h : PatchHunk) (r : Parsed (List PatchHunk × List String))
      → IsChanging h
      → GivesHunks r
      → GivesHunks (with_first (parsed h) r)
  with_first-hunks h invalid c g = tt
  with_first-hunks h unfinished c g = tt
  with_first-hunks h (parsed (hs, rest)) c g = (c, g)

  read_hunk-changes :
      (start : Option ℕ) (next : List String → Parsed (List PatchHunk × List String))
      (r : Parsed (List PatchHunkLine × List String))
      → ((rest : List String) → GivesHunks (next rest))
      → GivesHunks (read_hunk hunk_of start next r)
  read_hunk-changes start next invalid g = tt
  read_hunk-changes start next unfinished g = tt
  read_hunk-changes start next (parsed (ls, rest)) g = elim (Bool-cases (has_mutation ls)) [
    | inl change ↦
        rw change
          (with_first-hunks (record { lines = ls; old_start = start }) (next rest) change (g rest))
    | inr none_there ↦ rw none_there tt
  ]

  read_hunks-changes : (n : ℕ) (lines : List String) → GivesHunks (read_hunks hunk_of n lines)
  unfolding read_hunks
  read_hunks-changes zero lines = tt
  read_hunks-changes (suc n) [] = tt
  read_hunks-changes (suc n) (line ∷ lines) = elim (Bool-cases (is_some (section_of line))) [
    | inl stop ↦ rw stop tt
    | inr go ↦ elim (Option-cases (hunk_of line)) [
      | inl bad ↦ rw (go, bad) tt
      | inr (start, good) ↦
          rw (go, good)
            (read_hunk-changes start (read_hunks hunk_of n) (read_hunk_lines hunk_of lines)
              (read_hunks-changes n))
    ]
  ]

  abbrev GivesChange : String → Parsed (PatchOperation × List String) → Type 0
  GivesChange path r =
      Gives (λ (x : PatchOperation × List String). (x.0.path ≡ path) × IsChange x.0.kind) r

  added_file-changes :
      (path : String) (r : Parsed (List String × List String))
      → GivesChange path (added_file hunk_of path r)
  added_file-changes path invalid = tt
  added_file-changes path unfinished = tt
  added_file-changes path (parsed (body, rest)) = (refl, tt)

  updated_file-changes :
      (path : String) (r : Parsed (List PatchHunk × List String))
      → GivesHunks r
      → GivesChange path (updated_file hunk_of path r)
  updated_file-changes path invalid g = tt
  updated_file-changes path unfinished g = tt
  updated_file-changes path (parsed ([], rest)) g = tt
  updated_file-changes path (parsed (h ∷ hs, rest)) g = (refl, (refl, g))

  read_operation-changes :
      (n : ℕ) (kind : Section) (path : String) (lines : List String)
      → GivesChange path (read_operation hunk_of n kind path lines)
  read_operation-changes n Section.add_file path lines = added_file-changes path (read_body lines)
  read_operation-changes n Section.update_file path lines =
      updated_file-changes path (read_hunks hunk_of n lines) (read_hunks-changes n lines)
  read_operation-changes n Section.delete_file path [] = (refl, tt)
  read_operation-changes n Section.delete_file path (line ∷ lines) =
      elim (Bool-cases (is_some (section_of line))) [
        | inl stop ↦ rw stop (refl, tt)
        | inr go ↦ rw go tt
      ]

  module _ (spelling : Spelling) where
    -- An operation on a checked path
    abbrev IsChecked : String → Type 0
    IsChecked path = (raw : String) × (validate_patch_path spelling raw ≡ parsed path)

    -- Operations on paths that are not among those seen, and not among each other
    abbrev pub IsPatch : List String → List PatchOperation → Type 0
    IsPatch seen [] = Unit
    IsPatch seen (o ∷ os) =
        (contains o.path seen ≡ false)
        × IsChecked o.path
        × IsChange o.kind
        × IsPatch (o.path ∷ seen) os

    then_others-IsPatch :
        (seen : List String) (path : String) (next : List String → Parsed (List PatchOperation))
        (r : Parsed (PatchOperation × List String))
        → contains path seen ≡ false
        → IsChecked path
        → GivesChange path r
        → ((rest : List String) → Gives (IsPatch (path ∷ seen)) (next rest))
        → Gives (IsPatch seen) (then_others hunk_of next r)
    then_others-IsPatch seen path next invalid once checked g h = tt
    then_others-IsPatch seen path next unfinished once checked g h = tt
    then_others-IsPatch seen path next (parsed (o, rest)) once checked g h =
        others o (next rest) g (h rest)
      where
        others :
            (o : PatchOperation) (r : Parsed (List PatchOperation))
            → (o.path ≡ path) × IsChange o.kind
            → Gives (IsPatch (path ∷ seen)) r
            → Gives (IsPatch seen) (elim r [
              | invalid ↦ invalid
              | unfinished ↦ unfinished
              | parsed os ↦ parsed (o ∷ os)
            ])
        others o invalid g h = tt
        others o unfinished g h = tt
        others o (parsed os) g h = (
          ap (λ p. contains p seen) g.0 ∙ once,
          subst IsChecked (sym g.0) checked,
          g.1,
          subst (λ p. IsPatch (p ∷ seen) os) (sym g.0) h,
        )

    read_section-IsPatch :
        (n : ℕ) (next : String → List String → Parsed (List PatchOperation)) (seen : List String)
        (kind : Section) (raw : String) (path : Parsed String) (lines : List String)
        → validate_patch_path spelling raw ≡ path
        → ((p : String) (rest : List String) → Gives (IsPatch (p ∷ seen)) (next p rest))
        → Gives (IsPatch seen) (read_section hunk_of n next seen kind path lines)
    read_section-IsPatch n next seen kind raw invalid lines e h = tt
    read_section-IsPatch n next seen kind raw unfinished lines e h = tt
    read_section-IsPatch n next seen kind raw (parsed path) lines e h =
        elim (Bool-cases (contains path seen)) [
          | inl twice ↦ rw twice tt
          | inr once ↦ rw once (
              then_others-IsPatch seen path (next path) (read_operation hunk_of n kind path lines)
                once (raw, e) (read_operation-changes n kind path lines) (h path))
        ]

    read_sections-IsPatch :
        (n : ℕ) (seen lines : List String)
        → Gives (IsPatch seen) (read_sections hunk_of spelling n seen lines)
    unfolding read_sections
    read_sections-IsPatch zero seen lines = tt
    read_sections-IsPatch (suc n) seen [] = tt
    read_sections-IsPatch (suc n) seen (line ∷ lines) = elim (Option-cases (section_of line)) [
      | inl bad ↦ rw (bad, read_sections) tt
      | inr ((kind, raw), good) ↦
          rw (good, read_sections)
            (read_section-IsPatch n
              (λ path rest. read_sections hunk_of spelling n (path ∷ seen) rest) seen kind raw
              (validate_patch_path spelling raw) lines refl
              (λ path rest. read_sections-IsPatch n (path ∷ seen) rest))
    ]

    nonempty-IsPatch :
        (r : Parsed (List PatchOperation)) (os : List PatchOperation)
        → Gives (IsPatch []) r
        → nonempty hunk_of spelling r ≡ parsed os
        → (is_empty os ≡ false) × IsPatch [] os
    nonempty-IsPatch invalid os g h = cc
    nonempty-IsPatch unfinished os g h = cc
    nonempty-IsPatch (parsed []) os g h = cc
    nonempty-IsPatch (parsed (p ∷ ps)) os g h =
        let e : p ∷ ps ≡ os = ap operations_in h in
        subst (λ (l : List PatchOperation). (is_empty l ≡ false) × IsPatch [] l) e (refl, g)
      where
        operations_in : Parsed (List PatchOperation) → List PatchOperation
        operations_in (parsed l) = l
        operations_in invalid = []
        operations_in unfinished = []

    -- A patch that is parsed has an operation, its paths are checked and different, and each
    -- update has hunks that all change something.
    pub parse_lines-IsPatch :
        (lines : List String) (os : List PatchOperation)
        → parse_lines hunk_of spelling lines ≡ parsed os
        → (is_empty os ≡ false) × IsPatch [] os
    unfolding parse_lines
    parse_lines-IsPatch lines os h =
        nonempty-IsPatch
          (read_sections hunk_of spelling (suc (length lines - 2)) []
            (take (length lines - 2) (drop 1 lines)))
          os
          (read_sections-IsPatch (suc (length lines - 2)) []
            (take (length lines - 2) (drop 1 lines)))
          (ground (arith, h))
