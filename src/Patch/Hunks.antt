-- ===== src/Patch/Hunks.antt =====
-- `_apply_hunks` of agent/tools/apply_patch.py. The line offset, which can be negative, is kept as the
-- numbers of lines that were added and removed.
use my_coding_agent.Base.{
  ℕ, zero, suc, ◌+◌, ◌-◌, String, Bool, true, false, ◌&&◌, Option, none, some, List, [], ◌∷◌, ◌++◌,
  length, take, drop, str_eq, if◌then◌else◌,
}
use Prim.Native.String.{◌++◌ as append_text}
use my_coding_agent.Patch.{PatchHunk, pattern_of, replacement_of}

abbrev pub lines_eq : List String → List String → Bool
lines_eq [] [] = true
lines_eq [] (_ ∷ _) = false
lines_eq (_ ∷ _) [] = false
lines_eq (x ∷ xs) (y ∷ ys) = str_eq x y && lines_eq xs ys

-- `_matches`, at a position that is not negative
abbrev pub matches : List String → ℕ → List String → Bool
matches lines position pattern = lines_eq (take (length pattern) (drop position lines)) pattern

-- The positions from `position` on at which the pattern matches
abbrev pub matches_from : List String → List String → ℕ → ℕ → List ℕ
matches_from lines pattern position zero = []
matches_from lines pattern position (suc count) =
    let rest = matches_from lines pattern (suc position) count in
    if matches lines position pattern then position ∷ rest else rest

pub record Editing : Type 0 where
  pub lines : List String
  pub added : ℕ
  pub removed : ℕ

abbrev pub numbered : ℕ → PatchHunk → Editing → List ℕ
numbered start h e =
    let candidate = (start + e.added) - (1 + e.removed) in
    if matches e.lines candidate (pattern_of h) then candidate ∷ [] else []

abbrev pub searched : List String → List String → List ℕ
searched lines [] = 0 ∷ []
searched lines (p ∷ ps) = matches_from lines (p ∷ ps) 0 (suc (length lines) - length (p ∷ ps))

abbrev pub candidates : PatchHunk → Editing → List ℕ
candidates h e = elim h.old_start [
  | some start ↦ numbered start h e
  | none ↦ searched e.lines (pattern_of h)
]

-- `lines[position : position + len(pattern)] = replacement`
abbrev pub splice : ℕ → PatchHunk → Editing → Editing
splice position h e =
    let after =
      take position e.lines
      ++ (replacement_of h ++ drop (position + length (pattern_of h)) e.lines) in
    elim h.old_start [
      | none ↦ record e { lines = after }
      | some start ↦ record {
        lines = after;
        added = e.added + length (replacement_of h);
        removed = e.removed + length (pattern_of h);
      }
    ]

abbrev pub spliced : List ℕ → PatchHunk → Editing → Option Editing
spliced (position ∷ []) h e = some (splice position h e)
spliced [] h e = none
spliced (_ ∷ _ ∷ _) h e = none

-- One round of the loop of `_apply_hunks`; none is the mismatch.
unfoldable pub apply_hunk : PatchHunk → Editing → Option Editing
apply_hunk h e = spliced (candidates h e) h e

unfoldable pub apply_each : List PatchHunk → Editing → Option Editing
apply_each [] e = some e
apply_each (h ∷ hs) e = elim (apply_hunk h e) [ none ↦ none | some e' ↦ apply_each hs e' ]

-- `"\n".join(lines)`
abbrev pub join : List String → String
join [] = ""
join (line ∷ []) = line
join (line ∷ l ∷ ls) = append_text line (append_text "\n" (join (l ∷ ls)))

abbrev final_text : Bool → List String → String
final_text ends_line lines =
    if ends_line && (elim lines [ [] ↦ false | _ ∷ _ ↦ true ])
    then append_text (join lines) "\n"
    else join lines

abbrev rebuilt : Bool → Option Editing → Option String
rebuilt ends_line none = none
rebuilt ends_line (some e) = some (final_text ends_line e.lines)

-- `content.endswith(("\n", "\r"))` and `content.splitlines()` are arguments.
unfoldable pub apply_hunks :
    (String → Bool) → (String → List String) → String → List PatchHunk → Option String
apply_hunks ends_line splitlines content hunks =
    rebuilt (ends_line content)
      (apply_each hunks (record { lines = splitlines content; added = 0; removed = 0 }))
