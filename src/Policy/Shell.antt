-- ===== src/Policy/Shell.antt =====
-- `classify_exec_command` of agent/runtime/policy.py: the scan for shell operators, and the whole command.
use Prim.Native.Char.{code}
use Prim.Native.String.{String as Text}
use my_coding_agent.Base.{
  ℕ, String, Bool, true, false, not, ◌&&◌, ◌||◌, Option, none, some, List, ◌==◌, if◌then◌else◌,
}
use my_coding_agent.Base.Texts.{is_blank, is_space, strip_prefix}
use my_coding_agent.Policy.{ExecClassification, Lexer}
use my_coding_agent.Policy.Wrappers.{classify_tokens}

-- The next character is `c`.
abbrev pub next_is : ℕ → String → Bool
next_is c Text.[] = false
next_is c (Text.◌∷◌ d s) = code d == c

-- ";|<>", "&&" and "||"
abbrev pub is_operator : ℕ → String → Bool
is_operator c s =
    (c == b';') || (c == b'|') || (c == b'<') || (c == b'>') || ((c == b'&') && next_is b'&' s)

-- What ends the scan, outside an escape
abbrev pub is_control : Bool → Bool → ℕ → String → Bool
is_control single double c s =
    not single
    && ((c == b'`') || ((c == b'$') && next_is b'(' s) || (not double && is_operator c s))

-- `_contains_shell_control`, from a state of its three flags
unfoldable pub scan : Bool → Bool → Bool → String → Bool
scan single double escaped Text.[] = false
scan single double escaped (Text.◌∷◌ c s) =
    let read = code c in
    let rest =
      scan (if not escaped && (read == b'\'') && not double then not single else single)
        (if not escaped && (read == b'"') && not single then not double else double)
        (not escaped && (read == 92) && not single) s in
    (not escaped && is_control single double read s) || rest

unfoldable pub contains_shell_control : String → Bool
contains_shell_control source = scan false false false source

-- `\s+-c(?:\s|$)` behind the name of a shell
abbrev skip_space : String → String
skip_space Text.[] = Text.[]
skip_space (Text.◌∷◌ c s) =
    let rest = skip_space s in if is_space (code c) then rest else Text.◌∷◌ c s

abbrev first_is_space : String → Bool
first_is_space Text.[] = false
first_is_space (Text.◌∷◌ c s) = is_space (code c)

abbrev ends_word : String → Bool
ends_word Text.[] = true
ends_word (Text.◌∷◌ c s) = is_space (code c)

abbrev runs_text : Option String → Bool
runs_text none = false
runs_text (some rest) =
    first_is_space rest
    && (elim (strip_prefix "-c" (skip_space rest)) [ none ↦ false | some r ↦ ends_word r ])

-- `_SHELL_WRAPPER_RE`
unfoldable pub is_shell_wrapper : String → Bool
is_shell_wrapper source =
    runs_text (strip_prefix "bash" source)
    || runs_text (strip_prefix "sh" source)
    || runs_text (strip_prefix "zsh" source)

abbrev pub most_wrappers : ℕ
most_wrappers = 5

abbrev pub classify_split : Lexer → Option (List String) → ExecClassification
classify_split lexer none = ExecClassification.unknown
classify_split lexer (some tokens) = classify_tokens lexer most_wrappers tokens

unfoldable pub classify_exec_command : Lexer → String → ExecClassification
classify_exec_command lexer command =
    let source = lexer.strip command in
    if is_blank command
    then ExecClassification.unknown
    else if contains_shell_control source || is_shell_wrapper source
    then ExecClassification.complex_shell
    else classify_split lexer (lexer.split source)
