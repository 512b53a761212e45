-- ===== src/Policy/Wrappers.antt =====
-- `_classify_tokens` of agent/runtime/policy.py: the wrappers that it takes off a command. The depth, which
-- the source bounds by four, is fuel.
use my_coding_agent.Base.{
  ℕ, zero, suc, String, Bool, ◌||◌, Option, none, some, List, [], ◌∷◌, map, any, contains, str_eq,
  if◌then◌else◌,
}
use Prim.Native.String.{◌++◌ as append_text}
use my_coding_agent.Base.Texts.{starts_with}
use my_coding_agent.Policy.{ExecClassification, Lexer, classify_direct, executable_of}
use my_coding_agent.Policy.Options.{
  read_options, or_none, longer_than, command_round, exec_round, nice_round,
}
use my_coding_agent.Policy.Prefixes.{
  timeout_round, stdbuf_round, env_round, xargs_round, is_timeout_duration,
}

-- How a round of `_classify_tokens` goes on: with the tokens of a target, or with a class
pub data Plan : Type 0 where
  unwrap : List String → Plan
  verdict : ExecClassification → Plan

abbrev pub without_marker : List String → List String
without_marker [] = []
without_marker (t ∷ ts) = if str_eq t "--" then ts else t ∷ ts

-- `_nohup_target`
abbrev pub nohup_target : List String → Option (List String)
nohup_target [] = none
nohup_target (t ∷ ts) =
    if str_eq t "--" then or_none (some ts) else if starts_with "-" t then none else some (t ∷ ts)

abbrev pub target_or_unknown : Option (List String) → Plan
target_or_unknown none = Plan.verdict ExecClassification.unknown
target_or_unknown (some target) = Plan.unwrap target

abbrev pub is_inline : String → Bool
is_inline argument =
    contains argument ("-c" ∷ "--command" ∷ [])
    || starts_with "-c" argument
    || starts_with "--command=" argument

-- `_DYNAMIC_INTERPRETER_FLAGS`, the short ones and the long ones
abbrev pub dynamic_flags : String → List String × List String
dynamic_flags executable =
    if str_eq executable "node"
    then ("-e" ∷ "-p" ∷ [], "--eval" ∷ "--print" ∷ [])
    else if str_eq executable "ruby"
    then ("-e" ∷ [], "--eval" ∷ [])
    else if str_eq executable "perl"
    then ("-e" ∷ [], "--execute" ∷ "--eval" ∷ [])
    else ("-r" ∷ [], "--run" ∷ "--process-code" ∷ [])

abbrev pub is_dynamic : List String × List String → String → Bool
is_dynamic (short, long) token =
    contains token short
    || contains token long
    || any (λ flag. longer_than flag token) short
    || any (λ flag. longer_than (append_text flag "=") token) long

-- `_timeout_target`, behind its options: the duration and the command
abbrev pub timeout_rest : Lexer → List String → Option (List String)
timeout_rest lexer [] = none
timeout_rest lexer (d ∷ []) = none
timeout_rest lexer (d ∷ t ∷ ts) =
    if is_timeout_duration lexer d then or_none (some (without_marker (t ∷ ts))) else none

abbrev pub timeout_target : Lexer → Option (List String) → Option (List String)
timeout_target lexer none = none
timeout_target lexer (some rest) = timeout_rest lexer rest

module _ (lexer : Lexer) where
  abbrev pub module_plan : List String → Plan
  module_plan [] = Plan.verdict ExecClassification.unknown
  module_plan (m ∷ rest) =
      let name = lexer.lower m in
      if contains name ("pip" ∷ "pip3" ∷ "pipx" ∷ "npm" ∷ "yarn" ∷ "pnpm" ∷ [])
      then Plan.unwrap (name ∷ rest)
      else if contains name (
          "pytest" ∷ "py.test" ∷ "tox" ∷ "nox" ∷ "ruff" ∷ "flake8" ∷ "mypy" ∷ "pyright" ∷ "unittest"
          ∷ [])
      then Plan.verdict ExecClassification.test_build
      else Plan.verdict ExecClassification.ordinary_sandboxed

  -- What stands behind the first `-m`
  abbrev pub behind_module_flag : List String → Option (List String)
  behind_module_flag [] = none
  behind_module_flag (a ∷ args) =
      let rest = behind_module_flag args in if str_eq (lexer.lower a) "-m" then some args else rest

  abbrev pub run_module : String → List String → Option (List String) → Plan
  run_module token args none = Plan.verdict (classify_direct lexer token args)
  run_module token args (some rest) = module_plan rest

  -- `_classify_python`
  unfoldable pub python_plan : String → List String → Plan
  python_plan token args =
      if any is_inline (map lexer.lower args) || contains "-" (map lexer.lower args)
      then Plan.verdict ExecClassification.dynamic_interpreter
      else run_module token args (behind_module_flag args)

  -- `_classify_script_interpreter`
  unfoldable pub classify_script_interpreter : String → List String → ExecClassification
  classify_script_interpreter token args =
      if any (is_dynamic (dynamic_flags (executable_of lexer token))) args
      then ExecClassification.dynamic_interpreter
      else classify_direct lexer token args

  -- `_transparent_wrapper_target`, with `_env_target` and `_xargs_target`; none is another executable.
  unfoldable pub wrapper_target : String → List String → Option (Option (List String))
  wrapper_target executable args =
      if str_eq executable "env"
      then some (or_none (read_options (env_round lexer) args))
      else if str_eq executable "command"
      then some (or_none (read_options command_round args))
      else if str_eq executable "exec"
      then some (or_none (read_options exec_round args))
      else if str_eq executable "nice"
      then some (or_none (read_options (nice_round lexer) args))
      else if str_eq executable "timeout"
      then some (timeout_target lexer (read_options (timeout_round lexer) args))
      else if str_eq executable "nohup"
      then some (nohup_target args)
      else if str_eq executable "stdbuf"
      then some (or_none (read_options (stdbuf_round lexer) args))
      else if str_eq executable "xargs"
      then some (or_none (read_options xargs_round args))
      else none

  abbrev pub plain_plan : String → String → List String → Plan
  plain_plan executable token args =
      if contains executable ("python" ∷ "python3" ∷ [])
      then python_plan token args
      else if contains executable ("node" ∷ "ruby" ∷ "perl" ∷ "php" ∷ [])
      then Plan.verdict (classify_script_interpreter token args)
      else Plan.verdict (classify_direct lexer token args)

  abbrev pub plan_with : String → String → List String → Option (Option (List String)) → Plan
  plan_with executable token args none = plain_plan executable token args
  plan_with executable token args (some target) = target_or_unknown target

  -- One round of `_classify_tokens`
  unfoldable pub plan_of : String → List String → Plan
  plan_of token args =
      let executable = executable_of lexer token in
      plan_with executable token args (wrapper_target executable args)

  unfoldable pub classify_tokens : ℕ → List String → ExecClassification
  classify_tokens zero tokens = ExecClassification.unknown
  classify_tokens (suc n) [] = ExecClassification.unknown
  classify_tokens (suc n) (token ∷ args) = elim (plan_of token args) [
    | Plan.verdict class ↦ class
    | Plan.unwrap target ↦ classify_tokens n target
  ]
