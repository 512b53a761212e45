-- ===== src/Policy.antt =====
-- agent/runtime/policy.py: the classes of commands, and how one executable with its arguments is classified.
pub mod Options
pub mod Prefixes
pub mod Shell
pub mod Wrappers
pub mod Deciding
pub mod Mild
pub mod Unwrapping
pub mod Chains
pub mod Scanning
pub mod Matrix
pub mod Gate
use my_coding_agent.Base.{
  ℕ, String, Bool, true, false, not, ◌&&◌, ◌||◌, Option, none, some, List, [], ◌∷◌, map, any, all,
  contains, is_empty, str_eq, if◌then◌else◌,
}
use my_coding_agent.Base.Texts.{last_part, pieces}

pub data ExecClassification : Type 0 where
  safe_read_only test_build ordinary_sandboxed destructive network package_install privileged
        interactive complex_shell dynamic_interpreter unknown :
      ExecClassification

-- The library's operations on texts and characters: `strip`, `shlex.split` (none where it raises),
-- `lower`, `isalpha`, `isalnum` and the decimal digits of `\d`
pub record Lexer : Type 0 where
  pub strip : String → String
  pub split : String → Option (List String)
  pub lower : String → String
  pub is_alpha : ℕ → Bool
  pub is_alnum : ℕ → Bool
  pub is_decimal : ℕ → Bool

abbrev pub safe_executables : List String
safe_executables =
    "pwd" ∷ "ls" ∷ "find" ∷ "rg" ∷ "grep" ∷ "cat" ∷ "head" ∷ "tail" ∷ "stat" ∷ "file" ∷ "wc" ∷ "du"
    ∷ "git" ∷ []

abbrev pub test_executables : List String
test_executables =
    "pytest" ∷ "py.test" ∷ "tox" ∷ "nox" ∷ "ruff" ∷ "flake8" ∷ "mypy" ∷ "pyright" ∷ "black"
    ∷ "isort" ∷ "eslint" ∷ "prettier" ∷ "tsc" ∷ "vitest" ∷ "jest" ∷ "cargo" ∷ "go" ∷ "mvn"
    ∷ "gradle" ∷ "make" ∷ []

abbrev pub network_executables : List String
network_executables =
    "curl" ∷ "wget" ∷ "ssh" ∷ "scp" ∷ "sftp" ∷ "ftp" ∷ "nc" ∷ "netcat" ∷ "telnet" ∷ []

abbrev pub package_executables : List String
package_executables =
    "pip" ∷ "pip3" ∷ "pipx" ∷ "npm" ∷ "yarn" ∷ "pnpm" ∷ "apt" ∷ "apt-get" ∷ "brew" ∷ []

abbrev pub privileged_executables : List String
privileged_executables =
    "sudo" ∷ "su" ∷ "doas" ∷ "chmod" ∷ "chown" ∷ "chgrp" ∷ "mount" ∷ "umount" ∷ []

abbrev pub interactive_executables : List String
interactive_executables =
    "bash" ∷ "sh" ∷ "zsh" ∷ "fish" ∷ "ksh" ∷ "dash" ∷ "python" ∷ "python3" ∷ "ipython" ∷ "node"
    ∷ "irb" ∷ "ruby" ∷ "perl" ∷ "php" ∷ "lua" ∷ "top" ∷ "htop" ∷ "less" ∷ "more" ∷ "vim" ∷ "vi"
    ∷ "nano" ∷ []

abbrev pub destructive_executables : List String
destructive_executables =
    "rm" ∷ "rmdir" ∷ "unlink" ∷ "shred" ∷ "truncate" ∷ "mkfs" ∷ "fdisk" ∷ "dd" ∷ []

-- `any(argument in names for argument in args)`
abbrev pub some_in : List String → List String → Bool
some_in names args = any (λ argument. contains argument names) args

abbrev pub first_in : List String → List String → Bool
first_in names [] = false
first_in names (a ∷ args) = contains a names

-- `_git_is_destructive`
unfoldable pub git_is_destructive : List String → Bool
git_is_destructive [] = false
git_is_destructive (command ∷ rest) =
    let args = command ∷ rest in
    contains command ("reset" ∷ "clean" ∷ "restore" ∷ [])
    || (str_eq command "checkout" && contains "--" args)
    || (contains command ("branch" ∷ "tag" ∷ [])
        && some_in ("-d" ∷ "-D" ∷ "-f" ∷ "--delete" ∷ "--force" ∷ []) args)
    || (contains command ("stash" ∷ "worktree" ∷ [])
        && some_in ("drop" ∷ "clear" ∷ "remove" ∷ []) args)

-- `_git_is_networked`
unfoldable pub git_is_networked : List String → Bool
git_is_networked args = first_in ("clone" ∷ "fetch" ∷ "pull" ∷ "push" ∷ "submodule" ∷ []) args

-- `_git_branch_is_read_only`
unfoldable pub git_branch_is_read_only : List String → Bool
git_branch_is_read_only args =
    all
      (λ argument. contains argument (
        "-a" ∷ "--all" ∷ "-l" ∷ "--list" ∷ "-r" ∷ "--remotes" ∷ "-v" ∷ "-vv" ∷ "--verbose"
        ∷ "--contains" ∷ "--merged" ∷ "--no-merged" ∷ "--points-at" ∷ []))
      args

abbrev branch_is_read_only : List String → Bool
branch_is_read_only [] = false
branch_is_read_only (a ∷ args) = str_eq a "branch" && git_branch_is_read_only args

-- `_is_package_install`
unfoldable pub is_package_install : String → List String → Bool
is_package_install executable args =
    if contains executable ("pip" ∷ "pip3" ∷ "pipx" ∷ [])
    then some_in ("install" ∷ "uninstall" ∷ "inject" ∷ "runpip" ∷ []) args
    else if contains executable ("npm" ∷ "yarn" ∷ "pnpm" ∷ [])
    then some_in ("install" ∷ "i" ∷ "add" ∷ "remove" ∷ "uninstall" ∷ "update" ∷ []) args
    else if contains executable ("apt" ∷ "apt-get" ∷ "brew" ∷ [])
    then some_in ("install" ∷ "remove" ∷ "purge" ∷ "upgrade" ∷ "update" ∷ []) args
    else false

-- The expression of `_looks_like_test_build`, on the arguments joined by blanks: one of the words stands
-- between white space.
abbrev has_test_word : List String → Bool
has_test_word args =
    any
      (λ argument.
        some_in
          ("pytest" ∷ "unittest" ∷ "ruff" ∷ "mypy" ∷ "pyright" ∷ "npm" ∷ "yarn" ∷ "pnpm" ∷ "vitest"
            ∷ "jest" ∷ "tsc" ∷ "eslint" ∷ "build" ∷ "test" ∷ "lint" ∷ [])
          (pieces argument))
      args

-- `_looks_like_test_build`
unfoldable pub looks_like_test_build : String → List String → Bool
looks_like_test_build executable args =
    if contains executable ("python" ∷ "python3" ∷ "uv" ∷ "poetry" ∷ "pipenv" ∷ "bun" ∷ "deno" ∷ [])
    then has_test_word args
    else if contains executable ("npm" ∷ "yarn" ∷ "pnpm" ∷ [])
    then some_in ("test" ∷ "run" ∷ "build" ∷ "lint" ∷ "check" ∷ "typecheck" ∷ []) args
    else if contains executable ("cargo" ∷ "go" ∷ "mvn" ∷ "gradle" ∷ "make" ∷ [])
    then some_in ("test" ∷ "check" ∷ "build" ∷ "lint" ∷ "verify" ∷ "compile" ∷ []) args
    else false

abbrev pub git_class : List String → ExecClassification
git_class args =
    if git_is_destructive args
    then ExecClassification.destructive
    else if git_is_networked args
    then ExecClassification.network
    else if first_in ("status" ∷ "diff" ∷ "log" ∷ "show" ∷ "ls-files" ∷ "rev-parse" ∷ []) args
    then ExecClassification.safe_read_only
    else if branch_is_read_only args
    then ExecClassification.safe_read_only
    else ExecClassification.ordinary_sandboxed

abbrev package_class : String → List String → ExecClassification
package_class executable args =
    if contains executable ("npm" ∷ "yarn" ∷ "pnpm" ∷ [])
      && some_in ("test" ∷ "run" ∷ "build" ∷ "lint" ∷ "check" ∷ "typecheck" ∷ []) args
    then ExecClassification.test_build
    else if is_package_install executable args
    then ExecClassification.package_install
    else ExecClassification.ordinary_sandboxed

abbrev interactive_class : String → List String → ExecClassification
interactive_class executable args =
    if contains executable ("bash" ∷ "sh" ∷ "zsh" ∷ "fish" ∷ "ksh" ∷ "dash" ∷ [])
      && some_in ("-c" ∷ "--command" ∷ []) args
    then ExecClassification.complex_shell
    else if some_in ("-i" ∷ "--interactive" ∷ []) args || is_empty args
    then ExecClassification.interactive
    else ExecClassification.ordinary_sandboxed

-- The options that make `find` run or delete something
abbrev pub find_acts : List String → Bool
find_acts args = some_in ("-delete" ∷ "-exec" ∷ "-execdir" ∷ "-ok" ∷ "-okdir" ∷ []) args

-- `_classify_direct`, with the executable's name and the arguments in lower case
unfoldable pub direct_class : String → List String → ExecClassification
direct_class executable args =
    if contains executable destructive_executables
    then ExecClassification.destructive
    else if str_eq executable "find" && find_acts args
    then ExecClassification.destructive
    else if str_eq executable "git"
    then git_class args
    else if contains executable privileged_executables
    then ExecClassification.privileged
    else if contains executable network_executables
    then ExecClassification.network
    else if contains executable package_executables
    then package_class executable args
    else if contains executable interactive_executables
    then interactive_class executable args
    else if contains executable test_executables || looks_like_test_build executable args
    then ExecClassification.test_build
    else if contains executable safe_executables
    then ExecClassification.safe_read_only
    else if str_eq executable "eval"
    then ExecClassification.complex_shell
    else ExecClassification.ordinary_sandboxed

-- `token.rsplit("/", 1)[-1].lower()`
abbrev pub executable_of : Lexer → String → String
executable_of lexer token = lexer.lower (last_part b'/' token)

-- `_classify_direct`
unfoldable pub classify_direct : Lexer → String → List String → ExecClassification
classify_direct lexer token args = direct_class (executable_of lexer token) (map lexer.lower args)
