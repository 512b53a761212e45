-- ===== src/Tests/Policy.antt =====
-- Commands that the policy classifies, read by a lexer that splits a text at its blanks.
use my_coding_agent.Base.{
  arith, ◌⊎◌, ◌≡◌, refl, String, true, false, ◌&&◌, ◌||◌, none, some, leb, filter, not,
}
use my_coding_agent.Base.Texts.{pieces, is_empty_text, is_blank}
use my_coding_agent.Messages.{Json, Fields, ToolCall, get_field}
use my_coding_agent.Policy.{
  ExecClassification, Lexer, classify_direct, direct_class, git_branch_is_read_only,
  git_is_destructive, git_is_networked, is_package_install, looks_like_test_build,
}
use my_coding_agent.Policy.Wrappers.{
  classify_tokens, plan_of, wrapper_target, classify_script_interpreter, python_plan,
}
use my_coding_agent.Policy.Shell.{
  contains_shell_control, classify_exec_command, scan, is_shell_wrapper,
}
use my_coding_agent.Policy.Deciding.{ApprovalMode, decide, wants_tty, decide_class}
use my_coding_agent.Policy.Scanning.{has_control, contains_shell_control_lem}
use my_coding_agent.Policy.Options.{
  read_options, command_round, exec_round, is_nice_adjustment, nice_round,
}
use my_coding_agent.Policy.Prefixes.{
  timeout_round, is_timeout_duration, env_round, is_env_assignment, is_stdbuf_mode,
  is_timeout_signal, stdbuf_round, xargs_round,
}
use my_coding_agent.Coordinator.{Decision, Parts, approved, denied, execute_one, run_tool}
use my_coding_agent.Tests.Turn.{parts, at, turn}
use my_coding_agent.Policy.Gate.{starts, execute_one-IsPlainCommand}
use my_coding_agent.Policy.Matrix.{IsPlainCommand, allows, needs_approval}

abbrev lexer : Lexer
lexer = record {
  strip = λ s. s;
  split = λ s. some (filter (λ word. not (is_empty_text word)) (pieces s));
  lower = λ s. s;
  is_alpha = λ c. (leb 65 c && leb c 90) || (leb 97 c && leb c 122);
  is_alnum = λ c. (leb 65 c && leb c 90) || (leb 97 c && leb c 122) || (leb b'0' c && leb c b'9');
  is_decimal = λ c. leb b'0' c && leb c b'9';
}

abbrev command : String
command = "timeout 5 env CI=1 pytest"

abbrev fields : Fields
fields = Fields.field "command" (Json.text command) Fields.end

abbrev call : ToolCall
call = record {
  id = "c1";
  name = "run_command";
  arguments = some fields;
  arguments_error = none;
  raw_arguments = none;
}

allowed : allows (decide lexer ApprovalMode.on_request call) ≡ true
unfolding decide is_blank decide_class classify_exec_command contains_shell_control scan
    is_shell_wrapper classify_tokens pieces plan_of wrapper_target read_options timeout_round
    is_timeout_duration env_round is_env_assignment classify_direct command_round exec_round
    is_nice_adjustment is_stdbuf_mode is_timeout_signal nice_round stdbuf_round xargs_round
    classify_script_interpreter python_plan direct_class git_branch_is_read_only git_is_destructive
    git_is_networked is_package_install looks_like_test_build
allowed = refl

untrusted_lem : needs_approval (decide lexer ApprovalMode.untrusted call) ≡ true
unfolding decide is_blank decide_class classify_exec_command contains_shell_control scan
    is_shell_wrapper classify_tokens pieces plan_of wrapper_target read_options timeout_round
    is_timeout_duration env_round is_env_assignment classify_direct command_round exec_round
    is_nice_adjustment is_stdbuf_mode is_timeout_signal nice_round stdbuf_round xargs_round
    classify_script_interpreter python_plan direct_class git_branch_is_read_only git_is_destructive
    git_is_networked is_package_install looks_like_test_build
untrusted_lem = refl

removal : classify_exec_command lexer "nice env CI=1 rm x" ≡ ExecClassification.destructive
unfolding decide is_blank decide_class classify_exec_command contains_shell_control scan
    is_shell_wrapper classify_tokens pieces plan_of wrapper_target read_options timeout_round
    is_timeout_duration env_round is_env_assignment classify_direct command_round exec_round
    is_nice_adjustment is_stdbuf_mode is_timeout_signal nice_round stdbuf_round xargs_round
    classify_script_interpreter python_plan direct_class git_branch_is_read_only git_is_destructive
    git_is_networked is_package_install looks_like_test_build
removal = refl

-- Two commands, of which the first is left in the background
background : classify_exec_command lexer "ls & rm -rf x" ≡ ExecClassification.safe_read_only
unfolding decide is_blank decide_class classify_exec_command contains_shell_control scan
    is_shell_wrapper classify_tokens pieces plan_of wrapper_target read_options timeout_round
    is_timeout_duration env_round is_env_assignment classify_direct command_round exec_round
    is_nice_adjustment is_stdbuf_mode is_timeout_signal nice_round stdbuf_round xargs_round
    classify_script_interpreter python_plan direct_class git_branch_is_read_only git_is_destructive
    git_is_networked is_package_install looks_like_test_build
background = refl

-- Options in front of the subcommand
git_options : classify_exec_command lexer "git -C . push" ≡ ExecClassification.ordinary_sandboxed
unfolding decide is_blank decide_class classify_exec_command contains_shell_control scan
    is_shell_wrapper classify_tokens pieces plan_of wrapper_target read_options timeout_round
    is_timeout_duration env_round is_env_assignment classify_direct command_round exec_round
    is_nice_adjustment is_stdbuf_mode is_timeout_signal nice_round stdbuf_round xargs_round
    classify_script_interpreter python_plan direct_class git_branch_is_read_only git_is_destructive
    git_is_networked is_package_install looks_like_test_build
git_options = refl

-- The policy in the coordinator; nobody grants anything.
abbrev gate : Parts
gate = record parts { decide = decide lexer ApprovalMode.on_request }

decision_lem : (decide lexer ApprovalMode.on_request call).decision ≡ Decision.allow
unfolding decide is_blank decide_class classify_exec_command contains_shell_control scan
    is_shell_wrapper classify_tokens pieces plan_of wrapper_target read_options timeout_round
    is_timeout_duration env_round is_env_assignment classify_direct command_round exec_round
    is_nice_adjustment is_stdbuf_mode is_timeout_signal nice_round stdbuf_round xargs_round
    classify_script_interpreter python_plan direct_class git_branch_is_read_only git_is_destructive
    git_is_networked is_package_install looks_like_test_build
decision_lem = refl

started_lem : starts (execute_one gate (at 1 denied) call turn).0.emissions ≡ 1
unfolding execute_one run_tool
started_lem = rw decision_lem refl

execute_one-IsPlainCommand_example :
    ((wants_tty (get_field "tty" fields) ≡ false) × IsPlainCommand lexer command)
    ⊎ (denied ≡ approved)
unfolding decide is_blank decide_class classify_exec_command contains_shell_control scan
    is_shell_wrapper classify_tokens pieces plan_of wrapper_target read_options timeout_round
    is_timeout_duration env_round is_env_assignment classify_direct command_round exec_round
    is_nice_adjustment is_stdbuf_mode is_timeout_signal nice_round stdbuf_round xargs_round
    classify_script_interpreter python_plan direct_class git_branch_is_read_only git_is_destructive
    git_is_networked is_package_install looks_like_test_build
execute_one-IsPlainCommand_example =
    execute_one-IsPlainCommand lexer ApprovalMode.on_request gate (at 1 denied) call turn fields
      command refl refl refl refl refl (λ e. absurd (ground (arith, started_lem, e)))

contains_shell_control_lem_example :
    (contains_shell_control "ls && rm" ≡ has_control "ls && rm")
    × (contains_shell_control "'a; b' | c" ≡ contains_shell_control " | c")
unfolding decide is_blank decide_class classify_exec_command contains_shell_control scan
    is_shell_wrapper classify_tokens pieces plan_of wrapper_target read_options timeout_round
    is_timeout_duration env_round is_env_assignment classify_direct command_round exec_round
    is_nice_adjustment is_stdbuf_mode is_timeout_signal nice_round stdbuf_round xargs_round
    classify_script_interpreter python_plan direct_class git_branch_is_read_only git_is_destructive
    git_is_networked is_package_install looks_like_test_build
contains_shell_control_lem_example = contains_shell_control_lem "ls && rm" "a; b" " | c" refl refl
