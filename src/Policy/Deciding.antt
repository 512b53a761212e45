-- ===== src/Policy/Deciding.antt =====
-- `CommandAwarePolicy.decide` of agent/runtime/policy.py, and the sandbox profile of its result.
use Prim.Native.String.{◌++◌ as append_text}
use my_coding_agent.Base.{
  String, Bool, true, false, not, ◌||◌, Option, none, some, [], ◌∷◌, contains, str_eq, ◌==◌,
  if◌then◌else◌,
}
use my_coding_agent.Base.Texts.{is_blank, is_empty_text, starts_with}
use my_coding_agent.Messages.{Json, Items, Fields, ToolCall, get_field}
use my_coding_agent.Coordinator.{Decision, PolicyResult}
use my_coding_agent.Policy.{ExecClassification, Lexer}
use my_coding_agent.Policy.Shell.{classify_exec_command}

pub data ApprovalMode : Type 0 where
  untrusted on_request never : ApprovalMode

abbrev pub is_never : ApprovalMode → Bool
is_never ApprovalMode.never = true
is_never _ = false

abbrev pub is_untrusted : ApprovalMode → Bool
is_untrusted ApprovalMode.untrusted = true
is_untrusted _ = false

-- `_reason_code`
abbrev pub reason_code : ExecClassification → String
reason_code ExecClassification.safe_read_only = "SAFE_READ_ONLY"
reason_code ExecClassification.test_build = "TEST_BUILD"
reason_code ExecClassification.ordinary_sandboxed = "ORDINARY_SANDBOXED"
reason_code ExecClassification.destructive = "DESTRUCTIVE_COMMAND"
reason_code ExecClassification.network = "NETWORK_COMMAND"
reason_code ExecClassification.package_install = "PACKAGE_INSTALL"
reason_code ExecClassification.privileged = "PRIVILEGED_COMMAND"
reason_code ExecClassification.interactive = "INTERACTIVE_COMMAND"
reason_code ExecClassification.complex_shell = "COMPLEX_SHELL"
reason_code ExecClassification.dynamic_interpreter = "DYNAMIC_INTERPRETER"
reason_code ExecClassification.unknown = "UNKNOWN_COMMAND"

-- `_profile_for_reason`
abbrev pub profile_for_reason : String → String
profile_for_reason code =
    if starts_with "SAFE_READ_ONLY" code || str_eq code "NON_COMMAND_TOOL"
    then "read_only"
    else if contains code ("NETWORK_COMMAND" ∷ "PACKAGE_INSTALL" ∷ [])
    then "workspace_write_network"
    else "workspace_write"

-- `PolicyResult` without a profile of its own
abbrev pub policy_result : Decision → String → String → PolicyResult
policy_result decision code message = record {
  decision = decision;
  reason_code = code;
  message = message;
  profile = profile_for_reason code;
}

abbrev pub approved_or_denied : ApprovalMode → String → PolicyResult
approved_or_denied mode code =
    if is_never mode
    then policy_result Decision.deny (append_text code "_NEVER")
        "commands requiring approval are disabled by approval mode"
    else policy_result Decision.require_approval code "command requires approval"

-- The matrix of `decide`, by class
unfoldable pub decide_class : ApprovalMode → ExecClassification → PolicyResult
decide_class mode ExecClassification.safe_read_only =
    policy_result Decision.allow "SAFE_READ_ONLY" "read-only command allowed"
decide_class mode ExecClassification.test_build =
    if is_untrusted mode
    then policy_result Decision.require_approval "TEST_BUILD"
        "command requires approval in untrusted mode"
    else policy_result Decision.allow "TEST_BUILD" "sandboxed command allowed"
decide_class mode ExecClassification.ordinary_sandboxed =
    if is_untrusted mode
    then policy_result Decision.require_approval "ORDINARY_SANDBOXED"
        "command requires approval in untrusted mode"
    else policy_result Decision.allow "ORDINARY_SANDBOXED" "sandboxed command allowed"
decide_class mode ExecClassification.privileged =
    policy_result Decision.deny "PRIVILEGED_COMMAND_UNSUPPORTED"
      "privileged capabilities are unavailable in the sandbox"
decide_class mode ExecClassification.destructive =
    approved_or_denied mode (reason_code ExecClassification.destructive)
decide_class mode ExecClassification.network =
    approved_or_denied mode (reason_code ExecClassification.network)
decide_class mode ExecClassification.package_install =
    approved_or_denied mode (reason_code ExecClassification.package_install)
decide_class mode ExecClassification.interactive =
    approved_or_denied mode (reason_code ExecClassification.interactive)
decide_class mode ExecClassification.complex_shell =
    approved_or_denied mode (reason_code ExecClassification.complex_shell)
decide_class mode ExecClassification.dynamic_interpreter =
    approved_or_denied mode (reason_code ExecClassification.dynamic_interpreter)
decide_class mode ExecClassification.unknown =
    approved_or_denied mode (reason_code ExecClassification.unknown)

-- `bool(value)`
abbrev is_truthy : Json → Bool
is_truthy Json.null = false
is_truthy (Json.boolean b) = b
is_truthy (Json.integer n) = not (n == 0)
is_truthy (Json.negative n) = true
is_truthy (Json.float s) = not (contains s ("0.0" ∷ "-0.0" ∷ []))
is_truthy (Json.text s) = not (is_empty_text s)
is_truthy (Json.array Items.nil) = false
is_truthy (Json.array (Items.cons _ _)) = true
is_truthy (Json.object Fields.end) = false
is_truthy (Json.object (Fields.field _ _ _)) = true

abbrev pub wants_tty : Option Json → Bool
wants_tty none = false
wants_tty (some value) = is_truthy value

abbrev pub invalid_result : PolicyResult
invalid_result =
    policy_result Decision.allow "INVALID_ARGUMENTS"
      "invalid command arguments are handled by the tool registry"

abbrev pub class_of : Lexer → String → Bool → ExecClassification
class_of lexer command tty =
    if tty then ExecClassification.interactive else classify_exec_command lexer command

-- The command, where it is a text that is not blank
abbrev pub command_of : Option Json → Option String
command_of (some (Json.text command)) = if is_blank command then none else some command
command_of _ = none

abbrev pub decide_command : Lexer → ApprovalMode → Fields → Option String → PolicyResult
decide_command lexer mode fields none = invalid_result
decide_command lexer mode fields (some command) =
    decide_class mode (class_of lexer command (wants_tty (get_field "tty" fields)))

abbrev pub decide_arguments : Lexer → ApprovalMode → Option String → Option Fields → PolicyResult
decide_arguments lexer mode (some error) fields = invalid_result
decide_arguments lexer mode none none = invalid_result
decide_arguments lexer mode none (some fields) =
    decide_command lexer mode fields (command_of (get_field "command" fields))

abbrev pub is_command_tool : String → Bool
is_command_tool name = contains name ("run_command" ∷ "exec_command" ∷ [])

-- `decide`
unfoldable pub decide : Lexer → ApprovalMode → ToolCall → PolicyResult
decide lexer mode call =
    if not (is_command_tool call.name)
    then policy_result Decision.allow "NON_COMMAND_TOOL" "non-command tool allowed"
    else decide_arguments lexer mode call.arguments_error call.arguments
