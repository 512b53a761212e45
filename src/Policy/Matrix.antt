-- ===== src/Policy/Matrix.antt =====
-- `classify_exec_command` and `CommandAwarePolicy.decide` of agent/runtime/policy.py: what is known of a command
-- that is allowed, and how the mode bounds the decisions.
use my_coding_agent.Base.{
  String, Bool, true, false, not, ◌||◌, Option, none, some, List, ◌≡◌, refl, arith, inl, inr,
  Bool-cases, if◌then◌else◌,
}
use my_coding_agent.Base.Texts.{is_blank}
use my_coding_agent.Messages.{Fields, ToolCall, get_field}
use my_coding_agent.Coordinator.{Decision, PolicyResult}
use my_coding_agent.Policy.{ExecClassification, Lexer}
use my_coding_agent.Policy.Shell.{
  contains_shell_control, is_shell_wrapper, classify_split, classify_exec_command, most_wrappers,
}
use my_coding_agent.Policy.Deciding.{
  ApprovalMode, decide_class, approved_or_denied, class_of, command_of, policy_result, reason_code,
  wants_tty, decide_command, decide_arguments, decide, is_command_tool,
}
use my_coding_agent.Policy.Mild.{is_mild}
use my_coding_agent.Policy.Chains.{EndsHarmless, classify_tokens-EndsHarmless}

-- A command that runs one executable, which is not dangerous, without an operator of the shell
abbrev pub IsPlainCommand : Lexer → String → Type 0
IsPlainCommand lexer command =
    (is_blank command ≡ false)
    × (contains_shell_control (lexer.strip command) ≡ false)
    × (is_shell_wrapper (lexer.strip command) ≡ false)
    × (tokens : List String) × (lexer.split (lexer.strip command) ≡ some tokens)
    × EndsHarmless lexer tokens

false_of_or : (a b : Bool) → (a || b) ≡ false → (a ≡ false) × (b ≡ false)
false_of_or true b h = ground arith
false_of_or false b h = (refl, h)

classify_split-EndsHarmless :
    (lexer : Lexer) (o : Option (List String))
    → is_mild (classify_split lexer o) ≡ true
    → (tokens : List String) × (o ≡ some tokens) × EndsHarmless lexer tokens
classify_split-EndsHarmless lexer none h = refused h
  where
    refused :
        false ≡ true → (tokens : List String) × (none ≡ some tokens) × EndsHarmless lexer tokens
    refused k = cc
classify_split-EndsHarmless lexer (some tokens) h =
    (tokens, refl, classify_tokens-EndsHarmless lexer most_wrappers tokens h)

-- A command with a mild class is plain.
pub classify_exec_command-IsPlainCommand :
    (lexer : Lexer) (command : String)
    → is_mild (classify_exec_command lexer command) ≡ true
    → IsPlainCommand lexer command
unfolding classify_exec_command
classify_exec_command-IsPlainCommand lexer command h = elim (Bool-cases (is_blank command)) [
  | inl blank ↦ refused (rw blank at h)
  | inr full ↦
      elim (Bool-cases
        (contains_shell_control (lexer.strip command) || is_shell_wrapper (lexer.strip command))) [
          | inl shell ↦ refused (rw (full, shell) at h)
          | inr plain ↦
              let (control, wrapper) = false_of_or _ _ plain in
              let (tokens, split, ends) =
                classify_split-EndsHarmless lexer (lexer.split (lexer.strip command))
                  (rw (full, plain) at h) in
              (full, control, wrapper, tokens, split, ends)
        ]
]
  where
    refused : false ≡ true → IsPlainCommand lexer command
    refused k = cc

abbrev pub allows : PolicyResult → Bool
allows result = elim result.decision [ Decision.allow ↦ true | _ ↦ false ]

abbrev pub needs_approval : PolicyResult → Bool
needs_approval result = elim result.decision [ Decision.require_approval ↦ true | _ ↦ false ]

-- What needs an approval is not allowed.
unallowed :
    (mode : ApprovalMode) (code : String) (b : Bool)
    → allows (approved_or_denied mode code) ≡ true
    → b ≡ true
unallowed ApprovalMode.untrusted code b h = ground arith
unallowed ApprovalMode.on_request code b h = ground arith
unallowed ApprovalMode.never code b h = ground arith

-- In each mode, the classes that are allowed
decide_class-allows :
    (mode : ApprovalMode) (class : ExecClassification)
    → allows (decide_class mode class) ≡ true
    → is_mild class ≡ true
unfolding decide_class
decide_class-allows mode ExecClassification.safe_read_only h = refl
decide_class-allows mode ExecClassification.test_build h = refl
decide_class-allows mode ExecClassification.ordinary_sandboxed h = refl
decide_class-allows mode ExecClassification.privileged h = h
decide_class-allows mode ExecClassification.destructive h =
    unallowed mode (reason_code ExecClassification.destructive) false h
decide_class-allows mode ExecClassification.network h =
    unallowed mode (reason_code ExecClassification.network) false h
decide_class-allows mode ExecClassification.package_install h =
    unallowed mode (reason_code ExecClassification.package_install) false h
decide_class-allows mode ExecClassification.interactive h =
    unallowed mode (reason_code ExecClassification.interactive) false h
decide_class-allows mode ExecClassification.complex_shell h =
    unallowed mode (reason_code ExecClassification.complex_shell) false h
decide_class-allows mode ExecClassification.dynamic_interpreter h =
    unallowed mode (reason_code ExecClassification.dynamic_interpreter) false h
decide_class-allows mode ExecClassification.unknown h =
    unallowed mode (reason_code ExecClassification.unknown) false h

-- An allowed command has a mild class, and no terminal.
class_of-is_mild :
    (lexer : Lexer) (command : String) (tty : Bool)
    → is_mild (class_of lexer command tty) ≡ true
    → (tty ≡ false) × IsPlainCommand lexer command
class_of-is_mild lexer command true h = refused h
  where
    refused : false ≡ true → (true ≡ false) × IsPlainCommand lexer command
    refused k = cc
class_of-is_mild lexer command false h =
    (refl, classify_exec_command-IsPlainCommand lexer command h)

-- Whatever the mode, a call of a command tool with valid arguments and a command that is not blank
-- is allowed without approval only if it asks for no terminal, the scan finds no shell operator in
-- it, and its chain of wrappers, each taking its target from its own arguments, comes down to an
-- executable that, with its arguments, neither deletes nor takes rights nor goes to the network by
-- the policy's own lists.
pub decide-IsPlainCommand :
    (lexer : Lexer) (mode : ApprovalMode) (call : ToolCall) (fields : Fields) (command : String)
    → is_command_tool call.name ≡ true
    → call.arguments_error ≡ none
    → call.arguments ≡ some fields
    → command_of (get_field "command" fields) ≡ some command
    → allows (decide lexer mode call) ≡ true
    → (wants_tty (get_field "tty" fields) ≡ false) × IsPlainCommand lexer command
unfolding decide
decide-IsPlainCommand lexer mode call fields command named valid given full h =
    class_of-is_mild lexer command (wants_tty (get_field "tty" fields)) (
      decide_class-allows mode (class_of lexer command (wants_tty (get_field "tty" fields))) (
        parts (is_command_tool call.name) call.arguments_error call.arguments
          (policy_result Decision.allow "NON_COMMAND_TOOL" "non-command tool allowed") named valid
          given h))
  where
    parts :
        (b : Bool) (e : Option String) (a : Option Fields) (other : PolicyResult)
        → b ≡ true
        → e ≡ none
        → a ≡ some fields
        → allows (if not b then other else decide_arguments lexer mode e a) ≡ true
        → allows (decide_class mode (class_of lexer command (wants_tty (get_field "tty" fields))))
          ≡ true
    parts b e a other hb he ha k = rw (hb, he, ha, full) at k

never_needs-approved_or_denied :
    (code : String) → needs_approval (approved_or_denied ApprovalMode.never code) ≡ false
never_needs-approved_or_denied code = refl

never_needs-decide_class :
    (class : ExecClassification) → needs_approval (decide_class ApprovalMode.never class) ≡ false
unfolding decide_class
never_needs-decide_class ExecClassification.safe_read_only = refl
never_needs-decide_class ExecClassification.test_build = refl
never_needs-decide_class ExecClassification.ordinary_sandboxed = refl
never_needs-decide_class ExecClassification.destructive = refl
never_needs-decide_class ExecClassification.network = refl
never_needs-decide_class ExecClassification.package_install = refl
never_needs-decide_class ExecClassification.privileged = refl
never_needs-decide_class ExecClassification.interactive = refl
never_needs-decide_class ExecClassification.complex_shell = refl
never_needs-decide_class ExecClassification.dynamic_interpreter = refl
never_needs-decide_class ExecClassification.unknown = refl

-- In the mode `never` no call is sent for approval.
pub never_needs-decide :
    (lexer : Lexer) (call : ToolCall)
    → needs_approval (decide lexer ApprovalMode.never call) ≡ false
unfolding decide
never_needs-decide lexer call = tool (is_command_tool call.name) call.arguments_error call.arguments
  where
    run :
        (fields : Fields) (o : Option String)
        → needs_approval (decide_command lexer ApprovalMode.never fields o) ≡ false
    run fields none = refl
    run fields (some command) =
        never_needs-decide_class (class_of lexer command (wants_tty (get_field "tty" fields)))

    tool :
        (b : Bool) (e : Option String) (a : Option Fields)
        → needs_approval (
            if not b
            then policy_result Decision.allow "NON_COMMAND_TOOL" "non-command tool allowed"
            else decide_arguments lexer ApprovalMode.never e a)
          ≡ false
    tool false e a = refl
    tool true (some error) a = refl
    tool true none none = refl
    tool true none (some fields) = run fields (command_of (get_field "command" fields))
